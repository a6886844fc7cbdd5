-- ===== src/Services/Process/Outcome.antt =====
-- How the processing of a claimed avatar ends, over any implementation of the interfaces.
use goprofile.Prelude.{ℕ, ◌≡◌, refl, inl, inr, ◌⊎◌, ◌∷◌, Bytes, [], some, text_beq, text_eq}
use goprofile.Result.{Result, ok, err}
use goprofile.Result.Laws.{Result-cases, Exec-cases}
use goprofile.Domain.Errors.{Err}
use goprofile.Domain.Avatar.{Uuid, map_set, size_100, size_300, thumbnail_object_key}
use goprofile.Image.{Info, inspect, make_thumbnail, format_from_mime, ext_for_mime}
use goprofile.Services.Deps.{AvatarService}
use goprofile.Services.Process.{store_thumbnail, store_thumbnails, process_image, process_claimed}

module _ {S Image : Type 0} (service : AvatarService S Image) (id : Uuid) (avatar_id : Bytes) where
  open service use {repo, objects, library}

  module _ (bytes : Bytes) (info : Info) where
    -- The thumbnail of the size was made of the image, and put under the key in the state `s`.
    pub record Puts (size : Bytes) (width height : ℕ) (key : Bytes) (s s' : S) : Type 0 where
      pub body : Bytes
      pub mime : Bytes
      pub made :
          make_thumbnail library.codec bytes width height (format_from_mime info.mime)
          ≡ ok (body, mime)
      pub named : key ≡ thumbnail_object_key avatar_id size (ext_for_mime mime)
      pub put : objects.upload key mime body s ≡ (ok tt, s')

    -- The thumbnail could not be made, or could not be put.
    pub data Stops (size : Bytes) (width height : ℕ) (e : Err) (s : S) : S → Type 0 where
      unmade :
          make_thumbnail library.codec bytes width height (format_from_mime info.mime) ≡ err e
          → Stops size width height e s s
      unput :
          {s' : S} (body mime : Bytes)
          → make_thumbnail library.codec bytes width height (format_from_mime info.mime)
            ≡ ok (body, mime)
          → objects.upload (thumbnail_object_key avatar_id size (ext_for_mime mime)) mime body s
            ≡ (err e, s')
          → Stops size width height e s s'

    -- The calls behind the download of a readable image, in their order, with their results.
    pub data Finishes (s : S) : Result (Unit {0}) → S → Type 0 where
      no_small :
          (e : Err) (t : S)
          → Stops size_100 100 100 e s t
          → Finishes s (err e) (repo.fail_processing id t).1
      no_large :
          (small : Bytes) (e : Err) (t t' : S)
          → Puts size_100 100 100 small s t
          → Stops size_300 300 300 e t t'
          → Finishes s (err e) (repo.fail_processing id t').1
      completes :
          {r : Result (Unit {0})} {s' : S} (small large : Bytes) (t t' : S)
          → Puts size_100 100 100 small s t
          → Puts size_300 300 300 large t t'
          → repo.complete_processing id
              (some ((size_100, small) ∷ (size_300, large) ∷ []))
              info.width
              info.height
              t'
            ≡ (r, s')
          → Finishes s r s'

  -- The calls of the processing, from the state `s`.
  pub data Ends (s3_key : Bytes) (s : S) : Result (Unit {0}) → S → Type 0 where
    not_fetched :
        (e : Err) (t : S)
        → objects.download s3_key s ≡ (err e, t)
        → Ends s3_key s (err e) (repo.fail_processing id t).1
    unreadable :
        (bytes kind : Bytes) (e : Err) (t : S)
        → objects.download s3_key s ≡ (ok (bytes, kind), t)
        → inspect library.codec bytes ≡ err e
        → Ends s3_key s (ok tt) (repo.fail_processing id t).1
    readable :
        {r : Result (Unit {0})} {s' : S} (bytes kind : Bytes) (info : Info) (t : S)
        → objects.download s3_key s ≡ (ok (bytes, kind), t)
        → inspect library.codec bytes ≡ ok info
        → Finishes bytes info t r s'
        → Ends s3_key s r s'

  module _ (bytes : Bytes) (info : Info) where
    -- One round of the loop: the row is marked as failed behind an error.
    abbrev Rounds : Bytes → ℕ → ℕ → S → Result Bytes × S → Type 0
    Rounds size width height s p =
        ((e : Err) × (t : S) × (p ≡ (err e, (repo.fail_processing id t).1))
          × Stops bytes info size width height e s t)
        ⊎ ((key : Bytes) × (t : S) × (p ≡ (ok key, t)) × Puts bytes info size width height key s t)

    store_thumbnail-Rounds :
        (size : Bytes) (width height : ℕ) (s : S)
        → Rounds size width height s
            (store_thumbnail service id avatar_id bytes info (size, width, height) s)
    unfolding store_thumbnail
    store_thumbnail-Rounds size width height s =
        elim (Result-cases
          (make_thumbnail library.codec bytes width height (format_from_mime info.mime))) [
            | inr (e, broken) ↦ inl (e, s, rw broken refl, unmade broken)
            | inl ((body, mime), made) ↦
                let key = thumbnail_object_key avatar_id size (ext_for_mime mime) in
                elim (Exec-cases (objects.upload key mime body) s) [
                  | inr (e, t, put) ↦ inl (e, t, rw (made, put) refl, unput body mime made put)
                  | inl (u, t, put) ↦ inr (
                    key,
                    t,
                    rw (made, put) refl,
                    record { body = body; mime = mime; made = made; named = refl; put = put },
                  )
                ]
          ]

    abbrev FinishesOf : S → Result (Unit {0}) × S → Type 0
    FinishesOf s (r, s') = Finishes bytes info s r s'

    process_image-Finishes :
        (s : S) → FinishesOf s (process_image service id avatar_id bytes (ok info) s)
    unfolding store_thumbnails map_set text_beq
    process_image-Finishes s = elim (store_thumbnail-Rounds size_100 100 100 s) [
      | inl (e, t, small, stops) ↦ rw small (no_small e t stops)
      | inr (k, t, small, puts) ↦ elim (store_thumbnail-Rounds size_300 300 300 t) [
        | inl (e, t', large, stops) ↦ rw (small, large) (no_large k e t t' puts stops)
        | inr (k', t', large, puts') ↦ rw (small, large) (completes k k' t t' puts puts' refl)
      ]
    ]

  abbrev pub EndsOf : Bytes → S → Result (Unit {0}) × S → Type 0
  EndsOf s3_key s (r, s') = Ends s3_key s r s'

  -- However its calls end, the processing of a claimed avatar makes them in this order, each in the
  -- state that the one before left, and returns one of these results. A download that fails, a
  -- thumbnail that cannot be made, or one that cannot be put is followed by `FailProcessing` and
  -- its error; an image that cannot be read by `FailProcessing` and no error. Otherwise both
  -- thumbnails are put, the smaller one first, and `CompleteProcessing` with the keys of both gives
  -- the result.
  pub process_claimed-Ends :
      (s3_key : Bytes) (s : S) → EndsOf s3_key s (process_claimed service id avatar_id s3_key s)
  unfolding process_claimed
  process_claimed-Ends s3_key s = elim (Exec-cases (objects.download s3_key) s) [
    | inr (e, t, got) ↦ rw got (not_fetched e t got)
    | inl ((bytes, kind), t, got) ↦ elim (Result-cases (inspect library.codec bytes)) [
      | inr (e, bad) ↦ rw (got, bad) (unreadable bytes kind e t got bad)
      | inl (info, good) ↦
          rw (got, good) (readable bytes kind info t got good (process_image-Finishes bytes info t))
    ]
  ]
