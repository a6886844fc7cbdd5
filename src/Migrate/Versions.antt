-- ===== src/Migrate/Versions.antt =====
-- The recorded versions: what is recorded stays so.
use goprofile.Prelude.{
  ◌≡◌, inl, inr, ap, ◌∙◌, Bool-cases, true, Bytes, List, [], ◌∷◌, ◌++◌, Option, none, some, any,
  All, arith,
}
use goprofile.Prelude.Int.{ℤ, pos, negsuc}
use goprofile.Result.{Result, ok}
use goprofile.Migrate.{Files, Contents, version_of, recorded, insert_version, same_int, is_int4}
use goprofile.Migrate.Runs.{Run, stopped, skipped, applied}

same_int_refl : (v : ℤ) → same_int v v ≡ true
same_int_refl (pos n) = ground arith
same_int_refl (negsuc n) = ground arith

any-append :
    (w v : ℤ) (vs : List ℤ) → any (same_int w) vs ≡ true → any (same_int w) (vs ++ v ∷ []) ≡ true
unfolding any
any-append w v [] h = ground arith
any-append w v (x ∷ vs) h = ground (arith, any-append w v vs)

any-appended : (v : ℤ) (vs : List ℤ) → any (same_int v) (vs ++ v ∷ []) ≡ true
unfolding any
any-appended v [] = rw (same_int_refl v)
any-appended v (x ∷ vs) = ground (arith, any-appended v vs)

-- The answers of the two statements, with the range check and the search as they came out.
insert_version-some :
    (v : ℤ) (vs : List ℤ) (o' : Option (List ℤ))
    → insert_version v (some vs) ≡ ok o'
    → (is_int4 v ≡ true) × (o' ≡ some (vs ++ v ∷ []))
insert_version-some v vs o' k = elim (Bool-cases (is_int4 v)) [
  | inl fits ↦ elim (Bool-cases (any (same_int v) vs)) [
    | inl there ↦ absurd (ground arith)
    | inr new ↦ (fits, ground arith)
  ]
  | inr large ↦ absurd (ground arith)
]

recorded-true :
    (w : ℤ) (vs : List ℤ)
    → recorded w (some vs) ≡ ok true
    → (is_int4 w ≡ true) × (any (same_int w) vs ≡ true)
recorded-true w vs h = elim (Bool-cases (is_int4 w)) [
  | inl fits ↦ (fits, ground arith)
  | inr large ↦ absurd (ground arith)
]

recorded-found :
    (w : ℤ) (vs : List ℤ)
    → is_int4 w ≡ true
    → any (same_int w) vs ≡ true
    → recorded w (some vs) ≡ ok true
recorded-found w vs fits there = rw (fits, there)

recorded-kept :
    (w v : ℤ) (o o' : Option (List ℤ))
    → recorded w o ≡ ok true
    → insert_version v o ≡ ok o'
    → recorded w o' ≡ ok true
recorded-kept w v none o' h k = ground arith
recorded-kept w v (some vs) o' h k =
    let (fits, there) = recorded-true w vs h in
    let (_, same) = insert_version-some v vs o' k in
    ap (recorded w) same ∙ recorded-found w (vs ++ v ∷ []) fits (any-append w v vs there)

pub recorded-inserted :
    (v : ℤ) (o o' : Option (List ℤ)) → insert_version v o ≡ ok o' → recorded v o' ≡ ok true
recorded-inserted v none o' k = ground arith
recorded-inserted v (some vs) o' k =
    let (fits, same) = insert_version-some v vs o' k in
    ap (recorded v) same ∙ recorded-found v (vs ++ v ∷ []) fits (any-appended v vs)

-- The table of the versions is there.
abbrev pub HasTable : {Schema : Type 0} → Contents Schema → Type 0
HasTable d = (vs : List ℤ) × (d.versions ≡ some vs)

insert_version-HasTable :
    (v : ℤ) (o o' : Option (List ℤ)) → insert_version v o ≡ ok o' → (vs : List ℤ) × (o' ≡ some vs)
insert_version-HasTable v none o' k = absurd (ground arith)
insert_version-HasTable v (some vs) o' k = (vs ++ v ∷ [], (insert_version-some v vs o' k).1)

module _ {Schema : Type 0} {exec_sql : Bytes → Schema → Result Schema} {files : Files} where
  -- What was recorded before a run is recorded behind it.
  pub recorded-Run :
      (w : ℤ) {names : List Bytes} {d d' : Contents Schema}
      → Run exec_sql files names d d'
      → recorded w d.versions ≡ ok true
      → recorded w d'.versions ≡ ok true
  recorded-Run w stopped h = h
  recorded-Run w (skipped v _ _ run) h = recorded-Run w run h
  recorded-Run w (applied v sql _ _ _ a run) h =
      recorded-Run w run (recorded-kept w v _ _ h a.added)

  pub HasTable-Run :
      {names : List Bytes} {d d' : Contents Schema}
      → Run exec_sql files names d d'
      → HasTable d
      → HasTable d'
  HasTable-Run stopped h = h
  HasTable-Run (skipped v _ _ run) h = HasTable-Run run h
  HasTable-Run (applied v sql _ _ _ a run) h =
      HasTable-Run run (insert_version-HasTable v _ _ a.added)

-- The version of every file is recorded.
module _ {Schema : Type 0} where
  abbrev pub IsSettled : Contents Schema → List Bytes → Type 0
  IsSettled d names =
      All (λ name. (v : ℤ) × (version_of name ≡ ok v) × (recorded v d.versions ≡ ok true)) names
