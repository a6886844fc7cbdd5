-- ===== src/Migrate/Runs.antt =====
-- What a migration makes of the database: a run over the files in their order, each script as a
-- whole and together with its version, that may stop behind any of them.
use mathlib.Core.Path.{subst}
use goprofile.Prelude.{
  ◌≡◌, inl, inr, refl, sym, ap, ◌∙◌, Bool, true, false, Bytes, text, List, [], ◌∷◌, ◌++◌, arith,
  if◌then◌else◌,
}
use goprofile.Prelude.Int.{ℤ}
use goprofile.Result.{Result, ok, err, Exec, lift, naming, named_error, follow, ◌>>=◌, ◌>>◌}
use goprofile.Migrate.{Files, Contents, Store, call, version_of, recorded, apply_file, apply_names}
use goprofile.Migrate.Calls.{Applied, Ends, call-quiet, naming-call_ok, apply_file-Ends}

module _ {Schema : Type 0} (exec_sql : Bytes → Schema → Result Schema) (files : Files) where
  pub data Run : List Bytes → Contents Schema → Contents Schema → Type 0 where
    stopped : {names : List Bytes} {d : Contents Schema} → Run names d d
    -- The version was there.
    skipped :
        {name : Bytes} {names : List Bytes} {d d' : Contents Schema} (v : ℤ)
        → version_of name ≡ ok v
        → recorded v d.versions ≡ ok true
        → Run names d d'
        → Run (name ∷ names) d d'
    applied :
        {name : Bytes} {names : List Bytes} {d d₁ d' : Contents Schema} (v : ℤ) (sql : Bytes)
        → version_of name ≡ ok v
        → recorded v d.versions ≡ ok false
        → files.read_file name ≡ ok sql
        → Applied exec_sql v sql d d₁
        → Run names d₁ d'
        → Run (name ∷ names) d d'

  module _ (name : Bytes) (rest : Exec (Store Schema) (Unit {0})) (v : ℤ) where
    -- Where the version is not recorded.
    abbrev pub unrecorded : Exec (Store Schema) (Unit {0})
    unrecorded = lift (named_error (text "read " ++ name) (files.read_file name)) >>= λ sql.
        apply_file exec_sql name v sql >> rest

    abbrev pub checking : Exec (Store Schema) Bool
    checking = naming (text "check migration") (call (λ d. (recorded v d.versions, d)))

  module _ (name : Bytes) (names : List Bytes) (rest : Exec (Store Schema) (Unit {0}))
      (rest-Run : (s : Store Schema) → Run names s.contents (rest s).1.contents) (v : ℤ)
      (numbered : version_of name ≡ ok v) where
    applied-Run :
        (sql : Bytes) (d : Contents Schema) (r : Result (Unit {0}) × Store Schema)
        → recorded v d.versions ≡ ok false
        → files.read_file name ≡ ok sql
        → Ends exec_sql name v sql d r
        → Run (name ∷ names) d (follow r.0 (λ _. rest) r.1).1.contents
    applied-Run sql d (ok _, s) new read (inl (kept, (e, failed))) = absurd (ground arith)
    applied-Run sql d (ok _, s) new read (inr done) =
        applied v sql numbered new read done (rest-Run s)
    applied-Run sql d (err e, s) new read (inl (kept, _)) =
        subst (Run (name ∷ names) d) (sym kept) stopped
    applied-Run sql d (err e, s) new read (inr done) = applied v sql numbered new read done stopped

    read-Run :
        (r : Result Bytes) (s : Store Schema)
        → recorded v s.contents.versions ≡ ok false
        → files.read_file name ≡ r
        → Run
            (name ∷ names)
            s.contents
            (follow
              (named_error (text "read " ++ name) r)
              (λ sql. apply_file exec_sql name v sql >> rest)
              s).1.contents
    read-Run (ok sql) s new read =
        applied-Run sql s.contents (apply_file exec_sql name v sql s) new read
          (apply_file-Ends exec_sql name v sql s)
    read-Run (err e) s new read = stopped

    checked-Run :
        (d : Contents Schema) (r : Result Bool × Store Schema)
        → r.1.contents ≡ d
        → ((b : Bool) (s : Store Schema) → r ≡ (ok b, s) → recorded v d.versions ≡ ok b)
        → Run
            (name ∷ names)
            d
            (follow r.0 (λ exists. if exists then rest else unrecorded name rest v) r.1).1.contents
    checked-Run d (ok true, s) same answer =
        skipped v numbered (answer true s refl)
          (subst (λ d. Run names d (rest s).1.contents) same (rest-Run s))
    checked-Run d (ok false, s) same answer =
        subst (λ d. Run (name ∷ names) d (unrecorded name rest v s).1.contents) same
          (read-Run (files.read_file name) s
            (ap (λ d. recorded v d.versions) same ∙ answer false s refl) refl)
    checked-Run d (err e, s) same answer = subst (Run (name ∷ names) d) (sym same) stopped

    numbered-Run :
        (s : Store Schema)
        → Run
            (name ∷ names)
            s.contents
            ((checking name rest v >>= λ exists. if exists then rest else unrecorded name rest v)
              s).1.contents
    numbered-Run s =
        checked-Run s.contents (checking name rest v s)
          (call-quiet (λ d. (recorded v d.versions, d)) s (λ d. refl))
          (λ b s' h.
            ap (λ r. r.0)
              (naming-call_ok (text "check migration") (λ d. (recorded v d.versions, d)) s s' b h))

  version-Run :
      (name : Bytes) (names : List Bytes) (rest : Exec (Store Schema) (Unit {0}))
      → ((s : Store Schema) → Run names s.contents (rest s).1.contents)
      → (r : Result ℤ) (s : Store Schema) → version_of name ≡ r
      → Run
          (name ∷ names)
          s.contents
          (follow r
            (λ v.
              checking name rest v >>= λ exists. if exists then rest else unrecorded name rest v)
            s).1.contents
  version-Run name names rest rest-Run (ok v) s h = numbered-Run name names rest rest-Run v h s
  version-Run name names rest rest-Run (err e) s h = stopped

  pub apply_names-Run :
      (names : List Bytes) (s : Store Schema)
      → Run names s.contents (apply_names exec_sql files names s).1.contents
  unfolding apply_names
  apply_names-Run [] s = stopped
  apply_names-Run (name ∷ names) s =
      version-Run name names (apply_names exec_sql files names) (apply_names-Run names)
        (version_of name) s refl
