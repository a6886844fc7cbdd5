-- ===== src/Migrate/Settled.antt =====
-- A migration that succeeded has recorded the version of every file.
use mathlib.Core.Path.{subst}
use goprofile.Prelude.{
  ◌≡◌, ◌≢◌, inl, inr, sym, ap, ◌∙◌, Bool, true, false, Bytes, text, List, [], ◌∷◌, ◌++◌,
  Option-cases, arith, if◌then◌else◌,
}
use goprofile.Prelude.Int.{ℤ}
use goprofile.Domain.Errors.{Err}
use goprofile.Result.{Result, ok, err, Exec, lift, naming, named_error, ◌>>=◌, ◌>>◌}
use goprofile.Result.Laws.{bind-ok}
use goprofile.Migrate.{
  Entry, Files, Contents, Store, call, hold, with_table, version_of, recorded, apply_file,
  apply_names, sorted_names, migrate, up,
}
use goprofile.Migrate.Calls.{naming-call_ok, apply_file-Ends}
use goprofile.Migrate.Runs.{unrecorded, checking, apply_names-Run}
use goprofile.Migrate.Laws.{locking, unlocking, listing, hold-quiet}
use goprofile.Migrate.Versions.{recorded-inserted, recorded-Run, HasTable, HasTable-Run, IsSettled}

ok≢err : {A : Type 0} {a : A} {e : Err} → ok a ≢ err e
ok≢err h = ground arith

named_error-ok : {A : Type 0} (m : Bytes) (r : Result A) (a : A) → named_error m r ≡ ok a → r ≡ ok a
named_error-ok m (ok b) a h = h
named_error-ok m (err e) a h = absurd (ground arith)

lift-ok :
    {S A : Type 0} (r : Result A) (s s' : S) (a : A) → lift r s ≡ (ok a, s') → (r ≡ ok a) × (s ≡ s')
lift-ok r s s' a h = (ap (λ p. p.0) h, ap (λ p. p.1) h)

module _ {Schema : Type 0} (exec_sql : Bytes → Schema → Result Schema) (files : Files) where
  -- A transaction that worked has recorded its version.
  apply_file-recorded :
      (name : Bytes) (v : ℤ) (sql : Bytes) (s s' : Store Schema)
      → apply_file exec_sql name v sql s ≡ (ok tt, s')
      → recorded v s'.contents.versions ≡ ok true
  apply_file-recorded name v sql s s' h = elim (apply_file-Ends exec_sql name v sql s) [
    | inl (_, (e, failed)) ↦ absurd (ok≢err (sym (ap (λ r. r.0) h) ∙ failed))
    | inr done ↦
        ap (λ r. recorded v r.1.contents.versions) (sym h) ∙ recorded-inserted v _ _ done.added
  ]

  continued :
      (v : ℤ) (names : List Bytes) (s s' : Store Schema)
      → recorded v s.contents.versions ≡ ok true
      → apply_names exec_sql files names s ≡ (ok tt, s')
      → recorded v s'.contents.versions ≡ ok true
  continued v names s s' there h =
      ap (λ r. recorded v r.1.contents.versions) (sym h)
      ∙ recorded-Run v (apply_names-Run exec_sql files names s) there

  module _ (name : Bytes) (names : List Bytes) (v : ℤ) where
    abbrev rest : Exec (Store Schema) (Unit {0})
    rest = apply_names exec_sql files names

    abbrev otherwise : Exec (Store Schema) (Unit {0})
    otherwise = unrecorded exec_sql files name rest v

    -- From behind the query on, up to the remaining files.
    queried-ok :
        (exists : Bool) (s s' : Store Schema)
        → recorded v s.contents.versions ≡ ok exists
        → (if exists then rest else otherwise) s ≡ (ok tt, s')
        → (s₁ : Store Schema) × (recorded v s₁.contents.versions ≡ ok true)
          × (rest s₁ ≡ (ok tt, s'))
    queried-ok true s s' there h = (s, there, h)
    queried-ok false s s' new h =
        let (sql, s₁, _, q) =
          bind-ok (lift (named_error (text "read " ++ name) (files.read_file name)))
            (λ sql. apply_file exec_sql name v sql >> rest) s s' tt h in
        let (_, s₂, p, r) = bind-ok (apply_file exec_sql name v sql) (λ _. rest) s₁ s' tt q in
        (s₂, apply_file-recorded name v sql s₁ s₂ p, r)

    checked-ok :
        (s s' : Store Schema)
        → (checking exec_sql files name rest v >>= λ exists. if exists then rest else otherwise) s
          ≡ (ok tt, s')
        → (s₁ : Store Schema) × (recorded v s₁.contents.versions ≡ ok true)
          × (rest s₁ ≡ (ok tt, s'))
    checked-ok s s' h =
        let (exists, s₁, p, q) =
          bind-ok (checking exec_sql files name rest v)
            (λ exists. if exists then rest else otherwise) s s' tt h in
        let answer =
          naming-call_ok (text "check migration") (λ d. (recorded v d.versions, d)) s s₁ exists p in
        queried-ok exists s₁ s'
          (ap (λ d. recorded v d.versions) (sym (ap (λ r. r.1) answer)) ∙ ap (λ r. r.0) answer) q

  apply_names-IsSettled :
      (names : List Bytes) (s s' : Store Schema)
      → apply_names exec_sql files names s ≡ (ok tt, s')
      → IsSettled s'.contents names
  unfolding apply_names
  apply_names-IsSettled [] s s' h = tt
  apply_names-IsSettled (name ∷ names) s s' h =
      let (v, s₁, p, q) =
        bind-ok (lift (version_of name))
          (λ v. checking exec_sql files name (apply_names exec_sql files names) v >>= λ exists.
            if exists then apply_names exec_sql files names else otherwise name names v)
          s s' tt h in
      let (s₂, there, r) = checked-ok name names v s₁ s' q in
      ((v, ap (λ r. r.0) p, continued v names s₂ s' there r), apply_names-IsSettled names s₂ s' r)

  -- What a migration leaves that has come to its end.
  abbrev pub IsMigrated : Contents Schema → Type 0
  IsMigrated d =
      (entries : List Entry) × (files.read_dir ≡ ok entries)
      × IsSettled d (sorted_names entries)
      × HasTable d

  with_table-HasTable : (d : Contents Schema) → HasTable (with_table d)
  with_table-HasTable d = elim (Option-cases d.versions) [
    | inl missing ↦ ([], rw missing)
    | inr (vs, there) ↦ (vs, rw there)
  ]

  migrate-IsMigrated :
      (s s' : Store Schema) → migrate exec_sql files s ≡ (ok tt, s') → IsMigrated s'.contents
  unfolding migrate
  migrate-IsMigrated s s' h =
      let create = text "create schema_migrations" in
      let (_, s₁, p, q) =
        bind-ok (naming create (call {A = Unit {0}} (λ d. (ok tt, with_table d))))
          (λ _. listing exec_sql files) s s' tt h in
      let made = ap (λ r. r.1) (naming-call_ok create (λ d. (ok tt, with_table d)) s s₁ tt p) in
      let (entries, s₂, r, t) =
        bind-ok (lift (named_error (text "read migrations") files.read_dir))
          (λ entries. apply_names exec_sql files (sorted_names entries)) s₁ s' tt q in
      let names = sorted_names entries in
      let made₂ = made ∙ ap (λ r. r.1.contents) r in
      (
        entries,
        named_error-ok (text "read migrations") files.read_dir entries (ap (λ r. r.0) r),
        apply_names-IsSettled names s₂ s' t,
        subst (λ (r : Result (Unit {0}) × Store Schema). HasTable r.1.contents) t
            (HasTable-Run (apply_names-Run exec_sql files names s₂)
              (subst HasTable made₂ (with_table-HasTable s.contents))),
      )

  -- A migration that succeeds has recorded the version of each .sql file.
  pub up-IsMigrated :
      (s s' : Store Schema) → up exec_sql files s ≡ (ok tt, s') → IsMigrated s'.contents
  unfolding up
  up-IsMigrated s s' h =
      let (_, s₁, _, h₁) =
        bind-ok (naming (text "acquire conn") (call {A = Unit {0}} (λ d. (ok tt, d))))
          (λ _. locking exec_sql files) s s' tt h in
      let (_, s₂, _, h₂) =
        bind-ok (naming (text "advisory lock") (hold true)) (λ _. unlocking exec_sql files) s₁ s' tt
          h₁ in
      let done = migrate exec_sql files s₂ in
      let same = sym (hold-quiet false done.1) ∙ ap (λ r. r.1.contents) h₂ in
      subst IsMigrated same
        (migrate-IsMigrated s₂ done.1 (ap (λ r. (r, done.1)) (ap (λ r. r.0) h₂)))
