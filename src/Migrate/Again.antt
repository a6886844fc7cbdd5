-- ===== src/Migrate/Again.antt =====
-- A migration behind one that succeeded changes nothing.
use goprofile.Prelude.{
  ◌≡◌, inl, inr, refl, sym, ap, ◌∙◌, Bool, true, false, Bytes, text, List, [], ◌∷◌, arith,
  if◌then◌else◌,
}
use goprofile.Result.{Result, ok, err, Exec, naming, follow}
use goprofile.World.{Turn}
use goprofile.Migrate.{
  Files, Contents, Store, call, hold, with_table, recorded, apply_names, sorted_names, migrate, up,
}
use goprofile.Migrate.Calls.{call-cases, call-quiet, naming-call_ok}
use goprofile.Migrate.Runs.{unrecorded, checking}
use goprofile.Migrate.Laws.{locking, unlocking, listing, hold-quiet}
use goprofile.Migrate.Settled.{IsMigrated, up-IsMigrated}
use goprofile.Migrate.Versions.{HasTable, IsSettled}

module _ {Schema : Type 0} (exec_sql : Bytes → Schema → Result Schema) (files : Files) where
  follow-quiet :
      {A B : Type 0} (d : Contents Schema) (r : Result A × Store Schema)
      (k : A → Exec (Store Schema) B)
      → r.1.contents ≡ d
      → ((a : A) (s : Store Schema) → r ≡ (ok a, s) → s.contents ≡ d → (k a s).1.contents ≡ d)
      → (follow r.0 k r.1).1.contents ≡ d
  follow-quiet d (ok a, s) k same keeps = keeps a s refl same
  follow-quiet d (err e, s) k same keeps = same

  queried-quiet :
      (names : List Bytes) (otherwise : Exec (Store Schema) (Unit {0})) (d : Contents Schema)
      (exists : Bool) (s : Store Schema) {o : Result Bool}
      → o ≡ ok exists
      → o ≡ ok true
      → s.contents ≡ d
      → (apply_names exec_sql files names s).1.contents ≡ d
      → ((if exists then apply_names exec_sql files names else otherwise) s).1.contents ≡ d
  queried-quiet names otherwise d true s answer there same keeps = keeps
  queried-quiet names otherwise d false s answer there same keeps = absurd (ground arith)

  -- Where the versions are all recorded, no script runs, whatever calls fail.
  apply_names-quiet :
      (names : List Bytes) (d : Contents Schema) (s : Store Schema)
      → IsSettled d names
      → s.contents ≡ d
      → (apply_names exec_sql files names s).1.contents ≡ d
  unfolding apply_names
  apply_names-quiet [] d s h same = same
  apply_names-quiet (name ∷ names) d s ((v, numbered, there), h) same = rw numbered (
      let remaining = apply_names exec_sql files names in
      let query = λ (d : Contents Schema). recorded v d.versions in
      follow-quiet d (checking exec_sql files name remaining v s)
        (λ exists. if exists then remaining else unrecorded exec_sql files name remaining v)
        (call-quiet (λ d. (query d, d)) s (λ d. refl) ∙ same)
        (λ exists s' p same'.
          queried-quiet names (unrecorded exec_sql files name remaining v) d exists s'
            (sym (ap query same)
              ∙ ap (λ r. r.0)
                  (naming-call_ok (text "check migration") (λ d. (query d, d)) s s' exists p))
            there same' (apply_names-quiet names d s' h same')))

  with_table-same : (d : Contents Schema) → HasTable d → with_table d ≡ d
  with_table-same d (vs, there) = ap (λ o. record d { versions = o }) (rw there)

  create-quiet :
      (d : Contents Schema) (s : Store Schema)
      → HasTable d
      → s.contents ≡ d
      → (call {A = Unit {0}} (λ d. (ok tt, with_table d)) s).1.contents ≡ d
  create-quiet d s table same = elim (call-cases {A = Unit {0}} (λ d. (ok tt, with_table d)) s) [
    | inl (kept, _) ↦ kept ∙ same
    | inr (there, _) ↦ there ∙ ap with_table same ∙ with_table-same d table
  ]

  listing-quiet :
      (d : Contents Schema) (s : Store Schema)
      → IsMigrated exec_sql files d
      → s.contents ≡ d
      → (listing exec_sql files s).1.contents ≡ d
  unfolding apply_names
  listing-quiet d s (entries, read, settled, _) same =
      rw read (apply_names-quiet (sorted_names entries) d s settled same)

  migrate-quiet :
      (d : Contents Schema) (s : Store Schema)
      → IsMigrated exec_sql files d
      → s.contents ≡ d
      → (migrate exec_sql files s).1.contents ≡ d
  unfolding migrate
  migrate-quiet d s m same =
      follow-quiet d
        (naming (text "create schema_migrations") (call {A = Unit {0}} (λ d. (ok tt, with_table d)))
          s)
        (λ _. listing exec_sql files) (create-quiet d s m.3 same)
        (λ _ s₁ _ same₁. listing-quiet d s₁ m same₁)

  unlocking-quiet :
      (d : Contents Schema) (s : Store Schema)
      → IsMigrated exec_sql files d
      → s.contents ≡ d
      → (unlocking exec_sql files s).1.contents ≡ d
  unlocking-quiet d s m same =
      hold-quiet false (migrate exec_sql files s).1 ∙ migrate-quiet d s m same

  -- Once a migration has succeeded, another one changes nothing, whatever calls fail or lose their
  -- replies.
  pub up_again :
      (s s' : Store Schema) (turns : List Turn)
      → up exec_sql files s ≡ (ok tt, s')
      → (up exec_sql files (record s' { turns = turns })).1.contents ≡ s'.contents
  unfolding up
  up_again s s' turns h =
      let m = up-IsMigrated exec_sql files s s' h in
      let again = record s' { turns = turns } in
      follow-quiet s'.contents
        (naming (text "acquire conn") (call {A = Unit {0}} (λ d. (ok tt, d))) again)
        (λ _. locking exec_sql files) (call-quiet (λ d. (ok tt, d)) again (λ d. refl))
        (λ _ s₁ _ same₁.
          follow-quiet s'.contents (naming (text "advisory lock") (hold true) s₁)
            (λ _. unlocking exec_sql files) (hold-quiet true s₁ ∙ same₁)
            (λ _ s₂ _ same₂. unlocking-quiet s'.contents s₂ m same₂))
