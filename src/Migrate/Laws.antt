-- ===== src/Migrate/Laws.antt =====
-- What `Up` leaves in the database, wherever it fails, and what it does again.
use mathlib.Core.Path.{subst}
use goprofile.Prelude.{
  ◌≡◌, ◌⊎◌, inl, inr, refl, sym, Bool, true, false, Bytes, text, List, [], arith,
}
use goprofile.Result.{Result, ok, err, Exec, lift, naming, named_error, follow, ◌>>=◌, ◌>>◌}
use goprofile.World.{take_turn}
use goprofile.Repository.Tx.Laws.{Outcome-cases}
use goprofile.Migrate.{
  Entry, Files, Contents, Store, call, hold, with_table, apply_names, sorted_names, migrate, up,
}
use goprofile.Migrate.Calls.{call-cases, call-quiet}
use goprofile.Migrate.Runs.{Run, stopped, apply_names-Run}

-- The files to apply, in their order.
abbrev pub found_names : Result (List Entry) → List Bytes
found_names (ok entries) = sorted_names entries
found_names (err e) = []

pub hold-quiet :
    {Schema : Type 0} (on : Bool) (s : Store Schema) → (hold on s).1.contents ≡ s.contents
hold-quiet on s = elim (Outcome-cases (take_turn s.turns).0.outcome) [
  | inl worked ↦ ground arith
  | inr (inl broke) ↦ ground arith
  | inr (inr lost) ↦ ground arith
]

module _ {Schema : Type 0} (exec_sql : Bytes → Schema → Result Schema) (files : Files) where
  -- What is left of the contents `d`: `schema_migrations` may have been created, and then a run over
  -- the files, in the order of their names, may have come to any point of it.
  abbrev pub IsLeft : Contents Schema → Contents Schema → Type 0
  IsLeft d d' =
      (d₀ : Contents Schema) × ((d₀ ≡ d) ⊎ (d₀ ≡ with_table d))
      × Run exec_sql files (found_names files.read_dir) d₀ d'

  follow-IsLeft :
      {A B : Type 0} (d : Contents Schema) (r : Result A × Store Schema)
      (rest : A → Exec (Store Schema) B)
      → r.1.contents ≡ d
      → ((a : A) (s : Store Schema) → IsLeft s.contents (rest a s).1.contents)
      → IsLeft d (follow r.0 rest r.1).1.contents
  follow-IsLeft d (ok a, s) rest same k = subst (λ d. IsLeft d (rest a s).1.contents) same (k a s)
  follow-IsLeft d (err e, s) rest same k = subst (IsLeft d) (sym same) (d, inl refl, stopped)

  abbrev pub listing : Exec (Store Schema) (Unit {0})
  listing = lift (named_error (text "read migrations") files.read_dir) >>= λ entries.
      apply_names exec_sql files (sorted_names entries)

  listed-Run :
      (r : Result (List Entry)) (s : Store Schema)
      → Run exec_sql files
          (found_names r)
          s.contents
          (follow
            (named_error (text "read migrations") r)
            (λ entries. apply_names exec_sql files (sorted_names entries))
            s).1.contents
  listed-Run (ok entries) s = apply_names-Run exec_sql files (sorted_names entries) s
  listed-Run (err e) s = stopped

  created-IsLeft :
      (d : Contents Schema) (r : Result (Unit {0}) × Store Schema)
      → ((r.1.contents ≡ d) ⊎ (r.1.contents ≡ with_table d))
      → IsLeft d (follow r.0 (λ _. listing) r.1).1.contents
  created-IsLeft d (ok _, s) at = (s.contents, at, listed-Run files.read_dir s)
  created-IsLeft d (err e, s) at = (s.contents, at, stopped)

  migrate-IsLeft : (s : Store Schema) → IsLeft s.contents (migrate exec_sql files s).1.contents
  unfolding migrate
  migrate-IsLeft s =
      created-IsLeft s.contents
        (naming (text "create schema_migrations") (call {A = Unit {0}} (λ d. (ok tt, with_table d)))
          s)
        (elim (call-cases {A = Unit {0}} (λ d. (ok tt, with_table d)) s) [
          | inl (kept, _) ↦ inl kept
          | inr (there, _) ↦ inr there
        ])

  abbrev pub unlocking : Exec (Store Schema) (Unit {0})
  unlocking s = let (r, s') = migrate exec_sql files s in (r, (hold false s').1)

  abbrev pub locking : Exec (Store Schema) (Unit {0})
  locking = naming (text "advisory lock") (hold true) >> unlocking

  unlocking-IsLeft : (s : Store Schema) → IsLeft s.contents (unlocking s).1.contents
  unlocking-IsLeft s =
      subst (IsLeft s.contents) (sym (hold-quiet false (migrate exec_sql files s).1))
        (migrate-IsLeft s)

  locking-IsLeft : (s : Store Schema) → IsLeft s.contents (locking s).1.contents
  locking-IsLeft s =
      follow-IsLeft s.contents (naming (text "advisory lock") (hold true) s) (λ _. unlocking)
        (hold-quiet true s) (λ _ s₁. unlocking-IsLeft s₁)

  -- Wherever a migration fails, and whatever replies it loses, the database is what it was, or has
  -- `schema_migrations`, or what a run over the .sql files in the order of their names makes of it,
  -- up to some file: each script as a whole, together with its version, and none whose version is
  -- recorded.
  pub up-IsLeft : (s : Store Schema) → IsLeft s.contents (up exec_sql files s).1.contents
  unfolding up
  up-IsLeft s =
      follow-IsLeft s.contents
        (naming (text "acquire conn") (call {A = Unit {0}} (λ d. (ok tt, d))) s) (λ _. locking)
        (call-quiet (λ d. (ok tt, d)) s (λ d. refl)) (λ _ s₁. locking-IsLeft s₁)
