-- ===== src/Repository/Tx.antt =====
-- Statements and transactions of internal/repository/postgres.go. A transaction runs alone: what
-- other connections write between its statements is not modelled.
pub mod Laws
use goprofile.Prelude.{ℕ, Bytes, text}
use goprofile.Result.{Result, ok, err, Exec, naming, ◌>>◌}
use goprofile.Domain.Errors.{wrapped}
use goprofile.World.{Db, World, external_call}

module _ {A : Type 0} where
  -- One statement, on the tables and at the time of the call.
  unfoldable pub query : (ℕ → Db → Result A × Db) → Exec World A
  unfolding external_call
  query statement =
      external_call λ w. let (r, db) = statement w.now w.db in (r, record w { db = db })

abbrev pub rollback : Db → World → World
rollback saved w = record w { db = saved }

-- The commit of what a transaction wrote over `saved`: where it breaks, nothing was written.
unfoldable pub commit_over : Db → Exec World (Unit {0})
unfolding external_call
commit_over saved w = external_call (λ v. (ok tt, record v { db = w.db })) (rollback saved w)

unfoldable pub begin : Exec World (Unit {0})
unfolding query
begin = naming (text "begin tx") (query (λ now db. (ok tt, db)))

module _ {A : Type 0} where
  -- Behind the statements of the transaction, which are rolled back after an error.
  unfoldable pub finish : Db → Result A → Exec World A
  finish saved (err e) w = (err e, rollback saved w)
  finish saved (ok a) w =
      let (r, w') = commit_over saved w in
      elim r [ ok _ ↦ (ok a, w') | err e ↦ (err (wrapped (text "commit tx") e), w') ]

  unfoldable pub with_tx : Exec World A → Exec World A
  with_tx fn = do begin; λ w. let (r, w') = fn w in finish w.db r w'
