-- ===== src/Repository/Tx/Laws.antt =====
-- Atomicity of the transactions, and what a statement leaves alone.
use goprofile.Prelude.{ℕ, ◌≡◌, ◌≢◌, refl, ◌⊎◌, inl, inr, All, arith}
use goprofile.Result.{Result, ok, err, Exec}
use goprofile.Result.Laws.{Exec-cases}
use goprofile.Domain.Errors.{Err}
use goprofile.World.{Db, World, Outcome, works, breaks, lost_reply, external_call, begin_call}
use goprofile.Repository.Tx.{query, rollback, commit_over, begin, finish, with_tx}

-- No call loses its reply: what fails has had no effect.
abbrev pub NoLostReply : World → Type 0
NoLostReply w = All (λ t. t.outcome ≢ lost_reply) w.turns

module _ {A : Type 0} (f : ℕ → Db → Result A × Db) where
  objects-query : (w : World) → (query f w).1.objects ≡ w.objects
  unfolding query external_call
  objects-query w = ground arith

  query-NoLostReply : (w : World) → NoLostReply w → NoLostReply (query f w).1
  unfolding query external_call
  query-NoLostReply w h = ground arith

  query-ok :
      (w w' : World) (a : A) → query f w ≡ (ok a, w') → (now : ℕ) × (f now w.db ≡ (ok a, w'.db))
  unfolding query external_call
  query-ok w w' a h = ((begin_call w).1.now, ground arith)

  -- A statement that fails, and whose reply is not lost, leaves the tables as they were, if failing
  -- itself does.
  query-err :
      (w w' : World) (e : Err)
      → NoLostReply w
      → ((now : ℕ) (db : Db) (e' : Err) → (f now db).0 ≡ err e' → (f now db).1 ≡ db)
      → query f w ≡ (err e, w')
      → w'.db ≡ w.db
  unfolding query external_call
  query-err w w' e h keeps p = ground (arith, keeps (begin_call w).1.now w.db e)

db-begin : (w : World) → (begin w).1.db ≡ w.db
unfolding begin query external_call
db-begin w = ground arith

objects-begin : (w : World) → (begin w).1.objects ≡ w.objects
unfolding begin query external_call
objects-begin w = ground arith

begin-NoLostReply : (w : World) → NoLostReply w → NoLostReply (begin w).1
unfolding begin query external_call
begin-NoLostReply w h = ground arith

objects-commit_over : (saved : Db) (w : World) → (commit_over saved w).1.objects ≡ w.objects
unfolding commit_over external_call
objects-commit_over saved w = ground arith

db-commit_over :
    (saved : Db) (w w' : World) (u : Unit) → commit_over saved w ≡ (ok u, w') → w'.db ≡ w.db
unfolding commit_over external_call
db-commit_over saved w w' u h = ground arith

commit_over-err :
    (saved : Db) (w w' : World) (e : Err)
    → NoLostReply w
    → commit_over saved w ≡ (err e, w')
    → w'.db ≡ saved
unfolding commit_over external_call
commit_over-err saved w w' e k h = ground arith

module _ {A : Type 0} (fn : Exec World A) where
  -- A transaction that succeeds has run its statements on the tables that it found, and their
  -- effect on the tables is what is committed.
  pub with_tx-ok :
      (w w' : World) (a : A)
      → with_tx fn w ≡ (ok a, w')
      → (w₁ w₂ : World) × (w₁.db ≡ w.db)
        × (w₁.objects ≡ w.objects)
        × (fn w₁ ≡ (ok a, w₂))
        × (w'.db ≡ w₂.db)
        × (w'.objects ≡ w₂.objects)
  unfolding with_tx finish
  with_tx-ok w w' a h =
      let w₁ = (begin w).1 in
      let w₂ = (fn w₁).1 in
      (
        w₁,
        w₂,
        db-begin w,
        objects-begin w,
        ground arith,
        ground (arith, db-commit_over w₁.db w₂ w' tt),
        ground (arith, objects-commit_over w₁.db w₂),
      )

  -- Where no reply of a call is lost, and the statements leave no such call behind, a transaction
  -- that fails has changed nothing in the tables.
  pub with_tx-err :
      (w w' : World) (e : Err)
      → NoLostReply w
      → ((v : World) → NoLostReply v → NoLostReply (fn v).1)
      → with_tx fn w ≡ (err e, w')
      → w'.db ≡ w.db
  unfolding with_tx finish
  with_tx-err w w' e h keeps p =
      let w₁ = (begin w).1 in
      let w₂ = (fn w₁).1 in
      let (r, v) = commit_over w₁.db w₂ in
      let quiet = keeps w₁ (begin-NoLostReply w h) in
      elim (Exec-cases (commit_over w₁.db) w₂) [
        | inl (u, v, c) ↦ ground (arith, db-begin w)
        | inr (e', v, c) ↦ ground (arith, db-begin w, commit_over-err w₁.db w₂ v e' quiet c)
      ]

pub Outcome-cases : (o : Outcome) → (o ≡ works) ⊎ ((o ≡ breaks) ⊎ (o ≡ lost_reply))
Outcome-cases works = inl refl
Outcome-cases breaks = inr (inl refl)
Outcome-cases lost_reply = inr (inr refl)

commit_over-cases :
    (saved : Db) (w : World)
    → ((commit_over saved w).1.db ≡ saved) ⊎ ((commit_over saved w).1.db ≡ w.db)
unfolding commit_over external_call
commit_over-cases saved w = elim (Outcome-cases (begin_call (rollback saved w)).0) [
  | inl p ↦ inr (ground arith)
  | inr (inl p) ↦ inl (ground arith)
  | inr (inr p) ↦ inr (ground arith)
]

module _ {A : Type 0} (fn : Exec World A) where
  -- Whatever calls fail or lose their replies, a transaction has changed nothing in the tables, or
  -- all its statements have worked, on the tables that it found, and what they wrote is there.
  pub with_tx_atomic :
      (w : World)
      → ((with_tx fn w).1.db ≡ w.db)
        ⊎ ((w₁ w₂ : World) × (a : A) × (w₁.db ≡ w.db)
            × (fn w₁ ≡ (ok a, w₂))
            × ((with_tx fn w).1.db ≡ w₂.db))
  unfolding with_tx finish
  with_tx_atomic w = elim (Exec-cases begin w) [
    | inr (e, w₁, b) ↦ inl (ground (arith, db-begin w))
    | inl (_, w₁, b) ↦ elim (Exec-cases fn w₁) [
      | inr (e, w₂, f) ↦ inl (ground (arith, db-begin w))
      | inl (a, w₂, f) ↦ elim (commit_over-cases w₁.db w₂) [
        | inl same ↦ inl (ground (arith, db-begin w))
        | inr there ↦ inr (w₁, w₂, a, ground (arith, db-begin w), f, ground arith)
      ]
    ]
  ]
