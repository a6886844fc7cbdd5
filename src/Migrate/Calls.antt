-- ===== src/Migrate/Calls.antt =====
-- What a call and a transaction of the migration leave in the database.
use mathlib.Core.Path.{subst}
use goprofile.Prelude.{
  ◌≡◌, ◌⊎◌, inl, inr, refl, sym, ap, ◌∙◌, Bytes, List, Option, text, ◌++◌, arith,
}
use goprofile.Prelude.Int.{ℤ}
use goprofile.Domain.Errors.{Err, external, wrapped}
use goprofile.Result.{Result, ok, err, naming, named_error, follow}
use goprofile.Result.Laws.{Exec-cases, bind-ok}
use goprofile.World.{take_turn}
use goprofile.Repository.Tx.Laws.{Outcome-cases}
use goprofile.Migrate.{
  Contents, Store, call, finish, statements, apply_file, insert_version, with_schema, with_versions,
  run_script, record_version,
}

module _ {Schema : Type 0} where
  -- A call has no effect and fails, or has its effect.
  pub call-cases :
      {A : Type 0} (effect : Contents Schema → Result A × Contents Schema) (s : Store Schema)
      → (((call effect s).1.contents ≡ s.contents) × ((call effect s).0 ≡ err (external 1)))
        ⊎ (((call effect s).1.contents ≡ (effect s.contents).1)
            × (((call effect s).0 ≡ (effect s.contents).0)
                ⊎ ((call effect s).0 ≡ err (external 1))))
  unfolding call
  call-cases effect s = elim (Outcome-cases (take_turn s.turns).0.outcome) [
    | inl worked ↦ inr (ground arith)
    | inr (inl broke) ↦ inl (ground arith)
    | inr (inr lost) ↦ inr (ground arith)
  ]

  -- A call that only reads.
  pub call-quiet :
      {A : Type 0} (effect : Contents Schema → Result A × Contents Schema) (s : Store Schema)
      → ((d : Contents Schema) → (effect d).1 ≡ d)
      → (call effect s).1.contents ≡ s.contents
  call-quiet effect s same = elim (call-cases effect s) [
    | inl (kept, _) ↦ kept
    | inr (there, _) ↦ there ∙ same s.contents
  ]

  -- A call that worked had its effect, and its answer.
  pub naming-call_ok :
      {A : Type 0} (m : Bytes) (effect : Contents Schema → Result A × Contents Schema)
      (s s' : Store Schema) (a : A)
      → naming m (call effect) s ≡ (ok a, s')
      → effect s.contents ≡ (ok a, s'.contents)
  unfolding call
  naming-call_ok m effect s s' a h = elim (Exec-cases (λ d. effect d) s.contents) [
    | inl (b, d, f) ↦ elim (Outcome-cases (take_turn s.turns).0.outcome) [
      | inl worked ↦ ground arith
      | inr (inl broke) ↦ absurd (ground arith)
      | inr (inr lost) ↦ absurd (ground arith)
    ]
    | inr (e, d, f) ↦ elim (Outcome-cases (take_turn s.turns).0.outcome) [
      | inl worked ↦ absurd (ground arith)
      | inr (inl broke) ↦ absurd (ground arith)
      | inr (inr lost) ↦ absurd (ground arith)
    ]
  ]

  with_schema-ok :
      (d d' : Contents Schema) (r : Result Schema)
      → with_schema d r ≡ (ok tt, d')
      → (r ≡ ok d'.schema) × (d'.versions ≡ d.versions)
  with_schema-ok d d' (ok schema) h = ground arith
  with_schema-ok d d' (err e) h = ground arith

  with_versions-ok :
      (d d' : Contents Schema) (r : Result (Option (List ℤ)))
      → with_versions d r ≡ (ok tt, d')
      → (r ≡ ok d'.versions) × (d'.schema ≡ d.schema)
  with_versions-ok d d' (ok versions) h = ground arith
  with_versions-ok d d' (err e) h = ground arith

  -- What it takes for a script and its version to be in the database.
  pub record Applied (exec_sql : Bytes → Schema → Result Schema) (version : ℤ) (sql : Bytes)
      (d d' : Contents Schema) : Type 0 where
    pub ran : exec_sql sql d.schema ≡ ok d'.schema
    pub added : insert_version version d.versions ≡ ok d'.versions

  module _ (exec_sql : Bytes → Schema → Result Schema) (name : Bytes) (version : ℤ)
      (sql : Bytes) where
    statements-ok :
        (s s' : Store Schema)
        → statements exec_sql name version sql s ≡ (ok tt, s')
        → Applied exec_sql version sql s.contents s'.contents
    unfolding statements
    statements-ok s s' h =
        let apply = text "apply " ++ name in
        let note = text "record " ++ name in
        let (_, s₁, p, q) =
          bind-ok (naming apply (call (run_script exec_sql sql)))
            (λ _. naming note (call (record_version version))) s s' tt h in
        let (ran, kept) =
          with_schema-ok s.contents s₁.contents (exec_sql sql s.contents.schema)
            (naming-call_ok apply (run_script exec_sql sql) s s₁ tt p) in
        let (added, same) =
          with_versions-ok s₁.contents s'.contents (insert_version version s₁.contents.versions)
            (naming-call_ok note (record_version version) s₁ s' tt q) in
        record {
          ran = ran ∙ ap ok (sym same);
          added = ap (insert_version version) (sym kept) ∙ added;
        }

    -- The transaction leaves what it found, and fails; or the script and its version are there,
    -- though its reply may be lost.
    abbrev pub Ends : Contents Schema → Result (Unit {0}) × Store Schema → Type 0
    Ends d r =
        ((r.1.contents ≡ d) × ((e : Err) × (r.0 ≡ err e)))
        ⊎ Applied exec_sql version sql d r.1.contents

    commit-Ends :
        (saved : Contents Schema) (s : Store Schema)
        → Applied exec_sql version sql saved s.contents
        → Ends saved (finish name saved (ok tt) s)
    unfolding finish
    commit-Ends saved s applied =
        elim (call-cases {A = Unit {0}} (λ d. (ok tt, s.contents))
          (record s { contents = saved })) [
            | inl (kept, failed) ↦ inl (
              kept,
              (
                wrapped (text "commit " ++ name) (external 1),
                ap (named_error (text "commit " ++ name)) failed,
              ),
            )
            | inr (there, _) ↦ inr (subst (Applied exec_sql version sql saved) (sym there) applied)
          ]

    transaction-Ends :
        (s : Store Schema)
        → let r = statements exec_sql name version sql s in
          Ends s.contents (finish name s.contents r.0 r.1)
    unfolding finish
    transaction-Ends s =
        let Goal = λ (r : Result (Unit {0}) × Store Schema).
          Ends s.contents (finish name s.contents r.0 r.1) in
        elim (Exec-cases (statements exec_sql name version sql) s) [
          | inl (_, s₁, p) ↦ subst Goal (sym p) (commit-Ends s.contents s₁ (statements-ok s s₁ p))
          | inr (e, s₁, p) ↦ subst Goal (sym p) (inl (refl, (e, refl)))
        ]

    begun-Ends :
        (d : Contents Schema) (b : Result (Unit {0}) × Store Schema)
        → b.1.contents ≡ d
        → Ends d (
            follow
              (named_error (text "begin " ++ name) b.0)
              (λ _ s.
                let r = statements exec_sql name version sql s in finish name s.contents r.0 r.1)
              b.1)
    begun-Ends d (ok _, s) same =
        let r = statements exec_sql name version sql s in
        subst (λ d. Ends d (finish name s.contents r.0 r.1)) same (transaction-Ends s)
    begun-Ends d (err e, s) same = inl (same, (wrapped (text "begin " ++ name) e, refl))

    pub apply_file-Ends :
        (s : Store Schema) → Ends s.contents (apply_file exec_sql name version sql s)
    unfolding apply_file
    apply_file-Ends s =
        begun-Ends s.contents (call (λ d. (ok tt, d)) s)
          (call-quiet (λ d. (ok tt, d)) s (λ d. refl))
