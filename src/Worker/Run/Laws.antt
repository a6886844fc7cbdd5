-- ===== src/Worker/Run/Laws.antt =====
-- What `Run` returns, and what has stopped then.
use mathlib.Core.Path.{subst}
use goprofile.Prelude.{
  ℕ, ◌+◌, ◌≤◌, ◌≡◌, ◌≢◌, ◌⊎◌, ◌↔◌, inl, inr, refl, sym, ap, Bool, true, ◌||◌, List, [], ◌∷◌, ◌++◌,
  Option, none, some, All, arith,
}
use goprofile.Domain.Errors.{Err}
use goprofile.Result.{first_of}
use goprofile.Worker.Run.Weights.{
  one, total, total-append, error_weight, sent_weight, failed_weight, stopped_weight, changed,
}
use goprofile.Worker.Run.{
  Phase, going, returned, sending, done, Running, is_error, started, Act, stops, cancels, sends,
  receives, Step, acts, fails, interrupted, Reach, start, next,
}

-- What the steps keep: what was sent is in the channel or was received, the first error is that of
-- a goroutine, none is overlooked, and a goroutine that has stopped has seen the context done.
pub record IsSound (r : Running) : Type 0 where
  pub three : total one r.phases ≡ 3
  pub sent : total sent_weight r.phases ≡ r.rounds + total one r.channel
  pub in_channel : total error_weight r.channel ≤ total failed_weight r.phases
  pub overlooked :
      error_weight r.first ≡ 0 → total failed_weight r.phases ≡ total error_weight r.channel
  pub some_failed : error_weight r.first ≤ total failed_weight r.phases
  pub cancels : (total stopped_weight r.phases ≡ 0) ⊎ (r.cancelled ≡ true)

started-IsSound : IsSound started
started-IsSound = record {
  three = refl;
  sent = refl;
  in_channel = omega arith;
  overlooked = λ h. refl;
  some_failed = omega arith;
  cancels = inl refl;
}

-- A goroutine goes on to a phase in which it has not sent yet.
moved-IsSound :
    (r : Running) (before after : List Phase) (p q : Phase) (b : Bool)
    → r.phases ≡ before ++ p ∷ after
    → (sent_weight p ≡ 0) × (failed_weight p ≡ 0)
    → (sent_weight q ≡ 0) × (failed_weight q ≡ 0)
    → (r.cancelled ≡ true → b ≡ true)
    → (stopped_weight q ≤ stopped_weight p) ⊎ (b ≡ true)
    → IsSound r
    → IsSound (record r { phases = before ++ q ∷ after; cancelled = b })
moved-IsSound r before after p q b h (p₁, p₂) (q₁, q₂) kept cut s =
    let ones = changed one r.phases before after p q h in
    let sents = changed sent_weight r.phases before after p q h in
    let fails = changed failed_weight r.phases before after p q h in
    let stopped = changed stopped_weight r.phases before after p q h in
    record {
      three = omega (arith, ones, s.three);
      sent = omega (arith, sents, s.sent, p₁, q₁);
      in_channel = omega (arith, fails, s.in_channel, p₂, q₂);
      overlooked = λ first. omega (arith, fails, s.overlooked first, p₂, q₂);
      some_failed = omega (arith, fails, s.some_failed, p₂, q₂);
      cancels = elim cut [
        | inr now ↦ inr now
        | inl less ↦ elim s.cancels [
          | inl none_yet ↦ inl (omega (arith, stopped, less, none_yet))
          | inr before ↦ inr (kept before)
        ]
      ];
    }

pub or_true : (b c : Bool) → c ≡ true → (b || c) ≡ true
or_true b c h = ground arith

-- A function that returned nil has seen the context done; one that failed makes it so.
cancels-IsSound :
    (r : Running) (before after : List Phase) (e : Option Err)
    → r.phases ≡ before ++ returned e ∷ after
    → IsSound r
    → IsSound
        (record r { phases = before ++ sending e ∷ after; cancelled = is_error e || r.cancelled })
cancels-IsSound r before after none h s =
    moved-IsSound r before after (returned none) (sending none) r.cancelled h (refl, refl)
      (refl, refl) (λ cut. cut) (inl (omega arith)) s
cancels-IsSound r before after (some e) h s =
    moved-IsSound r before after (returned (some e)) (sending (some e)) true h (refl, refl)
      (refl, refl) (λ cut. refl) (inr refl) s

sends-IsSound :
    (r : Running) (before after : List Phase) (e : Option Err)
    → r.phases ≡ before ++ sending e ∷ after
    → IsSound r
    → IsSound (record r { phases = before ++ done e ∷ after; channel = r.channel ++ e ∷ [] })
sends-IsSound r before after e h s =
    let ones = changed one r.phases before after (sending e) (done e) h in
    let sents = changed sent_weight r.phases before after (sending e) (done e) h in
    let fails = changed failed_weight r.phases before after (sending e) (done e) h in
    let stopped = changed stopped_weight r.phases before after (sending e) (done e) h in
    let longer = total-append one r.channel (e ∷ []) in
    let more = total-append error_weight r.channel (e ∷ []) in
    record {
      three = omega (arith, ones, s.three);
      sent = omega (arith, sents, longer, s.sent);
      in_channel = omega (arith, fails, more, s.in_channel);
      overlooked = λ first. omega (arith, fails, more, s.overlooked first);
      some_failed = omega (arith, fails, s.some_failed);
      cancels = elim s.cancels [
        | inl none_yet ↦ inl (omega (arith, stopped, none_yet))
        | inr cut ↦ inr cut
      ];
    }

first_of-weight :
    (first e : Option Err)
    → error_weight (first_of first e) ≡ 0
    → (error_weight first ≡ 0) × (error_weight e ≡ 0)
first_of-weight none e h = (refl, h)
first_of-weight (some d) e h = (h, absurd (omega arith))

first_of-bound :
    (first e : Option Err) (n : ℕ)
    → error_weight first ≤ n
    → (error_weight first ≡ 0 → error_weight e ≤ n)
    → error_weight (first_of first e) ≤ n
first_of-bound none e n h k = k refl
first_of-bound (some d) e n h k = h

receives-IsSound :
    (r : Running) (e : Option Err) (rest : List (Option Err))
    → r.channel ≡ e ∷ rest
    → IsSound r
    → IsSound (record r { channel = rest; first = first_of r.first e; rounds = r.rounds + 1 })
receives-IsSound r e rest h s =
    let shorter = ap (total one) h in
    let less = ap (total error_weight) h in
    record {
      three = s.three;
      sent = omega (arith, s.sent, shorter);
      in_channel = omega (arith, s.in_channel, less);
      overlooked = λ first.
          let (before, fine) = first_of-weight r.first e first in
          omega (arith, s.overlooked before, fine, less);
      some_failed =
          first_of-bound r.first e (total failed_weight r.phases) s.some_failed
            (λ first. omega (arith, s.overlooked first, less));
      cancels = s.cancels;
    }

interrupted-IsSound : (r : Running) → IsSound r → IsSound (record r { cancelled = true })
interrupted-IsSound r s = record {
  three = s.three;
  sent = s.sent;
  in_channel = s.in_channel;
  overlooked = s.overlooked;
  some_failed = s.some_failed;
  cancels = inr refl;
}

Act-IsSound : {r r' : Running} → IsSound r → Act r r' → IsSound r'
Act-IsSound {r} s (stops before after h cut same) = subst IsSound (sym same) (
    moved-IsSound r before after going (returned none) r.cancelled h (refl, refl) (refl, refl)
      (λ yes. yes) (inr cut) s)
Act-IsSound {r} s (cancels before after e h same) =
    subst IsSound (sym same) (cancels-IsSound r before after e h s)
Act-IsSound {r} s (sends before after e h room same) =
    subst IsSound (sym same) (sends-IsSound r before after e h s)
Act-IsSound {r} s (receives e rest h few same) =
    subst IsSound (sym same) (receives-IsSound r e rest h s)

pub Step-IsSound : {r r' : Running} → IsSound r → Step r r' → IsSound r'
Step-IsSound s (acts act) = Act-IsSound s act
Step-IsSound {r} s (fails before after e h same) = subst IsSound (sym same) (
    moved-IsSound r before after going (returned (some e)) r.cancelled h (refl, refl) (refl, refl)
      (λ cut. cut) (inl (omega arith)) s)
Step-IsSound {r} s (interrupted fresh same) = subst IsSound (sym same) (interrupted-IsSound r s)

pub Reach-IsSound : {r : Running} → Reach r → IsSound r
Reach-IsSound start = started-IsSound
Reach-IsSound (next reach step) = Step-IsSound (Reach-IsSound reach) step

-- A goroutine that has sent its result, and one whose result is nil.
abbrev pub IsDone : Phase → Type 0
IsDone p = (e : Option Err) × (p ≡ done e)

pub sent-bound : (phases : List Phase) → total sent_weight phases ≤ total one phases
sent-bound [] = omega arith
sent-bound (going ∷ phases) = omega (arith, sent-bound phases)
sent-bound (returned e ∷ phases) = omega (arith, sent-bound phases)
sent-bound (sending e ∷ phases) = omega (arith, sent-bound phases)
sent-bound (done e ∷ phases) = omega (arith, sent-bound phases)

all-IsDone : (phases : List Phase) → total one phases ≤ total sent_weight phases → All IsDone phases
all-IsDone [] h = tt
all-IsDone (going ∷ phases) h = absurd (omega (arith, sent-bound phases))
all-IsDone (returned e ∷ phases) h = absurd (omega (arith, sent-bound phases))
all-IsDone (sending e ∷ phases) h = absurd (omega (arith, sent-bound phases))
all-IsDone (done e ∷ phases) h = ((e, refl), all-IsDone phases (omega arith))

all_well :
    (phases : List Phase)
    → All IsDone phases
    → total failed_weight phases ≡ 0
    → All (λ p. p ≡ done none) phases
all_well [] d h = tt
all_well (going ∷ phases) ((e, p), d) h = absurd (ground arith)
all_well (returned x ∷ phases) ((e, p), d) h = absurd (ground arith)
all_well (sending x ∷ phases) ((e, p), d) h = absurd (ground arith)
all_well (done none ∷ phases) (_, d) h = (refl, all_well phases d (omega (arith, h)))
all_well (done (some e) ∷ phases) (_, d) h = absurd (omega arith)

well-weight :
    (phases : List Phase) → All (λ p. p ≡ done none) phases → total failed_weight phases ≡ 0
well-weight [] h = refl
well-weight (p ∷ phases) (same, h) = omega (arith, ap failed_weight same, well-weight phases h)

failed-bound : (phases : List Phase) → total failed_weight phases ≤ total stopped_weight phases
failed-bound [] = omega arith
failed-bound (going ∷ phases) = omega (arith, failed-bound phases)
failed-bound (returned none ∷ phases) = omega (arith, failed-bound phases)
failed-bound (returned (some e) ∷ phases) = omega (arith, failed-bound phases)
failed-bound (sending e ∷ phases) = omega (arith, failed-bound phases)
failed-bound (done none ∷ phases) = omega (arith, failed-bound phases)
failed-bound (done (some e) ∷ phases) = omega (arith, failed-bound phases)

error-bound : (results : List (Option Err)) → total error_weight results ≤ total one results
error-bound [] = omega arith
error-bound (none ∷ results) = omega (arith, error-bound results)
error-bound (some e ∷ results) = omega (arith, error-bound results)

none_of_weight : (e : Option Err) → error_weight e ≤ 0 → e ≡ none
none_of_weight none h = refl
none_of_weight (some e) h = absurd (omega arith)

-- When the loop of Run has received three results, each goroutine has stopped and sent its own; Run
-- returns nil exactly when all of them returned nil, and otherwise the context was cancelled.
pub run_returns :
    (r : Running)
    → Reach r
    → r.rounds ≡ 3
    → All IsDone r.phases
      × ((r.first ≡ none) ↔ All (λ p. p ≡ done none) r.phases)
      × (r.first ≢ none → r.cancelled ≡ true)
run_returns r reach over =
    let s = Reach-IsSound reach in
    let bound = sent-bound r.phases in
    let stopped = all-IsDone r.phases (omega (arith, s.three, s.sent, over)) in
    let quiet = error-bound r.channel in
    (
      stopped,
      (
        λ fine. all_well r.phases stopped (
            omega
              (arith, s.overlooked (ap error_weight fine), quiet, bound, s.three, s.sent, over)),
        λ well. none_of_weight r.first (omega (arith, well-weight r.phases well, s.some_failed)),
      ),
      λ bad. elim s.cancels [
        | inr cut ↦ cut
        | inl fine ↦ absurd (
            bad
              (none_of_weight r.first (omega (arith, fine, failed-bound r.phases, s.some_failed))))
      ],
    )
