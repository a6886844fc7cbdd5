-- ===== src/Worker/Run/Ends.antt =====
-- `Run` returns once its context is done or one of its functions has returned.
use goprofile.Prelude.{
  ℕ, zero, suc, ◌+◌, ◌<◌, ◌≤◌, ◌≡◌, ◌⊎◌, inl, inr, refl, ap, ◌∙◌, Bool, true, false, ◌||◌, List, [],
  ◌∷◌, ◌++◌, Option, none, some, length, arith, Bool-cases, ltb,
}
use goprofile.Domain.Errors.{Err}
use goprofile.Worker.Run.{
  Phase, going, returned, sending, done, Running, is_error, Act, stops, cancels, sends, receives,
  Step, acts, fails, interrupted, Reach, next,
}
use goprofile.Worker.Run.Weights.{
  total, one, sent_weight, going_weight, stopped_weight, changed, total-append,
}
use goprofile.Worker.Run.Laws.{IsSound, Reach-IsSound, sent-bound, or_true}

-- The steps that each goroutine has yet to make, and the results that are yet to be received.
abbrev steps_left : Phase → ℕ
steps_left going = 4
steps_left (returned e) = 3
steps_left (sending e) = 2
steps_left (done e) = 0

abbrev open_weight : Bool → ℕ
open_weight true = 0
open_weight false = 1

abbrev measure : Running → ℕ
measure r = total steps_left r.phases + total one r.channel + open_weight r.cancelled

or_weight : (b c : Bool) → open_weight (b || c) ≤ open_weight c
or_weight true true = omega arith
or_weight true false = omega arith
or_weight false c = omega arith

Act-down : {r r' : Running} → Act r r' → measure r' < measure r
Act-down {r} (stops before after h cut same) =
    omega (arith, ap measure same, changed steps_left r.phases before after going (returned none) h)
Act-down {r} (cancels before after e h same) = omega (
  arith,
  ap measure same,
  changed steps_left r.phases before after (returned e) (sending e) h,
  or_weight (is_error e) r.cancelled,
)
Act-down {r} (sends before after e h room same) = omega (
  arith,
  ap measure same,
  changed steps_left r.phases before after (sending e) (done e) h,
  total-append one r.channel (e ∷ []),
)
Act-down {r} (receives e rest h few same) = omega (arith, ap measure same, ap (total one) h)

Step-down : {r r' : Running} → Step r r' → measure r' < measure r
Step-down (acts act) = Act-down act
Step-down {r} (fails before after e h same) =
    omega
      (arith, ap measure same, changed steps_left r.phases before after going (returned (some e)) h)
Step-down {r} (interrupted fresh same) = omega (arith, ap measure same, ap open_weight fresh)

-- The context is done, or a function has returned.
abbrev pub IsEnding : Running → Type 0
IsEnding r = (r.cancelled ≡ true) ⊎ (total going_weight r.phases < 3)

Act-IsEnding : {r r' : Running} → Act r r' → IsEnding r → IsEnding r'
Act-IsEnding {r} (stops before after h cut same) ending = inl (ap (λ q. q.cancelled) same ∙ cut)
Act-IsEnding {r} (cancels before after e h same) (inl cut) =
    inl (ap (λ q. q.cancelled) same ∙ or_true (is_error e) r.cancelled cut)
Act-IsEnding {r} (cancels before after e h same) (inr less) = inr (
    omega (
      arith,
      ap (λ q. total going_weight q.phases) same,
      changed going_weight r.phases before after (returned e) (sending e) h,
      less,
    ))
Act-IsEnding {r} (sends before after e h room same) (inl cut) =
    inl (ap (λ q. q.cancelled) same ∙ cut)
Act-IsEnding {r} (sends before after e h room same) (inr less) = inr (
    omega (
      arith,
      ap (λ q. total going_weight q.phases) same,
      changed going_weight r.phases before after (sending e) (done e) h,
      less,
    ))
Act-IsEnding {r} (receives e rest h few same) (inl cut) = inl (ap (λ q. q.cancelled) same ∙ cut)
Act-IsEnding {r} (receives e rest h few same) (inr less) =
    inr (omega (arith, ap (λ q. total going_weight q.phases) same, less))

Step-IsEnding : {r r' : Running} → Step r r' → IsEnding r → IsEnding r'
Step-IsEnding (acts act) ending = Act-IsEnding act ending
Step-IsEnding {r} (fails before after e h same) (inl cut) = inl (ap (λ q. q.cancelled) same ∙ cut)
Step-IsEnding {r} (fails before after e h same) (inr less) = inr (
    omega (
      arith,
      ap (λ q. total going_weight q.phases) same,
      changed going_weight r.phases before after going (returned (some e)) h,
      less,
    ))
Step-IsEnding {r} (interrupted fresh same) ending = inl (ap (λ q. q.cancelled) same)

-- A goroutine that has not sent its result.
data Unsent (phases : List Phase) : Type 0 where
  runs : (before after : List Phase) → phases ≡ before ++ going ∷ after → Unsent phases
  left :
      (before after : List Phase) (e : Option Err)
      → phases ≡ before ++ returned e ∷ after
      → Unsent phases
  waits :
      (before after : List Phase) (e : Option Err)
      → phases ≡ before ++ sending e ∷ after
      → Unsent phases

later-Unsent : (p : Phase) (phases : List Phase) → Unsent phases → Unsent (p ∷ phases)
later-Unsent p phases (runs before after h) = runs (p ∷ before) after (ap (λ ps. p ∷ ps) h)
later-Unsent p phases (left before after e h) = left (p ∷ before) after e (ap (λ ps. p ∷ ps) h)
later-Unsent p phases (waits before after e h) = waits (p ∷ before) after e (ap (λ ps. p ∷ ps) h)

unsent : (phases : List Phase) → total sent_weight phases < total one phases → Unsent phases
unsent [] h = absurd (omega arith)
unsent (going ∷ phases) h = runs [] phases refl
unsent (returned e ∷ phases) h = left [] phases e refl
unsent (sending e ∷ phases) h = waits [] phases e refl
unsent (done e ∷ phases) h = later-Unsent (done e) phases (unsent phases (omega (arith, h)))

-- Where no goroutine has seen the context done, one that does not run has just returned.
abbrev Left : List Phase → Type 0
Left phases =
    (before : List Phase) × (after : List Phase) × (e : Option Err) × (phases
      ≡ before ++ returned e ∷ after)

left_lem :
    (phases : List Phase)
    → total stopped_weight phases ≡ 0
    → total going_weight phases < total one phases
    → Left phases
left_lem [] h less = absurd (omega arith)
left_lem (going ∷ phases) h less =
    let (before, after, e, p) = left_lem phases (omega (arith, h)) (omega (arith, less)) in
    (going ∷ before, after, e, ap (λ ps. going ∷ ps) p)
left_lem (returned e ∷ phases) h less = ([], phases, e, refl)
left_lem (sending e ∷ phases) h less = absurd (omega (arith, h))
left_lem (done e ∷ phases) h less = absurd (omega (arith, h))

-- The goroutine that acts next, where the channel is empty.
goroutine_acts :
    (r : Running)
    → r.channel ≡ []
    → IsSound r
    → IsEnding r
    → r.rounds < 3
    → (r' : Running) × Act r r'
goroutine_acts r empty s ending few =
    elim (unsent r.phases (omega (arith, s.three, s.sent, ap (total one) empty, few))) [
      | left before after e p ↦ (_, cancels before after e p refl)
      | waits before after e p ↦ (_, sends before after e p (omega (arith, ap length empty)) refl)
      | runs before after p ↦ elim s.cancels [
        | inr cut ↦ (_, stops before after p cut refl)
        | inl unseen ↦ elim ending [
          | inl cut ↦ (_, stops before after p cut refl)
          | inr less ↦
              let (before', after', e, q) =
                left_lem r.phases unseen (omega (arith, s.three, less)) in
              (_, cancels before' after' e q refl)
        ]
      ]
    ]

next_move :
    (r : Running) (channel : List (Option Err))
    → r.channel ≡ channel
    → IsSound r
    → IsEnding r
    → r.rounds < 3
    → (r' : Running) × Act r r'
next_move r (e ∷ rest) h s ending few = (_, receives e rest h few refl)
next_move r [] h s ending few = goroutine_acts r h s ending few

-- Whatever steps are taken, none of them for ever, the loop of Run receives three results; until
-- then there is a step that the program takes by itself.
pub data Halts : Running → Type 0 where
  over : {r : Running} → r.rounds ≡ 3 → Halts r
  goes : {r r₁ : Running} → Act r r₁ → ((r' : Running) → Step r r' → Halts r') → Halts r

ends_within : (n : ℕ) (r : Running) → measure r < n → Reach r → IsEnding r → Halts r
ends_within zero r h reach ending = absurd (omega arith)
ends_within (suc n) r h reach ending =
    let s = Reach-IsSound reach in
    elim (Bool-cases (ltb r.rounds 3)) [
      | inr full ↦ over (ground (arith, s.three, s.sent, sent-bound r.phases))
      | inl few ↦
          let (_, act) = next_move r r.channel refl s ending (ground arith) in
          goes act (λ r' step.
            ends_within n r' (omega (arith, Step-down step, h)) (next reach step)
              (Step-IsEnding step ending))
    ]

-- Once the context is done, or one of the three functions has returned, Run ends: in whatever order
-- the goroutines and the loop go on, and whichever functions fail or signals come, there are only
-- finitely many steps, and none of them leads to a state where Run waits for a result and the
-- program has no step to take.
pub run_ends : (r : Running) → Reach r → IsEnding r → Halts r
run_ends r reach ending = ends_within (measure r + 1) r (omega arith) reach ending
