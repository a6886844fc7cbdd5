-- ===== src/Worker/Run.antt =====
-- `Run` of internal/worker/worker.go: three goroutines that stop in any order, and the loop that
-- receives their results. The signal that ends the process, and the errors of Kafka, may come at
-- any time or never. That the functions return once the context is done is what the loops of
-- `consume` and `maintenance` do, where the calls that they make end.
pub mod Weights
pub mod Laws
pub mod Ends
use goprofile.Prelude.{
  ℕ, ◌+◌, ◌<◌, ◌≡◌, Bool, true, false, ◌||◌, List, [], ◌∷◌, ◌++◌, Option, none, some, length,
}
use goprofile.Domain.Errors.{Err}
use goprofile.Result.{first_of}

-- A goroutine runs its function; the function has returned; the goroutine has its result to send,
-- or has sent it.
pub data Phase : Type 0 where
  going : Phase
  returned sending done : Option Err → Phase

pub record Running : Type 0 where
  pub phases : List Phase
  -- whether the context is done
  pub cancelled : Bool
  -- errCh, whose oldest result is first
  pub channel : List (Option Err)
  pub first : Option Err
  -- the rounds of the loop that are over
  pub rounds : ℕ

abbrev pub is_error : Option Err → Bool
is_error none = false
is_error (some _) = true

abbrev pub started : Running
started = record {
  phases = going ∷ going ∷ going ∷ [];
  cancelled = false;
  channel = [];
  first = none;
  rounds = 0;
}

-- The size of errCh
abbrev pub capacity : ℕ
capacity = 3

-- What the program does by itself.
pub data Act (r r' : Running) : Type 0 where
  -- A function returns nil, since the context is done.
  stops :
      (before after : List Phase)
      → r.phases ≡ before ++ going ∷ after
      → r.cancelled ≡ true
      → r' ≡ record r { phases = before ++ returned none ∷ after }
      → Act r r'
  -- if err != nil { cancel() }
  cancels :
      (before after : List Phase) (e : Option Err)
      → r.phases ≡ before ++ returned e ∷ after
      → r'
        ≡ record r { phases = before ++ sending e ∷ after; cancelled = is_error e || r.cancelled }
      → Act r r'
  sends :
      (before after : List Phase) (e : Option Err)
      → r.phases ≡ before ++ sending e ∷ after
      → length r.channel < capacity
      → r' ≡ record r { phases = before ++ done e ∷ after; channel = r.channel ++ e ∷ [] }
      → Act r r'
  receives :
      (e : Option Err) (rest : List (Option Err))
      → r.channel ≡ e ∷ rest
      → r.rounds < 3
      → r' ≡ record r { channel = rest; first = first_of r.first e; rounds = r.rounds + 1 }
      → Act r r'

-- What may happen, too: a function returns an error, or the context of the caller is cancelled.
pub data Step (r r' : Running) : Type 0 where
  acts : Act r r' → Step r r'
  fails :
      (before after : List Phase) (e : Err)
      → r.phases ≡ before ++ going ∷ after
      → r' ≡ record r { phases = before ++ returned (some e) ∷ after }
      → Step r r'
  interrupted : r.cancelled ≡ false → r' ≡ record r { cancelled = true } → Step r r'

pub data Reach : Running → Type 0 where
  start : Reach started
  next : {r r' : Running} → Reach r → Step r r' → Reach r'
