-- ===== src/App/Lifecycle.antt =====
-- `New` and `Close` of internal/app/deps.go: which connections are open. What each call returns is a
-- parameter.
use goprofile.Prelude.{
  ℕ, ◌+◌, ◌-◌, ◌≡◌, refl, inl, inr, Bool, true, Bytes, text, arith, if◌then◌else◌,
}
use goprofile.Result.{Result, ok, err, Exec, naming, lift, modify, return, ignore, ◌or_undo◌, ◌>>◌}
use goprofile.Result.Laws.{Result-cases}
use goprofile.Config.{Config}

-- The pools and the producers that are open.
pub record Resources : Type 0 where
  pub pools : ℕ
  pub producers : ℕ

-- What the calls of `New` return.
pub record Calls : Type 0 where
  pub parse_config : Result (Unit {0})
  pub new_pool : Result (Unit {0})
  pub register_pool_collector : Result (Unit {0})
  pub ping : Result (Unit {0})
  pub migrate_up : Result (Unit {0})
  pub new_s3 : Result (Unit {0})
  pub ensure_bucket : Result (Unit {0})
  pub ensure_topics : Result (Unit {0})

-- The configuration, and whether Pool and Producer are not nil; the other fields hold no resource.
pub record Deps : Type 0 where
  pub cfg : Config
  pub pool : Bool
  pub producer : Bool

abbrev pub open_pool : Resources → Resources
open_pool s = record s { pools = s.pools + 1 }

abbrev pub close_pool : Resources → Resources
close_pool s = record s { pools = s.pools - 1 }

abbrev pub open_producer : Resources → Resources
open_producer s = record s { producers = s.producers + 1 }

abbrev pub close_producer : Resources → Resources
close_producer s = record s { producers = s.producers - 1 }

-- A call whose error closes the pool.
abbrev or_close : Result (Unit {0}) → Exec Resources (Unit {0})
or_close r = ◌or_undo◌ (lift r) (modify close_pool)

module _ (calls : Calls) where
  open calls use {
    parse_config, new_pool, register_pool_collector, ping, migrate_up, new_s3, ensure_bucket,
    ensure_topics,
  }

  -- From the registration of the pool on.
  unfoldable pub with_pool : Config → Exec Resources Deps
  with_pool cfg = do
    naming (text "register pool collector") (or_close register_pool_collector)
    naming (text "postgres ping") (or_close ping)
    naming (text "migrate") (or_close migrate_up)
    or_close new_s3
    naming (text "s3 bucket") (or_close ensure_bucket)
    ignore (lift ensure_topics)
    modify open_producer
    return (record { cfg = cfg; pool = true; producer = true })

  unfoldable pub new : Config → Exec Resources Deps
  unfolding with_pool
  new cfg = do
    naming (text "postgres config") (lift parse_config)
    naming (text "postgres") (lift new_pool)
    modify open_pool
    with_pool cfg

unfoldable pub close : Deps → Resources → Resources
close d s =
    let s' = if d.producer then close_producer s else s in if d.pool then close_pool s' else s'

-- What is open where `New` fails, or behind `Close` of what it returns.
abbrev pub ended : Result Deps × Resources → Resources
ended (ok d, s) = close d s
ended (err e, s) = s

-- The same number of pools and producers is open.
abbrev pub SameResources : Resources → Resources → Type 0
SameResources s s' = (s'.pools ≡ s.pools) × (s'.producers ≡ s.producers)

module _ (calls : Calls) (cfg : Config) where
  -- A call of `New` whose error closes the pool, and what follows it.
  or_close-SameResources :
      (r : Result (Unit {0})) (s : Resources) (rest : Exec Resources Deps)
      → SameResources s (ended (rest (open_pool s)))
      → SameResources s (ended ((or_close r >> rest) (open_pool s)))
  or_close-SameResources (ok _) s rest h = h
  or_close-SameResources (err e) s rest h = (omega arith, refl)

  named-SameResources :
      (m : Bytes) (r : Result (Unit {0})) (s : Resources) (rest : Exec Resources Deps)
      → SameResources s (ended (rest (open_pool s)))
      → SameResources s (ended ((naming m (or_close r) >> rest) (open_pool s)))
  named-SameResources m (ok _) s rest h = h
  named-SameResources m (err e) s rest h = (omega arith, refl)

  with_pool-SameResources :
      (s : Resources) → SameResources s (ended (with_pool calls cfg (open_pool s)))
  unfolding with_pool close
  with_pool-SameResources s = named-SameResources _ calls.register_pool_collector s _ (
      named-SameResources _ calls.ping s _ (
        named-SameResources _ calls.migrate_up s _ (
          or_close-SameResources calls.new_s3 s _
            (named-SameResources _ calls.ensure_bucket s _ (omega arith, omega arith)))))

  -- Whether New fails at any of its calls, or succeeds and Close is called later, no pool and no
  -- producer is left open that was not open before.
  pub new-SameResources : (s : Resources) → SameResources s (ended (new calls cfg s))
  unfolding new
  new-SameResources s = elim (Result-cases calls.parse_config) [
    | inr (e, failed) ↦ rw failed (refl, refl)
    | inl (_, p) ↦ elim (Result-cases calls.new_pool) [
      | inr (e, failed) ↦ rw (p, failed) (refl, refl)
      | inl (_, q) ↦ rw (p, q) (with_pool-SameResources s)
    ]
  ]
