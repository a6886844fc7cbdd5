-- ===== src/Services/Outbox/Flush.antt =====
-- Flushing the outbox: a row is marked as published only behind a publication that worked, and a
-- failure ends neither the loop nor the error that is returned.
use mathlib.Core.Path.{subst}
use goprofile.Prelude.Int.{pos}
use goprofile.Prelude.{
  ap, length, Option-cases, ℕ, zero, suc, ◌*◌, ◌≡◌, refl, inl, inr, List, [], ◌∷◌, none, some,
  arith,
}
use goprofile.Result.{ok, Exec}
use goprofile.Result.Laws.{Exec-cases}
use goprofile.Domain.Errors.{Err}
use goprofile.Domain.Avatar.{OutboxEvent}
use goprofile.Services.Deps.{AvatarService, outbox_unpublished}
use goprofile.Services.Outbox.{
  publish_rounds, publish_with_retry, publish_kind, flush_item, flush_items, flush_outbox,
}

module _ {S : Type 0} (wait : ℕ → Exec S (Unit {0})) (fn : Exec S (Unit {0})) where
  -- A publication that is reported as done has called the function, and its last call worked.
  publish_rounds-ok :
      (n backoff : ℕ) (s s' : S)
      → publish_rounds wait fn (suc n) backoff s ≡ (ok tt, s')
      → (t : S) × (fn t ≡ (ok tt, s'))
  unfolding publish_rounds
  publish_rounds-ok zero backoff s s' h = (s, h)
  publish_rounds-ok (suc n) backoff s s' h = elim (Exec-cases fn s) [
    | inl (u, t, e) ↦ (s, ground arith)
    | inr (x, t, e) ↦ elim (Exec-cases (wait backoff) t) [
      | inr (y, v, w) ↦ absurd (ground arith)
      | inl (u, v, w) ↦ publish_rounds-ok n (backoff * 2) v s' (ground arith)
    ]
  ]

  pub publish_with_retry-ok :
      (s s' : S) → publish_with_retry wait fn 3 s ≡ (ok tt, s') → (t : S) × (fn t ≡ (ok tt, s'))
  unfolding publish_with_retry
  publish_with_retry-ok s s' h = publish_rounds-ok 2 _ s s' h

module _ {S Image : Type 0} (service : AvatarService S Image) where
  open service use {repo, runtime}

  -- The steps of a loop over the items: each item was published and then marked.
  pub data Flushed : List OutboxEvent → S → S → Type 0 where
    done : {s : S} → Flushed [] s s
    item :
        {items : List OutboxEvent} {s u : S} (ev : OutboxEvent) (t t' s' : S)
        → publish_with_retry runtime.wait (publish_kind service ev.kind ev.payload) 3 s
          ≡ (ok tt, t')
        → publish_kind service ev.kind ev.payload t ≡ (ok tt, t')
        → repo.mark_outbox_published ev.id t' ≡ (ok tt, s')
        → Flushed items s' u
        → Flushed (ev ∷ items) s u

  flush_item-ok :
      (ev : OutboxEvent) (s s' : S)
      → flush_item service ev s ≡ (ok tt, s')
      → (t t' : S) × (publish_with_retry runtime.wait (publish_kind service ev.kind ev.payload) 3 s
          ≡ (ok tt, t'))
        × (publish_kind service ev.kind ev.payload t ≡ (ok tt, t'))
        × (repo.mark_outbox_published ev.id t' ≡ (ok tt, s'))
  unfolding flush_item
  flush_item-ok ev s s' h =
      let publish = publish_kind service ev.kind ev.payload in
      elim (Exec-cases (publish_with_retry runtime.wait publish 3) s) [
        | inr (e, t', p) ↦ absurd (ground arith)
        | inl (u, t', p) ↦
            let (t, q) = publish_with_retry-ok runtime.wait publish s t' p in
            (t, t', p, q, ground arith)
      ]

  flush_items-some :
      (items : List OutboxEvent) (e : Err) (s : S)
      → (flush_items service items (some e) s).0 ≡ some e
  unfolding flush_items
  flush_items-some [] e s = refl
  flush_items-some (ev ∷ items) e s = flush_items-some items e _

  flush_items-none :
      (items : List OutboxEvent) (s s' : S)
      → flush_items service items none s ≡ (none, s')
      → Flushed items s s'
  unfolding flush_items
  flush_items-none [] s s' h = subst (λ u. Flushed [] s u) (ap (λ q. q.1) h) done
  flush_items-none (ev ∷ items) s s' h = elim (Exec-cases (flush_item service ev) s) [
    | inl (u, v, p) ↦
        let (t, t', published, accepted, marked) = flush_item-ok ev s v p in
        item ev t t' v published accepted marked (flush_items-none items v s' (ground arith))
    | inr (e, v, p) ↦ absurd (ground (arith, flush_items-some items e v))
  ]

  -- A flush without an error has listed the unpublished events, at most 50, and has gone through
  -- all of them in their order: the publisher accepted each, within three calls, and then its row
  -- was marked as published.
  pub flush_outbox-Flushed :
      (s s' : S)
      → flush_outbox service s ≡ (ok tt, s')
      → (items : List OutboxEvent) × (s₁ : S) × (repo.list_unpublished (pos 50) s ≡ (ok items, s₁))
        × Flushed items (runtime.observe (outbox_unpublished (length items)) s₁) s'
  unfolding flush_outbox
  flush_outbox-Flushed s s' h = elim (Exec-cases (repo.list_unpublished (pos 50)) s) [
    | inr (e, s₁, listed) ↦ absurd (ground arith)
    | inl (items, s₁, listed) ↦
        let s₂ = runtime.observe (outbox_unpublished (length items)) s₁ in
        let (first, s₃) = flush_items service items none s₂ in
        elim (Option-cases first) [
          | inl clean ↦ (items, s₁, listed, flush_items-none items s₂ s' (ground arith))
          | inr (e, failed) ↦ absurd (ground arith)
        ]
  ]
