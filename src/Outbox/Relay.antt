-- ===== src/Outbox/Relay.antt =====
-- src/modules/outbox/outbox.relay.ts: handing claimed events to the queues, and the polling loop.
pub mod Drain
use production_backend_found.Prelude.{
  ℕ, zero, suc, ◌+◌, Bool, true, false, Option, none, some, String, List, [], ◌∷◌, ltb,
  if◌then◌else◌, length, ◌≡◌, inl, inr, Option-cases, tally, tally-update_where_none, arith,
}
use production_backend_found.Errors.{Result, ok, err, plain_error}
use production_backend_found.Store.{Prisma}
use production_backend_found.Outbox.Event.{OutboxEvent}
use production_backend_found.Outbox.Claim.{claim_outbox_batch}
use production_backend_found.Outbox.Action.{holds_claim, release_claim, mark_enqueued}

-- OUTBOX_BATCH_SIZE and OUTBOX_MAX_BATCHES_PER_TICK.
abbrev pub outbox_batch_size : ℕ
outbox_batch_size = 100

abbrev pub max_batches_per_tick : ℕ
max_batches_per_tick = 10

module _ (db : Prisma) where
  -- `added` is the answer of the queue: the message of its error, or nothing.
  settle_enqueue :
      ℕ
      → OutboxEvent
      → ℕ
      → Option String
      → db.Table OutboxEvent
      → Result (Unit {0}) × db.Table OutboxEvent
  settle_enqueue now event token none t =
      (ok tt, (db.update_many (holds_claim event.id token) (mark_enqueued now) t).0)
  settle_enqueue now event token (some message) t = (
    err plain_error,
    (db.update_many (holds_claim event.id token) (release_claim now message) t).0,
  )

  unfoldable pub enqueue_claimed_event :
      ℕ
      → OutboxEvent
      → (OutboxEvent → Option String)
      → db.Table OutboxEvent
      → Result (Unit {0}) × db.Table OutboxEvent
  unfolding settle_enqueue
  enqueue_claimed_event now event add t = elim event.claim_token [
    | none ↦ (err plain_error, t)
    | some token ↦ settle_enqueue now event token (add event) t
  ]

  -- `Promise.allSettled`: every event is tried, and a failure is only logged. `settled_at` is the time
  -- that is read when the answer for an event is written.
  unfoldable pub enqueue_all :
      (OutboxEvent → ℕ)
      → (OutboxEvent → Option String)
      → List OutboxEvent
      → db.Table OutboxEvent
      → db.Table OutboxEvent
  unfolding enqueue_claimed_event
  enqueue_all settled_at add [] t = t
  enqueue_all settled_at add (event ∷ rest) t =
      enqueue_all settled_at add rest (enqueue_claimed_event (settled_at event) event add t).1

  unfoldable pub relay_outbox_batch :
      (ℕ → Bool)
      → ℕ
      → ℕ
      → (OutboxEvent → ℕ)
      → ℕ
      → (OutboxEvent → Option String)
      → db.Table OutboxEvent
      → db.Table OutboxEvent × ℕ
  unfolding claim_outbox_batch enqueue_all
  relay_outbox_batch locked batch_size claimed_at settled_at token add t =
      let (t', events) = claim_outbox_batch db locked batch_size claimed_at token t in
      (enqueue_all settled_at add events t', length events)

  -- The loop of `relayAvailableOutbox`, by the batches left in this tick: each batch has its claim
  -- token, the time of its claim, and the times of its answers.
  unfoldable pub relay_batches :
      ℕ
      → (ℕ → Bool)
      → (ℕ → ℕ)
      → (ℕ → OutboxEvent → ℕ)
      → (ℕ → ℕ)
      → (OutboxEvent → Option String)
      → db.Table OutboxEvent
      → db.Table OutboxEvent × ℕ
  unfolding relay_outbox_batch
  relay_batches zero locked claimed_at settled_at token add t = (t, 0)
  relay_batches (suc batches) locked claimed_at settled_at token add t =
      let (t', n) =
        relay_outbox_batch locked outbox_batch_size (claimed_at batches) (settled_at batches)
          (token batches) add t in
      let (t'', more) = relay_batches batches locked claimed_at settled_at token add t' in
      if ltb n outbox_batch_size then (t', n) else (t'', n + more)

  -- A process relays once at a time: a nudge while `relaying` does nothing.
  unfoldable pub relay_available_outbox :
      Bool
      → (ℕ → Bool)
      → (ℕ → ℕ)
      → (ℕ → OutboxEvent → ℕ)
      → (ℕ → ℕ)
      → (OutboxEvent → Option String)
      → db.Table OutboxEvent
      → db.Table OutboxEvent × ℕ
  unfolding relay_batches
  relay_available_outbox true locked claimed_at settled_at token add t = (t, 0)
  relay_available_outbox false locked claimed_at settled_at token add t =
      relay_batches max_batches_per_tick locked claimed_at settled_at token add t

  -- Whatever the queue answers, the attempt to enqueue a claimed event ends the claim: no row is
  -- left that holds it.
  pub enqueue_claimed_event-ends_claim :
      (now token : ℕ) (event : OutboxEvent) (add : OutboxEvent → Option String)
      (t : db.Table OutboxEvent)
      → event.claim_token ≡ some token
      → tally (holds_claim event.id token) (db.rows (enqueue_claimed_event now event add t).1) ≡ 0
  unfolding enqueue_claimed_event
  enqueue_claimed_event-ends_claim now token event add t held = elim (Option-cases (add event)) [
    | inl added ↦
        rw (held, enqueue_claimed_event, added, db.rows_update_many)
          (tally-update_where_none _ (mark_enqueued now) (db.rows t) (λ x. ground arith))
    | inr (message, failed) ↦
        rw (held, enqueue_claimed_event, failed, db.rows_update_many)
          (tally-update_where_none _ (release_claim now message) (db.rows t) (λ x. ground arith))
  ]
