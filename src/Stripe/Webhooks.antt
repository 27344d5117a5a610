-- ===== src/Stripe/Webhooks.antt =====
-- `verifyAndStoreStripeEvent` of src/modules/stripe/stripe.webhooks.service.ts: an event is stored
-- and handed to the outbox in one transaction. The check of the signature is the package's.
use production_backend_found.Prelude.{
  ℕ, ◌*◌, ◌≤◌, ◌≡◌, sym, Bool, true, false, Option, none, some, List, [], ◌∷◌, arith, any, tally,
  tally_none, ◌==◌, Bool-cases, Option-cases, inl, inr,
}
use production_backend_found.Errors.{Result, ok, err, bad_request_error, plain_error}
use production_backend_found.Store.{Prisma, create_unique}
use production_backend_found.Outbox.Event.{internal}
use production_backend_found.Outbox.Enqueue.{OutboxInput, stripe_key, is_key, add_outbox_event}

pub record StripeWebhookEvent : Type 0 where
  pub id : ℕ
  pub stripe_event_id : ℕ
  pub stripe_created_at : ℕ

pub record WebhookTables (db : Prisma) : Type 0 where
  pub webhook_events : db.Table StripeWebhookEvent
  pub outbox : db.Table OutboxInput

abbrev pub is_event : ℕ → StripeWebhookEvent → Bool
is_event event_id e = e.stripe_event_id == event_id

abbrev pub is_outbox_event : ℕ → OutboxInput → Bool
is_outbox_event event_id e = is_key e.dedupe_key (stripe_key event_id)

abbrev pub outbox_input : ℕ → ℕ → OutboxInput
outbox_input stored_id event_id = record {
  aggregate_id = stored_id;
  channel = internal;
  dedupe_key = stripe_key event_id;
  available_at = none;
  expires_at = none;
}

module _ (db : Prisma) where
  -- The transaction: `none` where it is undone by a unique key.
  unfoldable pub store_event : ℕ → ℕ → ℕ → WebhookTables db → Option (WebhookTables db)
  store_event new_id event_id created s =
      elim (create_unique db (is_event event_id)
        (record { id = new_id; stripe_event_id = event_id; stripe_created_at = created * 1_000 })
        s.webhook_events) [
          | none ↦ none
          | some events ↦ elim (add_outbox_event db (outbox_input new_id event_id) s.outbox) [
            | none ↦ none
            | some outbox ↦ some (record { webhook_events = events; outbox = outbox })
          ]
        ]

  -- `constructed` is what the package makes of the body and its signature: the event's identifier
  -- and time. The Boolean of the answer is `duplicate`.
  unfoldable pub verify_and_store_stripe_event :
      Bool → Result (ℕ × ℕ) → ℕ → WebhookTables db → Result Bool × WebhookTables db
  verify_and_store_stripe_event false constructed new_id s = (err plain_error, s)
  verify_and_store_stripe_event true (err e) new_id s = (err bad_request_error, s)
  verify_and_store_stripe_event true (ok (event_id, created)) new_id s =
      elim (store_event new_id event_id created s) [
        | none ↦ (ok true, s)
        | some s' ↦ (ok false, s')
      ]

  -- Requests to the webhook, one after the other.
  unfoldable pub receive_all :
      List (Bool × Result (ℕ × ℕ) × ℕ) → WebhookTables db → WebhookTables db
  receive_all [] s = s
  receive_all ((configured, constructed, new_id) ∷ rs) s =
      receive_all rs (verify_and_store_stripe_event configured constructed new_id s).1

  abbrev pub IsPaired : ℕ → WebhookTables db → Type 0
  IsPaired k s =
      (tally (is_event k) (db.rows s.webhook_events) ≡ tally (is_outbox_event k) (db.rows s.outbox))
      × (tally (is_event k) (db.rows s.webhook_events) ≤ 1)

  store_event-IsPaired :
      (k new_id event_id created : ℕ) (s s' : WebhookTables db)
      → store_event new_id event_id created s ≡ some s'
      → IsPaired k s
      → IsPaired k s'
  unfolding store_event add_outbox_event
  store_event-IsPaired k new_id event_id created s s' h (same, one) =
      let e : StripeWebhookEvent = record {
        id = new_id;
        stripe_event_id = event_id;
        stripe_created_at = created * 1_000;
      } in
      let o = outbox_input new_id event_id in
      let new_event : any (is_event event_id) (db.rows s.webhook_events) ≡ false =
        ground (arith, h) in
      let new_key : any (is_outbox_event event_id) (db.rows s.outbox) ≡ false =
        ground (arith, h, new_event) in
      let stored : s' ≡ record {
        webhook_events = db.create e s.webhook_events;
        outbox = db.create o s.outbox;
      } =
        ground (arith, h, new_event, new_key) in
      rw stored (
        rw (db.rows_create e s.webhook_events, db.rows_create o s.outbox)
          (elim (Bool-cases (event_id == k)) [
            | inl own ↦
                let i : event_id ≡ k = ground (arith, own) in
                let no_event =
                  tally_none (is_event k) (db.rows s.webhook_events) (rw (sym i) new_event) in
                ground (arith, own, same, no_event)
            | inr other ↦ ground (arith, other, same, one)
          ]))

  -- Every stored event is in the outbox once: if, for an event, the stored rows and the outbox rows
  -- under its key are equally many and one at most, then so after any requests to the webhook, the
  -- repeated, the unsigned and the concurrent ones that come second included.
  pub receive_all-IsPaired :
      (k : ℕ) (rs : List (Bool × Result (ℕ × ℕ) × ℕ)) (s : WebhookTables db)
      → IsPaired k s
      → IsPaired k (receive_all rs s)
  unfolding receive_all verify_and_store_stripe_event
  receive_all-IsPaired k [] s h = h
  receive_all-IsPaired k ((false, constructed, new_id) ∷ rs) s h = receive_all-IsPaired k rs s h
  receive_all-IsPaired k ((true, err e, new_id) ∷ rs) s h = receive_all-IsPaired k rs s h
  receive_all-IsPaired k ((true, ok (event_id, created), new_id) ∷ rs) s h =
      elim (Option-cases (store_event new_id event_id created s)) [
        | inl twice ↦
            rw (twice, receive_all, verify_and_store_stripe_event) (receive_all-IsPaired k rs s h)
        | inr (s', stored) ↦
            rw (stored, receive_all, verify_and_store_stripe_event)
              (receive_all-IsPaired k rs s'
                (store_event-IsPaired k new_id event_id created s s' stored h))
      ]
