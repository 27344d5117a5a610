-- ===== src/Outbox/Worker.antt =====
-- `processNotification` of src/queues/notification.worker.ts. The provider call, with the send
-- limits and the internal handlers, is the parameter `attempt`; `meanwhile` is what other
-- transactions do to the tables while it runs. Of the delivery record the fields that the worker
-- reads or that say what happened are kept.
pub mod Stale
pub mod Start
pub mod Deliver
use production_backend_found.Prelude.{
  ℕ, ◌+◌, Bool, true, false, not, ◌&&◌, ◌||◌, Option, none, some, String, ◌==◌, if◌then◌else◌,
  is_none, is_some, is_at, is_past,
}
use text.Mathlib.Text.{◌==◌ as str_eq}
use production_backend_found.Errors.{ok, err}
use production_backend_found.Store.{Prisma, update_one}
use production_backend_found.Outbox.Event.{
  OutboxEvent, is_open, is_startable, is_processing, is_delivered, is_internal, Disposition,
  delivery_failure_disposition,
}
use production_backend_found.Outbox.Action.{
  is_delivery, mark_expired, mark_processing, mark_delivered, mark_failed,
}

pub data DeliveryStatus : Type 0 where
  processing sent delivered suppressed bounced complained failed : DeliveryStatus

pub record NotificationDelivery : Type 0 where
  pub outbox_event_id : ℕ
  pub status : DeliveryStatus
  pub attempts : ℕ
  pub sent_at : Option ℕ
  pub last_error : Option String

-- The statuses that `recordDeliveryStarted` takes for a delivery that was made.
abbrev pub is_recorded : DeliveryStatus → Bool
is_recorded processing = false
is_recorded failed = false
is_recorded _ = true

-- What the provider answers, or the message of what it throws.
pub data Attempt : Type 0 where
  sent suppressed : Attempt
  throws : String → Attempt

pub record Job : Type 0 where
  pub outbox_id : ℕ
  pub generation : Option ℕ
  pub attempts_made : ℕ
  pub configured_attempts : Option ℕ

abbrev pub generation_or_zero : Option ℕ → ℕ
generation_or_zero none = 0
generation_or_zero (some g) = g

-- How the job ends: `threw` makes the queue count a failed attempt.
pub data Outcome : Type 0 where
  returned threw : Outcome

pub data StripeEventStatus : Type 0 where
  received processing processed failed : StripeEventStatus

-- The row of a stored Stripe event.
pub record WebhookEvent : Type 0 where
  pub id : ℕ
  pub status : StripeEventStatus
  pub last_error : Option String

pub record Tables (db : Prisma) : Type 0 where
  pub events : db.Table OutboxEvent
  pub deliveries : db.Table NotificationDelivery
  pub webhooks : db.Table WebhookEvent

unfoldable pub stripe_webhook_event_id : OutboxEvent → Option ℕ
stripe_webhook_event_id e =
    if is_internal e.channel && str_eq e.event_type "stripe.event_received"
    then e.payload_webhook_event_id
    else none

-- Without an identifier no row is selected.
abbrev pub is_webhook_of : OutboxEvent → WebhookEvent → Bool
is_webhook_of e w = is_at (stripe_webhook_event_id e) w.id

abbrev pub fail_webhook : String → WebhookEvent → WebhookEvent
fail_webhook message w = record w { status = StripeEventStatus.failed; last_error = some message }

-- The client's message for an update of a row that is missing (P2025).
abbrev pub record_missing : String
record_missing =
    "An operation failed because it depends on one or more records that were required but not found."

abbrev pub is_for : ℕ → NotificationDelivery → Bool
is_for id d = d.outbox_event_id == id

abbrev pub first_attempt : ℕ → NotificationDelivery
first_attempt id = record {
  outbox_event_id = id;
  status = processing;
  attempts = 1;
  sent_at = none;
  last_error = none;
}

abbrev pub next_attempt : NotificationDelivery → NotificationDelivery
next_attempt d = record d { status = processing; attempts = d.attempts + 1; last_error = none }

-- The `data` of `recordDeliveryResult`.
abbrev pub record_result : ℕ → Attempt → NotificationDelivery → NotificationDelivery
record_result now suppressed d = record d {
  status = DeliveryStatus.suppressed;
  sent_at = none;
  last_error = none;
}
record_result now _ d = record d {
  status = DeliveryStatus.sent;
  sent_at = some now;
  last_error = none;
}

-- `existing && [...].includes(existing.status)`.
abbrev pub already_recorded : Option NotificationDelivery → Bool
already_recorded none = false
already_recorded (some d) = is_recorded d.status

-- The `where` that every write of one job begins with.
abbrev pub is_this : Job → OutboxEvent → Bool
is_this job = is_delivery job.outbox_id (generation_or_zero job.generation)

module _ (db : Prisma) (now : ℕ) (job : Job) where
  -- `recordDeliveryError` and `recordDeliveryFailure`.
  pub fail_delivery : String → OutboxEvent → Tables db → Tables db
  fail_delivery message event s =
      let updated =
        db.update_many (λ e. is_this job e && is_open e.status)
          (mark_failed now message
            (delivery_failure_disposition job.attempts_made job.configured_attempts))
          s.events in
      let failed_webhooks =
        (db.update_many (is_webhook_of event) (fail_webhook message) s.webhooks).0 in
      record {
        events = updated.0;
        deliveries =
            (db.update_many (is_for job.outbox_id)
              (λ d. record d { status = DeliveryStatus.failed; last_error = some message })
              s.deliveries).0;
        webhooks = if updated.1 == 1 then failed_webhooks else s.webhooks;
      }

  -- Closing the event; a count other than one throws inside the `try`.
  pub close_delivery : OutboxEvent → Tables db → Outcome × Tables db
  close_delivery event s =
      let closed =
        db.update_many (λ e. is_this job e && is_processing e.status) (mark_delivered now)
          s.events in
      let s' : Tables db = record s { events = closed.0 } in
      if closed.1 == 1
      then (returned, s')
      else (threw, fail_delivery "Outbox delivery state changed unexpectedly" event s')

  -- Recording the provider's answer, whose row has to be there, and closing the event.
  pub settle_delivery : Attempt → OutboxEvent → Tables db → Outcome × Tables db
  settle_delivery (throws message) event s = (threw, fail_delivery message event s)
  settle_delivery answer event s =
      elim (update_one db (is_for job.outbox_id) (record_result now answer) s.deliveries) [
        | err _ ↦ (threw, fail_delivery record_missing event s)
        | ok deliveries ↦ close_delivery event (record s { deliveries = deliveries })
      ]

  -- From `recordDeliveryStarted` on, after the event was moved to PROCESSING.
  pub deliver_event :
      (OutboxEvent → Attempt)
      → (Tables db → Tables db)
      → OutboxEvent
      → Tables db
      → Outcome × Tables db
  deliver_event attempt meanwhile event s =
      if already_recorded (db.find_first (is_for job.outbox_id) s.deliveries)
      then (
        returned,
        record s {
          events =
              (db.update_many (λ e. is_this job e && is_processing e.status) (mark_delivered now)
                s.events).0;
        },
      )
      else settle_delivery (attempt event) event (
          meanwhile (record s {
            deliveries =
                db.upsert (is_for job.outbox_id) (first_attempt job.outbox_id) next_attempt
                  s.deliveries;
          }))

  -- From the read of the event on.
  pub handle_event :
      (OutboxEvent → Attempt)
      → (Tables db → Tables db)
      → OutboxEvent
      → Tables db
      → Outcome × Tables db
  handle_event attempt meanwhile event s =
      let started =
        db.update_many (λ e. is_this job e && is_startable e.status) mark_processing s.events in
      let s' : Tables db = record s { events = started.0 } in
      if not (is_open event.status)
        || not (event.delivery_generation == generation_or_zero job.generation)
      then (returned, s)
      else if is_past event.expires_at now
      then (
        returned,
        record s {
          events =
              (db.update_many (λ e. is_this job e && not (is_delivered e.status)) (mark_expired now)
                s.events).0;
        },
      )
      else if started.1 == 1
      then deliver_event attempt meanwhile event s'
      else (returned, s')

  pub process_notification :
      (OutboxEvent → Attempt) → (Tables db → Tables db) → Tables db → Outcome × Tables db
  process_notification attempt meanwhile s =
      elim (db.find_first (λ e. e.id == job.outbox_id && is_none e.deleted_at) s.events) [
        | none ↦ (returned, s)
        | some event ↦ handle_event attempt meanwhile event s
      ]
