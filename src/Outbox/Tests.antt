-- ===== src/Outbox/Tests.antt =====
-- The outbox on concrete tables: src/modules/outbox and src/queues/notification.worker.ts.
use production_backend_found.Prelude.{tally, Option, String, if◌then◌else◌}
use production_backend_found.Outbox.Relay.{relay_available_outbox}
use production_backend_found.Outbox.Relay.Drain.{is_waiting, relay_available_outbox-drains}
use production_backend_found.Prelude.{
  ℕ, ◌+◌, ◌-◌, ◌*◌, min, ◌<◌, ◌≡◌, refl, ◌⊎◌, Bool, false, none, some, List, [], ◌∷◌, ◌==◌, any,
  arith,
}
use production_backend_found.Store.Lists.{list_prisma}
use production_backend_found.Outbox.Event.{
  OutboxEvent, email, internal, pending, claimed, enqueued, delivered, dead_letter,
}
use production_backend_found.Outbox.Claim.{claim_outbox_batch, candidates}
use production_backend_found.Outbox.Claim.Laws.{claim_disjoint}
use production_backend_found.Outbox.Action.{redrives, run}
use production_backend_found.Outbox.History.{run-dead_letter, IsConsistent}
use production_backend_found.Outbox.Worker.{
  WebhookEvent, StripeEventStatus, Job, sent, returned, Tables, NotificationDelivery,
  DeliveryStatus, process_notification,
}
use production_backend_found.Outbox.Worker.Deliver.{process_notification_delivers}

abbrev fresh : OutboxEvent
fresh = record {
  id = 1;
  channel = email;
  event_type = "auth.otp";
  payload_webhook_event_id = none;
  status = pending;
  attempts = 0;
  delivery_generation = 0;
  available_at = 100;
  expires_at = none;
  claimed_at = none;
  claim_expires_at = none;
  claim_token = none;
  enqueued_at = none;
  delivered_at = none;
  failed_at = none;
  dead_lettered_at = none;
  last_error = none;
  created_at = 100;
  deleted_at = none;
}

abbrev held : OutboxEvent
held = record fresh { status = claimed; claim_expires_at = some 30200; claim_token = some 7 }

abbrev queued : OutboxEvent
queued = record fresh { status = enqueued; enqueued_at = some 250 }

abbrev dead : OutboxEvent
dead = record fresh { status = dead_letter; dead_lettered_at = some 300; failed_at = some 300 }

abbrev done : OutboxEvent
done = record fresh { status = delivered; delivered_at = some 300 }

abbrev unlocked : ℕ → Bool
unlocked i = false

claims_fresh :
    (claim_outbox_batch list_prisma unlocked 10 200 7 (fresh ∷ record done { id = 2 } ∷ [])).1
    ≡ record held { claimed_at = some 200 } ∷ []
unfolding claim_outbox_batch candidates
claims_fresh = refl

abbrev job : Job
job = record { outbox_id = 1; generation = some 0; attempts_made = 4; configured_attempts = some 5 }

abbrev stored_webhook : WebhookEvent
stored_webhook = record { id = 6; status = StripeEventStatus.processing; last_error = none }

abbrev tables : List OutboxEvent → List NotificationDelivery → Tables list_prisma
tables es ds = record { events = es; deliveries = ds; webhooks = stored_webhook ∷ [] }

claim_disjoint_example :
    any
      (λ e. e.id == 1)
      (claim_outbox_batch list_prisma unlocked 10 300 8
        (claim_outbox_batch list_prisma unlocked 10 200 7 (fresh ∷ [])).0).1
    ≡ false
unfolding claim_outbox_batch candidates
claim_disjoint_example =
    claim_disjoint list_prisma (fresh ∷ []) unlocked unlocked 10 10 200 300 7 8 1 (omega arith) refl

abbrev second_refused : OutboxEvent → Option String
second_refused e = if e.id == 2 then some "queue unavailable" else none

abbrev waiting : List OutboxEvent
waiting = fresh ∷ record fresh { id = 2 } ∷ record held { id = 3 } ∷ []

-- The batches are claimed 10 ms after each other, from the tenth to the first.
abbrev claimed_at : ℕ → ℕ
claimed_at batch = 300 - 10 * min batch 10

relay_available_outbox-drains_example :
    tally
      (is_waiting unlocked 200 300)
      (relay_available_outbox list_prisma false unlocked claimed_at
        (λ batch e. 205 + e.id)
        (λ batch. batch)
        second_refused
        waiting).0
    ≡ 0
relay_available_outbox-drains_example =
    relay_available_outbox-drains list_prisma unlocked 200 300 (omega arith) claimed_at
      (λ batch e. 205 + e.id) (λ batch. (omega arith, omega arith)) (λ batch e. omega arith)
      (λ batch. batch) second_refused waiting (omega arith)

run-dead_letter_example :
    ((run (redrives 1 0 400 ∷ []) dead).status ≡ dead_letter)
    ⊎ (0 < (run (redrives 1 0 400 ∷ []) dead).delivery_generation)
run-dead_letter_example = run-dead_letter (redrives 1 0 400 ∷ []) dead refl

dead-IsConsistent : IsConsistent dead
dead-IsConsistent = ground arith

abbrev recorded : NotificationDelivery
recorded = record {
  outbox_event_id = 1;
  status = DeliveryStatus.sent;
  attempts = 1;
  sent_at = some 350;
  last_error = none;
}

process_notification_delivers_example :
    let (outcome, s') =
      process_notification list_prisma 400 job (λ e. sent) (λ s. s) (tables (queued ∷ []) []) in
    (outcome ≡ returned)
    × (s'.events ≡ record queued { status = delivered; attempts = 1; delivered_at = some 400 } ∷ [])
    × (s'.deliveries ≡ record recorded { sent_at = some 400 } ∷ [])
process_notification_delivers_example =
    process_notification_delivers list_prisma 400 job (λ e. sent) (tables (queued ∷ []) []) queued
      (record {
        found = refl;
        startable = refl;
        current = refl;
        unexpired = refl;
        single = refl;
        unheld = refl;
      })
      refl refl

abbrev stripe_event : OutboxEvent
stripe_event = record queued {
  channel = internal;
  event_type = "stripe.event_received";
  payload_webhook_event_id = some 6;
}
