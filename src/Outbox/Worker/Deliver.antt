-- ===== src/Outbox/Worker/Deliver.antt =====
-- A job that starts: what it does to the tables when the provider sends and when it throws
-- (src/queues/notification.worker.ts).
use production_backend_found.Prelude.{
  ℕ, ◌+◌, ◌≡◌, refl, false, ◌&&◌, some, any, tally, update_where, arith, update_where-update_where,
  tally-update_where_moved, ap, ◌∙◌, ◌∷◌, ◌≤◌, ◌↔◌,
}
use production_backend_found.Store.{Prisma}
use production_backend_found.Outbox.Event.{
  OutboxEvent, is_startable, is_processing, delivery_failure_disposition,
}
use production_backend_found.Outbox.Action.{mark_processing, mark_delivered}
use production_backend_found.Outbox.Worker.{
  Attempt, sent, Job, returned, Tables, is_for, first_attempt, record_result, process_notification,
}
use production_backend_found.Outbox.Event.{to_dead_letter}
use production_backend_found.Outbox.Worker.{is_this}
use production_backend_found.Outbox.Worker.Start.{
  Starts, started, process_notification-started, attempted, deliver_event_new, rows-started,
  unheld_processing, settle_delivery_sent, tally-attempted, rows-recorded,
}

module _ (db : Prisma) (now : ℕ) (job : Job) where
  -- A job that starts, for an event with no delivery on record, makes the delivery: if the provider
  -- sends, and nobody, an internal handler included, writes the two tables while it does, the job
  -- returns, the event is DELIVERED
  -- and the delivery is recorded as SENT, and no other row of the two tables changes.
  pub process_notification_delivers :
      (attempt : OutboxEvent → Attempt) (s : Tables db) (e : OutboxEvent)
      → Starts db now job s e
      → any (is_for job.outbox_id) (db.rows s.deliveries) ≡ false
      → attempt e ≡ sent
      → let (outcome, s') = process_notification db now job attempt (λ x. x) s in
        (outcome ≡ returned)
        × (db.rows s'.events
            ≡ update_where
                (λ x. is_this job x && is_startable x.status)
                (λ x. mark_delivered now (mark_processing x))
                (db.rows s.events))
        × (db.rows s'.deliveries
            ≡ record_result now sent (first_attempt job.outbox_id) ∷ db.rows s.deliveries)
  process_notification_delivers attempt s e h new answer =
      let alone = unheld_processing db now job s e h in
      let one =
        ap (tally (λ x. is_this job x && is_processing x.status)) (rows-started db now job s)
        ∙ tally-update_where_moved _ (λ x. is_this job x && is_processing x.status) mark_processing
            (db.rows s.events) (λ x. ground arith) alone
        ∙ h.single in
      rw
        (
          process_notification-started db now job attempt (λ x. x) s e h,
          deliver_event_new db now job attempt (λ x. x) (started db now job s) e new,
          answer,
          settle_delivery_sent db now job e (attempted db now job (started db now job s)) one
              (tally-attempted db now job (started db now job s) new),
        )
        (
          refl,
          db.rows_update_many _ (mark_delivered now) (started db now job s).events
              ∙ ap (update_where _ (mark_delivered now)) (rows-started db now job s)
              ∙ update_where-update_where _ _ mark_processing (mark_delivered now)
                  (db.rows s.events) (λ x. ground arith) alone,
          rows-recorded db now job s (record_result now sent) new,
        )

-- With k ≥ 1 attempts configured, a failure dead-letters the event exactly when it is the k-th.
pub dead_letter_iff_last :
    (made k : ℕ)
    → 1 ≤ k
    → (delivery_failure_disposition made (some k) ≡ to_dead_letter) ↔ (k ≤ made + 1)
unfolding delivery_failure_disposition
dead_letter_iff_last made k h = ground arith
