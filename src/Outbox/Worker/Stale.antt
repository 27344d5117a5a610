-- ===== src/Outbox/Worker/Stale.antt =====
-- Jobs that must not deliver: stale, early and repeated ones (src/queues/notification.worker.ts).
use production_backend_found.Prelude.{
  ℕ, ◌≡◌, refl, true, false, not, ◌&&◌, ◌==◌, is_none, any, arith, Option-cases, inl, inr, any-Memᴰ,
}
use production_backend_found.Store.{Prisma}
use production_backend_found.Outbox.Event.{OutboxEvent, is_open}
use production_backend_found.Outbox.Worker.{
  Attempt, Job, returned, Tables, is_for, is_recorded, already_recorded, process_notification,
  handle_event, deliver_event,
}
use production_backend_found.Outbox.Worker.{is_this}

module _ (db : Prisma) (now : ℕ) (job : Job) where
  -- A job whose event is gone, delivered, dead-lettered or of another generation returns and leaves
  -- both tables as they were, whatever the provider would have answered.
  pub process_notification_stale :
      (attempt : OutboxEvent → Attempt) (meanwhile : Tables db → Tables db) (s : Tables db)
      → any (λ e. is_this job e && is_open e.status) (db.rows s.events) ≡ false
      → process_notification db now job attempt meanwhile s ≡ (returned, s)
  unfolding process_notification handle_event
  process_notification_stale attempt meanwhile s stale =
      elim (Option-cases
        (db.find_first (λ e. e.id == job.outbox_id && is_none e.deleted_at) s.events)) [
          | inl missing ↦ rw (missing, process_notification)
          | inr (e, found) ↦
              let (listed, matches) = db.find_first_selects _ s.events e found in
              let closed = any-Memᴰ _ stale listed in
              rw (found, process_notification) (ground (arith, matches, closed))
        ]

  -- A delivery that is on record as made is not made again: if every record of the event says so,
  -- the result does not depend on the provider, nor on what happens while it would run.
  pub process_notification_once :
      (attempt attempt' : OutboxEvent → Attempt) (meanwhile meanwhile' : Tables db → Tables db)
      (s : Tables db)
      → any (is_for job.outbox_id) (db.rows s.deliveries) ≡ true
      → any (λ d. is_for job.outbox_id d && not (is_recorded d.status)) (db.rows s.deliveries)
        ≡ false
      → process_notification db now job attempt meanwhile s
        ≡ process_notification db now job attempt' meanwhile' s
  unfolding process_notification handle_event deliver_event
  process_notification_once attempt attempt' meanwhile meanwhile' s exists recorded =
      elim (Option-cases (db.find_first (is_for job.outbox_id) s.deliveries)) [
        | inl missing ↦ cc (exists, db.find_first_misses _ s.deliveries missing)
        | inr (d, found) ↦
            let (listed, matches) = db.find_first_selects _ s.deliveries d found in
            let made = any-Memᴰ _ recorded listed in
            let answered : is_recorded d.status ≡ true = ground (arith, matches, made) in
            elim (Option-cases
              (db.find_first (λ e. e.id == job.outbox_id && is_none e.deleted_at) s.events)) [
                | inl gone ↦ rw (gone, process_notification)
                | inr (e, at) ↦
                    rw (at, process_notification) (rw (found, already_recorded) (rw answered refl))
              ]
      ]
