-- ===== src/Outbox/Worker/Start.antt =====
-- How a delivery starts, and what is on record then (src/queues/notification.worker.ts).
use production_backend_found.Prelude.{
  ℕ, ◌≤◌, ◌≡◌, refl, true, false, not, ◌&&◌, none, some, ◌==◌, is_none, is_past, any, tally,
  update_where, arith, Option-cases, inl, inr, any-Memᴰ, update_where_none, any_mono_false, ap, ◌∙◌,
  List, ◌∷◌,
}
use production_backend_found.Store.{Prisma}
use production_backend_found.Outbox.Event.{OutboxEvent, is_open, is_startable, is_processing}
use production_backend_found.Outbox.Action.{mark_processing, mark_delivered}
use production_backend_found.Outbox.Worker.{
  Attempt, sent, Job, generation_or_zero, returned, Tables, NotificationDelivery, is_for,
  first_attempt, next_attempt, record_result, process_notification, handle_event, deliver_event,
  settle_delivery, close_delivery,
}
use production_backend_found.Outbox.Worker.{is_this}

module _ (db : Prisma) (now : ℕ) (job : Job) where
  -- The start of a delivery: the event that the job reads, open, of its generation, unexpired, and
  -- the one row that can start.
  pub record Starts (s : Tables db) (e : OutboxEvent) : Type 0 where
    pub found : db.find_first (λ x. x.id == job.outbox_id && is_none x.deleted_at) s.events ≡ some e
    pub startable : is_startable e.status ≡ true
    pub current : e.delivery_generation ≡ generation_or_zero job.generation
    pub unexpired : is_past e.expires_at now ≡ false
    pub single : tally (λ x. is_this job x && is_startable x.status) (db.rows s.events) ≡ 1
    pub unheld :
        any
          (λ x. (is_this job x && is_open x.status) && not (is_this job x && is_startable x.status))
          (db.rows s.events)
        ≡ false

  -- The tables once the event was moved to PROCESSING.
  abbrev pub started : Tables db → Tables db
  started s = record s {
    events =
        (db.update_many (λ x. is_this job x && is_startable x.status) mark_processing s.events).0;
  }

  pub process_notification-started :
      (attempt : OutboxEvent → Attempt) (meanwhile : Tables db → Tables db) (s : Tables db)
      (e : OutboxEvent)
      → Starts s e
      → process_notification db now job attempt meanwhile s
        ≡ deliver_event db now job attempt meanwhile e (started s)
  unfolding process_notification handle_event
  process_notification-started attempt meanwhile s e h =
      let one =
        db.count_update_many (λ x. is_this job x && is_startable x.status) mark_processing
          s.events in
      rw (h.found, process_notification) (ground (arith, one))

  pub find_first_new :
      (s : Tables db)
      → any (is_for job.outbox_id) (db.rows s.deliveries) ≡ false
      → db.find_first (is_for job.outbox_id) s.deliveries ≡ none
  find_first_new s new = elim (Option-cases (db.find_first (is_for job.outbox_id) s.deliveries)) [
    | inl missing ↦ missing
    | inr (d, found) ↦
        let (listed, matches) = db.find_first_selects _ s.deliveries d found in
        cc (matches, any-Memᴰ _ new listed)
  ]

  -- The tables once the first attempt was recorded too.
  abbrev pub attempted : Tables db → Tables db
  attempted s = record s {
    deliveries =
        db.upsert (is_for job.outbox_id) (first_attempt job.outbox_id) next_attempt s.deliveries;
  }

  pub deliver_event_new :
      (attempt : OutboxEvent → Attempt) (meanwhile : Tables db → Tables db) (s : Tables db)
      (e : OutboxEvent)
      → any (is_for job.outbox_id) (db.rows s.deliveries) ≡ false
      → deliver_event db now job attempt meanwhile e s
        ≡ settle_delivery db now job (attempt e) e (meanwhile (attempted s))
  unfolding deliver_event
  deliver_event_new attempt meanwhile s e new = rw (find_first_new s new) refl

  pub rows-attempted :
      (s : Tables db)
      → any (is_for job.outbox_id) (db.rows s.deliveries) ≡ false
      → db.rows (attempted s).deliveries ≡ first_attempt job.outbox_id ∷ db.rows s.deliveries
  rows-attempted s new = rw (db.rows_upsert, new) refl

  pub rows-started :
      (s : Tables db)
      → db.rows (started s).events
        ≡ update_where
            (λ x. is_this job x && is_startable x.status)
            mark_processing
            (db.rows s.events)
  rows-started s = db.rows_update_many _ mark_processing s.events

  -- Only the event that was started is in delivery.
  pub unheld_processing :
      (s : Tables db) (e : OutboxEvent)
      → Starts s e
      → any
          (λ x.
            (is_this job x && is_processing x.status)
            && not (is_this job x && is_startable x.status))
          (db.rows s.events)
        ≡ false
  unheld_processing s e h = any_mono_false _ _ (db.rows s.events) (λ x. ground arith) h.unheld

  pub settle_delivery_sent :
      (e : OutboxEvent) (s : Tables db)
      → tally (λ x. is_this job x && is_processing x.status) (db.rows s.events) ≡ 1
      → 1 ≤ tally (is_for job.outbox_id) (db.rows s.deliveries)
      → settle_delivery db now job sent e s ≡ (
        returned,
        record s {
          events =
              (db.update_many
                (λ x. is_this job x && is_processing x.status)
                (mark_delivered now)
                s.events).0;
          deliveries =
              (db.update_many (is_for job.outbox_id) (record_result now sent) s.deliveries).0;
        },
      )
  unfolding settle_delivery close_delivery
  settle_delivery_sent e s one there = ground (
    arith,
    there,
    db.count_update_many (is_for job.outbox_id) (record_result now sent) s.deliveries,
    db.count_update_many (λ x. is_this job x && is_processing x.status) (mark_delivered now)
        s.events,
  )

  -- The record of the attempt is there.
  pub tally-attempted :
      (s : Tables db)
      → any (is_for job.outbox_id) (db.rows s.deliveries) ≡ false
      → 1 ≤ tally (is_for job.outbox_id) (db.rows (attempted s).deliveries)
  tally-attempted s new =
      let rows = ap (tally (is_for job.outbox_id)) (rows-attempted s new) in ground (arith, rows)

  -- A write to the record of the first attempt.
  pub update_where-first_attempt :
      (f : NotificationDelivery → NotificationDelivery) (ds : List NotificationDelivery)
      → any (is_for job.outbox_id) ds ≡ false
      → update_where (is_for job.outbox_id) f (first_attempt job.outbox_id ∷ ds)
        ≡ f (first_attempt job.outbox_id) ∷ ds
  update_where-first_attempt f ds new =
      ground (arith, update_where_none (is_for job.outbox_id) f ds new)

  pub rows-recorded :
      (s : Tables db) (f : NotificationDelivery → NotificationDelivery)
      → any (is_for job.outbox_id) (db.rows s.deliveries) ≡ false
      → db.rows (db.update_many (is_for job.outbox_id) f (attempted s).deliveries).0
        ≡ f (first_attempt job.outbox_id) ∷ db.rows s.deliveries
  rows-recorded s f new =
      db.rows_update_many (is_for job.outbox_id) f (attempted s).deliveries
      ∙ ap (update_where (is_for job.outbox_id) f) (rows-attempted s new)
      ∙ update_where-first_attempt f (db.rows s.deliveries) new
