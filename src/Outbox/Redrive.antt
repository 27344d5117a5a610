-- ===== src/Outbox/Redrive.antt =====
-- `redriveDeadLetterEvent` of src/modules/outbox/outbox.service.ts.
use production_backend_found.Prelude.{
  ℕ, ◌≡◌, false, not, ◌&&◌, ◌==◌, is_none, is_past, Option-cases, inl, inr, arith, tally,
  update_where,
}
use production_backend_found.Errors.{
  Result, ok, ◌>>=◌, ◌>>◌, throw_if, or_throw, not_found_error, conflict_error,
}
use production_backend_found.Store.{Prisma}
use production_backend_found.Outbox.Event.{OutboxEvent, is_dead_letter}
use production_backend_found.Outbox.Action.{is_redrivable, mark_redriven}

module _ (db : Prisma) where
  -- The rows may have changed between the read, of `seen`, and the conditional write, to `t`. An
  -- error rolls the transaction back.
  unfoldable pub redrive_dead_letter_event :
      ℕ → ℕ → db.Table OutboxEvent → db.Table OutboxEvent → Result (db.Table OutboxEvent)
  redrive_dead_letter_event id now seen t = do
    existing ←
        or_throw (db.find_first (λ e. e.id == id && is_none e.deleted_at) seen) not_found_error
    throw_if (not (is_dead_letter existing.status)) conflict_error
    throw_if (is_past existing.expires_at now) conflict_error
    let reset = db.update_many (is_redrivable id existing.delivery_generation) (mark_redriven now) t
    throw_if (not (reset.1 == 1)) conflict_error
    ok reset.0

  -- A redrive that succeeds has found exactly one event that is still a dead letter of the
  -- generation that was read, unexpired then; it leaves the rows as they were but for that one,
  -- which becomes pending under the next generation with no attempts.
  pub redrive-ok :
      (id now : ℕ) (seen t t' : db.Table OutboxEvent)
      → redrive_dead_letter_event id now seen t ≡ ok t'
      → (existing : OutboxEvent) × (existing.id ≡ id)
        × (is_past existing.expires_at now ≡ false)
        × (tally (is_redrivable id existing.delivery_generation) (db.rows t) ≡ 1)
        × (db.rows t'
            ≡ update_where
                (is_redrivable id existing.delivery_generation)
                (mark_redriven now)
                (db.rows t))
  unfolding redrive_dead_letter_event
  redrive-ok id now seen t t' h =
      elim (Option-cases (db.find_first (λ e. e.id == id && is_none e.deleted_at) seen)) [
        | inl missed ↦ absurd (ground (arith, missed))
        | inr (e, found) ↦ (
          e,
          ground (arith, db.find_first_selects _ seen e found),
          ground (arith, found),
          ground (
            arith,
            found,
            db.count_update_many (is_redrivable id e.delivery_generation) (mark_redriven now) t,
          ),
          ground (
            arith,
            found,
            db.rows_update_many (is_redrivable id e.delivery_generation) (mark_redriven now) t,
          ),
        )
      ]
