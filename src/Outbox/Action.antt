-- ===== src/Outbox/Action.antt =====
-- Every conditional write of the relay and the worker to one event: its `where` and its `data`, as
-- src/modules/outbox and src/queues/notification.worker.ts state them.
use production_backend_found.Prelude.{
  ℕ, ◌+◌, Bool, not, ◌&&◌, none, some, String, List, [], ◌∷◌, ◌==◌, if◌then◌else◌, is_none, is_at,
}
use production_backend_found.Outbox.Event.{
  OutboxEvent, pending, enqueued, processing, delivered, dead_letter, is_claimed, is_processing,
  is_delivered, is_dead_letter, is_startable, is_open, Disposition, retry, to_dead_letter,
}
use production_backend_found.Outbox.Claim.{is_available, mark_claimed}

-- OUTBOX_ENQUEUE_RETRY_DELAY_MS.
abbrev pub enqueue_retry_delay_ms : ℕ
enqueue_retry_delay_ms = 5000

-- Both outcomes of an enqueue: `{ id, status: 'CLAIMED', claimToken: event.claimToken }`, to which
-- the soft-delete extension of src/lib/prisma.ts adds `deletedAt: null`, as to every `updateMany`.
abbrev pub holds_claim : ℕ → ℕ → OutboxEvent → Bool
holds_claim id token e =
    e.id == id && is_claimed e.status && is_at e.claim_token token && is_none e.deleted_at

-- `releaseClaimAfterEnqueueFailure`.
abbrev pub release_claim : ℕ → String → OutboxEvent → OutboxEvent
release_claim now message e = record e {
  status = pending;
  available_at = now + enqueue_retry_delay_ms;
  claimed_at = none;
  claim_expires_at = none;
  claim_token = none;
  last_error = some message;
}

-- The success of `enqueueClaimedEvent`.
abbrev pub mark_enqueued : ℕ → OutboxEvent → OutboxEvent
mark_enqueued now e = record e {
  status = enqueued;
  enqueued_at = some now;
  claimed_at = none;
  claim_expires_at = none;
  claim_token = none;
  last_error = none;
}

-- `redriveDeadLetterEvent`.
abbrev pub is_redrivable : ℕ → ℕ → OutboxEvent → Bool
is_redrivable id generation e =
    e.id == id
    && is_dead_letter e.status
    && e.delivery_generation == generation
    && is_none e.deleted_at

abbrev pub mark_redriven : ℕ → OutboxEvent → OutboxEvent
mark_redriven now e = record e {
  status = pending;
  attempts = 0;
  delivery_generation = e.delivery_generation + 1;
  available_at = now;
  claimed_at = none;
  claim_expires_at = none;
  claim_token = none;
  enqueued_at = none;
  delivered_at = none;
  failed_at = none;
  dead_lettered_at = none;
  last_error = none;
}

-- `id` and `deliveryGeneration`, which every write of the worker fixes.
abbrev pub is_delivery : ℕ → ℕ → OutboxEvent → Bool
is_delivery id generation e =
    e.id == id && e.delivery_generation == generation && is_none e.deleted_at

abbrev pub mark_expired : ℕ → OutboxEvent → OutboxEvent
mark_expired now e = record e {
  status = dead_letter;
  failed_at = some now;
  dead_lettered_at = some now;
  last_error = some "Business expiry elapsed before delivery";
}

abbrev pub mark_processing : OutboxEvent → OutboxEvent
mark_processing e = record e {
  status = processing;
  attempts = e.attempts + 1;
  claimed_at = none;
  claim_expires_at = none;
  claim_token = none;
}

abbrev pub mark_delivered : ℕ → OutboxEvent → OutboxEvent
mark_delivered now e = record e {
  status = delivered;
  delivered_at = some now;
  failed_at = none;
  dead_lettered_at = none;
  last_error = none;
}

-- The `data` of `recordDeliveryFailure`.
abbrev pub mark_failed : ℕ → String → Disposition → OutboxEvent → OutboxEvent
mark_failed now message to_dead_letter e = record e {
  status = dead_letter;
  failed_at = some now;
  dead_lettered_at = some now;
  last_error = some message;
}
mark_failed now message retry e = record e {
  status = enqueued;
  failed_at = none;
  dead_lettered_at = none;
  last_error = some message;
}

-- A write with its parameters.
pub data Action : Type 0 where
  claims : ℕ → ℕ → Action
  releases : ℕ → ℕ → ℕ → String → Action
  enqueues : ℕ → ℕ → ℕ → Action
  redrives : ℕ → ℕ → ℕ → Action
  expires starts_at delivers : ℕ → ℕ → ℕ → Action
  fails : ℕ → ℕ → ℕ → String → Disposition → Action

abbrev pub selects : Action → OutboxEvent → Bool
selects (claims now token) e = is_available now e
selects (releases id token now message) e = holds_claim id token e
selects (enqueues id token now) e = holds_claim id token e
selects (redrives id generation now) e = is_redrivable id generation e
selects (expires id generation now) e = is_delivery id generation e && not (is_delivered e.status)
selects (starts_at id generation now) e = is_delivery id generation e && is_startable e.status
selects (delivers id generation now) e = is_delivery id generation e && is_processing e.status
selects (fails id generation now message d) e = is_delivery id generation e && is_open e.status

abbrev pub writes : Action → OutboxEvent → OutboxEvent
writes (claims now token) = mark_claimed now token
writes (releases id token now message) = release_claim now message
writes (enqueues id token now) = mark_enqueued now
writes (redrives id generation now) = mark_redriven now
writes (expires id generation now) = mark_expired now
writes (starts_at id generation now) = mark_processing
writes (delivers id generation now) = mark_delivered now
writes (fails id generation now message d) = mark_failed now message d

-- What one write does to one row.
unfoldable pub act : Action → OutboxEvent → OutboxEvent
unfolding is_available
act a e = if selects a e then writes a e else e

unfoldable pub run : List Action → OutboxEvent → OutboxEvent
unfolding act
run [] e = e
run (a ∷ rest) e = run rest (act a e)
