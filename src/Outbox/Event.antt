-- ===== src/Outbox/Event.antt =====
-- `OutboxEvent` of prisma/schema.prisma as the relay and the worker read it, and
-- src/modules/outbox/outbox.policy.ts. Identifiers and tokens are numbers that are only compared;
-- times are in milliseconds.
use production_backend_found.Prelude.{
  ℕ, ◌+◌, Bool, true, false, Option, none, some, String, max, leb, if◌then◌else◌,
}

pub data OutboxStatus : Type 0 where
  pending claimed enqueued processing delivered failed dead_letter : OutboxStatus

pub data NotificationChannel : Type 0 where
  email sms push internal : NotificationChannel

pub record OutboxEvent : Type 0 where
  pub id : ℕ
  pub channel : NotificationChannel
  pub event_type : String
  -- The `stripeWebhookEventId` of its payload, where that is a text.
  pub payload_webhook_event_id : Option ℕ
  pub status : OutboxStatus
  pub attempts : ℕ
  pub delivery_generation : ℕ
  pub available_at : ℕ
  pub expires_at : Option ℕ
  pub claimed_at : Option ℕ
  pub claim_expires_at : Option ℕ
  pub claim_token : Option ℕ
  pub enqueued_at : Option ℕ
  pub delivered_at : Option ℕ
  pub failed_at : Option ℕ
  pub dead_lettered_at : Option ℕ
  pub last_error : Option String
  pub created_at : ℕ
  pub deleted_at : Option ℕ

abbrev pub is_internal : NotificationChannel → Bool
is_internal internal = true
is_internal _ = false

abbrev pub is_pending : OutboxStatus → Bool
is_pending pending = true
is_pending _ = false

abbrev pub is_claimed : OutboxStatus → Bool
is_claimed claimed = true
is_claimed _ = false

abbrev pub is_processing : OutboxStatus → Bool
is_processing processing = true
is_processing _ = false

abbrev pub is_delivered : OutboxStatus → Bool
is_delivered delivered = true
is_delivered _ = false

abbrev pub is_dead_letter : OutboxStatus → Bool
is_dead_letter dead_letter = true
is_dead_letter _ = false

-- `status: { in: ['ENQUEUED', 'FAILED'] }`.
abbrev pub is_startable : OutboxStatus → Bool
is_startable enqueued = true
is_startable failed = true
is_startable _ = false

-- `status: { notIn: ['DELIVERED', 'DEAD_LETTER'] }`.
abbrev pub is_open : OutboxStatus → Bool
is_open delivered = false
is_open dead_letter = false
is_open _ = true

-- OUTBOX_MAX_DELIVERY_ATTEMPTS.
abbrev pub max_delivery_attempts : ℕ
max_delivery_attempts = 5

pub data Disposition : Type 0 where
  retry to_dead_letter : Disposition

abbrev attempts_or_one : Option ℕ → ℕ
attempts_or_one none = 1
attempts_or_one (some n) = n

unfoldable pub delivery_failure_disposition : ℕ → Option ℕ → Disposition
delivery_failure_disposition attempts_made configured =
    if leb (max 1 (attempts_or_one configured)) (attempts_made + 1) then to_dead_letter else retry
