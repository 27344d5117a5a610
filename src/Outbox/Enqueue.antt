-- ===== src/Outbox/Enqueue.antt =====
-- `addOutboxEvent` of src/modules/outbox/outbox.service.ts: the row that a transaction adds for the
-- relay, under a key that is unique. Its nudge of the relay is left out.
use production_backend_found.Prelude.{ℕ, Bool, false, Option, ◌==◌}
use production_backend_found.Store.{Prisma, create_unique}
use production_backend_found.Outbox.Event.{NotificationChannel}

-- The template strings that the keys are made by, each with what it is filled with.
pub data DedupeKey : Type 0 where
  stripe_key : ℕ → DedupeKey
  other_key : ℕ → DedupeKey

abbrev pub is_key : DedupeKey → DedupeKey → Bool
is_key (stripe_key a) (stripe_key b) = a == b
is_key (stripe_key a) (other_key b) = false
is_key (other_key a) (stripe_key b) = false
is_key (other_key a) (other_key b) = a == b

pub record OutboxInput : Type 0 where
  pub aggregate_id : ℕ
  pub channel : NotificationChannel
  pub dedupe_key : DedupeKey
  pub available_at : Option ℕ
  pub expires_at : Option ℕ

-- `none` is the violation of the unique key.
unfoldable pub add_outbox_event :
    (db : Prisma) → OutboxInput → db.Table OutboxInput → Option (db.Table OutboxInput)
add_outbox_event db input t = create_unique db (λ e. is_key e.dedupe_key input.dedupe_key) input t
