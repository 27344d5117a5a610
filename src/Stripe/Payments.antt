-- ===== src/Stripe/Payments.antt =====
-- `upsertPayment` of src/modules/stripe/stripe.webhooks.service.ts: the row of a payment intent, as
-- the events about it leave it. The unique keys of charges and checkout sessions are not modelled.
-- Identifiers are numbers; those of events are compared as the database orders their texts.
pub mod Order
pub mod Arrival
pub mod Latest
use production_backend_found.Prelude.{
  ℕ, Bool, true, false, ◌&&◌, ◌||◌, Option, none, some, String, ◌==◌, ltb, is_none, is_at, any,
}
use production_backend_found.Store.{Prisma}

pub record StripePayment : Type 0 where
  pub id : ℕ
  pub organization_id : Option ℕ
  pub user_id : ℕ
  pub stripe_payment_intent_id : Option ℕ
  pub checkout_session_id : Option ℕ
  pub charge_id : Option ℕ
  pub status : String
  pub amount : Option ℕ
  pub amount_refunded : ℕ
  pub currency : Option String
  pub last_stripe_event_id : Option ℕ
  pub last_stripe_event_created_at : Option ℕ
  pub deleted_at : Option ℕ

pub record StripeProjectionCursor : Type 0 where
  pub event_id : ℕ
  pub created_at : ℕ
  pub authoritative : Bool

pub record StripeAttribution : Type 0 where
  pub user_id : ℕ
  pub organization_id : Option ℕ

pub record PaymentInput : Type 0 where
  pub payment_intent_id : ℕ
  pub checkout_session_id : Option ℕ
  pub charge_id : Option ℕ
  pub status : String
  pub amount : Option ℕ
  pub amount_refunded : Option ℕ
  pub currency : Option String

-- `...(value ? { column: value } : {})`: the column keeps its value without a new one.
abbrev pub or_keep {ℓ} : {A : Type ℓ} → Option A → Option A → Option A
or_keep none old = old
or_keep (some new) old = some new

abbrev pub or_value {ℓ} : {A : Type ℓ} → Option A → A → A
or_value none old = old
or_value (some new) old = new

-- `{ lt: … }` on a nullable column.
abbrev is_lt : Option ℕ → ℕ → Bool
is_lt none b = false
is_lt (some a) b = ltb a b

-- The `OR` of the projections: what is stored is older than the event, or the event's object was
-- read from the provider just now.
abbrev pub is_superseded : StripeProjectionCursor → Option ℕ → Option ℕ → Bool
is_superseded cursor created_at event_id =
    cursor.authoritative
    || is_none created_at
    || is_lt created_at cursor.created_at
    || (is_at created_at cursor.created_at && is_lt event_id cursor.event_id)

abbrev pub is_intent : ℕ → StripePayment → Bool
is_intent k p = is_at p.stripe_payment_intent_id k

abbrev pub new_payment :
    ℕ → StripeAttribution → PaymentInput → StripeProjectionCursor → StripePayment
new_payment new_id attribution input cursor = record {
  id = new_id;
  organization_id = attribution.organization_id;
  user_id = attribution.user_id;
  stripe_payment_intent_id = some input.payment_intent_id;
  checkout_session_id = input.checkout_session_id;
  charge_id = input.charge_id;
  status = input.status;
  amount = input.amount;
  amount_refunded = or_value input.amount_refunded 0;
  currency = input.currency;
  last_stripe_event_id = some cursor.event_id;
  last_stripe_event_created_at = some cursor.created_at;
  deleted_at = none;
}

-- The `update` of the upsert.
abbrev pub attribute : StripeAttribution → PaymentInput → StripePayment → StripePayment
attribute attribution input p = record p {
  checkout_session_id = or_keep input.checkout_session_id p.checkout_session_id;
  user_id = attribution.user_id;
  organization_id = attribution.organization_id;
}

-- The `data` of the projection.
abbrev pub project : PaymentInput → StripeProjectionCursor → StripePayment → StripePayment
project input cursor p = record p {
  charge_id = or_keep input.charge_id p.charge_id;
  status = input.status;
  amount = or_keep input.amount p.amount;
  amount_refunded = or_value input.amount_refunded p.amount_refunded;
  currency = or_keep input.currency p.currency;
  last_stripe_event_id = some cursor.event_id;
  last_stripe_event_created_at = some cursor.created_at;
}

abbrev pub is_projected : ℕ → StripeProjectionCursor → StripePayment → Bool
is_projected id cursor p =
    p.id == id
    && is_superseded cursor p.last_stripe_event_created_at p.last_stripe_event_id
    && is_none p.deleted_at

module _ (db : Prisma) where
  -- The row's identifier is read back from the upsert.
  unfoldable pub upsert_payment :
      ℕ
      → StripeAttribution
      → PaymentInput
      → StripeProjectionCursor
      → db.Table StripePayment
      → db.Table StripePayment
  upsert_payment new_id attribution input cursor t =
      let stored =
        db.upsert (is_intent input.payment_intent_id) (new_payment new_id attribution input cursor)
          (attribute attribution input) t in
      elim (db.find_first (is_intent input.payment_intent_id) stored) [
        | none ↦ stored
        | some payment ↦
            (db.update_many (is_projected payment.id cursor) (project input cursor) stored).0
      ]
