-- ===== src/Stripe/Chargeable.antt =====
-- src/modules/stripe/stripe.chargeable.ts. Reservation runs in no transaction: `meanwhile` is what
-- others do to the table between the read of an attempt and its write, and an error keeps what was
-- written before it.
pub mod Bounds
pub mod Reservation
use text.Mathlib.Text.{◌==◌ as str_eq}
use production_backend_found.Prelude.{
  ℕ, Bool, true, false, not, ◌&&◌, ◌||◌, Option, none, some, String, List, [], ◌∷◌, ◌==◌, ltb,
  is_none, is_some, is_at, is_past, any, if◌then◌else◌,
}
use production_backend_found.Errors.{
  Result, ok, err, ◌>>=◌, ◌>>◌, throw_if, or_throw, bad_request_error, not_found_error,
  conflict_error, service_unavailable_error,
}
use production_backend_found.Store.{Prisma}

-- The settings that the code reads from `env`.
pub record Pricing : Type 0 where
  pub dynamic_pricing_enabled : Bool
  pub charge_allowed_currencies : List String
  pub charge_max_amount : String → Option ℕ
  pub charge_min_amount : String → Option ℕ

-- A number of JavaScript: an integer of either sign, or a value that is none (a fraction, NaN, an
-- infinity), which is only told from other such values.
pub data JsNumber : Type 0 where
  whole negative not_integer : ℕ → JsNumber

abbrev pub is_integer : JsNumber → Bool
is_integer (not_integer _) = false
is_integer _ = true

-- `value < bound`, asked of integers only.
abbrev pub is_less : JsNumber → ℕ → Bool
is_less (whole n) bound = ltb n bound
is_less (negative n) bound = true
is_less (not_integer n) bound = false

-- `value > bound`, asked of integers only.
abbrev pub is_more : JsNumber → ℕ → Bool
is_more (whole n) bound = ltb bound n
is_more _ bound = false

pub record ChargeableAmount : Type 0 where
  pub amount : JsNumber
  pub currency : String
  pub description : String

pub record ReservedChargeable : Type 0 where
  pub chargeable : ChargeableAmount
  pub reservation_id : ℕ
  pub reservation_key_hash : ℕ

pub data ItemStatus : Type 0 where
  open_item reserved consumed expired canceled : ItemStatus

abbrev pub is_open_item : ItemStatus → Bool
is_open_item open_item = true
is_open_item _ = false

abbrev pub is_reserved : ItemStatus → Bool
is_reserved reserved = true
is_reserved _ = false

pub record ChargeableItem : Type 0 where
  pub id : ℕ
  pub reference : String
  pub amount : JsNumber
  pub currency : String
  pub description : String
  pub user_id : Option ℕ
  pub status : ItemStatus
  pub reservation_key_hash : Option ℕ
  pub payment_intent_id : Option ℕ
  pub expires_at : Option ℕ
  pub reserved_at : Option ℕ
  pub consumed_at : Option ℕ
  pub deleted_at : Option ℕ

module _ (pricing : Pricing) (lower : String → String) where
  abbrev is_below : JsNumber → Option ℕ → Bool
  is_below amount none = false
  is_below amount (some minimum) = is_less amount minimum

  unfoldable pub assert_chargeable_within_bounds : ChargeableAmount → Result (Unit {0})
  assert_chargeable_within_bounds c = do
    let currency = lower c.currency
    throw_if (not (is_integer c.amount) || is_less c.amount 1) bad_request_error
    throw_if (not (any (λ a. str_eq a currency) pricing.charge_allowed_currencies))
        bad_request_error
    maximum ← or_throw (pricing.charge_max_amount currency) bad_request_error
    throw_if (is_more c.amount maximum) bad_request_error
    throw_if (is_below c.amount (pricing.charge_min_amount currency)) bad_request_error

  unfoldable pub require_dynamic_pricing : Result (Unit {0})
  require_dynamic_pricing = throw_if (not pricing.dynamic_pricing_enabled) conflict_error

  -- `{ ...chargeable, currency: chargeable.currency.toLowerCase() }`.
  abbrev pub normalise : ChargeableAmount → ChargeableAmount
  normalise c = record c { currency = lower c.currency }

  -- `resolve` is the resolver's answer for the reference.
  unfoldable pub resolve_chargeable : Result ChargeableAmount → Result ChargeableAmount
  resolve_chargeable resolve = do
    require_dynamic_pricing
    chargeable ← resolve
    assert_chargeable_within_bounds (normalise chargeable)
    ok (normalise chargeable)

  -- `reserve` is the resolver's reservation, which it may not implement; `State` is what the
  -- reservation writes to.
  unfoldable pub reserve_chargeable :
      {State : Type 0}
      → Option (State → Result ReservedChargeable × State)
      → State
      → Result ReservedChargeable × State
  reserve_chargeable none s = (do require_dynamic_pricing; err service_unavailable_error, s)
  reserve_chargeable (some reserve) s = elim require_dynamic_pricing [
    | err e ↦ (err e, s)
    | ok _ ↦
        let (answer, s') = reserve s in
        (
          do
            r ← answer
            assert_chargeable_within_bounds (normalise r.chargeable)
            ok (record r { chargeable = normalise r.chargeable }),
          s',
        )
  ]

unfoldable pub item_amount : (String → String) → ChargeableItem → ChargeableAmount
item_amount lower i = record {
  amount = i.amount;
  currency = lower i.currency;
  description = i.description;
}

abbrev pub is_other_owner : Option ℕ → ℕ → Bool
is_other_owner none user_id = false
is_other_owner (some o) user_id = not (o == user_id)

unfoldable pub assert_item_owner_and_expiry : ChargeableItem → ℕ → ℕ → Result (Unit {0})
assert_item_owner_and_expiry i user_id now = do
  throw_if (is_past i.expires_at now) conflict_error
  throw_if (is_other_owner i.user_id user_id) not_found_error

abbrev pub refers : String → ChargeableItem → Bool
refers reference i = str_eq i.reference reference && is_none i.deleted_at

abbrev pub is_free : ℕ → ChargeableItem → Bool
is_free id i = i.id == id && is_open_item i.status && is_none i.deleted_at

abbrev pub mark_reserved : ℕ → ℕ → ChargeableItem → ChargeableItem
mark_reserved now key_hash i = record i {
  status = reserved;
  reservation_key_hash = some key_hash;
  reserved_at = some now;
}

-- The item is reserved under the key.
abbrev pub is_held : ℕ → ChargeableItem → Bool
is_held key_hash i = is_reserved i.status && is_at i.reservation_key_hash key_hash

-- The `where` and the `data` of `recordPaymentIntent`.
abbrev pub is_none_or : Option ℕ → ℕ → Bool
is_none_or none x = true
is_none_or (some y) x = y == x

abbrev pub takes_intent : ReservedChargeable → ℕ → ChargeableItem → Bool
takes_intent r payment_intent_id i =
    i.id == r.reservation_id
    && is_held r.reservation_key_hash i
    && is_none_or i.payment_intent_id payment_intent_id
    && is_none i.deleted_at

abbrev pub mark_paid : ℕ → ℕ → Bool → ChargeableItem → ChargeableItem
mark_paid now payment_intent_id true i = record i {
  payment_intent_id = some payment_intent_id;
  status = consumed;
  consumed_at = some now;
}
mark_paid now payment_intent_id false i = record i { payment_intent_id = some payment_intent_id }

module _ (db : Prisma) (lower : String → String) where
  unfoldable pub resolve_item : String → ℕ → ℕ → db.Table ChargeableItem → Result ChargeableAmount
  resolve_item reference user_id now t = do
    item ←
        or_throw (db.find_first (λ i. refers reference i && is_open_item i.status) t)
          not_found_error
    assert_item_owner_and_expiry item user_id now
    ok (item_amount lower item)

  abbrev pub reservation : ChargeableItem → ℕ → ReservedChargeable
  reservation item key_hash = record {
    chargeable = item_amount lower item;
    reservation_id = item.id;
    reservation_key_hash = key_hash;
  }

  -- The body of the loop for an item that was read; `next` is the next attempt.
  unfoldable pub reserve_item :
      ℕ
      → ℕ
      → (db.Table ChargeableItem → db.Table ChargeableItem)
      → ChargeableItem
      → (db.Table ChargeableItem → Result ReservedChargeable × db.Table ChargeableItem)
      → db.Table ChargeableItem
      → Result ReservedChargeable × db.Table ChargeableItem
  reserve_item now key_hash meanwhile item next t =
      let written = db.update_many (is_free item.id) (mark_reserved now key_hash) (meanwhile t) in
      if is_reserved item.status
      then (
        if is_at item.reservation_key_hash key_hash
            then ok (reservation item key_hash)
            else err conflict_error,
        t,
      )
      else if not (is_open_item item.status)
      then (err conflict_error, t)
      else if written.1 == 1
      then (ok (reservation item key_hash), written.0)
      else next written.0

  -- One attempt for each entry of the list.
  unfoldable pub reserve_attempts :
      String
      → ℕ
      → ℕ
      → ℕ
      → List (db.Table ChargeableItem → db.Table ChargeableItem)
      → db.Table ChargeableItem
      → Result ReservedChargeable × db.Table ChargeableItem
  reserve_attempts reference user_id key_hash now [] t = (err conflict_error, t)
  reserve_attempts reference user_id key_hash now (meanwhile ∷ rest) t =
      elim (db.find_first (refers reference) t) [
        | none ↦ (err not_found_error, t)
        | some item ↦ elim (assert_item_owner_and_expiry item user_id now) [
          | err e ↦ (err e, t)
          | ok _ ↦
              reserve_item now key_hash meanwhile item
                (reserve_attempts reference user_id key_hash now rest) t
        ]
      ]

  -- `attempt < 2`.
  unfoldable pub reserve :
      String
      → ℕ
      → ℕ
      → ℕ
      → (db.Table ChargeableItem → db.Table ChargeableItem)
      → (db.Table ChargeableItem → db.Table ChargeableItem)
      → db.Table ChargeableItem
      → Result ReservedChargeable × db.Table ChargeableItem
  reserve reference user_id key_hash now first_peers second_peers t =
      reserve_attempts reference user_id key_hash now (first_peers ∷ second_peers ∷ []) t

  unfoldable pub record_payment_intent :
      ReservedChargeable
      → ℕ
      → Bool
      → ℕ
      → db.Table ChargeableItem
      → Result (Unit {0}) × db.Table ChargeableItem
  record_payment_intent r payment_intent_id succeeded now t =
      let updated =
        db.update_many (takes_intent r payment_intent_id)
          (mark_paid now payment_intent_id succeeded) t in
      (throw_if (not (updated.1 == 1)) conflict_error, updated.0)
