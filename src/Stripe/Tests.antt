-- ===== src/Stripe/Tests.antt =====
-- Charges and refunds on concrete tables.
use production_backend_found.Prelude.{
  ℕ, ◌≡◌, ◌≢◌, refl, true, none, some, String, List, [], ◌∷◌, arith,
}
use production_backend_found.Errors.{ok, err, bad_request_error, conflict_error, AppError}
use production_backend_found.Store.Lists.{list_prisma}
use production_backend_found.Stripe.Chargeable.{
  Pricing, ChargeableAmount, ReservedChargeable, ChargeableItem, open_item, mark_reserved,
  mark_paid, resolve_chargeable, reserve_chargeable, assert_chargeable_within_bounds,
  require_dynamic_pricing, whole, not_integer, item_amount, reserve, reserve_attempts, reserve_item,
  assert_item_owner_and_expiry, record_payment_intent,
}
use production_backend_found.Stripe.Chargeable.Bounds.{
  IsChargeable, reserve_chargeable-IsChargeable,
}
use production_backend_found.Stripe.Chargeable.Reservation.{
  reserve-exclusive, record_payment_intent_once,
}
use production_backend_found.Stripe.Refunds.{
  Target, charge, RefundSettings, enforce_self_service_refund_policy, refund_target_details,
}

abbrev lower : String → String
lower s = s

abbrev pricing : Pricing
pricing = record {
  dynamic_pricing_enabled = true;
  charge_allowed_currencies = "usd" ∷ [];
  charge_max_amount = λ c. some 5000;
  charge_min_amount = λ c. some 50;
}

abbrev price : ChargeableAmount
price = record { amount = whole 900; currency = "usd"; description = "Course" }

abbrev item : ChargeableItem
item = record {
  id = 1;
  reference = "course";
  amount = whole 900;
  currency = "usd";
  description = "Course";
  user_id = none;
  status = open_item;
  reservation_key_hash = none;
  payment_intent_id = none;
  expires_at = none;
  reserved_at = none;
  consumed_at = none;
  deleted_at = none;
}

abbrev held : ReservedChargeable
held = record { chargeable = price; reservation_id = 1; reservation_key_hash = 40 }

abbrev alone : List ChargeableItem → List ChargeableItem
alone t = t

abbrev reserved_items : List ChargeableItem
reserved_items = mark_reserved 100 40 item ∷ []

resolves : resolve_chargeable pricing lower (ok price) ≡ ok price
unfolding resolve_chargeable require_dynamic_pricing assert_chargeable_within_bounds
resolves = refl

-- Half a cent is refused.
refuses_fraction :
    resolve_chargeable pricing lower (ok (record price { amount = not_integer 0 }))
    ≡ err bad_request_error
unfolding resolve_chargeable require_dynamic_pricing assert_chargeable_within_bounds
refuses_fraction = refl

reserves :
    reserve list_prisma lower "course" 7 40 100 alone alone (item ∷ []) ≡ (ok held, reserved_items)
unfolding reserve reserve_attempts reserve_item assert_item_owner_and_expiry item_amount
reserves = refl

reserves_within :
    reserve_chargeable pricing lower
      (some (reserve list_prisma lower "course" 7 40 100 alone alone))
      (item ∷ [])
    ≡ (ok held, reserved_items)
unfolding reserve_chargeable require_dynamic_pricing assert_chargeable_within_bounds reserve
    reserve_attempts reserve_item assert_item_owner_and_expiry item_amount
reserves_within = refl

abbrev paid_items : List ChargeableItem
paid_items = mark_paid 110 60 true (mark_reserved 100 40 item) ∷ []

pays : record_payment_intent list_prisma lower held 60 true 110 reserved_items ≡ (ok tt, paid_items)
unfolding record_payment_intent
pays = refl

reserve_chargeable-IsChargeable_example : IsChargeable pricing lower price
reserve_chargeable-IsChargeable_example =
    reserve_chargeable-IsChargeable pricing lower {State = List ChargeableItem}
      (some (reserve list_prisma lower "course" 7 40 100 alone alone)) (item ∷ []) reserved_items
      held reserves_within

other_key : ◌≢◌ {A = ℕ} 41 40
other_key e = absurd (omega arith)

reserve-exclusive_example :
    (x : AppError) × (reserve list_prisma lower "course" 8 41 105 alone alone reserved_items
      ≡ (err x, reserved_items))
reserve-exclusive_example =
    reserve-exclusive list_prisma lower "course" "course" 7 40 100 8 41 105 alone alone alone alone
      (item ∷ []) reserved_items held (mark_reserved 100 40 item) reserves (omega arith) refl refl
      other_key

record_payment_intent_once_example :
    (t'' : List ChargeableItem) × (record_payment_intent list_prisma lower held 60 true 120
        paid_items
      ≡ (err conflict_error, t''))
    × (t'' ≡ paid_items)
record_payment_intent_once_example =
    record_payment_intent_once list_prisma lower held 60 60 110 120 true true reserved_items
      paid_items (omega arith) refl pays

abbrev settings : RefundSettings
settings = record {
  refund_self_service_enabled = true;
  refund_window_days = 14;
  refund_max_amount = λ c. some 700;
}

abbrev target : Target
target = charge 1000 "usd" true true 900 300

grants : enforce_self_service_refund_policy settings lower 2000000 target (some 500) ≡ ok 500
unfolding enforce_self_service_refund_policy refund_target_details
grants = refl
