-- ===== src/Stripe/WebhookTests.antt =====
-- Events of payments on concrete tables.
use mathlib.Core.List.{Permᴰ}
use production_backend_found.Prelude.{
  ℕ, ◌≡◌, refl, Bool, true, false, none, some, String, List, [], ◌∷◌, arith, any, tally, ◌==◌,
  if◌then◌else◌,
}
use production_backend_found.Errors.{Result, ok, err, bad_request_error}
use production_backend_found.Store.Lists.{list_prisma}
use production_backend_found.Outbox.Enqueue.{add_outbox_event}
use production_backend_found.Stripe.Chargeable.{ChargeableItem, consumed, whole}
use mathlib.Core.List.{Memᴰ}
use production_backend_found.Stripe.Payments.{upsert_payment}
use production_backend_found.Stripe.Payments.Order.{Delivery, deliver}
use production_backend_found.Stripe.Payments.Arrival.{views, deliver_all, deliver_all-Permᴰ}
use production_backend_found.Stripe.Payments.Latest.{deliver_all-latest}
use production_backend_found.Stripe.Webhooks.{
  WebhookTables, IsPaired, store_event, verify_and_store_stripe_event, receive_all, is_event,
  receive_all-IsPaired,
}
use production_backend_found.Stripe.Projection.{
  ItemCall, reserve_for, project_event, IntentObject, succeeded, canceled_intent, is_paid,
  run_items, run_items-IsPaid,
}

abbrev event : ℕ → ℕ → String → Delivery
event event_id created status = record {
  new_id = 70;
  attribution = record { user_id = 3; organization_id = none };
  input = record {
    payment_intent_id = 8;
    checkout_session_id = none;
    charge_id = none;
    status = status;
    amount = some 900;
    amount_refunded = none;
    currency = some "usd";
  };
  cursor = record { event_id = event_id; created_at = created; authoritative = false };
}

abbrev created_event : Delivery
created_event = event 1 100 "processing"

abbrev paid_event : Delivery
paid_event = event 2 105 "succeeded"

abbrev status_of : ℕ → String
status_of id = if id == 1 then "processing" else "succeeded"

abbrev late : List Delivery
late = paid_event ∷ created_event ∷ []

abbrev in_order : List Delivery
in_order = created_event ∷ paid_event ∷ []

late_run :
    views list_prisma 8 (deliver_all list_prisma 8 late [])
    ≡ record { at = some 105; event = some 2; status = "succeeded" } ∷ []
unfolding deliver_all deliver upsert_payment
late_run = refl

deliver_all-latest_example :
    views list_prisma 8 (deliver_all list_prisma 8 late [])
    ≡ record { at = some 105; event = some 2; status = "succeeded" } ∷ []
deliver_all-latest_example =
    deliver_all-latest list_prisma 8 status_of (event 2 105 "succeeded") late [] (Memᴰ.head refl)
      refl refl refl refl

deliver_all-Permᴰ_example :
    views list_prisma 8 (deliver_all list_prisma 8 late [])
    ≡ views list_prisma 8 (deliver_all list_prisma 8 in_order [])
deliver_all-Permᴰ_example =
    deliver_all-Permᴰ list_prisma 8 status_of late in_order [] (Permᴰ.swap refl refl) refl refl refl

-- An event, the same again, one with a bad signature, and another event.
abbrev requests : List (Bool × Result (ℕ × ℕ) × ℕ)
requests =
    (true, ok (1, 100), 51)
    ∷ (true, ok (1, 100), 52)
    ∷ (true, err bad_request_error, 53)
    ∷ (true, ok (2, 105), 54)
    ∷ []

abbrev no_events : WebhookTables list_prisma
no_events = record { webhook_events = []; outbox = [] }

requests_run : tally (is_event 1) (receive_all list_prisma requests no_events).webhook_events ≡ 1
unfolding receive_all verify_and_store_stripe_event store_event add_outbox_event
requests_run = refl

receive_all-IsPaired_example : IsPaired list_prisma 1 (receive_all list_prisma requests no_events)
receive_all-IsPaired_example =
    receive_all-IsPaired list_prisma 1 requests no_events (refl, omega arith)

abbrev lower : String → String
lower s = s

abbrev paid_item : ChargeableItem
paid_item = record {
  id = 1;
  reference = "course";
  amount = whole 900;
  currency = "usd";
  description = "Course";
  user_id = none;
  status = consumed;
  reservation_key_hash = some 40;
  payment_intent_id = some 8;
  expires_at = none;
  reserved_at = some 5;
  consumed_at = some 9;
  deleted_at = none;
}

abbrev object : IntentObject
object = record {
  payment_intent_id = 8;
  chargeable_item_id = 1;
  reservation_key_hash = 40;
  status = canceled_intent;
}

-- A late cancellation, another customer's reservation and the event of the payment.
abbrev items_calls : List (ItemCall × List ItemCall × List ItemCall)
items_calls =
    (project_event 20 (some object), [], [])
    ∷ (reserve_for "course" 4 41 21, project_event 22 (some object) ∷ [], [])
    ∷ (project_event 23 (some (record object { status = succeeded })), [], [])
    ∷ []

run_items-IsPaid_example :
    any (is_paid 1 8) (run_items list_prisma lower items_calls (paid_item ∷ [])) ≡ true
run_items-IsPaid_example = run_items-IsPaid list_prisma lower 1 8 items_calls (paid_item ∷ []) refl
