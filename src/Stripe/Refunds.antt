-- ===== src/Stripe/Refunds.antt =====
-- The policy for refunds that users ask for themselves: `refundTargetDetails` and
-- `enforceSelfServiceRefundPolicy` of src/modules/stripe/stripe.refunds.service.ts. What the provider
-- answers is a value of `Target`; times of the provider are seconds, `now` is milliseconds.
use production_backend_found.Prelude.{
  ℕ, ◌-◌, ◌*◌, ◌+◌, ◌≤◌, ◌≡◌, Bool, true, not, ◌&&◌, ◌||◌, Option, none, some, String, ltb, ◌==◌,
  arith,
}
use production_backend_found.Errors.{
  Result, ok, ◌>>◌, throw_if, bad_request_error, forbidden_error, conflict_error,
}

pub data Target : Type 0 where
  -- created, currency, status is succeeded, amount_received, latest_charge's amount_refunded.
  payment_intent : ℕ → String → Bool → ℕ → Option ℕ → Target
  -- created, currency, paid, captured, amount, amount_refunded.
  charge : ℕ → String → Bool → Bool → ℕ → ℕ → Target

pub record TargetDetails : Type 0 where
  pub created : ℕ
  pub currency : String
  pub refundable_amount : ℕ
  pub refundable : Bool

pub record RefundSettings : Type 0 where
  pub refund_self_service_enabled : Bool
  pub refund_window_days : ℕ
  pub refund_max_amount : String → Option ℕ

abbrev pub or_zero : Option ℕ → ℕ
or_zero none = 0
or_zero (some n) = n

-- `Math.max(0, a - b)` is the subtraction that stops at 0.
unfoldable pub refund_target_details : (String → String) → Target → TargetDetails
refund_target_details lower (payment_intent created currency succeeded amount_received refunded) =
    record {
      created = created;
      currency = lower currency;
      refundable_amount = amount_received - or_zero refunded;
      refundable = succeeded;
    }
refund_target_details lower (charge created currency paid captured amount amount_refunded) =
    record {
      created = created;
      currency = lower currency;
      refundable_amount = amount - amount_refunded;
      refundable = paid && captured;
    }

abbrev pub or_full : Option ℕ → ℕ → ℕ
or_full none full = full
or_full (some n) full = n

-- An age below zero, of a payment that the provider dates in the future, is 0 here: neither exceeds
-- the window.
unfoldable pub enforce_self_service_refund_policy :
    RefundSettings → (String → String) → ℕ → Target → Option ℕ → Result ℕ
enforce_self_service_refund_policy settings lower now target requested_amount = do
  throw_if (not settings.refund_self_service_enabled) forbidden_error
  let details = refund_target_details lower target
  throw_if (not details.refundable || ltb details.refundable_amount 1) conflict_error
  throw_if (ltb (settings.refund_window_days * 24 * 60 * 60 * 1000) (now - details.created * 1000))
      forbidden_error
  let policy_limit = or_zero (settings.refund_max_amount details.currency)
  throw_if (policy_limit == 0) forbidden_error
  let amount = or_full requested_amount details.refundable_amount
  throw_if (ltb details.refundable_amount amount) bad_request_error
  throw_if (ltb policy_limit amount) forbidden_error
  ok amount

-- What the provider has received and not given back.
abbrev pub received : Target → ℕ
received (payment_intent _ _ _ amount_received _) = amount_received
received (charge _ _ _ _ amount _) = amount

abbrev pub given_back : Target → ℕ
given_back (payment_intent _ _ _ _ refunded) = or_zero refunded
given_back (charge _ _ _ _ _ amount_refunded) = amount_refunded

-- A refund that the policy grants never gives back more than was received, together with what was
-- given back before; it is at most the limit that is configured for the currency, which is positive;
-- the payment is refundable and no older than the window; and it is the amount asked for, if one is.
pub enforce_self_service_refund_policy-ok :
    (settings : RefundSettings) (lower : String → String) (now : ℕ) (target : Target)
    (requested_amount : Option ℕ) (amount : ℕ)
    → enforce_self_service_refund_policy settings lower now target requested_amount ≡ ok amount
    → (given_back target + amount ≤ received target)
      × (amount
          ≤ or_zero (settings.refund_max_amount ((refund_target_details lower target).currency)))
      × (1 ≤ or_zero (settings.refund_max_amount ((refund_target_details lower target).currency)))
      × ((refund_target_details lower target).refundable ≡ true)
      × (now
          ≤ (refund_target_details lower target).created * 1000
            + settings.refund_window_days * 24 * 60 * 60 * 1000)
      × (amount ≡ or_full requested_amount ((refund_target_details lower target).refundable_amount))
unfolding enforce_self_service_refund_policy refund_target_details
enforce_self_service_refund_policy-ok settings lower now
      (payment_intent created currency succeeded amount_received refunded) requested_amount amount
      h =
    (ground arith, ground arith, ground arith, ground arith, ground arith, ground arith)
enforce_self_service_refund_policy-ok settings lower now
      (charge created currency paid captured total amount_refunded) requested_amount amount h =
    (ground arith, ground arith, ground arith, ground arith, ground arith, ground arith)
