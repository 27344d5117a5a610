-- ===== src/Stripe/Chargeable/Bounds.antt =====
-- What may be charged (src/modules/stripe/stripe.chargeable.ts).
use text.Mathlib.Text.{◌==◌ as str_eq}
use production_backend_found.Prelude.{
  ℕ, ◌≤◌, ◌≡◌, refl, inl, inr, not, ◌||◌, true, false, Option, none, some, String, any, arith,
  Option-cases,
}
use production_backend_found.Errors.{Result, ok, Result-cases}
use production_backend_found.Stripe.Chargeable.{
  Pricing, ChargeableAmount, ReservedChargeable, assert_chargeable_within_bounds,
  require_dynamic_pricing, normalise, resolve_chargeable, reserve_chargeable, JsNumber, whole,
  negative, not_integer, is_integer, is_less,
}

positive_whole :
    (x : JsNumber) → (not (is_integer x) || is_less x 1) ≡ false → (n : ℕ) × (x ≡ whole n) × (1 ≤ n)
positive_whole (whole n) h = (n, refl, ground (arith, h))
positive_whole (negative n) h = absurd (ground (arith, h))
positive_whole (not_integer n) h = absurd (ground (arith, h))

module _ (pricing : Pricing) (lower : String → String) where
  -- An amount that may be charged: dynamic pricing is on, the currency is allowed and has a maximum,
  -- and the amount is an integer, positive, at most that maximum and not below the minimum, if there
  -- is one.
  pub record IsChargeable (c : ChargeableAmount) : Type 0 where
    pub enabled : pricing.dynamic_pricing_enabled ≡ true
    pub amount : ℕ
    pub is_amount : c.amount ≡ whole amount
    pub positive : 1 ≤ amount
    pub allowed : any (λ a. str_eq a (lower c.currency)) pricing.charge_allowed_currencies ≡ true
    pub maximum : ℕ
    pub configured : pricing.charge_max_amount (lower c.currency) ≡ some maximum
    pub at_most : amount ≤ maximum
    pub at_least :
        (minimum : ℕ)
        → pricing.charge_min_amount (lower c.currency) ≡ some minimum
        → minimum ≤ amount

  assert_chargeable_within_bounds-IsChargeable :
      (c : ChargeableAmount)
      → pricing.dynamic_pricing_enabled ≡ true
      → assert_chargeable_within_bounds pricing lower c ≡ ok tt
      → IsChargeable c
  unfolding assert_chargeable_within_bounds
  assert_chargeable_within_bounds-IsChargeable c on h =
      let (n, is_n, positive) = positive_whole c.amount (ground (arith, h)) in
      elim (Option-cases (pricing.charge_max_amount (lower c.currency))) [
        | inl absent ↦ absurd (ground (arith, absent))
        | inr (maximum, configured) ↦ record {
          enabled = on;
          amount = n;
          is_amount = is_n;
          positive = positive;
          allowed = ground (arith, configured);
          maximum = maximum;
          configured = configured;
          at_most = ground (arith, configured, is_n);
          at_least = λ minimum e. ground (arith, configured, is_n, e);
        }
      ]

  -- Whatever resolver a project supplies, an amount that `resolveChargeable` returns may be charged.
  pub resolve_chargeable-IsChargeable :
      (resolve : Result ChargeableAmount) (c : ChargeableAmount)
      → resolve_chargeable pricing lower resolve ≡ ok c
      → IsChargeable c
  unfolding resolve_chargeable require_dynamic_pricing
  resolve_chargeable-IsChargeable resolve c h = elim (Result-cases resolve) [
    | inr (x, e) ↦ absurd (ground (arith, e))
    | inl (answer, e) ↦
        elim (Result-cases
          (assert_chargeable_within_bounds pricing lower (normalise pricing lower answer))) [
            | inr (x, d) ↦ absurd (ground (arith, e, d))
            | inl (_, d) ↦
                let same : normalise pricing lower answer ≡ c = ground (arith, e, d, h) in
                assert_chargeable_within_bounds-IsChargeable c (ground (arith, e, h))
                  (rw (← same) d)
          ]
  ]

  -- Whatever resolver a project supplies, and whatever number it answers (negative, fractional or no
  -- number at all), an amount that `reserveChargeable` hands to the payment may be charged: dynamic
  -- pricing is on, the currency is allowed and has a maximum, and the amount is an integer of at
  -- least 1, at most that maximum and not below the minimum, if there is one.
  pub reserve_chargeable-IsChargeable :
      {State : Type 0} (resolver : Option (State → Result ReservedChargeable × State))
      (s s' : State) (r : ReservedChargeable)
      → reserve_chargeable pricing lower resolver s ≡ (ok r, s')
      → IsChargeable r.chargeable
  unfolding reserve_chargeable require_dynamic_pricing
  reserve_chargeable-IsChargeable none s s' r h = absurd (ground arith)
  reserve_chargeable-IsChargeable (some reserve) s s' r h = elim (Result-cases (reserve s).0) [
    | inr (x, e) ↦ absurd (ground (arith, e))
    | inl (answer, e) ↦
        elim (Result-cases (
          assert_chargeable_within_bounds pricing lower
            (normalise pricing lower answer.chargeable))) [
              | inr (x, d) ↦ absurd (ground (arith, e, d))
              | inl (_, d) ↦
                  let same : normalise pricing lower answer.chargeable ≡ r.chargeable =
                    ground (arith, e, d, h) in
                  assert_chargeable_within_bounds-IsChargeable r.chargeable (ground (arith, e, h))
                    (rw (← same) d)
            ]
  ]
