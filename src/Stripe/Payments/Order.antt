-- ===== src/Stripe/Payments/Order.antt =====
-- In which order events arrive does not matter.
use production_backend_found.Prelude.{
  ℕ, ◌≡◌, refl, subst, ap, ◌∙◌, Bool, true, false, not, ◌&&◌, [], ◌∷◌, arith, any,
  any-update_where_same, any_of_keep, any_mono_false, keep, keep_none, keep-update_where, Memᴰ-keep,
  sole_Memᴰ, update_where, if◌then◌else◌, ◌==◌, Option-cases, inl, inr, is_none,
}
use mathlib.Core.List.{Memᴰ}
use production_backend_found.Store.{Prisma}
use production_backend_found.Stripe.Payments.{
  StripePayment, StripeProjectionCursor, StripeAttribution, PaymentInput, is_superseded, is_intent,
  new_payment, attribute, project, is_projected, upsert_payment,
}

-- An event about the payment intent `k`.
pub record Delivery : Type 0 where
  pub new_id : ℕ
  pub attribution : StripeAttribution
  pub input : PaymentInput
  pub cursor : StripeProjectionCursor

abbrev pub is_about : ℕ → Delivery → Bool
is_about k d = d.input.payment_intent_id == k

-- What one delivery makes of the row.
abbrev pub step : Delivery → StripePayment → StripePayment
step d r =
    let r' = attribute d.attribution d.input r in
    if is_superseded d.cursor r.last_stripe_event_created_at r.last_stripe_event_id
      && is_none r.deleted_at
    then project d.input d.cursor r'
    else r'

module _ (db : Prisma) (k : ℕ) where
  -- `r` is the one row of the intent, and no other row has its identifier.
  abbrev pub Sole : StripePayment → db.Table StripePayment → Type 0
  Sole r t =
      (keep (is_intent k) (db.rows t) ≡ r ∷ [])
      × (any (λ p. p.id == r.id && not (is_intent k p)) (db.rows t) ≡ false)

  pub written-Sole :
      (p : StripePayment → Bool) (f : StripePayment → StripePayment) (r : StripePayment)
      (t t' : db.Table StripePayment)
      → db.rows t' ≡ update_where p f (db.rows t)
      → ((x : StripePayment) → (f x).stripe_payment_intent_id ≡ x.stripe_payment_intent_id)
      → ((x : StripePayment) → (f x).id ≡ x.id)
      → Sole r t
      → Sole (if p r then f r else r) t'
  written-Sole p f r t t' e same kept (sole, apart) = (
    ap (keep (is_intent k)) e
        ∙ (keep-update_where (is_intent k) p f (db.rows t) (λ x. rw (same x) refl)
            ∙ ap (update_where p f) sole),
    rw e (
        any-update_where_same (λ x. x.id == (if p r then f r else r).id && not (is_intent k x)) p f
          (db.rows t) (λ x. rw (same x, kept x) refl)
        ∙ (ap (λ i. any (λ x. x.id == i && not (is_intent k x)) (db.rows t)) same_id ∙ apart)),
  )
    where
      same_id : (if p r then f r else r).id ≡ r.id
      same_id = ground (arith, kept r)

module _ (db : Prisma) where
  unfoldable pub deliver : Delivery → db.Table StripePayment → db.Table StripePayment
  deliver d t = upsert_payment db d.new_id d.attribution d.input d.cursor t

  abbrev attributed : Delivery → StripePayment → StripePayment
  attributed d r = attribute d.attribution d.input r

  abbrev upserted : Delivery → db.Table StripePayment → db.Table StripePayment
  upserted d t =
      db.upsert (is_intent d.input.payment_intent_id)
        (new_payment d.new_id d.attribution d.input d.cursor) (attributed d) t

  upserted-Sole :
      (d : Delivery) (r : StripePayment) (t : db.Table StripePayment)
      → is_intent d.input.payment_intent_id r ≡ true
      → Sole db d.input.payment_intent_id r t
      → Sole db d.input.payment_intent_id (attributed d r) (upserted d t)
  upserted-Sole d r t own s =
      let q = is_intent d.input.payment_intent_id in
      let present : any q (db.rows t) ≡ true = any_of_keep q r [] (db.rows t) s.0 in
      let rows : db.rows (upserted d t) ≡ update_where q (attributed d) (db.rows t) =
        db.rows_upsert q (new_payment d.new_id d.attribution d.input d.cursor) (attributed d) t
        ∙ rw present refl in
      subst (λ x. Sole db d.input.payment_intent_id x (upserted d t)) (rw own refl)
        (written-Sole db d.input.payment_intent_id q (attributed d) r t (upserted d t) rows
          (λ x. refl) (λ x. refl) s)

  -- The second write, to the row that the upsert left.
  abbrev pub settled : Delivery → StripePayment → StripePayment
  settled d r =
      if is_superseded d.cursor r.last_stripe_event_created_at r.last_stripe_event_id
        && is_none r.deleted_at
      then project d.input d.cursor r
      else r

  settled-Sole :
      (d : Delivery) (r : StripePayment) (t : db.Table StripePayment)
      → Sole db d.input.payment_intent_id r (upserted d t)
      → Sole db d.input.payment_intent_id (settled d r) (deliver d t)
  unfolding deliver upsert_payment
  settled-Sole d r t s =
      let k = d.input.payment_intent_id in
      let u = upserted d t in
      elim (Option-cases (db.find_first (is_intent k) u)) [
        | inl lost ↦ absurd (
            ground (
              arith,
              db.find_first_misses (is_intent k) u lost,
              any_of_keep (is_intent k) r [] (db.rows u) s.0,
            ))
        | inr (m, found) ↦
            let (member, hit) = db.find_first_selects (is_intent k) u m found in
            let kept : Memᴰ m (r ∷ []) = subst (Memᴰ m) s.0 (Memᴰ-keep (is_intent k) hit member) in
            let same : m ≡ r = sole_Memᴰ (is_intent k) kept in
            let p = is_projected m.id d.cursor in
            let f = project d.input d.cursor in
            rw (found, deliver, upsert_payment)
              (subst (λ x. Sole db k x (db.update_many p f u).0) (rw same (ground arith))
                (written-Sole db k p f r u (db.update_many p f u).0 (db.rows_update_many p f u)
                  (λ x. refl) (λ x. refl) s))
      ]

  pub deliver-Sole :
      (d : Delivery) (r : StripePayment) (t : db.Table StripePayment)
      → is_intent d.input.payment_intent_id r ≡ true
      → Sole db d.input.payment_intent_id r t
      → Sole db d.input.payment_intent_id (step d r) (deliver d t)
  deliver-Sole d r t own s = settled-Sole d (attributed d r) t (upserted-Sole d r t own s)

  -- The first event about an intent creates its row.
  pub deliver_first-Sole :
      (d : Delivery) (t : db.Table StripePayment)
      → any (is_intent d.input.payment_intent_id) (db.rows t) ≡ false
      → any (λ p. p.id == d.new_id) (db.rows t) ≡ false
      → Sole db d.input.payment_intent_id
          (settled d (new_payment d.new_id d.attribution d.input d.cursor))
          (deliver d t)
  deliver_first-Sole d t absent fresh =
      let k = d.input.payment_intent_id in
      let new = new_payment d.new_id d.attribution d.input d.cursor in
      let rows : db.rows (upserted d t) ≡ new ∷ db.rows t =
        db.rows_upsert (is_intent k) new (attributed d) t ∙ rw absent refl in
      settled-Sole d new t (
        ap (keep (is_intent k)) rows ∙ ground (arith, keep_none (is_intent k) (db.rows t) absent),
        ap (any (λ p. p.id == d.new_id && not (is_intent k p))) rows
            ∙ ground (
              arith,
              any_mono_false (λ p. p.id == d.new_id && not (is_intent k p)) (λ p. p.id == d.new_id)
                  (db.rows t) (λ p h. ground (arith, h)) fresh,
            ),
      )
