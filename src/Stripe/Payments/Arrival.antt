-- ===== src/Stripe/Payments/Arrival.antt =====
-- The events about a payment intent may arrive in any order.
use text.Mathlib.Text.{◌==◌ as str_eq}
use text.Mathlib.TextEquality.{eq_iff}
use production_backend_found.Prelude.{
  ℕ, ◌≡◌, refl, sym, subst, ap, ◌∙◌, Bool, true, false, not, ◌&&◌, Option, none, some, String, List,
  [], ◌∷◌, arith, all, any, keep, keep_none, map, if◌then◌else◌, ◌==◌, is_none, Bool-cases, inl,
  inr,
}
use mathlib.Core.List.{Permᴰ}
use production_backend_found.Store.{Prisma}
use production_backend_found.Stripe.Payments.{StripePayment, is_superseded, is_intent, new_payment}
use production_backend_found.Stripe.Payments.Order.{
  Delivery, is_about, step, Sole, deliver, deliver-Sole, deliver_first-Sole, settled,
}

-- What a row says of the payment: the event it rests on and the status.
pub record View : Type 0 where
  pub at : Option ℕ
  pub event : Option ℕ
  pub status : String

abbrev pub view : StripePayment → View
view p = record {
  at = p.last_stripe_event_created_at;
  event = p.last_stripe_event_id;
  status = p.status;
}

-- The later of what is known and of an event.
abbrev pub merge : View → Delivery → View
merge v d =
    if is_superseded d.cursor v.at v.event
    then record {
      at = some d.cursor.created_at;
      event = some d.cursor.event_id;
      status = d.input.status;
    }
    else v

abbrev pub merge_all : View → List Delivery → View
merge_all v [] = v
merge_all v (d ∷ ds) = merge_all (merge v d) ds

abbrev pub unknown : View
unknown = record { at = none; event = none; status = "" }

-- What a table should say of an intent: nothing without an event, else the latest one.
abbrev pub summary : List Delivery → List View
summary [] = []
summary (d ∷ ds) = merge_all unknown (d ∷ ds) ∷ []

-- An event of its own about the intent, whose status is its own too.
abbrev pub is_genuine : ℕ → (ℕ → String) → Delivery → Bool
is_genuine k status_of d =
    is_about k d
    && not d.cursor.authoritative
    && str_eq d.input.status (status_of d.cursor.event_id)

module _ (k : ℕ) (status_of : ℕ → String) where
  merge_comm :
      (v : View) (a b : Delivery)
      → is_genuine k status_of a ≡ true
      → is_genuine k status_of b ≡ true
      → merge (merge v a) b ≡ merge (merge v b) a
  merge_comm v a b ha hb = elim (Bool-cases (a.cursor.event_id == b.cursor.event_id)) [
    | inl same ↦
        let e : a.cursor.event_id ≡ b.cursor.event_id = ground (arith, same) in
        let sa : a.input.status ≡ status_of a.cursor.event_id =
          (eq_iff a.input.status (status_of a.cursor.event_id)).0 (ground (arith, ha)) in
        let sb : b.input.status ≡ status_of b.cursor.event_id =
          (eq_iff b.input.status (status_of b.cursor.event_id)).0 (ground (arith, hb)) in
        let s : a.input.status ≡ b.input.status = sa ∙ (ap status_of e ∙ sym sb) in
        ground (arith, e, s, ha, hb)
    | inr other ↦ ground (arith, other, ha, hb)
  ]

  and_swap : (x y z : Bool) → (x && (y && z)) ≡ true → (y && (x && z)) ≡ true
  and_swap x y z h = ground (arith, h)

  all-Permᴰ :
      (q : Delivery → Bool) {ds es : List Delivery}
      → Permᴰ ds es
      → all q ds ≡ true
      → all q es ≡ true
  all-Permᴰ q Permᴰ.nil h = refl
  all-Permᴰ q (Permᴰ.cons e p) h = rw (sym e) (ground (arith, h, all-Permᴰ q p))
  all-Permᴰ q (Permᴰ.swap {a = a} {b = b} {l = ds} e e') h =
      rw (sym e, sym e') (and_swap (q a) (q b) (all q ds) h)
  all-Permᴰ q (Permᴰ.trans p p') h = all-Permᴰ q p' (all-Permᴰ q p h)

  merge_all-Permᴰ :
      (v : View) {ds es : List Delivery}
      → Permᴰ ds es
      → all (is_genuine k status_of) ds ≡ true
      → merge_all v ds ≡ merge_all v es
  merge_all-Permᴰ v Permᴰ.nil h = refl
  merge_all-Permᴰ v (Permᴰ.cons {a = a} {b = b} {l₁ = ds} {l₂ = es} e p) h =
      merge_all-Permᴰ (merge v a) p (ground (arith, h)) ∙ ap (λ d. merge_all (merge v d) es) e
  merge_all-Permᴰ v (Permᴰ.swap {a = a} {b = b} {a' = a'} {l = ds} e e') h =
      ap (λ w. merge_all w ds) (merge_comm v a b (ground (arith, h)) (ground (arith, h)))
      ∙ (ap (λ d. merge_all (merge (merge v d) a) ds) e'
          ∙ ap (λ d. merge_all (merge (merge v a') d) ds) e)
  merge_all-Permᴰ v (Permᴰ.trans p p') h =
      merge_all-Permᴰ v p h ∙ merge_all-Permᴰ v p' (all-Permᴰ (is_genuine k status_of) p h)

  summary-Permᴰ :
      {ds es : List Delivery}
      → Permᴰ ds es
      → all (is_genuine k status_of) ds ≡ true
      → summary ds ≡ summary es
  summary-Permᴰ Permᴰ.nil h = refl
  summary-Permᴰ (Permᴰ.cons e p) h = ap (λ v. v ∷ []) (merge_all-Permᴰ unknown (Permᴰ.cons e p) h)
  summary-Permᴰ (Permᴰ.swap e e') h = ap (λ v. v ∷ []) (merge_all-Permᴰ unknown (Permᴰ.swap e e') h)
  summary-Permᴰ (Permᴰ.trans p p') h =
      summary-Permᴰ p h ∙ summary-Permᴰ p' (all-Permᴰ (is_genuine k status_of) p h)

  pub all_about :
      (ds : List Delivery) → all (is_genuine k status_of) ds ≡ true → all (is_about k) ds ≡ true
  all_about [] h = refl
  all_about (d ∷ ds) h = ground (arith, h, all_about ds)

abbrev pub is_fresh : List StripePayment → Delivery → Bool
is_fresh ps d = not (any (λ p. p.id == d.new_id) ps)

step-view :
    (d : Delivery) (r : StripePayment)
    → is_none r.deleted_at ≡ true
    → (view (step d r) ≡ merge (view r) d) × (is_none (step d r).deleted_at ≡ true)
step-view d r live = ground (arith, live)

step-is_intent : (k : ℕ) (d : Delivery) (r : StripePayment) → is_intent k (step d r) ≡ is_intent k r
step-is_intent k d r = ground arith

module _ (db : Prisma) (k : ℕ) where
  unfoldable pub deliver_all : List Delivery → db.Table StripePayment → db.Table StripePayment
  deliver_all [] t = t
  deliver_all (d ∷ ds) t = deliver_all ds (deliver db d t)

  -- What the rows of the intent say.
  abbrev pub views : db.Table StripePayment → List View
  views t = map view (keep (is_intent k) (db.rows t))

  deliver_all-Sole :
      (ds : List Delivery) (r : StripePayment) (t : db.Table StripePayment)
      → all (is_about k) ds ≡ true
      → is_none r.deleted_at ≡ true
      → is_intent k r ≡ true
      → Sole db k r t
      → views (deliver_all ds t) ≡ merge_all (view r) ds ∷ []
  unfolding deliver_all
  deliver_all-Sole [] r t about live own s = ap (map view) s.0
  deliver_all-Sole (d ∷ ds) r t about live own s =
      let e : d.input.payment_intent_id ≡ k = ground (arith, about) in
      let own' : is_intent d.input.payment_intent_id r ≡ true = rw e own in
      let s' : Sole db k (step d r) (deliver db d t) =
        subst (λ i. Sole db i (step d r) (deliver db d t)) e
          (deliver-Sole db d r t own' (subst (λ i. Sole db i r t) (sym e) s)) in
      let (seen, live') = step-view d r live in
      deliver_all-Sole ds (step d r) (deliver db d t) (ground (arith, about)) live'
        (step-is_intent k d r ∙ own) s'
      ∙ ap (λ v. merge_all v ds ∷ []) seen

  settled-view :
      (d : Delivery)
      → let r = settled db d (new_payment d.new_id d.attribution d.input d.cursor) in
        (view r ≡ merge unknown d)
        × (is_none r.deleted_at ≡ true)
        × (is_intent d.input.payment_intent_id r ≡ true)
  settled-view d = ground arith

  -- The rows of the intent say what the merge of its events says.
  pub deliver_all-summary :
      (ds : List Delivery) (t : db.Table StripePayment)
      → all (is_about k) ds ≡ true
      → any (is_intent k) (db.rows t) ≡ false
      → all (is_fresh (db.rows t)) ds ≡ true
      → views (deliver_all ds t) ≡ summary ds
  unfolding deliver_all
  deliver_all-summary [] t about absent fresh =
      ap (map view) (keep_none (is_intent k) (db.rows t) absent)
  deliver_all-summary (d ∷ ds) t about absent fresh =
      let e : d.input.payment_intent_id ≡ k = ground (arith, about) in
      let absent' : any (is_intent d.input.payment_intent_id) (db.rows t) ≡ false = rw e absent in
      let r = settled db d (new_payment d.new_id d.attribution d.input d.cursor) in
      let s : Sole db k r (deliver db d t) =
        subst (λ i. Sole db i r (deliver db d t)) e
          (deliver_first-Sole db d t absent' (ground (arith, fresh))) in
      let (seen, live, own) = settled-view d in
      deliver_all-Sole ds r (deliver db d t) (ground (arith, about)) live
        (subst (λ i. is_intent i r ≡ true) e own) s
      ∙ ap (λ v. merge_all v ds ∷ []) seen

  -- Events may arrive in any order: if two lists hold the same events about an intent, each with
  -- a status of its own and none read back from the provider, no row is of the intent before, and
  -- the rows that the events would create get new identifiers, then the table says the same of the
  -- payment after the one list as after the other: its status and the event that it rests on.
  pub deliver_all-Permᴰ :
      (status_of : ℕ → String) (ds es : List Delivery) (t : db.Table StripePayment)
      → Permᴰ ds es
      → all (is_genuine k status_of) ds ≡ true
      → all (is_fresh (db.rows t)) ds ≡ true
      → any (is_intent k) (db.rows t) ≡ false
      → views (deliver_all ds t) ≡ views (deliver_all es t)
  deliver_all-Permᴰ status_of ds es t p genuine fresh absent =
      deliver_all-summary ds t (all_about k status_of ds genuine) absent fresh
      ∙ (summary-Permᴰ k status_of p genuine
          ∙ sym (
              deliver_all-summary es t
                (all_about k status_of es
                  (all-Permᴰ k status_of (is_genuine k status_of) p genuine))
                absent (all-Permᴰ k status_of (is_fresh (db.rows t)) p fresh)))
