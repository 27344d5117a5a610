-- ===== src/Stripe/Payments/Latest.antt =====
-- Of the events about a payment intent the latest one wins.
use text.Mathlib.TextEquality.{eq_iff}
use mathlib.Core.List.{Memᴰ}
use production_backend_found.Prelude.{
  ℕ, ◌≡◌, refl, sym, ap, ◌∙◌, Bool, true, false, ◌&&◌, ◌||◌, some, String, List, [], ◌∷◌, arith,
  all, all-Memᴰ, any, ltb, leb, ◌==◌, Bool-cases, inl, inr,
}
use production_backend_found.Store.{Prisma}
use production_backend_found.Stripe.Payments.{StripePayment, is_superseded, is_intent}
use production_backend_found.Stripe.Payments.Order.{Delivery}
use production_backend_found.Stripe.Payments.Arrival.{
  View, merge, merge_all, unknown, summary, is_genuine, is_fresh, all_about, deliver_all, views,
  deliver_all-summary,
}

-- An event is not later than `d`, by the time and then the identifier.
abbrev pub is_up_to : Delivery → Delivery → Bool
is_up_to d e =
    ltb e.cursor.created_at d.cursor.created_at
    || (e.cursor.created_at == d.cursor.created_at && leb e.cursor.event_id d.cursor.event_id)

-- What an event says.
abbrev pub says : Delivery → View
says d = record {
  at = some d.cursor.created_at;
  event = some d.cursor.event_id;
  status = d.input.status;
}

module _ (k : ℕ) (status_of : ℕ → String) where
  merge_all-says :
      (d : Delivery) (es : List Delivery)
      → all (is_genuine k status_of) es ≡ true
      → all (is_up_to d) es ≡ true
      → merge_all (says d) es ≡ says d
  merge_all-says d [] h up = refl
  merge_all-says d (e ∷ es) h up =
      let kept : merge (says d) e ≡ says d = ground (arith, h, up) in
      ap (λ v. merge_all v es) kept ∙ merge_all-says d es (ground (arith, h)) (ground (arith, up))

  -- Two genuine events of one time and identifier say the same.
  says_same :
      (d e : Delivery)
      → is_genuine k status_of d ≡ true
      → is_genuine k status_of e ≡ true
      → e.cursor.created_at ≡ d.cursor.created_at
      → e.cursor.event_id ≡ d.cursor.event_id
      → says e ≡ says d
  says_same d e hd he at id =
      let sd : d.input.status ≡ status_of d.cursor.event_id =
        (eq_iff d.input.status (status_of d.cursor.event_id)).0 (ground (arith, hd)) in
      let se : e.input.status ≡ status_of e.cursor.event_id =
        (eq_iff e.input.status (status_of e.cursor.event_id)).0 (ground (arith, he)) in
      let s : e.input.status ≡ d.input.status = se ∙ (ap status_of id ∙ sym sd) in
      rw (at, id, s) refl

  -- From a view before the latest event on, the events lead to what that event says.
  merge_all-latest :
      (v : View) (d : Delivery) (es : List Delivery)
      → Memᴰ d es
      → is_genuine k status_of d ≡ true
      → all (is_genuine k status_of) es ≡ true
      → all (is_up_to d) es ≡ true
      → is_superseded d.cursor v.at v.event ≡ true
      → merge_all v es ≡ says d
  merge_all-latest v d [] m own h up old = elim m [ ]
  merge_all-latest v d (e ∷ es) (Memᴰ.head same) own h up old =
      let taken : merge v e ≡ says d = ap (merge v) (sym same) ∙ ground (arith, old) in
      ap (λ w. merge_all w es) taken ∙ merge_all-says d es (ground (arith, h)) (ground (arith, up))
  merge_all-latest v d (e ∷ es) (Memᴰ.tail m) own h up old =
      elim (Bool-cases (is_superseded e.cursor v.at v.event)) [
        | inr kept ↦
            ap (λ w. merge_all w es) (ground (arith, kept))
            ∙ merge_all-latest v d es m own (ground (arith, h)) (ground (arith, up)) old
        | inl taken ↦
            let written : merge v e ≡ says e = ground (arith, taken) in
            ap (λ w. merge_all w es) written
            ∙ elim (Bool-cases
                (is_superseded d.cursor (some e.cursor.created_at) (some e.cursor.event_id))) [
                  | inl older ↦
                      merge_all-latest (says e) d es m own (ground (arith, h)) (ground (arith, up))
                        older
                  | inr tied ↦
                      ap (λ w. merge_all w es)
                        (says_same d e own (ground (arith, h)) (ground (arith, tied, up))
                          (ground (arith, tied, up)))
                      ∙ merge_all-says d es (ground (arith, h)) (ground (arith, up))
                ]
      ]

  summary-latest :
      (d : Delivery) (es : List Delivery)
      → Memᴰ d es
      → all (is_genuine k status_of) es ≡ true
      → all (is_up_to d) es ≡ true
      → summary es ≡ says d ∷ []
  summary-latest d [] m h up = elim m [ ]
  summary-latest d (e ∷ es) m h up =
      ap (λ v. v ∷ [])
        (merge_all-latest unknown d (e ∷ es) m (all-Memᴰ (is_genuine k status_of) h m) h up
          (ground arith))

module _ (db : Prisma) (k : ℕ) where
  -- The latest event wins, in whatever order the events arrive: if each has a status of its own and
  -- none is read back from the provider, no row is of the intent before, and the rows that the events
  -- would create get new identifiers, then after them one row is of the intent, and it has the status,
  -- the time and the identifier of the event that none of them is later than, by the time and then
  -- the identifier.
  pub deliver_all-latest :
      (status_of : ℕ → String) (d : Delivery) (ds : List Delivery) (t : db.Table StripePayment)
      → Memᴰ d ds
      → all (is_genuine k status_of) ds ≡ true
      → all (is_up_to d) ds ≡ true
      → all (is_fresh (db.rows t)) ds ≡ true
      → any (is_intent k) (db.rows t) ≡ false
      → views db k (deliver_all db k ds t) ≡ says d ∷ []
  deliver_all-latest status_of d ds t m genuine up fresh absent =
      deliver_all-summary db k ds t (all_about k status_of ds genuine) absent fresh
      ∙ summary-latest k status_of d ds m genuine up
