-- ===== src/Stripe/Projection.antt =====
-- `projectChargeableItem` of src/modules/stripe/stripe.webhooks.service.ts, and with it all that
-- writes the items of stripe.chargeable.ts: what was paid stays paid.
use production_backend_found.Prelude.{
  ℕ, ◌≡◌, Bool, true, false, ◌&&◌, ◌||◌, Option, none, some, String, List, [], ◌∷◌, arith, any,
  any-update_where_kept, is_none, is_at, ◌==◌, Option-cases, inl, inr, ap, ◌∙◌, All,
}
use production_backend_found.Errors.{Result, Result-cases}
use production_backend_found.Store.{Prisma}
use production_backend_found.Stripe.Chargeable.{
  ChargeableItem, ItemStatus, ReservedChargeable, open_item, consumed, is_reserved, is_none_or,
  is_free, mark_reserved, takes_intent, mark_paid, refers, reserve_item, reserve_attempts, reserve,
  record_payment_intent, assert_item_owner_and_expiry,
}

-- The `status` of a payment intent.
pub data IntentStatus : Type 0 where
  succeeded canceled_intent other_status : IntentStatus

-- What the event's object names, where it names all of it.
pub record IntentObject : Type 0 where
  pub payment_intent_id : ℕ
  pub chargeable_item_id : ℕ
  pub reservation_key_hash : ℕ
  pub status : IntentStatus

abbrev pub is_consumed : ItemStatus → Bool
is_consumed consumed = true
is_consumed _ = false

abbrev pub is_items : IntentObject → ChargeableItem → Bool
is_items o i =
    i.id == o.chargeable_item_id
    && is_at i.reservation_key_hash o.reservation_key_hash
    && is_none_or i.payment_intent_id o.payment_intent_id
    && is_none i.deleted_at

-- `status: { in: ['RESERVED', 'CONSUMED'] }`.
abbrev pub is_payable : IntentObject → ChargeableItem → Bool
is_payable o i = is_items o i && (is_reserved i.status || is_consumed i.status)

abbrev pub is_pending_item : IntentObject → ChargeableItem → Bool
is_pending_item o i = is_items o i && is_reserved i.status

abbrev pub consume_item : ℕ → IntentObject → ChargeableItem → ChargeableItem
consume_item now o i = record i {
  payment_intent_id = some o.payment_intent_id;
  status = consumed;
  consumed_at = some now;
}

abbrev pub reopen : ChargeableItem → ChargeableItem
reopen i = record i {
  status = open_item;
  reservation_key_hash = none;
  reserved_at = none;
  payment_intent_id = none;
}

abbrev pub set_intent : IntentObject → ChargeableItem → ChargeableItem
set_intent o i = record i { payment_intent_id = some o.payment_intent_id }

module _ (db : Prisma) where
  -- `none` is an object that does not name all four.
  unfoldable pub project_chargeable_item :
      ℕ → Option IntentObject → db.Table ChargeableItem → db.Table ChargeableItem
  project_chargeable_item now none t = t
  project_chargeable_item now (some o) t = elim o.status [
    | succeeded ↦ (db.update_many (is_payable o) (consume_item now o) t).0
    | canceled_intent ↦ (db.update_many (is_pending_item o) reopen t).0
    | other_status ↦ (db.update_many (is_pending_item o) (set_intent o) t).0
  ]

-- The item was paid by the payment intent.
abbrev pub is_paid : ℕ → ℕ → ChargeableItem → Bool
is_paid id payment_intent_id i =
    i.id == id && is_consumed i.status && is_at i.payment_intent_id payment_intent_id

-- What writes an item: a reservation, the record of its payment, and an event.
pub data ItemCall : Type 0 where
  reserve_for : String → ℕ → ℕ → ℕ → ItemCall
  record_intent : ReservedChargeable → ℕ → Bool → ℕ → ItemCall
  project_event : ℕ → Option IntentObject → ItemCall

module _ (db : Prisma) (lower : String → String) where
  -- The lists are the calls of others before the two writes of a reservation.
  unfoldable pub perform_item :
      (db.Table ChargeableItem → db.Table ChargeableItem)
      → (db.Table ChargeableItem → db.Table ChargeableItem)
      → ItemCall
      → db.Table ChargeableItem
      → db.Table ChargeableItem
  perform_item first second (reserve_for reference user_id key_hash now) t =
      (reserve db lower reference user_id key_hash now first second t).1
  perform_item first second (record_intent r payment_intent_id paid now) t =
      (record_payment_intent db lower r payment_intent_id paid now t).1
  perform_item first second (project_event now o) t = project_chargeable_item db now o t

  unfoldable pub perform_items : List ItemCall → db.Table ChargeableItem → db.Table ChargeableItem
  perform_items [] t = t
  perform_items (c ∷ cs) t = perform_items cs (perform_item (λ x. x) (λ x. x) c t)

  unfoldable pub run_items :
      List (ItemCall × List ItemCall × List ItemCall)
      → db.Table ChargeableItem
      → db.Table ChargeableItem
  run_items [] t = t
  run_items ((c, first, second) ∷ cs) t =
      run_items cs (perform_item (perform_items first) (perform_items second) c t)

  module _ (id payment_intent_id : ℕ) where
    abbrev pub IsPaid : db.Table ChargeableItem → Type 0
    IsPaid t = any (is_paid id payment_intent_id) (db.rows t) ≡ true

    written-IsPaid :
        (p : ChargeableItem → Bool) (f : ChargeableItem → ChargeableItem)
        → ((x : ChargeableItem)
            → p x ≡ true
            → is_paid id payment_intent_id x ≡ true
            → is_paid id payment_intent_id (f x) ≡ true)
        → (t : db.Table ChargeableItem) → IsPaid t
        → IsPaid (db.update_many p f t).0
    written-IsPaid p f k t h =
        ap (any (is_paid id payment_intent_id)) (db.rows_update_many p f t)
        ∙ any-update_where_kept (is_paid id payment_intent_id) p f (db.rows t) k h

    project_chargeable_item-IsPaid :
        (now : ℕ) (o : Option IntentObject) (t : db.Table ChargeableItem)
        → IsPaid t
        → IsPaid (project_chargeable_item db now o t)
    unfolding project_chargeable_item
    project_chargeable_item-IsPaid now none t h = h
    project_chargeable_item-IsPaid now (some o) t h =
        elim o.status
          as (λ s. IsPaid (elim s as (λ _. db.Table ChargeableItem) [
            | succeeded ↦ (db.update_many (is_payable o) (consume_item now o) t).0
            | canceled_intent ↦ (db.update_many (is_pending_item o) reopen t).0
            | other_status ↦ (db.update_many (is_pending_item o) (set_intent o) t).0
          ])) [
            | succeeded ↦
                written-IsPaid (is_payable o) (consume_item now o) (λ x k w. ground (arith, k, w)) t
                  h
            | canceled_intent ↦
                written-IsPaid (is_pending_item o) reopen (λ x k w. absurd (ground (arith, k, w))) t
                  h
            | other_status ↦
                written-IsPaid (is_pending_item o) (set_intent o)
                  (λ x k w. absurd (ground (arith, k, w))) t h
          ]

    record_payment_intent-IsPaid :
        (r : ReservedChargeable) (intent : ℕ) (paid : Bool) (now : ℕ) (t : db.Table ChargeableItem)
        → IsPaid t
        → IsPaid (record_payment_intent db lower r intent paid now t).1
    unfolding record_payment_intent
    record_payment_intent-IsPaid r intent paid now t h =
        written-IsPaid (takes_intent r intent) (mark_paid now intent paid)
          (λ x k w. absurd (ground (arith, k, w))) t h

    abbrev Keeps : (db.Table ChargeableItem → db.Table ChargeableItem) → Type 0
    Keeps meanwhile = (x : db.Table ChargeableItem) → IsPaid x → IsPaid (meanwhile x)

    reserve_item-IsPaid :
        (now key_hash : ℕ) (meanwhile : db.Table ChargeableItem → db.Table ChargeableItem)
        (item : ChargeableItem)
        (next : db.Table ChargeableItem → Result ReservedChargeable × db.Table ChargeableItem)
        (t : db.Table ChargeableItem)
        → Keeps meanwhile
        → ((x : db.Table ChargeableItem) → IsPaid x → IsPaid (next x).1)
        → IsPaid t
        → IsPaid (reserve_item db lower now key_hash meanwhile item next t).1
    unfolding reserve_item
    reserve_item-IsPaid now key_hash meanwhile item next t k m h =
        let t' = (db.update_many (is_free item.id) (mark_reserved now key_hash) (meanwhile t)).0 in
        let w : IsPaid t' =
          written-IsPaid (is_free item.id) (mark_reserved now key_hash)
            (λ x a b. absurd (ground (arith, a, b))) (meanwhile t) (k t h) in
        ground (arith, h, w, m t' w)

    reserve_attempts-IsPaid :
        (reference : String) (user_id key_hash now : ℕ)
        (peers : List (db.Table ChargeableItem → db.Table ChargeableItem))
        (t : db.Table ChargeableItem)
        → All Keeps peers
        → IsPaid t
        → IsPaid (reserve_attempts db lower reference user_id key_hash now peers t).1
    unfolding reserve_attempts
    reserve_attempts-IsPaid reference user_id key_hash now [] t ks h = h
    reserve_attempts-IsPaid reference user_id key_hash now (meanwhile ∷ rest) t (k, ks) h =
        elim (Option-cases (db.find_first (refers reference) t)) [
          | inl missing ↦ rw (missing, reserve_attempts) h
          | inr (item, found) ↦
              elim (Result-cases (assert_item_owner_and_expiry item user_id now)) [
                | inr (e, refused) ↦ rw (found, reserve_attempts, refused) h
                | inl (_, allowed) ↦
                    rw (found, reserve_attempts, allowed)
                      (reserve_item-IsPaid now key_hash meanwhile item
                        (reserve_attempts db lower reference user_id key_hash now rest) t k
                        (λ x w. reserve_attempts-IsPaid reference user_id key_hash now rest x ks w)
                        h)
              ]
        ]

    perform_item-IsPaid :
        (first second : db.Table ChargeableItem → db.Table ChargeableItem) (c : ItemCall)
        (t : db.Table ChargeableItem)
        → Keeps first
        → Keeps second
        → IsPaid t
        → IsPaid (perform_item first second c t)
    unfolding perform_item reserve
    perform_item-IsPaid first second (reserve_for reference user_id key_hash now) t k m h =
        reserve_attempts-IsPaid reference user_id key_hash now (first ∷ second ∷ []) t (k, (m, tt))
          h
    perform_item-IsPaid first second (record_intent r intent paid now) t k m h =
        record_payment_intent-IsPaid r intent paid now t h
    perform_item-IsPaid first second (project_event now o) t k m h =
        project_chargeable_item-IsPaid now o t h

    perform_items-IsPaid : (cs : List ItemCall) → Keeps (perform_items cs)
    unfolding perform_items
    perform_items-IsPaid [] t h = h
    perform_items-IsPaid (c ∷ cs) t h =
        perform_items-IsPaid cs (perform_item (λ x. x) (λ x. x) c t)
          (perform_item-IsPaid (λ x. x) (λ x. x) c t (λ x w. w) (λ x w. w) h)

    -- What was paid stays paid: if an item is consumed by a payment intent, then it is still
    -- consumed by the same intent after any reservations, records of payments and events, in any
    -- order and for any keys, intents and statuses, cancellations of that intent included, where
    -- each reservation is interrupted before both of its writes by any calls of the same kinds.
    pub run_items-IsPaid :
        (cs : List (ItemCall × List ItemCall × List ItemCall)) (t : db.Table ChargeableItem)
        → any (is_paid id payment_intent_id) (db.rows t) ≡ true
        → any (is_paid id payment_intent_id) (db.rows (run_items cs t)) ≡ true
    unfolding run_items
    run_items-IsPaid [] t h = h
    run_items-IsPaid ((c, first, second) ∷ cs) t h =
        run_items-IsPaid cs (perform_item (perform_items first) (perform_items second) c t) (
          perform_item-IsPaid (perform_items first) (perform_items second) c t
            (perform_items-IsPaid first) (perform_items-IsPaid second) h)
