-- ===== src/Stripe/Chargeable/Reservation.antt =====
-- An item is reserved for one payment (src/modules/stripe/stripe.chargeable.ts).
use mathlib.Core.List.{Memᴰ}
use production_backend_found.Prelude.{
  ℕ, ◌≤◌, ◌≡◌, ◌≢◌, refl, sym, ap, ◌∙◌, inl, inr, Bool, true, false, not, ◌&&◌, ◌||◌, some, String,
  List, [], ◌∷◌, ◌==◌, any, is_at, tally, update_where, arith, Bool-cases, Option-cases,
  any_of_Memᴰ, single_apart, any-update_where-hit, any-update_where-sole, update_where_none,
  tally_none,
}
use production_backend_found.Errors.{Result, ok, err, Result-cases, conflict_error, AppError}
use production_backend_found.Store.{Prisma}
use production_backend_found.Stripe.Chargeable.{
  ReservedChargeable, ChargeableItem, is_open_item, is_reserved, is_held, refers, is_free,
  mark_reserved, takes_intent, mark_paid, reservation, reserve_item, reserve_attempts, reserve,
  record_payment_intent, assert_item_owner_and_expiry,
}

module _ {ℓ} {A : Type ℓ} (p : A → Bool) where
  tally-some : (xs : List A) → 1 ≤ tally p xs → (x : A) × Memᴰ x xs × (p x ≡ true)
  tally-some [] h = absurd (omega arith)
  tally-some (x ∷ xs) h = elim (Bool-cases (p x)) [
    | inl hit ↦ (x, Memᴰ.head refl, hit)
    | inr miss ↦
        let (y, listed, hit) = tally-some xs (ground (arith, h, miss)) in (y, Memᴰ.tail listed, hit)
  ]

module _ (db : Prisma) (lower : String → String) where
  -- The item with the identifier is held under the key.
  abbrev pub is_held_item : ReservedChargeable → ChargeableItem → Bool
  is_held_item r i = i.id == r.reservation_id && is_held r.reservation_key_hash i

  reserve_item-held :
      (now key_hash : ℕ) (meanwhile : db.Table ChargeableItem → db.Table ChargeableItem)
      (item : ChargeableItem)
      (next : db.Table ChargeableItem → Result ReservedChargeable × db.Table ChargeableItem)
      (t t' : db.Table ChargeableItem) (r : ReservedChargeable)
      → Memᴰ item (db.rows t)
      → ((u : db.Table ChargeableItem)
          → next u ≡ (ok r, t')
          → (r.reservation_key_hash ≡ key_hash) × (any (is_held_item r) (db.rows t') ≡ true))
      → reserve_item db lower now key_hash meanwhile item next t ≡ (ok r, t')
      → (r.reservation_key_hash ≡ key_hash) × (any (is_held_item r) (db.rows t') ≡ true)
  unfolding reserve_item
  reserve_item-held now key_hash meanwhile item next t t' r listed later h =
      let r' = reservation db lower item key_hash in
      let written = db.update_many (is_free item.id) (mark_reserved now key_hash) (meanwhile t) in
      elim (Bool-cases (is_reserved item.status)) [
        | inl held ↦ elim (Bool-cases (is_at item.reservation_key_hash key_hash)) [
          | inr other ↦ absurd (ground (arith, held, other))
          | inl own ↦
              let same : r' ≡ r = ground (arith, held, own, h) in
              (
                ap (λ (x : ReservedChargeable). x.reservation_key_hash) (sym same),
                rw (← same) (
                    ground (
                      arith,
                      h,
                      held,
                      own,
                      any_of_Memᴰ (is_held_item r') listed (ground (arith, held, own)),
                    )),
              )
        ]
        | inr free ↦ elim (Bool-cases (is_open_item item.status)) [
          | inr closed ↦ absurd (ground (arith, free, closed))
          | inl opened ↦ elim (Bool-cases (written.1 == 1)) [
            | inr lost ↦ later written.0 (ground (arith, free, opened, lost, h))
            | inl won ↦
                let same : r' ≡ r = ground (arith, free, opened, won, h) in
                let table : written.0 ≡ t' = ground (arith, free, opened, won, h) in
                let one =
                  db.count_update_many (is_free item.id) (mark_reserved now key_hash)
                    (meanwhile t) in
                (
                  ap (λ (x : ReservedChargeable). x.reservation_key_hash) (sym same),
                  rw
                      (
                        ← same,
                        ← table,
                        db.rows_update_many (is_free item.id) (mark_reserved now key_hash)
                            (meanwhile t),
                      )
                      (any-update_where-hit (is_free item.id) (is_held_item r')
                        (mark_reserved now key_hash) (db.rows (meanwhile t))
                        (ground (arith, one, won)) (λ i k. ground (arith, k))),
                )
          ]
        ]
      ]

  reserve_attempts-held :
      (reference : String) (user_id key_hash now : ℕ)
      (peers : List (db.Table ChargeableItem → db.Table ChargeableItem))
      (t t' : db.Table ChargeableItem) (r : ReservedChargeable)
      → reserve_attempts db lower reference user_id key_hash now peers t ≡ (ok r, t')
      → (r.reservation_key_hash ≡ key_hash) × (any (is_held_item r) (db.rows t') ≡ true)
  unfolding reserve_attempts
  reserve_attempts-held reference user_id key_hash now [] t t' r h = absurd (ground arith)
  reserve_attempts-held reference user_id key_hash now (meanwhile ∷ rest) t t' r h =
      elim (Option-cases (db.find_first (refers reference) t)) [
        | inl absent ↦ absurd (ground (arith, absent))
        | inr (item, found) ↦ elim (Result-cases (assert_item_owner_and_expiry item user_id now)) [
          | inr (x, refused) ↦ absurd (ground (arith, found, refused))
          | inl (_, passed) ↦
              let (listed, _) = db.find_first_selects _ t item found in
              reserve_item-held now key_hash meanwhile item
                (reserve_attempts db lower reference user_id key_hash now rest) t t' r listed
                (λ u h'. reserve_attempts-held reference user_id key_hash now rest u t' r h')
                (ground (arith, found, passed, h))
        ]
      ]

  -- A reservation that is handed out is in the table: whatever others do to the table meanwhile, an
  -- item with its identifier is then reserved under the caller's key.
  pub reserve-held :
      (reference : String) (user_id key_hash now : ℕ)
      (first_peers second_peers : db.Table ChargeableItem → db.Table ChargeableItem)
      (t t' : db.Table ChargeableItem) (r : ReservedChargeable)
      → reserve db lower reference user_id key_hash now first_peers second_peers t ≡ (ok r, t')
      → (r.reservation_key_hash ≡ key_hash) × (any (is_held_item r) (db.rows t') ≡ true)
  unfolding reserve
  reserve-held reference user_id key_hash now first_peers second_peers t t' r h =
      reserve_attempts-held reference user_id key_hash now (first_peers ∷ second_peers ∷ []) t t' r
        h

  -- A reservation excludes every other payment. After a reservation that succeeds, and as long as one
  -- row has the reserved identifier, a reservation under another key that finds the reserved item is
  -- refused and writes nothing, whatever others do meanwhile.
  pub reserve-exclusive :
      (reference other_reference : String)
      (user_id key_hash now other_user_id other_key_hash later : ℕ)
      (first_peers second_peers third_peers fourth_peers : db.Table ChargeableItem
        → db.Table ChargeableItem)
      (t t' : db.Table ChargeableItem) (r : ReservedChargeable) (item : ChargeableItem)
      → reserve db lower reference user_id key_hash now first_peers second_peers t ≡ (ok r, t')
      → tally (λ i. i.id == r.reservation_id) (db.rows t') ≤ 1
      → db.find_first (refers other_reference) t' ≡ some item
      → item.id ≡ r.reservation_id
      → other_key_hash ≢ key_hash
      → (x : AppError) × (reserve db lower other_reference other_user_id other_key_hash later
            third_peers fourth_peers t'
          ≡ (err x, t'))
  unfolding reserve reserve_attempts reserve_item
  reserve-exclusive reference other_reference user_id key_hash now other_user_id other_key_hash
        later first_peers second_peers third_peers fourth_peers t t' r item h one found same apart =
      let (keyed, held) =
        reserve-held reference user_id key_hash now first_peers second_peers t t' r h in
      let (listed, _) = db.find_first_selects _ t' item found in
      let held_item : is_held r.reservation_key_hash item ≡ true =
        elim (Bool-cases (is_held r.reservation_key_hash item)) [
          | inl kept ↦ kept
          | inr lost ↦ absurd (
              ground (
                arith,
                held,
                single_apart (λ i. i.id == r.reservation_id) (is_held r.reservation_key_hash) listed
                    (ground (arith, same)) lost one,
              ))
        ] in
      elim (Result-cases (assert_item_owner_and_expiry item other_user_id later)) [
        | inr (x, refused) ↦ (x, ground (arith, found, refused))
        | inl (_, passed) ↦ (conflict_error, ground (arith, found, passed, held_item, keyed, apart))
      ]

  -- A reservation is paid once. If one row at most has the reserved identifier, then after a payment
  -- intent was recorded for the reservation, recording another intent for it is refused and changes no
  -- row; and so is recording the same one, once it has succeeded.
  pub record_payment_intent_once :
      (r : ReservedChargeable) (payment_intent_id other_intent_id now later : ℕ)
      (succeeded other_succeeded : Bool) (t t' : db.Table ChargeableItem)
      → tally (λ i. i.id == r.reservation_id) (db.rows t) ≤ 1
      → (not (other_intent_id == payment_intent_id) || succeeded) ≡ true
      → record_payment_intent db lower r payment_intent_id succeeded now t ≡ (ok tt, t')
      → (t'' : db.Table ChargeableItem) × (record_payment_intent db lower r other_intent_id
            other_succeeded later t'
          ≡ (err conflict_error, t''))
        × (db.rows t'' ≡ db.rows t')
  unfolding record_payment_intent
  record_payment_intent_once r payment_intent_id other_intent_id now later succeeded other_succeeded
        t t' one apart h =
      let p = takes_intent r payment_intent_id in
      let q = takes_intent r other_intent_id in
      let f = mark_paid now payment_intent_id succeeded in
      let g = mark_paid later other_intent_id other_succeeded in
      let counted = db.count_update_many p f t in
      let (i, listed, taken) = tally-some p (db.rows t) (ground (arith, counted, h)) in
      let rows : db.rows t' ≡ update_where p f (db.rows t) =
        ground (arith, h, db.rows_update_many p f t) in
      let free : any q (db.rows t') ≡ false = rw rows (
        any-update_where-sole p q (λ i. i.id == r.reservation_id) f (λ i k. ground (arith, k))
          (λ i. ground (arith, apart)) listed taken (ground (arith, taken)) one) in
      (
        (db.update_many q g t').0,
        ground (arith, db.count_update_many q g t', tally_none q (db.rows t') free),
        db.rows_update_many q g t' ∙ update_where_none q g (db.rows t') free,
      )
