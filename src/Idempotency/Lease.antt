-- ===== src/Idempotency/Lease.antt =====
-- One caller at a time runs the operation of a key (src/lib/idempotency.ts).
use production_backend_found.Prelude.{
  ℕ, ◌+◌, ◌≤◌, ◌<◌, ◌≡◌, inl, inr, Bool, true, false, ◌&&◌, none, some, ◌==◌, leb, any, is_at,
  is_none, is_some, tally, arith, Bool-cases, Option-cases, any_mono_false, single_apart,
  any-update_where-hit, tally_none,
}
use production_backend_found.Errors.{ok, err, conflict_error, Result-cases}
use production_backend_found.Store.{Prisma}
use production_backend_found.Idempotency.{
  external_operation_lease_ms, IdempotencyRecord, IdempotencyInput, completed_result, ResponseCodec,
  is_for_input, is_same_request, collides, new_record, is_unlocked, is_acquirable, take_lease, owns,
  reacquire, start_record, acquire,
}

-- The record is leased until the time, and has no result.
abbrev pub is_leased : ℕ → IdempotencyRecord → Bool
is_leased until r = is_at r.locked_until until && is_none r.status_code

module _ (db : Prisma) (codec : ResponseCodec) (input : IdempotencyInput) where
  abbrev pub is_leased_record : ℕ → ℕ → IdempotencyRecord → Bool
  is_leased_record id until r = r.id == id && is_leased until r

  start_record-leased :
      (now lock_token new_id id : ℕ)
      (meanwhile : db.Table IdempotencyRecord → db.Table IdempotencyRecord)
      (t t' : db.Table IdempotencyRecord)
      → start_record db codec input now lock_token new_id meanwhile t ≡ (ok (owns id), t')
      → any (is_leased_record id (now + external_operation_lease_ms)) (db.rows t') ≡ true
  unfolding start_record
  start_record-leased now lock_token new_id id meanwhile t t' h =
      elim (Bool-cases (any (collides input) (db.rows (meanwhile t)))) [
        | inl taken ↦ absurd (ground (arith, taken))
        | inr free ↦ ground (
          arith,
          free,
          h,
          db.rows_create
              (new_record input new_id now (some lock_token)
                (some (now + external_operation_lease_ms)))
              (meanwhile t),
        )
      ]

  reacquire-leased :
      (now lock_token id : ℕ) (r : IdempotencyRecord)
      (meanwhile : db.Table IdempotencyRecord → db.Table IdempotencyRecord)
      (t t' : db.Table IdempotencyRecord)
      → reacquire db codec input now lock_token r meanwhile t ≡ (ok (owns id), t')
      → any (is_leased_record id (now + external_operation_lease_ms)) (db.rows t') ≡ true
  unfolding reacquire
  reacquire-leased now lock_token id r meanwhile t t' h =
      let acquired =
        db.update_many (is_acquirable r.id now) (take_lease input now lock_token) (meanwhile t) in
      elim (Bool-cases (is_same_request input r)) [
        | inr other ↦ absurd (ground (arith, other))
        | inl same ↦ elim (Result-cases (completed_result codec r)) [
          | inr (x, unread) ↦ absurd (ground (arith, same, unread))
          | inl (some done, finished) ↦ absurd (ground (arith, same, finished))
          | inl (none, unfinished) ↦ elim (Bool-cases (acquired.1 == 1)) [
            | inr lost ↦ absurd (ground (arith, same, unfinished, lost))
            | inl won ↦
                let own : r.id ≡ id = ground (arith, same, unfinished, won, h) in
                let table : acquired.0 ≡ t' = ground (arith, same, unfinished, won, h) in
                let one =
                  db.count_update_many (is_acquirable r.id now) (take_lease input now lock_token)
                    (meanwhile t) in
                rw
                  (
                    ← table,
                    ← own,
                    db.rows_update_many (is_acquirable r.id now) (take_lease input now lock_token)
                        (meanwhile t),
                  )
                  (any-update_where-hit (is_acquirable r.id now)
                    (is_leased_record r.id (now + external_operation_lease_ms))
                    (take_lease input now lock_token) (db.rows (meanwhile t))
                    (ground (arith, one, won)) (λ x k. ground (arith, k)))
          ]
        ]
      ]

  -- A caller that is to run the operation has leased its record: whatever others do between its read
  -- and its write, the record then has no result and is locked for two minutes from the call.
  pub acquire-leased :
      (now lock_token new_id id : ℕ)
      (meanwhile : db.Table IdempotencyRecord → db.Table IdempotencyRecord)
      (t t' : db.Table IdempotencyRecord)
      → acquire db codec input now lock_token new_id meanwhile t ≡ (ok (owns id), t')
      → any (is_leased_record id (now + external_operation_lease_ms)) (db.rows t') ≡ true
  unfolding acquire
  acquire-leased now lock_token new_id id meanwhile t t' h =
      elim (Option-cases (db.find_first (is_for_input input) t)) [
        | inl absent ↦
            start_record-leased now lock_token new_id id meanwhile t t' (ground (arith, absent, h))
        | inr (r, found) ↦
            let removed =
              start_record-leased now lock_token new_id id meanwhile
                (db.delete_many
                  (λ x.
                    x.id == r.id
                    && leb x.expires_at now
                    && is_some x.status_code
                    && is_none x.deleted_at)
                  t)
                t' in
            let kept = reacquire-leased now lock_token id r meanwhile t t' in
            elim (Bool-cases (leb r.expires_at now)) [
              | inr current ↦ kept (ground (arith, found, current, h))
              | inl expired ↦ elim (Result-cases (completed_result codec r)) [
                | inr (x, unread) ↦ absurd (ground (arith, found, expired, unread, h))
                | inl (some done, spent) ↦ removed (ground (arith, found, expired, spent, h))
                | inl (none, unfinished) ↦ kept (ground (arith, found, expired, unfinished, h))
              ]
            ]
      ]

module _ (db : Prisma) (codec : ResponseCodec) (input other_input : IdempotencyInput) where
  -- While a lease runs, nobody else runs the operation. After a caller has acquired a record, a later
  -- call that finds the record before the lease ends is refused as a conflict, for the same request and
  -- for another, if one row at most has the record's identifier and no other change came in between.
  pub acquire_exclusive :
      (now lock_token new_id id later other_token other_id : ℕ)
      (meanwhile : db.Table IdempotencyRecord → db.Table IdempotencyRecord)
      (t t' : db.Table IdempotencyRecord) (r : IdempotencyRecord)
      → acquire db codec input now lock_token new_id meanwhile t ≡ (ok (owns id), t')
      → tally (λ x. x.id == id) (db.rows t') ≤ 1
      → db.find_first (is_for_input other_input) t' ≡ some r
      → r.id ≡ id
      → later < now + external_operation_lease_ms
      → (t'' : db.Table IdempotencyRecord) × (acquire db codec other_input later other_token
            other_id
            (λ u. u)
            t'
          ≡ (err conflict_error, t''))
  unfolding acquire reacquire
  acquire_exclusive now lock_token new_id id later other_token other_id meanwhile t t' r h one found
        same soon =
      let until = now + external_operation_lease_ms in
      let (listed, _) = db.find_first_selects _ t' r found in
      let leased : is_leased until r ≡ true = elim (Bool-cases (is_leased until r)) [
        | inl kept ↦ kept
        | inr lost ↦ absurd (
            ground (
              arith,
              acquire-leased db codec input now lock_token new_id id meanwhile t t' h,
              single_apart (λ x. x.id == id) (is_leased until) listed (ground (arith, same)) lost
                  one,
            ))
      ] in
      let locked : is_unlocked later r ≡ false = ground (arith, leased, soon) in
      let none_free : any (is_acquirable r.id later) (db.rows t') ≡ false =
        any_mono_false (is_acquirable r.id later) (λ x. x.id == id && is_unlocked later x)
          (db.rows t') (λ x k. ground (arith, k, same))
          (single_apart (λ x. x.id == id) (is_unlocked later) listed (ground (arith, same)) locked
            one) in
      elim (Bool-cases (is_same_request other_input r)) [
        | inr other ↦ (t', ground (arith, found, leased, other))
        | inl request ↦ (
          (db.update_many (is_acquirable r.id later) (take_lease other_input later other_token)
              t').0,
          ground (
            arith,
            found,
            leased,
            request,
            db.count_update_many (is_acquirable r.id later)
                (take_lease other_input later other_token) t',
            tally_none (is_acquirable r.id later) (db.rows t') none_free,
          ),
        )
      ]
