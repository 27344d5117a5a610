-- ===== src/Idempotency/Replay.antt =====
-- What a finished operation leaves (src/lib/idempotency.ts).
use production_backend_found.Prelude.{
  ℕ, ◌≤◌, ◌<◌, ◌≡◌, refl, ap, inl, inr, Bool, true, false, ◌&&◌, Option, none, some, List, [], ◌∷◌,
  ◌==◌, update_where, any, is_at, tally, arith, Bool-cases, single_apart, any-update_where-hit,
}
use production_backend_found.Errors.{Result, ok, err, AppError}
use production_backend_found.Store.{Prisma}
use production_backend_found.Crypto.Text.{Chars, codes_eq, codes_eq_refl, codes_eq_sound}
use production_backend_found.Idempotency.{
  StoredResponse, encrypted_response, plain_response, ResponseCodec, encrypt_response,
  decrypt_response, completed_result, IdempotencyRecord, IdempotencyInput, Completed, is_for_input,
  is_same_request, is_owned, save_result, release_lease, settle, acquire, reacquire, run_idempotent,
}

-- The stored response is this one.
abbrev pub is_stored : Option StoredResponse → StoredResponse → Bool
is_stored (some (encrypted_response a)) (encrypted_response b) = codes_eq a b
is_stored (some (plain_response a)) (plain_response b) = a == b
is_stored _ _ = false

pub is_stored_refl : (stored : StoredResponse) → is_stored (some stored) stored ≡ true
is_stored_refl (encrypted_response a) = codes_eq_refl a
is_stored_refl (plain_response a) = ground arith

is_stored_sound :
    (x : Option StoredResponse) (stored : StoredResponse)
    → is_stored x stored ≡ true
    → x ≡ some stored
is_stored_sound none stored h = absurd (ground (arith, h))
is_stored_sound (some (encrypted_response a)) (encrypted_response b) h =
    ap (λ c. some (encrypted_response c)) (codes_eq_sound a b h)
is_stored_sound (some (encrypted_response a)) (plain_response b) h = absurd (ground (arith, h))
is_stored_sound (some (plain_response a)) (encrypted_response b) h = absurd (ground (arith, h))
is_stored_sound (some (plain_response a)) (plain_response b) h = ground (arith, h)

some_of : (x : Option ℕ) (n : ℕ) → is_at x n ≡ true → x ≡ some n
some_of none n h = absurd (ground (arith, h))
some_of (some m) n h = ground (arith, h)

-- The record carries the result.
abbrev pub has_result : ℕ → StoredResponse → IdempotencyRecord → Bool
has_result code stored r = is_at r.status_code code && is_stored r.response stored

module _ (db : Prisma) (codec : ResponseCodec) (input : IdempotencyInput) where
  settle-saved :
      (now lock_token id code response : ℕ) (stored : StoredResponse)
      (t t' : db.Table IdempotencyRecord) (done : Completed)
      → encrypt_response codec response ≡ ok stored
      → settle db codec input now lock_token id (ok (code, response)) t ≡ (ok done, t')
      → any (λ r. r.id == id && has_result code stored r) (db.rows t') ≡ true
  unfolding settle
  settle-saved now lock_token id code response stored t t' done sealed h =
      let saved = db.update_many (is_owned id lock_token) (save_result code stored) t in
      elim (Bool-cases (saved.1 == 1)) [
        | inr lost ↦ absurd (ground (arith, sealed, lost, h))
        | inl won ↦
            let table : saved.0 ≡ t' = ground (arith, sealed, won, h) in
            rw (← table, db.rows_update_many (is_owned id lock_token) (save_result code stored) t)
              (any-update_where-hit (is_owned id lock_token)
                (λ r. r.id == id && has_result code stored r) (save_result code stored) (db.rows t)
                (ground (
                  arith,
                  won,
                  db.count_update_many (is_owned id lock_token) (save_result code stored) t,
                ))
                (λ x k. ground (arith, k, is_stored_refl stored)))
      ]

  -- A finished operation is never run again under its key. After the owner of a record has saved a
  -- result, a later call for the same request that finds the record before it expires returns the
  -- saved status and response as a replay and changes nothing, whatever its operation would return,
  -- if one row at most has the record's identifier, the secret that the response was sealed to is
  -- still opened to its JSON, and the response is one that JSON reads back (`undefined` is not).
  pub run_idempotent_replays :
      (now lock_token id code response later other_token other_id : ℕ) (text sealed : Chars)
      (meanwhile peers : db.Table IdempotencyRecord → db.Table IdempotencyRecord)
      (operation : Result (ℕ × ℕ)) (t t' : db.Table IdempotencyRecord) (done : Completed)
      (r : IdempotencyRecord)
      → codec.stringify response ≡ some text
      → codec.encrypt_secret text ≡ ok sealed
      → codec.decrypt_secret sealed ≡ ok text
      → codec.parse text ≡ ok response
      → settle db codec input now lock_token id (ok (code, response)) t ≡ (ok done, t')
      → tally (λ x. x.id == id) (db.rows t') ≤ 1
      → db.find_first (is_for_input input) t' ≡ some r
      → r.id ≡ id
      → is_same_request input r ≡ true
      → later < r.expires_at
      → run_idempotent db codec input later other_token other_id meanwhile peers operation t'
        ≡ (ok (record { status_code = code; response = response; replayed = true }), t')
  unfolding run_idempotent acquire reacquire encrypt_response decrypt_response
  run_idempotent_replays now lock_token id code response later other_token other_id text sealed
        meanwhile peers operation t t' done r written made opened read h one found same request
        soon =
      let stored = encrypted_response sealed in
      let (listed, _) = db.find_first_selects _ t' r found in
      let encrypted : encrypt_response codec response ≡ ok stored = ground (arith, written, made) in
      let saved : has_result code stored r ≡ true = elim (Bool-cases (has_result code stored r)) [
        | inl kept ↦ kept
        | inr lost ↦ absurd (
            ground (
              arith,
              settle-saved now lock_token id code response stored t t' done encrypted h,
              single_apart (λ x. x.id == id) (has_result code stored) listed (ground (arith, same))
                  lost one,
            ))
      ] in
      let status : r.status_code ≡ some code = some_of r.status_code code (ground (arith, saved)) in
      let body : r.response ≡ some stored =
        is_stored_sound r.response stored (ground (arith, saved)) in
      let completed : completed_result codec r
          ≡ ok (some (record { status_code = code; response = response; replayed = true })) =
        rw (status, body) (ground (arith, opened, read)) in
      ground (arith, found, completed, request, soon)

  -- An operation that throws is not remembered as done: its error is the call's, and the record that
  -- it owned is released, so that the owner's token is on no unfinished row.
  pub settle_releases :
      (now lock_token id : ℕ) (thrown : AppError) (t t' : db.Table IdempotencyRecord)
      (answer : Result Completed)
      → settle db codec input now lock_token id (err thrown) t ≡ (answer, t')
      → (answer ≡ err thrown) × (any (is_owned id lock_token) (db.rows t') ≡ false)
  unfolding settle
  settle_releases now lock_token id thrown t t' answer h = (
    ground (arith, h),
    ground (
      arith,
      h,
      db.rows_update_many (is_owned id lock_token) (release_lease now) t,
      released (db.rows t),
    ),
  )
    where
      released :
          (rs : List IdempotencyRecord)
          → any
              (is_owned id lock_token)
              (update_where (is_owned id lock_token) (release_lease now) rs)
            ≡ false
      released [] = refl
      released (r ∷ rs) = ground (arith, released rs)
