-- ===== src/Idempotency/Transaction.antt =====
-- `runIdempotentTransaction` of src/lib/idempotency.ts: the operation's writes and the replay record
-- commit together. How the database ends each attempt is a parameter; an attempt that it aborts leaves
-- nothing. The state beside the records that the operation writes is `S`.
use production_backend_found.Prelude.{
  ℕ, zero, suc, ◌≡◌, inl, inr, ◌⊎◌, Bool, true, false, not, ◌&&◌, Option, none, some, List, [], ◌∷◌,
  ◌==◌, leb, any, is_none, arith, Bool-cases, Option-cases, if◌then◌else◌,
}
use production_backend_found.Errors.{Result, ok, err, conflict_error, plain_error, Result-cases}
use production_backend_found.Store.{Prisma}
use production_backend_found.Idempotency.{
  IdempotencyRecord, IdempotencyInput, Completed, completed_result, is_for_input, is_same_request,
  new_record, ResponseCodec, StoredResponse, stored_result, encrypt_response, decrypt_response,
}
use production_backend_found.Idempotency.Replay.{has_result, is_stored_refl}

-- How an attempt ends: it commits, or is aborted by a serialization failure (P2034) or by the unique
-- key (P2002).
pub data Attempt : Type 0 where
  commits serialization_failure unique_violation : Attempt

stored_result-replayed :
    (codec : ResponseCodec) (status : Option ℕ) (body : Option StoredResponse) (done : Completed)
    → stored_result codec status body ≡ ok (some done)
    → done.replayed ≡ true
stored_result-replayed codec none body done h = absurd (ground (arith, h))
stored_result-replayed codec (some code) none done h = absurd (ground (arith, h))
stored_result-replayed codec (some code) (some stored) done h =
    elim (Result-cases (decrypt_response codec stored)) [
      | inl (response, opened) ↦ ground (arith, opened, h)
      | inr (x, unread) ↦ absurd (ground (arith, unread, h))
    ]

module _ (db : Prisma) (codec : ResponseCodec) (input : IdempotencyInput) (S : Type 0) where
  abbrev pub State : Type 0
  State = db.Table IdempotencyRecord × S

  -- `!record`: the operation runs, then its result is written to the record that was created.
  unfoldable pub perform : ℕ → ℕ → (S → Result (ℕ × ℕ) × S) → State → Result (Completed × State)
  perform now new_id operation (t, w) =
      let created = db.create (new_record input new_id now none none) t in
      let (answer, w') = operation w in
      elim answer [
        | err thrown ↦ err thrown
        | ok (code, response) ↦ elim (encrypt_response codec response) [
          | err thrown ↦ err thrown
          | ok stored ↦ ok (
            record { status_code = code; response = response; replayed = false },
            (
              (db.update_many (λ r. r.id == new_id && is_none r.deleted_at)
                  (λ r. record r { status_code = some code; response = some stored }) created).0,
              w',
            ),
          )
        ]
      ]

  -- `assertSameRequest`, then the completed response or a conflict.
  unfoldable pub answer_from : IdempotencyRecord → State → Result (Completed × State)
  answer_from r s =
      if not (is_same_request input r)
      then err conflict_error
      else elim (completed_result codec r) [
        | err e ↦ err e
        | ok none ↦ err conflict_error
        | ok (some done) ↦ ok (done, s)
      ]

  unfoldable pub execute : ℕ → ℕ → (S → Result (ℕ × ℕ) × S) → State → Result (Completed × State)
  execute now new_id operation (t, w) = elim (db.find_first (is_for_input input) t) [
    | none ↦ perform now new_id operation (t, w)
    | some r ↦
        let performed =
          perform now new_id operation
            (db.delete_many (λ x. x.id == r.id && is_none x.deleted_at) t, w) in
        let answered = answer_from r (t, w) in
        if not (leb r.expires_at now) then answered else elim (completed_result codec r) [
          | err e ↦ err e
          | ok (some done) ↦ performed
          | ok none ↦ answered
        ]
  ]

  -- The state after the call: an error changes nothing.
  abbrev pub commit : State → Result (Completed × State) → Result Completed × State
  commit s (ok (done, s')) = (ok done, s')
  commit s (err e) = (err e, s)

  -- A concurrent transaction won the unique key.
  unfoldable pub replay_winner : State → Result Completed × State
  replay_winner (t, w) = elim (db.find_first (is_for_input input) t) [
    | none ↦ (err plain_error, (t, w))
    | some winner ↦ commit (t, w) (answer_from winner (t, w))
  ]

  -- The attempts of the loop, an entry of the list for each, with the peers that commit before it; `left` is how many more may
  -- follow the present one.
  unfoldable pub attempts :
      ℕ
      → ℕ
      → (S → Result (ℕ × ℕ) × S)
      → ℕ
      → List (Attempt × (State → State))
      → State
      → Result Completed × State
  attempts now new_id operation left [] s = (err plain_error, s)
  attempts now new_id operation left ((commits, peers) ∷ rest) s =
      commit (peers s) (execute now new_id operation (peers s))
  attempts now new_id operation zero ((serialization_failure, peers) ∷ rest) s =
      (err plain_error, peers s)
  attempts now new_id operation (suc left) ((serialization_failure, peers) ∷ rest) s =
      attempts now new_id operation left rest (peers s)
  attempts now new_id operation left ((unique_violation, peers) ∷ rest) s = replay_winner (peers s)

  unfoldable pub run_idempotent_transaction :
      ℕ
      → ℕ
      → (S → Result (ℕ × ℕ) × S)
      → List (Attempt × (State → State))
      → State
      → Result Completed × State
  run_idempotent_transaction now new_id operation ends s = attempts now new_id operation 2 ends s

  -- A record that answers for the input with the result: its response is what the result is sealed to.
  abbrev pub answers : ℕ → StoredResponse → IdempotencyRecord → Bool
  answers code stored r =
      is_for_input input r && is_same_request input r && has_result code stored r

  abbrev Answered : Completed → db.Table IdempotencyRecord → Type 0
  Answered done t =
      (stored : StoredResponse) × (encrypt_response codec done.response ≡ ok stored)
      × (any (answers done.status_code stored) (db.rows t) ≡ true)

  perform-ok :
      (now new_id : ℕ) (operation : S → Result (ℕ × ℕ) × S) (t t' : db.Table IdempotencyRecord)
      (w w' : S) (done : Completed)
      → any (λ h. h == input.key_hash) input.key_hash_candidates ≡ true
      → any (λ h. h == input.request_hash) input.request_hash_candidates ≡ true
      → perform now new_id operation (t, w) ≡ ok (done, (t', w'))
      → (done.replayed ≡ false)
        × (operation w ≡ (ok (done.status_code, done.response), w'))
        × Answered done t'
  unfolding perform
  perform-ok now new_id operation t t' w w' done key request h =
      elim (Result-cases (operation w).0) [
        | inr (x, thrown) ↦ absurd (ground (arith, thrown))
        | inl ((code, response), returned) ↦ elim (Result-cases (encrypt_response codec response)) [
          | inr (x, unsealed) ↦ absurd (ground (arith, returned, unsealed))
          | inl (stored, sealed) ↦ (
            ground (arith, returned, sealed, h),
            ground (arith, returned, sealed, h),
            (
              stored,
              ground (arith, returned, sealed, h),
              ground (
                arith,
                returned,
                sealed,
                h,
                key,
                request,
                is_stored_refl stored,
                db.rows_update_many (λ r. r.id == new_id && is_none r.deleted_at)
                    (λ r. record r { status_code = some code; response = some stored })
                    (db.create (new_record input new_id now none none) t),
                db.rows_create (new_record input new_id now none none) t,
              ),
            ),
          )
        ]
      ]

  -- A transaction that commits either replays a stored response, and then neither the records nor the
  -- business data change, or runs the operation once and commits its writes together with a record that
  -- answers later calls for the input with its result.
  pub execute-ok :
      (now new_id : ℕ) (operation : S → Result (ℕ × ℕ) × S) (t t' : db.Table IdempotencyRecord)
      (w w' : S) (done : Completed)
      → any (λ h. h == input.key_hash) input.key_hash_candidates ≡ true
      → any (λ h. h == input.request_hash) input.request_hash_candidates ≡ true
      → execute now new_id operation (t, w) ≡ ok (done, (t', w'))
      → ((done.replayed ≡ true) × (t' ≡ t) × (w' ≡ w))
        ⊎ ((done.replayed ≡ false)
            × (operation w ≡ (ok (done.status_code, done.response), w'))
            × Answered done t')
  unfolding execute answer_from
  execute-ok now new_id operation t t' w w' done key request h =
      elim (Option-cases (db.find_first (is_for_input input) t)) [
        | inl absent ↦
            inr (
              perform-ok now new_id operation t t' w w' done key request
                (ground (arith, absent, h)))
        | inr (r, found) ↦ elim (Result-cases (completed_result codec r)) [
          | inr (x, unread) ↦ absurd (ground (arith, found, unread, h))
          | inl (none, unfinished) ↦ absurd (ground (arith, found, unfinished, h))
          | inl (some stored, finished) ↦ elim (Bool-cases (leb r.expires_at now)) [
            | inl expired ↦ inr (
                perform-ok now new_id operation
                  (db.delete_many (λ x. x.id == r.id && is_none x.deleted_at) t) t' w w' done key
                  request (ground (arith, found, finished, expired, h)))
            | inr kept ↦ inl (
              ground (
                arith,
                found,
                kept,
                finished,
                h,
                stored_result-replayed codec r.status_code r.response stored finished,
              ),
              ground (arith, found, kept, finished, h),
              ground (arith, found, kept, finished, h),
            )
          ]
        ]
      ]
