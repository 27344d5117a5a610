-- ===== src/Idempotency.antt =====
-- src/lib/idempotency.ts: `runIdempotent` and `runIdempotentTransaction`. Hashes, keys and responses
-- are numbers that are only compared and stored; JSON, and the secrets of Crypto, are an interface.
-- `meanwhile` is what others do to the records between the read and the first write, `peers` what they
-- do while the operation runs.
pub mod Lease
pub mod Replay
pub mod Transaction
mod Tests
use production_backend_found.Prelude.{
  ℕ, ◌+◌, ◌*◌, Bool, true, false, not, ◌&&◌, ◌||◌, Option, none, some, List, [], ◌∷◌, ◌==◌, leb,
  is_none, is_some, is_at, is_past, any, if◌then◌else◌,
}
use production_backend_found.Errors.{
  Result, ok, err, ◌>>=◌, ◌>>◌, throw_if, AppError, conflict_error, plain_error,
}
use production_backend_found.Store.{Prisma}
use production_backend_found.Crypto.Text.{Chars}

-- EXTERNAL_OPERATION_LEASE_MS.
abbrev pub external_operation_lease_ms : ℕ
external_operation_lease_ms = 120000

-- What the `response` column holds: the object whose one field is a ciphertext, or the value itself of
-- a record from before the encryption.
pub data StoredResponse : Type 0 where
  encrypted_response : Chars → StoredResponse
  plain_response : ℕ → StoredResponse

-- `JSON.stringify`, which has no text for `undefined`, `JSON.parse`, `encryptSecret` and
-- `decryptSecret`.
pub record ResponseCodec : Type 0 where
  pub stringify : ℕ → Option Chars
  pub parse : Chars → Result ℕ
  pub encrypt_secret : Chars → Result Chars
  pub decrypt_secret : Chars → Result Chars

-- 'null'.
abbrev pub null_text : Chars
null_text = 110 ∷ 117 ∷ 108 ∷ 108 ∷ []

abbrev pub text_or_null : Option Chars → Chars
text_or_null none = null_text
text_or_null (some text) = text

unfoldable pub encrypt_response : ResponseCodec → ℕ → Result StoredResponse
encrypt_response codec response = do
  sealed ← codec.encrypt_secret (text_or_null (codec.stringify response))
  ok (encrypted_response sealed)

unfoldable pub decrypt_response : ResponseCodec → StoredResponse → Result ℕ
decrypt_response codec (plain_response response) = ok response
decrypt_response codec (encrypted_response sealed) = do
  opened ← codec.decrypt_secret sealed
  codec.parse opened

pub record IdempotencyRecord : Type 0 where
  pub id : ℕ
  pub actor_key : ℕ
  pub scope : ℕ
  pub key_hash : ℕ
  pub request_hash : ℕ
  pub lock_token : Option ℕ
  pub locked_until : Option ℕ
  pub attempts : ℕ
  pub status_code : Option ℕ
  pub response : Option StoredResponse
  pub expires_at : ℕ
  pub deleted_at : Option ℕ

pub record IdempotencyInput : Type 0 where
  pub actor_key : ℕ
  pub scope : ℕ
  pub key_hash : ℕ
  pub key_hash_candidates : List ℕ
  pub request_hash : ℕ
  pub request_hash_candidates : List ℕ
  pub ttl_hours : Option ℕ

abbrev pub ttl_or_day : Option ℕ → ℕ
ttl_or_day none = 24
ttl_or_day (some h) = h

abbrev pub expiry : IdempotencyInput → ℕ → ℕ
expiry input now = now + ttl_or_day input.ttl_hours * 60 * 60 * 1000

-- What a call returns: the status code, the response, and whether it was replayed.
pub record Completed : Type 0 where
  pub status_code : ℕ
  pub response : ℕ
  pub replayed : Bool

abbrev pub stored_result :
    ResponseCodec → Option ℕ → Option StoredResponse → Result (Option Completed)
stored_result codec (some code) (some stored) = do
  response ← decrypt_response codec stored
  ok (some (record { status_code = code; response = response; replayed = true }))
stored_result codec _ _ = ok none

abbrev pub completed_result : ResponseCodec → IdempotencyRecord → Result (Option Completed)
completed_result codec r = stored_result codec r.status_code r.response

abbrev pub is_for_input : IdempotencyInput → IdempotencyRecord → Bool
is_for_input input r =
    r.actor_key == input.actor_key
    && r.scope == input.scope
    && any (λ h. h == r.key_hash) input.key_hash_candidates
    && is_none r.deleted_at

-- `requestHashCandidates.includes(…)`.
abbrev pub is_same_request : IdempotencyInput → IdempotencyRecord → Bool
is_same_request input r = any (λ h. h == r.request_hash) input.request_hash_candidates

-- The unique key of the table.
abbrev pub collides : IdempotencyInput → IdempotencyRecord → Bool
collides input r =
    r.actor_key == input.actor_key && r.scope == input.scope && r.key_hash == input.key_hash

abbrev pub new_record : IdempotencyInput → ℕ → ℕ → Option ℕ → Option ℕ → IdempotencyRecord
new_record input id now lock_token locked_until = record {
  id = id;
  actor_key = input.actor_key;
  scope = input.scope;
  key_hash = input.key_hash;
  request_hash = input.request_hash;
  lock_token = lock_token;
  locked_until = locked_until;
  attempts = 1;
  status_code = none;
  response = none;
  expires_at = expiry input now;
  deleted_at = none;
}

-- The lease is free: `OR: [{ lockedUntil: null }, { lockedUntil: { lte: now } }]`.
abbrev pub is_unlocked : ℕ → IdempotencyRecord → Bool
is_unlocked now r = is_none r.locked_until || is_past r.locked_until now

abbrev pub is_acquirable : ℕ → ℕ → IdempotencyRecord → Bool
is_acquirable id now r =
    r.id == id && is_none r.status_code && is_unlocked now r && is_none r.deleted_at

abbrev pub take_lease : IdempotencyInput → ℕ → ℕ → IdempotencyRecord → IdempotencyRecord
take_lease input now lock_token r = record r {
  lock_token = some lock_token;
  locked_until = some (now + external_operation_lease_ms);
  expires_at = expiry input now;
  attempts = r.attempts + 1;
}

abbrev pub is_owned : ℕ → ℕ → IdempotencyRecord → Bool
is_owned id lock_token r =
    r.id == id && is_at r.lock_token lock_token && is_none r.status_code && is_none r.deleted_at

abbrev pub save_result : ℕ → StoredResponse → IdempotencyRecord → IdempotencyRecord
save_result code stored r = record r {
  status_code = some code;
  response = some stored;
  lock_token = none;
  locked_until = none;
}

abbrev pub release_lease : ℕ → IdempotencyRecord → IdempotencyRecord
release_lease now r = record r { lock_token = none; locked_until = some now }

-- A call has a completed response, or owns the record and is to run the operation.
pub data Acquired : Type 0 where
  replays : Completed → Acquired
  owns : ℕ → Acquired

module _ (db : Prisma) (codec : ResponseCodec) (input : IdempotencyInput) where
  -- The branch for a record that was found and is not spent.
  unfoldable pub reacquire :
      ℕ
      → ℕ
      → IdempotencyRecord
      → (db.Table IdempotencyRecord → db.Table IdempotencyRecord)
      → db.Table IdempotencyRecord
      → Result Acquired × db.Table IdempotencyRecord
  reacquire now lock_token r meanwhile t =
      let acquired =
        db.update_many (is_acquirable r.id now) (take_lease input now lock_token) (meanwhile t) in
      if not (is_same_request input r)
      then (err conflict_error, t)
      else elim (completed_result codec r) [
        | err e ↦ (err e, t)
        | ok (some done) ↦ (ok (replays done), t)
        | ok none ↦
            if acquired.1 == 1
            then (ok (owns r.id), acquired.0)
            else (err conflict_error, acquired.0)
      ]

  -- The branch without a record; a violated unique key is a conflict.
  unfoldable pub start_record :
      ℕ
      → ℕ
      → ℕ
      → (db.Table IdempotencyRecord → db.Table IdempotencyRecord)
      → db.Table IdempotencyRecord
      → Result Acquired × db.Table IdempotencyRecord
  start_record now lock_token new_id meanwhile t =
      let t' = meanwhile t in
      if any (collides input) (db.rows t') then (err conflict_error, t') else (
        ok (owns new_id),
        db.create
            (new_record input new_id now (some lock_token)
              (some (now + external_operation_lease_ms)))
            t',
      )

  unfoldable pub acquire :
      ℕ
      → ℕ
      → ℕ
      → (db.Table IdempotencyRecord → db.Table IdempotencyRecord)
      → db.Table IdempotencyRecord
      → Result Acquired × db.Table IdempotencyRecord
  acquire now lock_token new_id meanwhile t = elim (db.find_first (is_for_input input) t) [
    | none ↦ start_record now lock_token new_id meanwhile t
    | some r ↦
        let kept = reacquire now lock_token r meanwhile t in
        let removed = start_record now lock_token new_id meanwhile (
          db.delete_many
            (λ x.
              x.id == r.id && leb x.expires_at now && is_some x.status_code && is_none x.deleted_at)
            t) in
        if not (leb r.expires_at now) then kept else elim (completed_result codec r) [
          | err e ↦ (err e, t)
          | ok (some done) ↦ removed
          | ok none ↦ kept
        ]
  ]

  -- The `try` and its `catch`, for what the operation returned or threw.
  unfoldable pub settle :
      ℕ
      → ℕ
      → ℕ
      → Result (ℕ × ℕ)
      → db.Table IdempotencyRecord
      → Result Completed × db.Table IdempotencyRecord
  settle now lock_token id (err thrown) t =
      (err thrown, (db.update_many (is_owned id lock_token) (release_lease now) t).0)
  settle now lock_token id (ok (code, response)) t = elim (encrypt_response codec response) [
    | err thrown ↦ (err thrown, (db.update_many (is_owned id lock_token) (release_lease now) t).0)
    | ok stored ↦
        let saved = db.update_many (is_owned id lock_token) (save_result code stored) t in
        if saved.1 == 1
        then (ok (record { status_code = code; response = response; replayed = false }), saved.0)
        else (
          err plain_error,
          (db.update_many (is_owned id lock_token) (release_lease now) saved.0).0,
        )
  ]

  unfoldable pub run_idempotent :
      ℕ
      → ℕ
      → ℕ
      → (db.Table IdempotencyRecord → db.Table IdempotencyRecord)
      → (db.Table IdempotencyRecord → db.Table IdempotencyRecord)
      → Result (ℕ × ℕ)
      → db.Table IdempotencyRecord
      → Result Completed × db.Table IdempotencyRecord
  run_idempotent now lock_token new_id meanwhile peers operation t =
      let (answer, t') = acquire now lock_token new_id meanwhile t in
      elim answer [
        | err e ↦ (err e, t')
        | ok (replays done) ↦ (ok done, t')
        | ok (owns id) ↦ settle now lock_token id operation (peers t')
      ]
