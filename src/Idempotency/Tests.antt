-- ===== src/Idempotency/Tests.antt =====
-- Idempotent calls on concrete records.
use production_backend_found.Prelude.{
  ℕ, ◌+◌, ◌≡◌, refl, true, false, none, some, List, [], ◌∷◌, arith,
}
use production_backend_found.Errors.{
  Result, ok, err, conflict_error, plain_error, service_unavailable_error,
}
use production_backend_found.Store.Lists.{list_prisma}
use production_backend_found.Idempotency.{
  ResponseCodec, encrypted_response, encrypt_response, IdempotencyRecord, IdempotencyInput,
  Completed, owns, new_record, save_result, release_lease, acquire, start_record, settle,
  run_idempotent,
}
use production_backend_found.Crypto.Text.{Chars}
use production_backend_found.Idempotency.Lease.{acquire_exclusive}
use production_backend_found.Idempotency.Replay.{run_idempotent_replays}
use production_backend_found.Idempotency.Transaction.{
  perform, execute, commits, serialization_failure, run_idempotent_transaction, attempts,
}

abbrev input : IdempotencyInput
input = record {
  actor_key = 1;
  scope = 2;
  key_hash = 30;
  key_hash_candidates = 30 ∷ 31 ∷ [];
  request_hash = 40;
  request_hash_candidates = 40 ∷ 41 ∷ [];
  ttl_hours = none;
}

-- A response is its own text, and a secret is marked by a 1.
abbrev first_or_none : Chars → Result ℕ
first_or_none (n ∷ []) = ok n
first_or_none _ = err plain_error

abbrev unmarked : Chars → Result Chars
unmarked (m ∷ text) = ok text
unmarked [] = err plain_error

abbrev codec : ResponseCodec
codec = record {
  stringify = λ n. some (n ∷ []);
  parse = first_or_none;
  encrypt_secret = λ text. ok (1 ∷ text);
  decrypt_secret = unmarked;
}

abbrev alone : List IdempotencyRecord → List IdempotencyRecord
alone t = t

abbrev leased : IdempotencyRecord
leased = new_record input 7 1000 (some 55) (some 121000)

abbrev finished : IdempotencyRecord
finished = save_result 201 (encrypted_response (1 ∷ 9 ∷ [])) leased

acquires : acquire list_prisma codec input 1000 55 7 alone [] ≡ (ok (owns 7), leased ∷ [])
unfolding acquire start_record
acquires = refl

acquire_exclusive_example :
    (t'' : List IdempotencyRecord) × (acquire list_prisma codec input 2000 56 8 alone (leased ∷ [])
      ≡ (err conflict_error, t''))
acquire_exclusive_example =
    acquire_exclusive list_prisma codec input input 1000 55 7 7 2000 56 8 alone [] (leased ∷ [])
      leased acquires (omega arith) refl refl (omega arith)

settles :
    settle list_prisma codec input 1000 55 7 (ok (201, 9)) (leased ∷ [])
    ≡ (ok (record { status_code = 201; response = 9; replayed = false }), finished ∷ [])
unfolding settle encrypt_response
settles = refl

run_idempotent_replays_example :
    run_idempotent list_prisma codec input 3000 57 8 alone alone
      (err service_unavailable_error)
      (finished ∷ [])
    ≡ (ok (record { status_code = 201; response = 9; replayed = true }), finished ∷ [])
run_idempotent_replays_example =
    run_idempotent_replays list_prisma codec input 1000 55 7 201 9 3000 57 8 (9 ∷ []) (1 ∷ 9 ∷ [])
      alone alone (err service_unavailable_error) (leased ∷ []) (finished ∷ [])
      (record { status_code = 201; response = 9; replayed = false }) finished refl refl refl refl
      settles (omega arith) refl refl refl (omega arith)

abbrev released : IdempotencyRecord
released = release_lease 1000 leased

fails :
    settle list_prisma codec input 1000 55 7 (err service_unavailable_error) (leased ∷ [])
    ≡ (err service_unavailable_error, released ∷ [])
unfolding settle
fails = refl

abbrev deposit : ℕ → Result (ℕ × ℕ) × ℕ
deposit balance = (ok (200, 8), balance + 10)

abbrev committed : IdempotencyRecord
committed = record (new_record input 7 1000 none none) {
  status_code = some 200;
  response = some (encrypted_response (1 ∷ 8 ∷ []));
}

abbrev done : Completed
done = record { status_code = 200; response = 8; replayed = false }

executes :
    execute list_prisma codec input ℕ 1000 7 deposit ([], 5) ≡ ok (done, (committed ∷ [], 15))
unfolding execute perform encrypt_response
executes = refl

retries :
    run_idempotent_transaction list_prisma codec input ℕ 1000 7 deposit
      ((serialization_failure, λ s. s) ∷ (commits, λ s. s) ∷ [])
      ([], 5)
    ≡ (ok done, (committed ∷ [], 15))
unfolding run_idempotent_transaction attempts execute perform encrypt_response
retries = refl
