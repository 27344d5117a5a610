-- ===== src/Auth/Tests.antt =====
-- Sessions on concrete tables.
use production_backend_found.Prelude.{
  ℕ, ◌≤◌, ◌≡◌, ◌≢◌, total, refl, Bool, true, none, some, List, [], ◌∷◌, any, false, ◌==◌, arith,
}
use production_backend_found.Errors.{ok, err, plain_error}
use production_backend_found.Store.Lists.{list_prisma}
use production_backend_found.Auth.Sessions.{
  RefreshToken, LoginTables, reuse, rotated, active, new_session, new_token, consume, is_unusable,
  end_session, is_unrevoked_session, replace_token, rotate_refresh_token, refresh_token_reuse,
}
use production_backend_found.Auth.Sessions.Revocation.{is_dead}
use production_backend_found.Auth.Sessions.Replay.{rotate_refresh_token_once}
use production_backend_found.Auth.Sessions.History.{
  rotates, logs_out_all, session_calls, session_calls-dead,
}
use production_backend_found.Auth.Otp.{
  OtpChallenge, OtpTables, login, refused, logs_in, record_invalid_otp_attempt, apply_verification,
  consume_challenge, verify_otp, is_open_challenge, consume_challenge_once,
}
use production_backend_found.Auth.Otp.Guesses.{
  guesses_left, wrong_guesses, verify_otp-wrong_guesses,
}

abbrev token : RefreshToken
token = new_token 1 7 3 70 900

abbrev logged_in : LoginTables list_prisma
logged_in = record {
  users = record { id = 7; status = active; last_login_at = none; deleted_at = none } ∷ [];
  sessions = new_session 3 7 none 900 100 ∷ [];
  tokens = token ∷ [];
}

abbrev refreshed : LoginTables list_prisma
refreshed = record logged_in {
  sessions = record (new_session 3 7 none 900 100) { last_seen_at = 200 } ∷ [];
  tokens = new_token 2 7 3 71 900 ∷ consume 200 2 token ∷ [];
}

rotates_once :
    rotate_refresh_token list_prisma (70 ∷ []) 200 2 71 logged_in ≡ ok (rotated 7 3, refreshed)
unfolding rotate_refresh_token is_unusable replace_token
rotates_once = refl

abbrev ended : LoginTables list_prisma
ended = end_session list_prisma 300 refresh_token_reuse 3 refreshed

replays : rotate_refresh_token list_prisma (70 ∷ []) 300 9 79 refreshed ≡ ok (reuse 7, ended)
unfolding rotate_refresh_token is_unusable
replays = refl

ended-is_dead : is_dead list_prisma 3 ended ≡ true
unfolding is_dead end_session
ended-is_dead = refl

rotate_refresh_token_once_example :
    (s'' : LoginTables list_prisma) × (rotate_refresh_token list_prisma (70 ∷ []) 300 9 79 refreshed
      ≡ ok (reuse 7, s''))
    × (is_dead list_prisma 3 s'' ≡ true)
    × (any (is_unrevoked_session 3) s''.sessions ≡ false)
rotate_refresh_token_once_example =
    rotate_refresh_token_once list_prisma (70 ∷ []) 200 2 71 300 9 79 7 3 logged_in refreshed
      (omega arith) refl rotates_once

session_calls-dead_example :
    (is_dead list_prisma 3
        (session_calls list_prisma (rotates (71 ∷ []) 400 10 80 ∷ logs_out_all 410 7 ∷ []) ended)
      ≡ true)
    × ((hashes : List ℕ) (now next_id next_hash user_id : ℕ) (s' : LoginTables list_prisma)
        → rotate_refresh_token list_prisma hashes now next_id next_hash (
            session_calls list_prisma (rotates (71 ∷ []) 400 10 80 ∷ logs_out_all 410 7 ∷ []) ended)
          ≢ ok (rotated user_id 3, s'))
session_calls-dead_example =
    session_calls-dead list_prisma 3 (rotates (71 ∷ []) 400 10 80 ∷ logs_out_all 410 7 ∷ []) ended
      refl ended-is_dead

abbrev challenge : OtpChallenge
challenge = record {
  id = 1;
  user_id = some 7;
  destination = 5;
  channel = 1;
  purpose = login;
  code_hash = 123;
  attempts = 2;
  max_attempts = 3;
  expires_at = 900;
  created_at = 100;
  consumed_at = none;
  verified_at = none;
  locked_at = none;
  deleted_at = none;
}

abbrev challenged : OtpTables list_prisma
challenged = record {
  challenges = challenge ∷ [];
  users =
      record {
        id = 7;
        status = active;
        phone = none;
        email_verified_at = none;
        phone_verified_at = none;
        deleted_at = none;
      }
      ∷ [];
}

abbrev equal_secret : ℕ → ℕ → Bool
equal_secret hash code = hash == code

abbrev consumed_tables : OtpTables list_prisma
consumed_tables = record challenged {
  challenges = record challenge { consumed_at = some 200 } ∷ [];
}

consumes :
    consume_challenge list_prisma 200 login challenge 7 challenged
    ≡ (ok (logs_in 7), consumed_tables)
unfolding consume_challenge apply_verification
consumes = refl

third_guess : verify_otp list_prisma equal_secret 200 5 1 login 124 (λ s. s) challenged ≡ (
  ok refused,
  record challenged { challenges = record challenge { attempts = 3; locked_at = some 200 } ∷ [] },
)
unfolding verify_otp record_invalid_otp_attempt
third_guess = refl

-- After two wrong guesses one is left, and a third one locks the challenge.
verify_otp-wrong_guesses_example :
    wrong_guesses list_prisma equal_secret 5 1 login
      (record { at = 200; code = 124 } ∷ record { at = 201; code = 125 } ∷ [])
      challenged
    ≤ total (is_open_challenge 5 1 login) guesses_left (challenge ∷ [])
verify_otp-wrong_guesses_example =
    verify_otp-wrong_guesses list_prisma equal_secret 5 1 login
      (record { at = 200; code = 124 } ∷ record { at = 201; code = 125 } ∷ []) challenged refl

consume_challenge_once_example :
    consume_challenge list_prisma 300 login challenge 7 consumed_tables
    ≡ (err plain_error, consumed_tables)
consume_challenge_once_example =
    consume_challenge_once list_prisma 200 300 7 7 login login challenge challenged consumed_tables
      (logs_in 7) consumes
