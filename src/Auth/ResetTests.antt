-- ===== src/Auth/ResetTests.antt =====
-- A reset of a password, with a session that is opened while the password is hashed.
use production_backend_found.Prelude.{◌≡◌, refl, true, false, none, some, [], ◌∷◌, any}
use production_backend_found.Errors.{ok}
use production_backend_found.Store.Lists.{list_prisma}
use production_backend_found.Auth.Sessions.{LoginSession, RevokeReason}
use production_backend_found.Auth.Otp.{OtpChallenge, OtpPurpose}
use production_backend_found.Auth.PasswordReset.{
  PasswordResetToken, ResetTables, is_open_session, is_open_token, is_other_reset, end_logins,
  spend_reset, find_reset, confirm_password_reset, confirm_password_reset-ends,
}

abbrev reset : PasswordResetToken
reset = record {
  id = 1;
  user_id = 3;
  otp_challenge_id = 6;
  token_hash = 77;
  expires_at = 500;
  used_at = none;
  deleted_at = none;
}

abbrev challenge : OtpChallenge
challenge = record {
  id = 6;
  user_id = some 3;
  destination = 1;
  channel = 1;
  purpose = OtpPurpose.verify_email;
  code_hash = 5;
  attempts = 0;
  max_attempts = 5;
  expires_at = 400;
  created_at = 10;
  consumed_at = none;
  verified_at = some 20;
  locked_at = none;
  deleted_at = none;
}

abbrev session : LoginSession
session = record {
  id = 8;
  user_id = 3;
  active_organization_id = none;
  expires_at = 9_000;
  revoked_at = none;
  revoke_reason = none;
  last_seen_at = 0;
  deleted_at = none;
}

abbrev start : ResetTables list_prisma
start = record {
  reset_tokens = reset ∷ record reset { id = 2; token_hash = 78 } ∷ [];
  challenges = challenge ∷ [];
  users = record { id = 3; is_active = true; password_hash = 10; deleted_at = none } ∷ [];
  sessions = [];
  tokens = [];
}

abbrev log_in : ResetTables list_prisma → ResetTables list_prisma
log_in s = record s { sessions = session ∷ [] }

abbrev after_reset : ResetTables list_prisma
after_reset = record {
  reset_tokens =
      record reset { used_at = some 30 }
      ∷ record reset { id = 2; token_hash = 78; deleted_at = some 30 }
      ∷ [];
  challenges = record challenge { consumed_at = some 30 } ∷ [];
  users = record { id = 3; is_active = true; password_hash = 11; deleted_at = none } ∷ [];
  sessions =
      record session { revoked_at = some 30; revoke_reason = some RevokeReason.password_reset }
      ∷ [];
  tokens = [];
}

confirm_password_reset-ends_example :
    (any (is_open_session 3) after_reset.sessions ≡ false)
    × (any (is_open_token 3) after_reset.tokens ≡ false)
    × (any (is_other_reset reset) after_reset.reset_tokens ≡ false)
unfolding find_reset confirm_password_reset spend_reset end_logins
confirm_password_reset-ends_example =
    confirm_password_reset-ends list_prisma (77 ∷ 79 ∷ []) 30 11 log_in start after_reset reset refl
      refl

-- The token is refused the second time.
reset_twice :
    confirm_password_reset list_prisma (77 ∷ []) 40 12 (λ s. s) after_reset
    ≡ ok (false, after_reset)
unfolding find_reset confirm_password_reset
reset_twice = refl
