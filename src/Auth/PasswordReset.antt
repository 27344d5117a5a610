-- ===== src/Auth/PasswordReset.antt =====
-- `confirmPasswordReset` of src/modules/auth/auth.password-reset.service.ts. The hashes under which a
-- token is looked up, and the hash of the new password, are numbers; `meanwhile` is what others write
-- while the password is hashed.
use production_backend_found.Prelude.{
  ℕ, ◌≡◌, refl, ap, ◌∙◌, Bool, true, false, not, ◌&&◌, Option, none, some, List, [], ◌∷◌, arith,
  any, ltb, ◌==◌, is_none, is_some, if◌then◌else◌, update_where,
}
use production_backend_found.Errors.{Result, ok, ◌>>◌, throw_if, plain_error}
use production_backend_found.Store.{Prisma}
use production_backend_found.Auth.Sessions.{LoginSession, RefreshToken, RevokeReason}
use production_backend_found.Auth.Otp.{OtpChallenge}

pub record PasswordResetToken : Type 0 where
  pub id : ℕ
  pub user_id : ℕ
  pub otp_challenge_id : ℕ
  pub token_hash : ℕ
  pub expires_at : ℕ
  pub used_at : Option ℕ
  pub deleted_at : Option ℕ

pub record ResetUser : Type 0 where
  pub id : ℕ
  pub is_active : Bool
  pub password_hash : ℕ
  pub deleted_at : Option ℕ

pub record ResetTables (db : Prisma) : Type 0 where
  pub reset_tokens : db.Table PasswordResetToken
  pub challenges : db.Table OtpChallenge
  pub users : db.Table ResetUser
  pub sessions : db.Table LoginSession
  pub tokens : db.Table RefreshToken

abbrev pub is_unused_reset : ℕ → PasswordResetToken → Bool
is_unused_reset now r = is_none r.used_at && is_none r.deleted_at && ltb now r.expires_at

abbrev pub is_resettable : List ℕ → ℕ → PasswordResetToken → Bool
is_resettable hashes now r = any (λ h. h == r.token_hash) hashes && is_unused_reset now r

abbrev pub is_spent_reset : PasswordResetToken → ℕ → PasswordResetToken → Bool
is_spent_reset reset now r =
    r.id == reset.id && r.token_hash == reset.token_hash && is_unused_reset now r

abbrev pub is_reset_challenge : PasswordResetToken → OtpChallenge → Bool
is_reset_challenge reset c =
    c.id == reset.otp_challenge_id
    && is_none c.consumed_at
    && is_none c.locked_at
    && is_none c.deleted_at

abbrev pub is_reset_user : ℕ → ResetUser → Bool
is_reset_user user_id u = u.id == user_id && u.is_active && is_none u.deleted_at

abbrev pub is_open_session : ℕ → LoginSession → Bool
is_open_session user_id s = s.user_id == user_id && is_none s.revoked_at && is_none s.deleted_at

abbrev pub is_open_token : ℕ → RefreshToken → Bool
is_open_token user_id t = t.user_id == user_id && is_none t.revoked_at && is_none t.deleted_at

abbrev pub is_other_reset : PasswordResetToken → PasswordResetToken → Bool
is_other_reset reset r =
    r.user_id == reset.user_id
    && not (r.id == reset.id)
    && is_none r.used_at
    && is_none r.deleted_at

module _ (db : Prisma) where
  -- What the transaction leaves once the token, the challenge and the user were written.
  unfoldable pub end_logins :
      ℕ
      → PasswordResetToken
      → db.Table PasswordResetToken
      → db.Table OtpChallenge
      → db.Table ResetUser
      → ResetTables db
      → ResetTables db
  end_logins now reset reset_tokens challenges users s = record {
    reset_tokens =
        (db.update_many (is_other_reset reset) (λ r. record r { deleted_at = some now })
          reset_tokens).0;
    challenges = challenges;
    users = users;
    sessions =
        (db.update_many (is_open_session reset.user_id)
          (λ x. record x {
            revoked_at = some now;
            revoke_reason = some RevokeReason.password_reset;
          })
          s.sessions).0;
    tokens =
        (db.update_many (is_open_token reset.user_id) (λ x. record x { revoked_at = some now })
          s.tokens).0;
  }

  -- The transaction: `false` where the token was used meanwhile.
  unfoldable pub spend_reset :
      ℕ → ℕ → PasswordResetToken → ResetTables db → Result (Bool × ResetTables db)
  spend_reset now password_hash reset s =
      let used =
        db.update_many (is_spent_reset reset now) (λ r. record r { used_at = some now })
          s.reset_tokens in
      let consumed =
        db.update_many (is_reset_challenge reset) (λ c. record c { consumed_at = some now })
          s.challenges in
      let updated =
        db.update_many (is_reset_user reset.user_id)
          (λ u. record u { password_hash = password_hash }) s.users in
      if not (used.1 == 1) then ok (false, record s { reset_tokens = used.0 }) else (do
        throw_if (not (consumed.1 == 1)) plain_error
        throw_if (not (updated.1 == 1)) plain_error
        ok (true, end_logins now reset used.0 consumed.0 updated.0 s))

  -- The user that the token's row is read with.
  unfoldable pub find_reset : List ℕ → ℕ → ResetTables db → Option PasswordResetToken
  find_reset hashes now s = elim (db.find_first (is_resettable hashes now) s.reset_tokens) [
    | none ↦ none
    | some reset ↦
        if is_some (db.find_first (is_reset_user reset.user_id) s.users) then some reset else none
  ]

  unfoldable pub confirm_password_reset :
      List ℕ
      → ℕ
      → ℕ
      → (ResetTables db → ResetTables db)
      → ResetTables db
      → Result (Bool × ResetTables db)
  confirm_password_reset hashes now password_hash meanwhile s = elim (find_reset hashes now s) [
    | none ↦ ok (false, s)
    | some reset ↦ spend_reset now password_hash reset (meanwhile s)
  ]

-- A write to all rows under the test that takes each out of it.
any-update_where_cleared :
    {A : Type 0} (p : A → Bool) (f : A → A) (xs : List A)
    → ((x : A) → p (f x) ≡ false)
    → any p (update_where p f xs) ≡ false
any-update_where_cleared p f [] h = refl
any-update_where_cleared p f (x ∷ xs) h = ground (arith, h x, any-update_where_cleared p f xs)

module _ (db : Prisma) where
  cleared :
      {R : Type 0} (p : R → Bool) (f : R → R) (t : db.Table R)
      → ((x : R) → p (f x) ≡ false)
      → any p (db.rows (db.update_many p f t).0) ≡ false
  cleared p f t h =
      ap (any p) (db.rows_update_many p f t) ∙ any-update_where_cleared p f (db.rows t) h

  -- A reset ends what was open: if the confirmation of a reset that was found answers that the
  -- password was changed, then the user has no session and no refresh token left that is neither
  -- revoked nor deleted, and no other reset token that is neither used nor deleted, whatever others
  -- wrote meanwhile.
  pub confirm_password_reset-ends :
      (hashes : List ℕ) (now password_hash : ℕ) (meanwhile : ResetTables db → ResetTables db)
      (s s' : ResetTables db) (reset : PasswordResetToken)
      → find_reset db hashes now s ≡ some reset
      → confirm_password_reset db hashes now password_hash meanwhile s ≡ ok (true, s')
      → (any (is_open_session reset.user_id) (db.rows s'.sessions) ≡ false)
        × (any (is_open_token reset.user_id) (db.rows s'.tokens) ≡ false)
        × (any (is_other_reset reset) (db.rows s'.reset_tokens) ≡ false)
  unfolding confirm_password_reset spend_reset end_logins
  confirm_password_reset-ends hashes now password_hash meanwhile s s' reset found h =
      let u = meanwhile s in
      let used =
        db.update_many (is_spent_reset reset now) (λ r. record r { used_at = some now })
          u.reset_tokens in
      let consumed =
        db.update_many (is_reset_challenge reset) (λ c. record c { consumed_at = some now })
          u.challenges in
      let updated =
        db.update_many (is_reset_user reset.user_id)
          (λ x. record x { password_hash = password_hash }) u.users in
      let same : s' ≡ end_logins db now reset used.0 consumed.0 updated.0 u =
        ground (arith, h, found) in
      rw (same, end_logins)
        (
          cleared (is_open_session reset.user_id)
              (λ x. record x {
                revoked_at = some now;
                revoke_reason = some RevokeReason.password_reset;
              })
              u.sessions (λ x. ground arith),
          cleared (is_open_token reset.user_id) (λ x. record x { revoked_at = some now }) u.tokens
              (λ x. ground arith),
          cleared (is_other_reset reset) (λ r. record r { deleted_at = some now }) used.0
              (λ x. ground arith),
        )
