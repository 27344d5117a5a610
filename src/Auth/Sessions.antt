-- ===== src/Auth/Sessions.antt =====
-- src/modules/auth/auth.sessions.service.ts. A serializable transaction is one step.
pub mod Steps
pub mod Revocation
pub mod Replay
pub mod History
use production_backend_found.Prelude.{
  ℕ, Bool, true, false, not, ◌&&◌, ◌||◌, Option, none, some, List, [], ◌∷◌, ◌==◌, leb, is_none,
  is_some, any, if◌then◌else◌,
}
use production_backend_found.Errors.{Result, ok, err, ◌>>=◌, ◌>>◌, or_throw, plain_error}
use production_backend_found.Store.{Prisma, update_one}

pub data UserStatus : Type 0 where
  pending active suspended disabled : UserStatus

abbrev pub is_active_status : UserStatus → Bool
is_active_status active = true
is_active_status _ = false

pub record Account : Type 0 where
  pub id : ℕ
  pub status : UserStatus
  pub last_login_at : Option ℕ
  pub deleted_at : Option ℕ

pub data RevokeReason : Type 0 where
  refresh_token_reuse refresh_token_race user_logout user_logout_all password_reset : RevokeReason

pub record LoginSession : Type 0 where
  pub id : ℕ
  pub user_id : ℕ
  pub active_organization_id : Option ℕ
  pub expires_at : ℕ
  pub revoked_at : Option ℕ
  pub revoke_reason : Option RevokeReason
  pub last_seen_at : ℕ
  pub deleted_at : Option ℕ

pub record RefreshToken : Type 0 where
  pub id : ℕ
  pub user_id : ℕ
  pub session_id : ℕ
  pub token_hash : ℕ
  pub replaced_by_token_id : Option ℕ
  pub expires_at : ℕ
  pub consumed_at : Option ℕ
  pub revoked_at : Option ℕ
  pub deleted_at : Option ℕ

pub record LoginTables (db : Prisma) : Type 0 where
  pub users : db.Table Account
  pub sessions : db.Table LoginSession
  pub tokens : db.Table RefreshToken

abbrev pub new_session : ℕ → ℕ → Option ℕ → ℕ → ℕ → LoginSession
new_session id user_id active_organization_id expires_at now = record {
  id = id;
  user_id = user_id;
  active_organization_id = active_organization_id;
  expires_at = expires_at;
  revoked_at = none;
  revoke_reason = none;
  last_seen_at = now;
  deleted_at = none;
}

abbrev pub new_token : ℕ → ℕ → ℕ → ℕ → ℕ → RefreshToken
new_token id user_id session_id token_hash expires_at = record {
  id = id;
  user_id = user_id;
  session_id = session_id;
  token_hash = token_hash;
  replaced_by_token_id = none;
  expires_at = expires_at;
  consumed_at = none;
  revoked_at = none;
  deleted_at = none;
}

-- `tokenHash: { in: tokenHashes }`, among the rows that are not deleted.
abbrev pub carries_hash : List ℕ → RefreshToken → Bool
carries_hash hashes t = any (λ h. h == t.token_hash) hashes && is_none t.deleted_at

abbrev pub is_unrevoked_session : ℕ → LoginSession → Bool
is_unrevoked_session session_id x =
    x.id == session_id && is_none x.revoked_at && is_none x.deleted_at

abbrev pub is_unrevoked_token : ℕ → RefreshToken → Bool
is_unrevoked_token session_id t =
    t.session_id == session_id && is_none t.revoked_at && is_none t.deleted_at

abbrev pub revoke_row : ℕ → RevokeReason → LoginSession → LoginSession
revoke_row now reason x = record x { revoked_at = some now; revoke_reason = some reason }

abbrev pub revoke_token : ℕ → RefreshToken → RefreshToken
revoke_token now t = record t { revoked_at = some now }

abbrev pub is_unused : ℕ → RefreshToken → Bool
is_unused id t =
    t.id == id
    && is_none t.consumed_at
    && is_none t.revoked_at
    && is_none t.replaced_by_token_id
    && is_none t.deleted_at

abbrev pub consume : ℕ → ℕ → RefreshToken → RefreshToken
consume now next_id t = record t { consumed_at = some now; replaced_by_token_id = some next_id }

-- The `status` of the transaction's result.
pub data Rotation : Type 0 where
  invalid : Rotation
  reuse : ℕ → Rotation
  rotated : ℕ → ℕ → Rotation

abbrev pub is_reuse : Rotation → Bool
is_reuse (reuse _) = true
is_reuse _ = false

module _ (db : Prisma) where
  -- `unusable`. The session and the user that the token refers to are tested in their tables.
  unfoldable pub is_unusable : ℕ → RefreshToken → LoginTables db → Bool
  is_unusable now current s =
      is_some current.consumed_at
      || is_some current.replaced_by_token_id
      || is_some current.revoked_at
      || leb current.expires_at now
      || any (λ x. x.id == current.session_id && (is_some x.revoked_at || leb x.expires_at now))
          (db.rows s.sessions)
      || any
          (λ u.
            u.id == current.user_id && (not (is_active_status u.status) || is_some u.deleted_at))
          (db.rows s.users)

  -- Both revocations of a session and its tokens.
  unfoldable pub end_session : ℕ → RevokeReason → ℕ → LoginTables db → LoginTables db
  end_session now reason session_id s = record s {
    sessions =
        (db.update_many (is_unrevoked_session session_id) (revoke_row now reason) s.sessions).0;
    tokens = (db.update_many (is_unrevoked_token session_id) (revoke_token now) s.tokens).0;
  }

  -- The branch for a token that is usable.
  unfoldable pub replace_token :
      ℕ → ℕ → ℕ → RefreshToken → LoginTables db → Result (Rotation × LoginTables db)
  replace_token now next_id next_hash current s = do
    session ← or_throw (db.find_first (λ x. x.id == current.session_id) s.sessions) plain_error
    let created =
        db.create
          (new_token next_id current.user_id current.session_id next_hash session.expires_at)
          s.tokens
    let consumed = db.update_many (is_unused current.id) (consume now next_id) created
    sessions ←
        update_one db (λ x. x.id == current.session_id && is_none x.deleted_at)
          (λ x.
            if consumed.1 == 1
            then record x { last_seen_at = now }
            else revoke_row now refresh_token_race x)
          s.sessions
    ok (
        if consumed.1 == 1
        then (
          rotated current.user_id current.session_id,
          record s { sessions = sessions; tokens = consumed.0 },
        )
        else (
          reuse current.user_id,
          record s {
            sessions = sessions;
            tokens =
                (db.update_many (is_unrevoked_token current.session_id) (revoke_token now)
                  consumed.0).0;
          },
        ))

  unfoldable pub rotate_refresh_token :
      List ℕ → ℕ → ℕ → ℕ → LoginTables db → Result (Rotation × LoginTables db)
  rotate_refresh_token hashes now next_id next_hash s =
      elim (db.find_first (carries_hash hashes) s.tokens) [
        | none ↦ ok (invalid, s)
        | some current ↦
            let replaced = replace_token now next_id next_hash current s in
            if is_unusable now current s
            then ok
                (reuse current.user_id, end_session now refresh_token_reuse current.session_id s)
            else replaced
      ]

  unfoldable pub create_session :
      Option ℕ → ℕ → ℕ → ℕ → ℕ → ℕ → ℕ → LoginTables db → Result (LoginTables db)
  create_session active_organization_id now expires_at user_id new_id token_id token_hash s = do
    users ←
        update_one db (λ u. u.id == user_id && is_none u.deleted_at)
          (λ u. record u { last_login_at = some now }) s.users
    ok (record s {
      users = users;
      sessions =
          db.create (new_session new_id user_id active_organization_id expires_at now) s.sessions;
      tokens = db.create (new_token token_id user_id new_id token_hash expires_at) s.tokens;
    })

  unfoldable pub revoke_session : ℕ → ℕ → ℕ → LoginTables db → LoginTables db
  revoke_session now session_id user_id s = record s {
    sessions =
        (db.update_many (λ x. is_unrevoked_session session_id x && x.user_id == user_id)
          (revoke_row now user_logout) s.sessions).0;
    tokens =
        (db.update_many (λ t. is_unrevoked_token session_id t && t.user_id == user_id)
          (revoke_token now) s.tokens).0;
  }

  unfoldable pub revoke_all_sessions : ℕ → ℕ → LoginTables db → LoginTables db
  revoke_all_sessions now user_id s = record s {
    sessions =
        (db.update_many (λ x. x.user_id == user_id && is_none x.revoked_at && is_none x.deleted_at)
          (revoke_row now user_logout_all) s.sessions).0;
    tokens =
        (db.update_many (λ t. t.user_id == user_id && is_none t.revoked_at && is_none t.deleted_at)
          (revoke_token now) s.tokens).0;
  }
