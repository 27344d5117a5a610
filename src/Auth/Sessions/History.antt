-- ===== src/Auth/Sessions/History.antt =====
-- A session that was ended stays so, whatever is called (src/modules/auth/auth.sessions.service.ts).
use production_backend_found.Prelude.{
  ℕ, ◌≡◌, ◌≢◌, refl, inl, inr, Bool, true, false, not, ◌&&◌, Option, List, [], ◌∷◌, ◌==◌, is_none,
  any, update_where, arith, any_mono_false,
}
use production_backend_found.Errors.{Result, ok, err, Result-cases}
use production_backend_found.Store.{Prisma}
use production_backend_found.Auth.Sessions.{
  RefreshToken, LoginTables, Rotation, rotated, new_token, is_unrevoked_token, revoke_token,
  rotate_refresh_token, create_session, revoke_session, revoke_all_sessions,
}
use production_backend_found.Auth.Sessions.Revocation.{
  is_dead, write-dead, rotate_refresh_token-dead,
}

module _ {ℓ} {A : Type ℓ} (q p : A → Bool) (f : A → A) where
  any-update_where-rest :
      (xs : List A)
      → any (λ x. q x && not (p x)) xs ≡ false
      → ((x : A) → q (f x) ≡ false)
      → any q (update_where p f xs) ≡ false
  any-update_where-rest [] h k = refl
  any-update_where-rest (x ∷ xs) h k = ground (arith, k x, any-update_where-rest xs)

-- The calls that change sessions or tokens.
pub data SessionCall : Type 0 where
  rotates : List ℕ → ℕ → ℕ → ℕ → SessionCall
  logs_in : Option ℕ → ℕ → ℕ → ℕ → ℕ → ℕ → ℕ → SessionCall
  logs_out : ℕ → ℕ → ℕ → SessionCall
  logs_out_all : ℕ → ℕ → SessionCall

-- The call creates a session with the identifier.
abbrev pub opens : ℕ → SessionCall → Bool
opens session_id (logs_in o now expires_at user_id new_id token_id token_hash) =
    new_id == session_id
opens session_id _ = false

module _ (db : Prisma) where
  -- A call that throws changes nothing.
  abbrev after_rotation : LoginTables db → Result (Rotation × LoginTables db) → LoginTables db
  after_rotation s (ok (r, s')) = s'
  after_rotation s (err e) = s

  abbrev after_login : LoginTables db → Result (LoginTables db) → LoginTables db
  after_login s (ok s') = s'
  after_login s (err e) = s

  abbrev pub session_call : SessionCall → LoginTables db → LoginTables db
  session_call (rotates hashes now next_id next_hash) s =
      after_rotation s (rotate_refresh_token db hashes now next_id next_hash s)
  session_call (logs_in o now expires_at user_id new_id token_id token_hash) s =
      after_login s (create_session db o now expires_at user_id new_id token_id token_hash s)
  session_call (logs_out now session_id user_id) s = revoke_session db now session_id user_id s
  session_call (logs_out_all now user_id) s = revoke_all_sessions db now user_id s

  abbrev pub session_calls : List SessionCall → LoginTables db → LoginTables db
  session_calls [] s = s
  session_calls (c ∷ rest) s = session_calls rest (session_call c s)

  create_session-dead :
      (session_id : ℕ) (o : Option ℕ) (now expires_at user_id new_id token_id token_hash : ℕ)
      (s s' : LoginTables db)
      → create_session db o now expires_at user_id new_id token_id token_hash s ≡ ok s'
      → (new_id == session_id) ≡ false
      → is_dead db session_id s ≡ true
      → is_dead db session_id s' ≡ true
  unfolding create_session is_dead
  create_session-dead session_id o now expires_at user_id new_id token_id token_hash s s' h other
        dead =
      ground (
        arith,
        h,
        other,
        dead,
        db.rows_create (new_token token_id user_id new_id token_hash expires_at) s.tokens,
      )

  session_call-dead :
      (session_id : ℕ) (c : SessionCall) (s : LoginTables db)
      → opens session_id c ≡ false
      → is_dead db session_id s ≡ true
      → is_dead db session_id (session_call c s) ≡ true
  unfolding revoke_session revoke_all_sessions
  session_call-dead session_id (rotates hashes now next_id next_hash) s apart dead =
      elim (Result-cases (rotate_refresh_token db hashes now next_id next_hash s)) [
        | inl ((r, s'), e) ↦
            rw e
              (rotate_refresh_token-dead db hashes now next_id next_hash session_id s s' r e dead).0
        | inr (x, e) ↦ rw e dead
      ]
  session_call-dead session_id (logs_in o now expires_at user_id new_id token_id token_hash) s apart
        dead =
      elim (Result-cases
        (create_session db o now expires_at user_id new_id token_id token_hash s)) [
          | inl (s', e) ↦ rw e (
              create_session-dead session_id o now expires_at user_id new_id token_id token_hash s
                s' e apart dead)
          | inr (x, e) ↦ rw e dead
        ]
  session_call-dead session_id (logs_out now ended user_id) s apart dead =
      write-dead db session_id s (revoke_session db now ended user_id s)
        (λ t. is_unrevoked_token ended t && t.user_id == user_id) (revoke_token now)
        (db.rows_update_many (λ t. is_unrevoked_token ended t && t.user_id == user_id)
          (revoke_token now) s.tokens)
        (λ t k. absurd (ground (arith, k))) dead
  session_call-dead session_id (logs_out_all now user_id) s apart dead =
      write-dead db session_id s (revoke_all_sessions db now user_id s)
        (λ t. t.user_id == user_id && is_none t.revoked_at && is_none t.deleted_at)
        (revoke_token now)
        (db.rows_update_many
          (λ t. t.user_id == user_id && is_none t.revoked_at && is_none t.deleted_at)
          (revoke_token now) s.tokens)
        (λ t k. absurd (ground (arith, k))) dead

  -- A session whose tokens are all revoked is never used again: after any rotations, log-ins and
  -- log-outs, of whatever users and in whatever order, that create no session with its identifier,
  -- its tokens are revoked still, and a rotation with any token does not succeed for it.
  pub session_calls-dead :
      (session_id : ℕ) (history : List SessionCall) (s : LoginTables db)
      → any (opens session_id) history ≡ false
      → is_dead db session_id s ≡ true
      → (is_dead db session_id (session_calls history s) ≡ true)
        × ((hashes : List ℕ) (now next_id next_hash user_id : ℕ) (s' : LoginTables db)
            → rotate_refresh_token db hashes now next_id next_hash (session_calls history s)
              ≢ ok (rotated user_id session_id, s'))
  session_calls-dead session_id [] s apart dead = (
    dead,
    λ hashes now next_id next_hash user_id s' h.
        (rotate_refresh_token-dead db hashes now next_id next_hash session_id s s'
            (rotated user_id session_id) h dead).1
          user_id refl,
  )
  session_calls-dead session_id (c ∷ rest) s apart dead =
      session_calls-dead session_id rest (session_call c s) (ground (arith, apart))
        (session_call-dead session_id c s (ground (arith, apart)) dead)

  -- Logging out revokes every token of the session, if its tokens are all the user's.
  pub revoke_session-dead :
      (now session_id user_id : ℕ) (s : LoginTables db)
      → any (λ t. is_unrevoked_token session_id t && not (t.user_id == user_id)) (db.rows s.tokens)
        ≡ false
      → is_dead db session_id (revoke_session db now session_id user_id s) ≡ true
  unfolding revoke_session is_dead
  revoke_session-dead now session_id user_id s own =
      let p = λ (t : RefreshToken). is_unrevoked_token session_id t && t.user_id == user_id in
      ground (
        arith,
        db.rows_update_many p (revoke_token now) s.tokens,
        any-update_where-rest (is_unrevoked_token session_id) p (revoke_token now)
            (db.rows s.tokens)
            (any_mono_false (λ t. is_unrevoked_token session_id t && not (p t))
              (λ t. is_unrevoked_token session_id t && not (t.user_id == user_id))
              (db.rows s.tokens) (λ t k. ground (arith, k)) own)
            (λ t. ground arith),
      )
