-- ===== src/Auth/Sessions/Revocation.antt =====
-- A session whose tokens are revoked stays so (src/modules/auth/auth.sessions.service.ts).
use production_backend_found.Prelude.{
  ℕ, ◌≡◌, ◌≢◌, inl, inr, ◌⊎◌, Bool, true, false, not, some, List, ◌∷◌, ◌==◌, any, update_where,
  arith, Bool-cases, any_of_Memᴰ,
}
use production_backend_found.Errors.{ok}
use production_backend_found.Store.{Prisma}
use production_backend_found.Auth.Sessions.{
  RefreshToken, LoginTables, Rotation, reuse, rotated, new_token, carries_hash, is_unrevoked_token,
  revoke_token, is_unused, consume, is_unusable, end_session, rotate_refresh_token,
  refresh_token_reuse, RevokeReason,
}
use production_backend_found.Auth.Sessions.Steps.{
  any-update_where-none, any-update_where-out, replaced_rows, replace_token-cases,
  rotate_refresh_token-cases,
}

module _ (db : Prisma) where
  -- No token of the session can be used again.
  unfoldable pub is_dead : ℕ → LoginTables db → Bool
  is_dead session_id s = not (any (is_unrevoked_token session_id) (db.rows s.tokens))

  pub end_session-dead :
      (now session_id : ℕ) (reason : RevokeReason) (s : LoginTables db)
      → is_dead session_id (end_session db now reason session_id s) ≡ true
  unfolding is_dead end_session
  end_session-dead now session_id reason s = ground (
    arith,
    db.rows_update_many (is_unrevoked_token session_id) (revoke_token now) s.tokens,
    any-update_where-out (is_unrevoked_token session_id) (is_unrevoked_token session_id)
        (revoke_token now) (db.rows s.tokens) (λ t h. h) (λ t. ground arith),
  )

  pub write-dead :
      (session_id : ℕ) (s s' : LoginTables db) (p : RefreshToken → Bool)
      (f : RefreshToken → RefreshToken)
      → db.rows s'.tokens ≡ update_where p f (db.rows s.tokens)
      → ((t : RefreshToken)
          → is_unrevoked_token session_id (f t) ≡ true
          → is_unrevoked_token session_id t ≡ true)
      → is_dead session_id s ≡ true
      → is_dead session_id s' ≡ true
  unfolding is_dead
  write-dead session_id s s' p f written kept h = ground (
    arith,
    h,
    written,
    any-update_where-none (is_unrevoked_token session_id) p f (db.rows s.tokens) (ground (arith, h))
        (λ t _ k. kept t k),
  )

  -- A replacement keeps another session dead.
  replaced_rows-dead :
      (now next_id next_hash session_id : ℕ) (current : RefreshToken) (expires_at : ℕ)
      (s : LoginTables db)
      → (current.session_id == session_id) ≡ false
      → is_dead session_id s ≡ true
      → any
          (is_unrevoked_token session_id)
          (replaced_rows db now next_id next_hash current expires_at s)
        ≡ false
  unfolding is_dead
  replaced_rows-dead now next_id next_hash session_id current expires_at s other dead =
      any-update_where-none (is_unrevoked_token session_id) (is_unused current.id)
        (consume now next_id)
        (new_token next_id current.user_id current.session_id next_hash expires_at
          ∷ db.rows s.tokens)
        (ground (arith, other, dead)) (λ t _ k. ground (arith, k))

  -- A usable token is a token of a session that is not dead.
  usable_alive :
      (hashes : List ℕ) (now session_id : ℕ) (current : RefreshToken) (s : LoginTables db)
      → db.find_first (carries_hash hashes) s.tokens ≡ some current
      → is_unusable db now current s ≡ false
      → is_dead session_id s ≡ true
      → (current.session_id == session_id) ≡ false
  unfolding is_dead is_unusable
  usable_alive hashes now session_id current s found usable dead =
      let (listed, matches) = db.find_first_selects _ s.tokens current found in
      elim (Bool-cases (current.session_id == session_id)) [
        | inr other ↦ other
        | inl same ↦ absurd (
            ground (
              arith,
              dead,
              any_of_Memᴰ (is_unrevoked_token session_id) listed
                  (ground (arith, same, usable, matches)),
            ))
      ]

  end_session-kept :
      (session_id now ended_id : ℕ) (reason : RevokeReason) (s : LoginTables db)
      → is_dead session_id s ≡ true
      → is_dead session_id (end_session db now reason ended_id s) ≡ true
  unfolding end_session
  end_session-kept session_id now ended_id reason s dead =
      write-dead session_id s (end_session db now reason ended_id s) (is_unrevoked_token ended_id)
        (revoke_token now)
        (db.rows_update_many (is_unrevoked_token ended_id) (revoke_token now) s.tokens)
        (λ t k. absurd (ground (arith, k))) dead

  replaced_dead :
      (now next_id next_hash session_id : ℕ) (current : RefreshToken) (expires_at : ℕ)
      (s s' : LoginTables db) (r : Rotation)
      → (current.session_id == session_id) ≡ false
      → is_dead session_id s ≡ true
      → ((r ≡ rotated current.user_id current.session_id)
          × (db.rows s'.tokens ≡ replaced_rows db now next_id next_hash current expires_at s))
        ⊎ ((r ≡ reuse current.user_id)
            × (db.rows s'.tokens
                ≡ update_where
                    (is_unrevoked_token current.session_id)
                    (revoke_token now)
                    (replaced_rows db now next_id next_hash current expires_at s)))
      → (is_dead session_id s' ≡ true) × ((user_id : ℕ) → r ≢ rotated user_id session_id)
  unfolding is_dead
  replaced_dead now next_id next_hash session_id current expires_at s s' r other dead
        (inl (e, written)) =
      (
        ground (
          arith,
          written,
          replaced_rows-dead now next_id next_hash session_id current expires_at s other dead,
        ),
        λ user_id e'. absurd (ground (arith, e, e', other)),
      )
  replaced_dead now next_id next_hash session_id current expires_at s s' r other dead
        (inr (e, written)) =
      (
        ground (
          arith,
          written,
          any-update_where-none (is_unrevoked_token session_id)
              (is_unrevoked_token current.session_id) (revoke_token now)
              (replaced_rows db now next_id next_hash current expires_at s)
              (replaced_rows-dead now next_id next_hash session_id current expires_at s other dead)
              (λ t _ k. absurd (ground (arith, k))),
        ),
        λ user_id e'. absurd (ground (arith, e, e')),
      )

  -- A session whose tokens are all revoked stays so under every rotation, and no rotation with any
  -- token succeeds for it.
  pub rotate_refresh_token-dead :
      (hashes : List ℕ) (now next_id next_hash session_id : ℕ) (s s' : LoginTables db)
      (r : Rotation)
      → rotate_refresh_token db hashes now next_id next_hash s ≡ ok (r, s')
      → is_dead session_id s ≡ true
      → (is_dead session_id s' ≡ true) × ((user_id : ℕ) → r ≢ rotated user_id session_id)
  rotate_refresh_token-dead hashes now next_id next_hash session_id s s' r h dead =
      elim (rotate_refresh_token-cases db hashes now next_id next_hash s s' r h) [
        | inl (void, same) ↦ (rw same dead, λ user_id e. absurd (ground (arith, void, e)))
        | inr (current, found, inl (unusable, reused, ended)) ↦ (
          rw ended (end_session-kept session_id now current.session_id refresh_token_reuse s dead),
          λ user_id e. absurd (ground (arith, reused, e)),
        )
        | inr (current, found, inr (usable, step)) ↦
            let (session, owns, written) =
              replace_token-cases db now next_id next_hash current s s' r step in
            replaced_dead now next_id next_hash session_id current session.expires_at s s' r
              (usable_alive hashes now session_id current s found usable dead) dead written
      ]
