-- ===== src/Auth/Sessions/Replay.antt =====
-- A refresh token is used once (src/modules/auth/auth.sessions.service.ts).
use mathlib.Core.List.{Memᴰ}
use production_backend_found.Prelude.{
  ℕ, ◌≡◌, inl, inr, Bool, true, false, not, ◌&&◌, some, List, [], ◌∷◌, ◌==◌, is_none, is_some, any,
  update_where, arith, Bool-cases, Option-cases, any_of_Memᴰ, single_apart, any-update_where-sole,
  tally, ◌≤◌,
}
use production_backend_found.Errors.{ok}
use production_backend_found.Store.{Prisma}
use production_backend_found.Auth.Sessions.{
  RefreshToken, LoginTables, RevokeReason, is_unrevoked_session, revoke_row, reuse, rotated,
  new_token, carries_hash, is_unrevoked_token, revoke_token, is_unused, consume, is_unusable,
  end_session, rotate_refresh_token, refresh_token_reuse,
}
use production_backend_found.Auth.Sessions.Steps.{
  any-update_where-none, any-update_where-out, replaced_rows, replace_token-cases,
  rotate_refresh_token-cases,
}
use production_backend_found.Auth.Sessions.Revocation.{is_dead, end_session-dead}

module _ {ℓ} {A : Type ℓ} (q p : A → Bool) (f : A → A) where
  any-update_where-stays :
      (xs : List A)
      → ((x : A) → q x ≡ true → q (f x) ≡ true)
      → any q xs ≡ true
      → any q (update_where p f xs) ≡ true
  any-update_where-stays [] k h = ground arith
  any-update_where-stays (x ∷ xs) k h = ground (arith, k x, any-update_where-stays xs k)

module _ (db : Prisma) where
  -- The session of a token whose rotation reports reuse is ended: every token of it is revoked.
  pub rotate_refresh_token-reuse :
      (hashes : List ℕ) (now next_id next_hash user_id : ℕ) (current : RefreshToken)
      (s s' : LoginTables db)
      → db.find_first (carries_hash hashes) s.tokens ≡ some current
      → rotate_refresh_token db hashes now next_id next_hash s ≡ ok (reuse user_id, s')
      → is_dead db current.session_id s' ≡ true
  unfolding is_dead
  rotate_refresh_token-reuse hashes now next_id next_hash user_id current s s' found h =
      elim (rotate_refresh_token-cases db hashes now next_id next_hash s s' (reuse user_id) h) [
        | inl (void, same) ↦ absurd (ground (arith, void))
        | inr (again, at, inl (unusable, reused, ended)) ↦ ground (
          arith,
          found,
          at,
          ended,
          end_session-dead db now again.session_id refresh_token_reuse s,
        )
        | inr (again, at, inr (usable, step)) ↦
            let (session, owns, written) =
              replace_token-cases db now next_id next_hash again s s' (reuse user_id) step in
            elim written [
              | inl (e, _) ↦ absurd (ground (arith, e))
              | inr (e, rows) ↦ ground (
                arith,
                found,
                at,
                rows,
                any-update_where-out (is_unrevoked_token again.session_id)
                    (is_unrevoked_token again.session_id) (revoke_token now)
                    (replaced_rows db now next_id next_hash again session.expires_at s) (λ t k. k)
                    (λ t. ground arith),
              )
            ]
      ]

  end_session-revoked :
      (now session_id : ℕ) (reason : RevokeReason) (s : LoginTables db)
      → any
          (is_unrevoked_session session_id)
          (db.rows (end_session db now reason session_id s).sessions)
        ≡ false
  unfolding end_session
  end_session-revoked now session_id reason s =
      rw (db.rows_update_many (is_unrevoked_session session_id) (revoke_row now reason) s.sessions)
        (any-update_where-out (is_unrevoked_session session_id) (is_unrevoked_session session_id)
          (revoke_row now reason) (db.rows s.sessions) (λ x k. k) (λ x. ground arith))

  module _ (hashes : List ℕ) (now next_id next_hash : ℕ) (current : RefreshToken) (expires_at : ℕ)
      (s s' : LoginTables db) (found : db.find_first (carries_hash hashes) s.tokens ≡ some current)
      (one : tally (carries_hash hashes) (db.rows s.tokens) ≤ 1)
      (fresh : any (λ h. h == next_hash) hashes ≡ false)
      (usable : is_unusable db now current s ≡ false)
      (written : db.rows s'.tokens
        ≡ replaced_rows db now next_id next_hash current expires_at s) where
    abbrev successor : RefreshToken
    successor = new_token next_id current.user_id current.session_id next_hash expires_at

    -- The token is still there.
    still_listed : any (carries_hash hashes) (db.rows s'.tokens) ≡ true
    still_listed =
        let (listed, matches) = db.find_first_selects _ s.tokens current found in
        rw written (
          any-update_where-stays (carries_hash hashes) (is_unused current.id) (consume now next_id)
            (successor ∷ db.rows s.tokens) (λ t k. k)
            (any_of_Memᴰ (carries_hash hashes) (Memᴰ.tail {x = successor} listed) matches))

    -- No row carries it unused.
    spent : any (λ t. carries_hash hashes t && is_none t.consumed_at) (db.rows s'.tokens) ≡ false
    unfolding is_unusable
    spent =
        let (listed, matches) = db.find_first_selects _ s.tokens current found in
        rw written (
          any-update_where-sole (is_unused current.id)
            (λ t. carries_hash hashes t && is_none t.consumed_at) (carries_hash hashes)
            (consume now next_id) (λ t k. ground (arith, k)) (λ t. ground arith)
            (Memᴰ.tail {x = successor} listed) (ground (arith, usable, matches)) matches
            (ground (arith, one, fresh)))

    -- Every row that carries it is of the same user and session.
    abbrev is_other : RefreshToken → Bool
    is_other t = not (t.user_id == current.user_id && t.session_id == current.session_id)

    same_owner : any (λ t. carries_hash hashes t && is_other t) (db.rows s'.tokens) ≡ false
    same_owner =
        let (listed, matches) = db.find_first_selects _ s.tokens current found in
        rw written (
          any-update_where-none (λ t. carries_hash hashes t && is_other t) (is_unused current.id)
            (consume now next_id) (successor ∷ db.rows s.tokens)
            (single_apart (carries_hash hashes) is_other (Memᴰ.tail {x = successor} listed) matches
              (ground arith) (ground (arith, one, fresh)))
            (λ t _ k. k))

    replayed :
        (later id_later hash_later : ℕ)
        → (s'' : LoginTables db) × (rotate_refresh_token db hashes later id_later hash_later s'
            ≡ ok (reuse current.user_id, s''))
          × (is_dead db current.session_id s'' ≡ true)
          × (any (is_unrevoked_session current.session_id) (db.rows s''.sessions) ≡ false)
    unfolding rotate_refresh_token is_unusable
    replayed later id_later hash_later =
        elim (Option-cases (db.find_first (carries_hash hashes) s'.tokens)) [
          | inl missing ↦
              absurd (ground (arith, still_listed, db.find_first_misses _ s'.tokens missing))
          | inr (again, at) ↦
              let (listed, matches) = db.find_first_selects _ s'.tokens again at in
              let consumed : is_some again.consumed_at ≡ true =
                elim (Bool-cases (is_none again.consumed_at)) [
                  | inr not_none ↦ ground (arith, not_none)
                  | inl unused ↦ absurd (
                      ground (
                        arith,
                        spent,
                        any_of_Memᴰ (λ t. carries_hash hashes t && is_none t.consumed_at) listed
                            (ground (arith, matches, unused)),
                      ))
                ] in
              let same : is_other again ≡ false = elim (Bool-cases (is_other again)) [
                | inr equal ↦ equal
                | inl other ↦ absurd (
                    ground (
                      arith,
                      same_owner,
                      any_of_Memᴰ (λ t. carries_hash hashes t && is_other t) listed
                          (ground (arith, matches, other)),
                    ))
              ] in
              (
                end_session db later refresh_token_reuse again.session_id s',
                ground (arith, at, consumed, same),
                ground (
                  arith,
                  same,
                  end_session-dead db later again.session_id refresh_token_reuse s',
                ),
                ground (
                  arith,
                  same,
                  end_session-revoked later again.session_id refresh_token_reuse s',
                ),
              )
        ]

  -- A refresh token is used once. If one token at most carries the hash, and the next token has
  -- another, then after a rotation that succeeds every rotation with the same token, at whatever
  -- time, reports reuse by the same user, and ends the session that the first one prolonged: its row
  -- is revoked, and so is every refresh token of it.
  pub rotate_refresh_token_once :
      (hashes : List ℕ) (now next_id next_hash later id_later hash_later user_id session_id : ℕ)
      (s s' : LoginTables db)
      → tally (carries_hash hashes) (db.rows s.tokens) ≤ 1
      → any (λ h. h == next_hash) hashes ≡ false
      → rotate_refresh_token db hashes now next_id next_hash s ≡ ok (rotated user_id session_id, s')
      → (s'' : LoginTables db) × (rotate_refresh_token db hashes later id_later hash_later s'
          ≡ ok (reuse user_id, s''))
        × (is_dead db session_id s'' ≡ true)
        × (any (is_unrevoked_session session_id) (db.rows s''.sessions) ≡ false)
  rotate_refresh_token_once hashes now next_id next_hash later id_later hash_later user_id
        session_id s s' one fresh h =
      elim (rotate_refresh_token-cases db hashes now next_id next_hash s s'
        (rotated user_id session_id) h) [
          | inl (void, same) ↦ absurd (ground (arith, void))
          | inr (current, found, inl (unusable, reused, ended)) ↦ absurd (ground (arith, reused))
          | inr (current, found, inr (usable, step)) ↦
              let (session, owns, written) =
                replace_token-cases db now next_id next_hash current s s'
                  (rotated user_id session_id) step in
              elim written [
                | inr (e, rows) ↦ absurd (ground (arith, e))
                | inl (e, rows) ↦
                    let (s'', again, dead, closed) =
                      replayed hashes now next_id next_hash current session.expires_at s s' found
                        one fresh usable rows later id_later hash_later in
                    (
                      s'',
                      ground (arith, e, again),
                      ground (arith, e, dead),
                      ground (arith, e, closed),
                    )
              ]
        ]
