-- ===== src/Auth/Sessions/Steps.antt =====
-- What a rotation did, read back from its result (src/modules/auth/auth.sessions.service.ts).
use production_backend_found.Prelude.{
  ℕ, ◌≡◌, refl, ◌∙◌, ap, inl, inr, ◌⊎◌, Bool, true, false, some, List, [], ◌∷◌, ◌==◌, any,
  update_where, arith, Bool-cases, Option-cases,
}
use production_backend_found.Errors.{ok}
use production_backend_found.Store.{Prisma}
use production_backend_found.Auth.Sessions.{
  LoginSession, RefreshToken, LoginTables, Rotation, invalid, reuse, rotated, new_token,
  carries_hash, is_unrevoked_token, revoke_token, is_unused, consume, is_unusable, end_session,
  replace_token, rotate_refresh_token, refresh_token_reuse,
}

module _ {ℓ} {A : Type ℓ} (q p : A → Bool) (f : A → A) where
  -- A write that puts no row under `q`.
  pub any-update_where-none :
      (xs : List A)
      → any q xs ≡ false
      → ((x : A) → p x ≡ true → q (f x) ≡ true → q x ≡ true)
      → any q (update_where p f xs) ≡ false
  any-update_where-none [] h k = refl
  any-update_where-none (x ∷ xs) h k = ground (arith, k x, any-update_where-none xs)

  -- A write that takes every row under `q` out of it.
  pub any-update_where-out :
      (xs : List A)
      → ((x : A) → q x ≡ true → p x ≡ true)
      → ((x : A) → q (f x) ≡ false)
      → any q (update_where p f xs) ≡ false
  any-update_where-out [] h k = refl
  any-update_where-out (x ∷ xs) h k = ground (arith, h x, k x, any-update_where-out xs)

module _ (db : Prisma) where
  -- The rows of tokens that a replacement leaves, whichever way it ends.
  abbrev pub replaced_rows : ℕ → ℕ → ℕ → RefreshToken → ℕ → LoginTables db → List RefreshToken
  replaced_rows now next_id next_hash current expires_at s =
      update_where (is_unused current.id) (consume now next_id) (
        new_token next_id current.user_id current.session_id next_hash expires_at
        ∷ db.rows s.tokens)

  pub replace_token-cases :
      (now next_id next_hash : ℕ) (current : RefreshToken) (s s' : LoginTables db) (r : Rotation)
      → replace_token db now next_id next_hash current s ≡ ok (r, s')
      → (session : LoginSession) × (db.find_first (λ x. x.id == current.session_id) s.sessions
          ≡ some session)
        × (((r ≡ rotated current.user_id current.session_id)
              × (db.rows s'.tokens
                  ≡ replaced_rows now next_id next_hash current session.expires_at s))
            ⊎ ((r ≡ reuse current.user_id)
                × (db.rows s'.tokens
                    ≡ update_where
                        (is_unrevoked_token current.session_id)
                        (revoke_token now)
                        (replaced_rows now next_id next_hash current session.expires_at s))))
  unfolding replace_token
  replace_token-cases now next_id next_hash current s s' r h =
      elim (Option-cases (db.find_first (λ x. x.id == current.session_id) s.sessions)) [
        | inl absent ↦ absurd (ground (arith, absent))
        | inr (session, found) ↦
            let created =
              db.create
                (new_token next_id current.user_id current.session_id next_hash session.expires_at)
                s.tokens in
            let consumed = db.update_many (is_unused current.id) (consume now next_id) created in
            let rows : db.rows consumed.0
                ≡ replaced_rows now next_id next_hash current session.expires_at s =
              db.rows_update_many (is_unused current.id) (consume now next_id) created
              ∙ ap (update_where (is_unused current.id) (consume now next_id)) (
                  db.rows_create
                    (new_token next_id current.user_id current.session_id next_hash
                      session.expires_at)
                    s.tokens) in
            (
              session,
              found,
              elim (Bool-cases (consumed.1 == 1)) [
                | inl one ↦ inl (ground (arith, found, one), ground (arith, found, one, rows))
                | inr other ↦ inr (
                  ground (arith, found, other),
                  ground (
                    arith,
                    found,
                    other,
                    rows,
                    db.rows_update_many (is_unrevoked_token current.session_id) (revoke_token now)
                        consumed.0,
                  ),
                )
              ],
            )
      ]

  -- A rotation found no token, or ended the session of an unusable one, or replaced a usable one.
  pub rotate_refresh_token-cases :
      (hashes : List ℕ) (now next_id next_hash : ℕ) (s s' : LoginTables db) (r : Rotation)
      → rotate_refresh_token db hashes now next_id next_hash s ≡ ok (r, s')
      → ((r ≡ invalid) × (s' ≡ s))
        ⊎ ((current : RefreshToken) × (db.find_first (carries_hash hashes) s.tokens ≡ some current)
            × (((is_unusable db now current s ≡ true)
                  × (r ≡ reuse current.user_id)
                  × (s' ≡ end_session db now refresh_token_reuse current.session_id s))
                ⊎ ((is_unusable db now current s ≡ false)
                    × (replace_token db now next_id next_hash current s ≡ ok (r, s')))))
  unfolding rotate_refresh_token
  rotate_refresh_token-cases hashes now next_id next_hash s s' r h =
      elim (Option-cases (db.find_first (carries_hash hashes) s.tokens)) [
        | inl absent ↦ inl (ground (arith, absent, h), ground (arith, absent, h))
        | inr (current, found) ↦ inr (
          current,
          found,
          elim (Bool-cases (is_unusable db now current s)) [
            | inl unusable ↦
                inl
                  (unusable, ground (arith, found, unusable, h), ground (arith, found, unusable, h))
            | inr usable ↦ inr (usable, ground (arith, found, usable, h))
          ],
        )
      ]
