-- ===== src/Access/Coherence.antt =====
-- A cached decision is the one that the database would give, as roles are assigned and revoked.
use production_backend_found.Prelude.{
  ℕ, ◌+◌, ◌≡◌, refl, sym, ap, ◌∙◌, Bool, true, false, not, ◌&&◌, ◌||◌, Option, none, some, List, [],
  ◌∷◌, arith, any, all, any_of_Memᴰ, update_where, ◌==◌, leb, is_none, is_some, Bool-cases,
  Option-cases, inl, inr,
}
use production_backend_found.Errors.{ok, Result-cases}
use production_backend_found.Store.{Prisma, update_one}
use production_backend_found.Store.Laws.{update_one-ok}
use production_backend_found.Access.{
  AccessUser, UserRole, AccessTables, CacheKey, is_global_grant, has_global_grant,
  has_organization_grant, decide, bump, is_live_user, is_assignment, assign, assign_role,
  revoke_role, is_organization_scope, is_global_scope,
}

find_first-any :
    (db : Prisma) {R : Type 0} (p : R → Bool) (t : db.Table R)
    → is_some (db.find_first p t) ≡ any p (db.rows t)
find_first-any db p t = elim (Option-cases (db.find_first p t)) [
  | inl missing ↦ rw missing (sym (db.find_first_misses p t missing))
  | inr (r, found) ↦
      let (member, hit) = db.find_first_selects p t r found in
      rw found (sym (any_of_Memᴰ p member hit))
]

-- The rows of another user are not noticed.
module _ (user_id : ℕ) (q : UserRole → Bool)
    (other : (u : UserRole) → (u.user_id == user_id) ≡ true → q u ≡ false) where
  any-update_where_other :
      (p : UserRole → Bool) (f : UserRole → UserRole) (us : List UserRole)
      → ((u : UserRole) → p u ≡ true → (u.user_id == user_id) ≡ true)
      → ((u : UserRole) → (f u).user_id ≡ u.user_id)
      → any q (update_where p f us) ≡ any q us
  any-update_where_other p f [] h k = refl
  any-update_where_other p f (u ∷ us) h k =
      ground (arith, h u, k u, other u, other (f u), any-update_where_other p f us h k)

-- The epoch that a request of the key's user carries now.
abbrev pub is_current : CacheKey → List AccessUser → Bool
is_current k us =
    any (λ u. u.id == k.user_id && u.permission_epoch == k.user_epoch && is_none u.deleted_at) us

-- No entry is from an epoch to come.
abbrev pub is_known : CacheKey → List AccessUser → Bool
is_known k us = all (λ u. not (u.id == k.user_id) || leb k.user_epoch u.permission_epoch) us

bumped-is_known :
    (k : CacheKey) (user_id : ℕ) (us : List AccessUser)
    → is_known k us ≡ true
    → is_known k (
        update_where
          (λ u. u.id == user_id && is_none u.deleted_at)
          (λ u. record u { permission_epoch = u.permission_epoch + 1 })
          us)
      ≡ true
bumped-is_known k user_id [] h = refl
bumped-is_known k user_id (u ∷ us) h = ground (arith, h, bumped-is_known k user_id us)

bumped-is_current_own :
    (k : CacheKey) (us : List AccessUser)
    → is_known k us ≡ true
    → is_current k (
        update_where
          (λ u. u.id == k.user_id && is_none u.deleted_at)
          (λ u. record u { permission_epoch = u.permission_epoch + 1 })
          us)
      ≡ false
bumped-is_current_own k [] h = refl
bumped-is_current_own k (u ∷ us) h = ground (arith, h, bumped-is_current_own k us)

bumped-is_current_other :
    (k : CacheKey) (user_id : ℕ) (us : List AccessUser)
    → (k.user_id == user_id) ≡ false
    → is_current k (
        update_where
          (λ u. u.id == user_id && is_none u.deleted_at)
          (λ u. record u { permission_epoch = u.permission_epoch + 1 })
          us)
      ≡ is_current k us
bumped-is_current_other k user_id [] h = refl
bumped-is_current_other k user_id (u ∷ us) h =
    ground (arith, h, bumped-is_current_other k user_id us)

abbrev pub agrees : Bool → Bool → Bool
agrees true b = b
agrees false b = not b

module _ (db : Prisma) where
  abbrev pub is_right : AccessTables db → CacheKey × Bool → Bool
  is_right s e =
      is_known e.0 (db.rows s.users)
      && (not (is_current e.0 (db.rows s.users)) || agrees e.1 (decide db e.0 s))

  -- Every entry at the current epoch of its user holds what the database says.
  abbrev pub Coherent : AccessTables db → List (CacheKey × Bool) → Type 0
  Coherent s cache = all (is_right s) cache ≡ true

  module _ (user_id : ℕ) (s s' : AccessTables db)
      (bumped : db.rows s'.users
        ≡ update_where
            (λ u. u.id == user_id && is_none u.deleted_at)
            (λ u. record u { permission_epoch = u.permission_epoch + 1 })
            (db.rows s.users))
      (same : (k : CacheKey)
        → (k.user_id == user_id) ≡ false
        → decide db k s' ≡ decide db k s) where
    is_right-bump : (e : CacheKey × Bool) → is_right s e ≡ true → is_right s' e ≡ true
    is_right-bump (k, allowed) h =
        let known = bumped-is_known k user_id (db.rows s.users) (ground (arith, h)) in
        elim (Bool-cases (k.user_id == user_id)) [
          | inl own ↦
              let e : k.user_id ≡ user_id = ground (arith, own) in
              let past = bumped-is_current_own k (db.rows s.users) (ground (arith, h)) in
              let past' = rw e at past in rw bumped (ground (arith, known, past'))
          | inr other ↦
              let kept = bumped-is_current_other k user_id (db.rows s.users) other in
              rw (bumped, same k other, kept) (ground (arith, known, h))
        ]

    Coherent-bump : (cache : List (CacheKey × Bool)) → Coherent s cache → Coherent s' cache
    Coherent-bump [] h = refl
    Coherent-bump (e ∷ cache) h = ground (arith, h, is_right-bump e, Coherent-bump cache)

  has_organization_grant-user_roles :
      (s : AccessTables db) (roles : db.Table UserRole) (users : db.Table AccessUser)
      (user_id code : ℕ) (o : Option ℕ)
      → has_organization_grant db user_id o code (record s { user_roles = roles; users = users })
        ≡ has_organization_grant db user_id o code s
  unfolding has_organization_grant
  has_organization_grant-user_roles s roles users user_id code none = refl
  has_organization_grant-user_roles s roles users user_id code (some organization_id) = refl

  decide-user_roles :
      (s : AccessTables db) (roles : db.Table UserRole) (users : db.Table AccessUser) (k : CacheKey)
      → any (is_global_grant db s k.user_id k.code) (db.rows roles)
        ≡ any (is_global_grant db s k.user_id k.code) (db.rows s.user_roles)
      → decide db k (record s { user_roles = roles; users = users }) ≡ decide db k s
  unfolding decide has_global_grant
  decide-user_roles s roles users k h =
      let found =
        find_first-any db (is_global_grant db s k.user_id k.code) roles
        ∙ (h ∙ sym (find_first-any db (is_global_grant db s k.user_id k.code) s.user_roles)) in
      let held =
        has_organization_grant-user_roles s roles users k.user_id k.code k.organization_id in
      rw held (ap answer found)
    where
      answer : Bool → Bool
      answer b =
          (not (is_organization_scope k.scope) && b)
          || (not (is_global_scope k.scope)
              && has_organization_grant db k.user_id k.organization_id k.code s)

  -- The rows that an assignment or a revocation writes are the user's own.
  other_grant :
      (s : AccessTables db) (user_id : ℕ) (k : CacheKey)
      → (k.user_id == user_id) ≡ false
      → (u : UserRole) → (u.user_id == user_id) ≡ true
      → is_global_grant db s k.user_id k.code u ≡ false
  other_grant s user_id k other u own = ground (arith, other, own)

  assign-other :
      (user_id role_id : ℕ) (q : UserRole → Bool) (t : db.Table UserRole)
      → ((u : UserRole) → (u.user_id == user_id) ≡ true → q u ≡ false)
      → any q (db.rows (assign db user_id role_id t)) ≡ any q (db.rows t)
  assign-other user_id role_id q t other =
      let p = is_assignment user_id role_id in
      let new : UserRole = record { user_id = user_id; role_id = role_id; deleted_at = none } in
      let f = λ (u : UserRole). record u { deleted_at = none } in
      let kept =
        any-update_where_other user_id q other p f (db.rows t) (λ u h. ground (arith, h))
          (λ u. refl) in
      let unseen : q new ≡ false = other new (ground arith) in
      rw (db.rows_upsert p new f t) (elim (Bool-cases (any p (db.rows t))) [
        | inl held ↦ rw held kept
        | inr free ↦ rw (free, unseen) refl
      ])

  bumped_rows :
      (user_id : ℕ) (t users : db.Table AccessUser)
      → update_one db (is_live_user user_id) bump t ≡ ok users
      → db.rows users
        ≡ update_where
            (λ u. u.id == user_id && is_none u.deleted_at)
            (λ u. record u { permission_epoch = u.permission_epoch + 1 })
            (db.rows t)
  bumped_rows user_id t users done =
      ap db.rows (update_one-ok db (is_live_user user_id) bump t users done)
      ∙ db.rows_update_many (is_live_user user_id) bump t

  module _ (user_id role_id : ℕ) (s s' : AccessTables db) where
    -- Assigning a role leaves no stale decision: if every cached entry at the current epoch of its
    -- user is what the database decides, and none is from a later epoch, then so after `assignRole`
    -- where it succeeds.
    pub assign_role-Coherent :
        (cache : List (CacheKey × Bool))
        → assign_role db user_id role_id s ≡ ok s'
        → all (is_right s) cache ≡ true
        → all (is_right s') cache ≡ true
    unfolding assign_role
    assign_role-Coherent cache h c =
        elim (Result-cases (update_one db (is_live_user user_id) bump s.users)) [
          | inr (e, refused) ↦ absurd (ground (arith, h, refused))
          | inl (users, done) ↦
              let roles = assign db user_id role_id s.user_roles in
              let same : s' ≡ record s { user_roles = roles; users = users } =
                ground (arith, h, done) in
              rw same (
                Coherent-bump user_id s (record s { user_roles = roles; users = users })
                  (bumped_rows user_id s.users users done)
                  (λ k other. decide-user_roles s roles users k (
                    assign-other user_id role_id (is_global_grant db s k.user_id k.code)
                      s.user_roles (other_grant s user_id k other)))
                  cache c)
        ]

    -- Revoking a role leaves no stale decision either: under the same condition, it holds after
    -- `revokeRole` where it does not throw, whether the user held the role or not.
    pub revoke_role-Coherent :
        (now : ℕ) (held : Bool) (cache : List (CacheKey × Bool))
        → revoke_role db now user_id role_id s ≡ ok (held, s')
        → all (is_right s) cache ≡ true
        → all (is_right s') cache ≡ true
    unfolding revoke_role
    revoke_role-Coherent now held cache h c =
        let p = λ (u : UserRole). is_assignment user_id role_id u && is_none u.deleted_at in
        let f = λ (u : UserRole). record u { deleted_at = some now } in
        let revoked = db.update_many p f s.user_roles in
        elim (Bool-cases (revoked.1 == 0)) [
          | inl absent ↦ let same : s' ≡ s = ground (arith, h, absent) in rw same c
          | inr present ↦ elim (Result-cases (update_one db (is_live_user user_id) bump s.users)) [
            | inr (e, refused) ↦ absurd (ground (arith, h, present, refused))
            | inl (users, done) ↦
                let same : s' ≡ record s { user_roles = revoked.0; users = users } =
                  ground (arith, h, present, done) in
                rw same (
                  Coherent-bump user_id s (record s { user_roles = revoked.0; users = users })
                    (bumped_rows user_id s.users users done)
                    (λ k other. decide-user_roles s revoked.0 users k (
                      ap (any (is_global_grant db s k.user_id k.code))
                        (db.rows_update_many p f s.user_roles)
                      ∙ any-update_where_other user_id (is_global_grant db s k.user_id k.code)
                          (other_grant s user_id k other) p f (db.rows s.user_roles)
                          (λ u w. ground (arith, w)) (λ u. refl)))
                    cache c)
          ]
        ]
