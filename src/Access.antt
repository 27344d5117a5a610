-- ===== src/Access.antt =====
-- src/middleware/access-control.ts (permissionGuard and its cache) and src/modules/roles/roles.service.ts.
-- The cache is a list of entries; that Redis loses some is a lookup that finds nothing. A role's
-- permissions are rows that carry the permission's code.
pub mod Coherence
pub mod Guard
mod Tests
use production_backend_found.Prelude.{
  ℕ, ◌+◌, Bool, true, false, not, ◌&&◌, ◌||◌, Option, none, some, List, [], ◌∷◌, ◌==◌, is_none,
  is_some, is_at, any, if◌then◌else◌,
}
use production_backend_found.Errors.{
  Result, ok, err, ◌>>=◌, ◌>>◌, throw_if, or_throw, bad_request_error,
}
use production_backend_found.Store.{Prisma, update_one}

pub record AccessUser : Type 0 where
  pub id : ℕ
  pub permission_epoch : ℕ
  pub deleted_at : Option ℕ

pub record UserRole : Type 0 where
  pub user_id : ℕ
  pub role_id : ℕ
  pub deleted_at : Option ℕ

pub record AccessRole : Type 0 where
  pub id : ℕ
  pub organization_id : Option ℕ
  pub deleted_at : Option ℕ

pub record RolePermission : Type 0 where
  pub role_id : ℕ
  pub code : ℕ
  pub deleted_at : Option ℕ

pub record AccessMembership : Type 0 where
  pub user_id : ℕ
  pub organization_id : ℕ
  pub role_id : ℕ
  pub is_active : Bool
  pub deleted_at : Option ℕ

pub record AccessTables (db : Prisma) : Type 0 where
  pub users : db.Table AccessUser
  pub user_roles : db.Table UserRole
  pub roles : db.Table AccessRole
  pub role_permissions : db.Table RolePermission
  pub memberships : db.Table AccessMembership

pub data Scope : Type 0 where
  global_scope organization_scope context_scope : Scope

abbrev pub is_global_scope : Scope → Bool
is_global_scope global_scope = true
is_global_scope _ = false

abbrev pub is_organization_scope : Scope → Bool
is_organization_scope organization_scope = true
is_organization_scope _ = false

abbrev pub is_context_scope : Scope → Bool
is_context_scope context_scope = true
is_context_scope _ = false

abbrev pub same_scope : Scope → Scope → Bool
same_scope a b =
    (is_global_scope a && is_global_scope b)
    || (is_organization_scope a && is_organization_scope b)
    || (is_context_scope a && is_context_scope b)

-- What `permissionCacheKey` is made of.
pub record CacheKey : Type 0 where
  pub scope : Scope
  pub user_id : ℕ
  pub user_epoch : ℕ
  pub organization_id : Option ℕ
  pub organization_epoch : ℕ
  pub code : ℕ

abbrev pub same_option : Option ℕ → Option ℕ → Bool
same_option none none = true
same_option none (some b) = false
same_option (some a) b = is_at b a

abbrev pub same_key : CacheKey → CacheKey → Bool
same_key a b =
    same_scope a.scope b.scope
    && a.user_id == b.user_id
    && a.user_epoch == b.user_epoch
    && same_option a.organization_id b.organization_id
    && a.organization_epoch == b.organization_epoch
    && a.code == b.code

abbrev pub cached : CacheKey → List (CacheKey × Bool) → Option Bool
cached k [] = none
cached k ((x, allowed) ∷ rest) = if same_key x k then some allowed else cached k rest

abbrev pub bump : AccessUser → AccessUser
bump u = record u { permission_epoch = u.permission_epoch + 1 }

abbrev pub is_live_user : ℕ → AccessUser → Bool
is_live_user user_id u = u.id == user_id && is_none u.deleted_at

abbrev pub is_assignment : ℕ → ℕ → UserRole → Bool
is_assignment user_id role_id u = u.user_id == user_id && u.role_id == role_id

module _ (db : Prisma) where
  abbrev pub grants : AccessTables db → ℕ → ℕ → Bool
  grants s role_id code =
      any (λ p. p.role_id == role_id && p.code == code && is_none p.deleted_at)
        (db.rows s.role_permissions)

  -- `hasGlobalGrant`: the row of a global role of the user that carries the permission.
  abbrev pub is_global_grant : AccessTables db → ℕ → ℕ → UserRole → Bool
  is_global_grant s user_id code u =
      u.user_id == user_id
      && is_none u.deleted_at
      && any
          (λ r.
            r.id == u.role_id
            && is_none r.organization_id
            && is_none r.deleted_at
            && grants s r.id code)
          (db.rows s.roles)

  unfoldable pub has_global_grant : ℕ → ℕ → AccessTables db → Bool
  has_global_grant user_id code s =
      is_some (db.find_first (is_global_grant s user_id code) s.user_roles)

  abbrev pub is_organization_grant : AccessTables db → ℕ → ℕ → ℕ → AccessMembership → Bool
  is_organization_grant s user_id organization_id code m =
      m.user_id == user_id
      && m.organization_id == organization_id
      && m.is_active
      && is_none m.deleted_at
      && any (λ r. r.id == m.role_id && is_none r.deleted_at && grants s r.id code)
          (db.rows s.roles)

  unfoldable pub has_organization_grant : ℕ → Option ℕ → ℕ → AccessTables db → Bool
  has_organization_grant user_id none code s = false
  has_organization_grant user_id (some organization_id) code s =
      is_some (db.find_first (is_organization_grant s user_id organization_id code) s.memberships)

  -- The decision from the database.
  unfoldable pub decide : CacheKey → AccessTables db → Bool
  decide k s =
      (not (is_organization_scope k.scope) && has_global_grant k.user_id k.code s)
      || (not (is_global_scope k.scope)
          && has_organization_grant k.user_id k.organization_id k.code s)

  -- The answer and the cache after it.
  unfoldable pub permission_guard :
      CacheKey → AccessTables db → List (CacheKey × Bool) → Bool × List (CacheKey × Bool)
  permission_guard k s cache =
      if is_organization_scope k.scope && is_none k.organization_id
      then (false, cache)
      else elim (cached k cache) [
        | some allowed ↦ (allowed, cache)
        | none ↦ (decide k s, (k, decide k s) ∷ cache)
      ]

  abbrev pub assign : ℕ → ℕ → db.Table UserRole → db.Table UserRole
  assign user_id role_id t =
      db.upsert (is_assignment user_id role_id)
        (record { user_id = user_id; role_id = role_id; deleted_at = none })
        (λ u. record u { deleted_at = none }) t

  unfoldable pub assign_role : ℕ → ℕ → AccessTables db → Result (AccessTables db)
  assign_role user_id role_id s = do
    role ←
        or_throw
          (db.find_first (λ r. r.id == role_id && is_none r.organization_id && is_none r.deleted_at)
            s.roles)
          bad_request_error
    users ← update_one db (is_live_user user_id) bump s.users
    ok (record s { user_roles = assign user_id role_id s.user_roles; users = users })

  -- `false` where the user does not hold the role.
  unfoldable pub revoke_role : ℕ → ℕ → ℕ → AccessTables db → Result (Bool × AccessTables db)
  revoke_role now user_id role_id s =
      let revoked =
        db.update_many (λ u. is_assignment user_id role_id u && is_none u.deleted_at)
          (λ u. record u { deleted_at = some now }) s.user_roles in
      if revoked.1 == 0 then ok (false, s) else (do
        users ← update_one db (is_live_user user_id) bump s.users
        ok (true, record s { user_roles = revoked.0; users = users }))
