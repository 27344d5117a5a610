-- ===== src/Organizations/Members.antt =====
-- The tables, `changeMemberRole` and `removeMember` of
-- src/modules/organizations/organizations.service.ts.
use text.Mathlib.Text.{◌==◌ as str_eq}
use production_backend_found.Prelude.{
  ℕ, ◌+◌, Bool, true, false, not, ◌&&◌, Option, none, some, String, ◌==◌, leb, is_none, any, is_at,
}
use production_backend_found.Errors.{
  Result, ok, ◌>>=◌, ◌>>◌, throw_if, or_throw, bad_request_error, not_found_error, conflict_error,
}
use production_backend_found.Store.{Prisma, update_one}

pub data MembershipStatus : Type 0 where
  invited active suspended : MembershipStatus

abbrev pub is_active : MembershipStatus → Bool
is_active active = true
is_active _ = false

pub record Membership : Type 0 where
  pub id : ℕ
  pub organization_id : ℕ
  pub user_id : ℕ
  pub role_id : ℕ
  pub status : MembershipStatus
  pub joined_at : Option ℕ
  pub created_at : ℕ
  pub deleted_at : Option ℕ

pub record Role : Type 0 where
  pub id : ℕ
  pub organization_id : Option ℕ
  pub name : String
  pub deleted_at : Option ℕ

pub record User : Type 0 where
  pub id : ℕ
  pub email : Option String
  pub email_verified_at : Option ℕ
  pub permission_epoch : ℕ
  pub deleted_at : Option ℕ

pub record Session : Type 0 where
  pub id : ℕ
  pub user_id : ℕ
  pub active_organization_id : Option ℕ
  pub revoked_at : Option ℕ
  pub deleted_at : Option ℕ

pub record Tables (db : Prisma) : Type 0 where
  pub memberships : db.Table Membership
  pub roles : db.Table Role
  pub users : db.Table User
  pub sessions : db.Table Session

abbrev pub is_owner_name : String → Bool
is_owner_name name = str_eq name "owner"

-- `OR: [{ organizationId: null }, { organizationId }]`.
abbrev pub is_global_or_of : ℕ → Option ℕ → Bool
is_global_or_of organization_id none = true
is_global_or_of organization_id (some o) = o == organization_id

abbrev pub is_assignable : ℕ → ℕ → Role → Bool
is_assignable role_id organization_id r =
    r.id == role_id && is_none r.deleted_at && is_global_or_of organization_id r.organization_id

abbrev pub is_member : ℕ → ℕ → Membership → Bool
is_member organization_id user_id m =
    m.organization_id == organization_id && m.user_id == user_id && is_none m.deleted_at

abbrev pub bump_epoch : User → User
bump_epoch u = record u { permission_epoch = u.permission_epoch + 1 }

abbrev pub is_live_user : ℕ → User → Bool
is_live_user id u = u.id == id && is_none u.deleted_at

abbrev pub mark_removed : ℕ → Membership → Membership
mark_removed now m = record m { deleted_at = some now; status = suspended }

abbrev pub is_session_in : ℕ → ℕ → Session → Bool
is_session_in user_id organization_id x =
    x.user_id == user_id && is_at x.active_organization_id organization_id && is_none x.deleted_at

module _ (db : Prisma) where
  -- `target.role.name`: the role that the membership refers to, deleted or not.
  abbrev pub has_owner_role : db.Table Role → Membership → Bool
  has_owner_role roles m = any (λ r. r.id == m.role_id && is_owner_name r.name) (db.rows roles)

  -- The `where` of `countActiveOwners`.
  abbrev pub is_active_owner : db.Table Role → ℕ → Membership → Bool
  is_active_owner roles organization_id m =
      m.organization_id == organization_id
      && is_active m.status
      && is_none m.deleted_at
      && any (λ r. (r.id == m.role_id && is_owner_name r.name) && is_none r.deleted_at)
          (db.rows roles)

  unfoldable pub count_active_owners : ℕ → Tables db → ℕ
  count_active_owners organization_id s =
      db.count (is_active_owner s.roles organization_id) s.memberships

  abbrev pub assert_assignable_role : ℕ → ℕ → Tables db → Result Role
  assert_assignable_role role_id organization_id s =
      or_throw (db.find_first (is_assignable role_id organization_id) s.roles) bad_request_error

  unfoldable pub change_member_role : ℕ → ℕ → ℕ → Tables db → Result (Tables db)
  change_member_role organization_id user_id role_id s = do
    new_role ← assert_assignable_role role_id organization_id s
    target ←
        or_throw (db.find_first (is_member organization_id user_id) s.memberships) not_found_error
    throw_if
        (is_active target.status
          && has_owner_role s.roles target
          && not (is_owner_name new_role.name)
          && leb (count_active_owners organization_id s) 1)
        conflict_error
    let changed =
        db.update_many (λ m. m.id == target.id && is_none m.deleted_at)
          (λ m. record m { role_id = role_id }) s.memberships
    throw_if (changed.1 == 0) not_found_error
    users ← update_one db (is_live_user user_id) bump_epoch s.users
    ok (record s { memberships = changed.0; users = users })

  unfoldable pub remove_member : ℕ → ℕ → ℕ → Tables db → Result (Tables db)
  remove_member now organization_id user_id s = do
    target ←
        or_throw (db.find_first (is_member organization_id user_id) s.memberships) not_found_error
    throw_if
        (is_active target.status
          && has_owner_role s.roles target
          && leb (count_active_owners organization_id s) 1)
        conflict_error
    memberships ←
        update_one db (λ m. m.id == target.id && is_none m.deleted_at) (mark_removed now)
          s.memberships
    users ← update_one db (is_live_user user_id) bump_epoch s.users
    let sessions =
        db.update_many (is_session_in user_id organization_id)
          (λ x. record x { active_organization_id = none }) s.sessions
    ok (record s { memberships = memberships; users = users; sessions = sessions.0 })
