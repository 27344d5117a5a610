-- ===== src/Organizations/Tenancy.antt =====
-- src/modules/organizations/organizations.tenancy.ts, and `createOrganization` and
-- `switchOrganization` of organizations.service.ts. The identifiers that the database draws are
-- arguments; the row that `upsert` returns is read back from the table. The slug is an argument:
-- `slugify` is left out.
pub mod Belonging
use text.Mathlib.Text.{◌==◌ as str_eq}
use production_backend_found.Prelude.{
  ℕ, Bool, true, false, not, ◌&&◌, Option, none, some, String, List, [], ◌∷◌, ◌==◌, leb, ltb,
  is_none, is_some, is_at, any, keep, if◌then◌else◌,
}
use production_backend_found.Errors.{
  Result, ok, err, ◌>>=◌, ◌>>◌, throw_if, or_throw, plain_error, conflict_error, forbidden_error,
  unauthenticated_error, not_found_error,
}
use production_backend_found.Store.{Prisma, update_one}
use production_backend_found.Organizations.Members.{
  Membership, Role, User, Session, Tables, active, is_active, is_live_user, bump_epoch,
}
use production_backend_found.Organizations.Invitations.{
  Organization, Desk, is_membership_of, new_membership,
}

pub data TenancyMode : Type 0 where
  disabled single multi : TenancyMode

abbrev pub is_multi : TenancyMode → Bool
is_multi multi = true
is_multi _ = false

abbrev pub default_organization_slug : String
default_organization_slug = "default"

abbrev pub is_default : Organization → Bool
is_default o = str_eq o.slug default_organization_slug

abbrev pub new_organization : ℕ → String → String → Organization
new_organization id slug name = record {
  id = id;
  slug = slug;
  name = name;
  is_active = true;
  permission_epoch = 0;
  deleted_at = none;
}

abbrev pub is_system_role : String → Role → Bool
is_system_role name r = str_eq r.name name && is_none r.organization_id && is_none r.deleted_at

abbrev pub is_active_membership : ℕ → ℕ → Membership → Bool
is_active_membership organization_id user_id m =
    is_membership_of organization_id user_id m && is_active m.status && is_none m.deleted_at

abbrev pub is_resumable : ℕ → Membership → Bool
is_resumable user_id m = m.user_id == user_id && is_active m.status && is_none m.deleted_at

-- `orderBy: { createdAt: 'asc' }`, the first row.
abbrev pub earliest : List Membership → Option Membership
earliest [] = none
earliest (m ∷ ms) = elim (earliest ms) [
  | none ↦ some m
  | some n ↦ if leb m.created_at n.created_at then some m else some n
]

abbrev pub is_switchable_session : ℕ → ℕ → Session → Bool
is_switchable_session session_id user_id x =
    x.id == session_id && x.user_id == user_id && is_none x.revoked_at && is_none x.deleted_at

module _ (db : Prisma) where
  abbrev pub find_global_role_id : String → Tables db → Result ℕ
  find_global_role_id name s = do
    role ← or_throw (db.find_first (is_system_role name) s.roles) plain_error
    ok role.id

  unfoldable pub join_default_organization : ℕ → ℕ → ℕ → ℕ → Desk db → Result (Desk db × Option ℕ)
  join_default_organization now user_id new_id new_membership_id s = do
    let organizations =
        db.upsert is_default (new_organization new_id default_organization_slug "Default") (λ o. o)
          s.organizations
    organization ← or_throw (db.find_first is_default organizations) plain_error
    role_id ← find_global_role_id "member" s.tables
    let memberships =
        db.upsert (is_membership_of organization.id user_id)
          (new_membership new_membership_id organization.id user_id role_id now)
          (λ m. record m { status = active; deleted_at = none }) s.tables.memberships
    ok (
      record s {
        organizations = organizations;
        tables = record (s.tables) { memberships = memberships };
      },
      some organization.id,
    )

  unfoldable pub resolve_initial_organization_id :
      TenancyMode → ℕ → ℕ → ℕ → ℕ → Desk db → Result (Desk db × Option ℕ)
  resolve_initial_organization_id disabled now user_id new_id new_membership_id s = ok (s, none)
  resolve_initial_organization_id single now user_id new_id new_membership_id s =
      join_default_organization now user_id new_id new_membership_id s
  resolve_initial_organization_id multi now user_id new_id new_membership_id s = ok (
    s,
    elim (earliest (keep (is_resumable user_id) (db.rows s.tables.memberships))) [
      | none ↦ none
      | some m ↦ some m.organization_id
    ],
  )

  unfoldable pub create_organization :
      TenancyMode → ℕ → String → String → ℕ → ℕ → ℕ → Desk db → Result (Desk db)
  create_organization mode now slug name actor_user_id new_id new_membership_id s = do
    throw_if (not (is_multi mode)) conflict_error
    throw_if
        (is_some (db.find_first (λ o. str_eq o.slug slug && is_none o.deleted_at) s.organizations))
        conflict_error
    role_id ← find_global_role_id "owner" s.tables
    users ← update_one db (is_live_user actor_user_id) bump_epoch s.tables.users
    ok (record s {
      organizations = db.create (new_organization new_id slug name) s.organizations;
      tables = record (s.tables) {
        memberships =
            db.create (new_membership new_membership_id new_id actor_user_id role_id now)
              s.tables.memberships;
        users = users;
      };
    })

  unfoldable pub switch_organization : ℕ → ℕ → ℕ → Desk db → Result (Desk db)
  switch_organization user_id session_id organization_id s = do
    membership ←
        or_throw
          (db.find_first
            (λ m.
              is_active_membership organization_id user_id m
              && any (λ o. o.id == organization_id && o.is_active && is_none o.deleted_at)
                  (db.rows s.organizations))
            s.tables.memberships)
          forbidden_error
    let switched =
        db.update_many (is_switchable_session session_id user_id)
          (λ x. record x { active_organization_id = some organization_id }) s.tables.sessions
    throw_if (switched.1 == 0) unauthenticated_error
    organization ←
        or_throw
          (db.find_first (λ o. o.id == organization_id && is_none o.deleted_at) s.organizations)
          plain_error
    ok (record s { tables = record (s.tables) { sessions = switched.0 } })
