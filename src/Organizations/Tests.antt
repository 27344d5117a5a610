-- ===== src/Organizations/Tests.antt =====
-- The organizations module on concrete tables.
use production_backend_found.Prelude.{
  ℕ, ◌≡◌, refl, true, Option, none, some, String, List, [], ◌∷◌, tally, arith,
}
use production_backend_found.Errors.{ok, err, not_found_error, conflict_error}
use production_backend_found.Store.Lists.{list_prisma}
use production_backend_found.Organizations.Members.{
  Membership, Role, User, Tables, active, suspended, change_member_role, remove_member,
  count_active_owners, is_active_owner,
}
use production_backend_found.Organizations.Owners.{IsOwned, calls-IsOwned, calls, changes, removes}
use production_backend_found.Organizations.Invitations.{Invitation, Desk, accept_invitation}
use production_backend_found.Organizations.Invitations.Spending.{
  accept_invitation_once, accept_invitation_disowns,
}
use production_backend_found.Organizations.Tenancy.{
  multi, resolve_initial_organization_id, create_organization, switch_organization,
}

abbrev membership : ℕ → ℕ → ℕ → Membership
membership id user_id role_id = record {
  id = id;
  organization_id = 5;
  user_id = user_id;
  role_id = role_id;
  status = active;
  joined_at = some 10;
  created_at = 10;
  deleted_at = none;
}

abbrev role : ℕ → String → Role
role id name = record { id = id; organization_id = none; name = name; deleted_at = none }

abbrev user : ℕ → String → User
user id email = record {
  id = id;
  email = some email;
  email_verified_at = some 20;
  permission_epoch = 0;
  deleted_at = none;
}

abbrev tables : List Membership → Tables list_prisma
tables memberships = record {
  memberships = memberships;
  roles = role 1 "owner" ∷ role 2 "member" ∷ [];
  users = user 31 "a@b.c" ∷ user 32 "d@e.f" ∷ [];
  sessions =
      record {
        id = 9;
        user_id = 31;
        active_organization_id = none;
        revoked_at = none;
        deleted_at = none;
      }
      ∷ [];
}

abbrev two_owners : Tables list_prisma
two_owners = tables (membership 21 31 1 ∷ membership 22 32 1 ∷ [])

abbrev one_owner : Tables list_prisma
one_owner = tables (membership 21 31 1 ∷ [])

abbrev desk : Tables list_prisma → Desk list_prisma
desk t = record {
  tables = t;
  organizations =
      record {
        id = 5;
        slug = "acme";
        name = "Acme";
        is_active = true;
        permission_epoch = 0;
        deleted_at = none;
      }
      ∷ [];
  invitations =
      record {
        id = 41;
        organization_id = 5;
        email = "a@b.c";
        role_id = 2;
        token_hash = 77;
        expires_at = 500;
        accepted_at = none;
        revoked_at = none;
        deleted_at = none;
      }
      ∷ [];
}

abbrev lower : String → String
lower s = s

two_owners-IsOwned : IsOwned list_prisma 5 two_owners
two_owners-IsOwned = record { owned = omega arith; unique = λ id. ground arith }

refuses_last_owner : remove_member list_prisma 100 5 31 one_owner ≡ err conflict_error
unfolding remove_member count_active_owners
refuses_last_owner = refl

abbrev bumped : List Membership → Tables list_prisma
bumped memberships = record (tables memberships) {
  users = record (user 31 "a@b.c") { permission_epoch = 1 } ∷ user 32 "d@e.f" ∷ [];
}

abbrev removed : Tables list_prisma
removed = bumped (
    record (membership 21 31 1) { deleted_at = some 100; status = suspended }
    ∷ membership 22 32 1
    ∷ [])

removes_owner : remove_member list_prisma 100 5 31 two_owners ≡ ok removed
unfolding remove_member count_active_owners
removes_owner = refl

abbrev demoted : Tables list_prisma
demoted = bumped (membership 21 31 2 ∷ membership 22 32 1 ∷ [])

demotes_owner : change_member_role list_prisma 5 31 2 two_owners ≡ ok demoted
unfolding change_member_role count_active_owners
demotes_owner = refl

calls-IsOwned_example :
    IsOwned list_prisma 5
      (calls list_prisma (changes 5 31 2 ∷ removes 100 5 31 ∷ removes 101 5 32 ∷ []) two_owners)
calls-IsOwned_example =
    calls-IsOwned list_prisma 5 (changes 5 31 2 ∷ removes 100 5 31 ∷ removes 101 5 32 ∷ [])
      two_owners two_owners-IsOwned

abbrev accepted_invitation : Option ℕ → List Invitation
accepted_invitation at =
    record {
      id = 41;
      organization_id = 5;
      email = "a@b.c";
      role_id = 2;
      token_hash = 77;
      expires_at = 500;
      accepted_at = at;
      revoked_at = none;
      deleted_at = none;
    }
    ∷ []

abbrev after_acceptance : Desk list_prisma
after_acceptance =
    record (desk (bumped (record (membership 21 31 2) { joined_at = some 100 } ∷ []))) {
      invitations = accepted_invitation (some 100);
    }

accepts :
    accept_invitation list_prisma lower 100 (77 ∷ []) 31 55 (desk one_owner) ≡ ok after_acceptance
unfolding accept_invitation
accepts = refl

accept_invitation_once_example :
    accept_invitation list_prisma lower 200 (77 ∷ []) 32 56 after_acceptance ≡ err not_found_error
accept_invitation_once_example =
    accept_invitation_once list_prisma lower (77 ∷ []) 100 31 55 200 32 56 (desk one_owner)
      after_acceptance (omega arith) accepts

accept_invitation_disowns_example :
    tally
      (is_active_owner list_prisma after_acceptance.tables.roles 5)
      after_acceptance.tables.memberships
    ≡ 0
accept_invitation_disowns_example =
    accept_invitation_disowns list_prisma lower (77 ∷ []) 100 31 55 (desk one_owner)
      after_acceptance
      (record {
        id = 41;
        organization_id = 5;
        email = "a@b.c";
        role_id = 2;
        token_hash = 77;
        expires_at = 500;
        accepted_at = none;
        revoked_at = none;
        deleted_at = none;
      })
      refl refl refl refl accepts

starts_in :
    resolve_initial_organization_id list_prisma multi 100 31 50 51 (desk one_owner)
    ≡ ok (desk one_owner, some 5)
unfolding resolve_initial_organization_id
starts_in = refl

abbrev after_creation : Desk list_prisma
after_creation =
    record (desk (
      bumped (
        record (membership 51 31 1) { organization_id = 50; joined_at = some 100; created_at = 100 }
        ∷ membership 21 31 1
        ∷ []))) {
          organizations =
              record {
                id = 50;
                slug = "new";
                name = "New";
                is_active = true;
                permission_epoch = 0;
                deleted_at = none;
              }
              ∷ (desk one_owner).organizations;
        }

creates :
    create_organization list_prisma multi 100 "new" "New" 31 50 51 (desk one_owner)
    ≡ ok after_creation
unfolding create_organization
creates = refl

abbrev after_switch : Desk list_prisma
after_switch = desk (record one_owner {
  sessions =
      record {
        id = 9;
        user_id = 31;
        active_organization_id = some 5;
        revoked_at = none;
        deleted_at = none;
      }
      ∷ [];
})

switches : switch_organization list_prisma 31 9 5 (desk one_owner) ≡ ok after_switch
unfolding switch_organization
switches = refl
