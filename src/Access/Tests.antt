-- ===== src/Access/Tests.antt =====
-- Roles and cached decisions on concrete tables.
use production_backend_found.Prelude.{
  ℕ, ◌≡◌, refl, Bool, true, false, none, some, List, [], ◌∷◌, all,
}
use production_backend_found.Store.Lists.{list_prisma}
use production_backend_found.Access.{
  AccessTables, CacheKey, global_scope, permission_guard, decide, has_global_grant,
  has_organization_grant, assign_role,
}
use production_backend_found.Access.Coherence.{is_right}
use production_backend_found.Access.Guard.{
  RoleCall, assigns, revokes, perform_role, run_roles, permission_guard-decide, run_roles-Coherent,
}

abbrev office : AccessTables list_prisma
office = record {
  users = record { id = 3; permission_epoch = 0; deleted_at = none } ∷ [];
  user_roles = [];
  roles =
      record { id = 1; organization_id = none; deleted_at = none }
      ∷ record { id = 2; organization_id = some 9; deleted_at = none }
      ∷ [];
  role_permissions =
      record { role_id = 1; code = 50; deleted_at = none }
      ∷ record { role_id = 2; code = 50; deleted_at = none }
      ∷ [];
  memberships =
      record { user_id = 3; organization_id = 9; role_id = 2; is_active = true; deleted_at = none }
      ∷ [];
}

abbrev key : ℕ → CacheKey
key epoch = record {
  scope = global_scope;
  user_id = 3;
  user_epoch = epoch;
  organization_id = some 9;
  organization_epoch = 0;
  code = 50;
}

-- The membership's role is no platform grant.
membership_refused : (permission_guard list_prisma (key 0) office []).0 ≡ false
unfolding permission_guard decide has_global_grant has_organization_grant
membership_refused = refl

abbrev refused : List (CacheKey × Bool)
refused = (key 0, false) ∷ []

-- After the assignment the old entry is not read.
assigned_allowed :
    (permission_guard list_prisma
      (key 1)
      (run_roles list_prisma (assigns 3 1 ∷ []) office)
      refused).0
    ≡ true
unfolding permission_guard decide has_global_grant has_organization_grant run_roles perform_role
    assign_role
assigned_allowed = refl

permission_guard-decide_example :
    ((permission_guard list_prisma (key 0) office refused).0 ≡ decide list_prisma (key 0) office)
    × (all (is_right list_prisma office) (permission_guard list_prisma (key 0) office refused).1
        ≡ true)
unfolding decide has_global_grant has_organization_grant
permission_guard-decide_example =
    permission_guard-decide list_prisma (key 0) office refused refl refl refl

abbrev changes : List RoleCall
changes = assigns 3 1 ∷ assigns 3 2 ∷ revokes 20 3 1 ∷ []

run_roles-Coherent_example :
    all (is_right list_prisma (run_roles list_prisma changes office)) refused ≡ true
unfolding decide has_global_grant has_organization_grant
run_roles-Coherent_example = run_roles-Coherent list_prisma changes office refused refl
