-- ===== src/Organizations/Guards.antt =====
-- What the last-owner guards of the two operations establish (src/modules/organizations/organizations.service.ts).
use mathlib.Core.List.{Memᴰ}
use production_backend_found.Prelude.{
  ℕ, ◌≤◌, ◌≡◌, inl, inr, Bool, true, false, not, ◌&&◌, some, ◌==◌, leb, is_none, tally,
  update_where, arith, List, Option-cases, Bool-cases, any_mono, any_of_Memᴰ,
}
use production_backend_found.Prelude.{
  tally-le-update_where, tally-le-update_where_apart, single_apart,
}
use production_backend_found.Errors.{ok}
use production_backend_found.Store.{Prisma}
use production_backend_found.Organizations.Members.{
  Membership, Role, Tables, is_active, is_owner_name, is_active_owner, has_owner_role, is_member,
  is_assignable, count_active_owners, change_member_role, remove_member, mark_removed,
}

module _ (db : Prisma) (s : Tables db) where
  -- Membership identifiers are unique: the primary key of the table.
  abbrev pub HasUniqueIds : Type 0
  HasUniqueIds =
      (id : ℕ) → tally (λ m. m.id == id && is_none m.deleted_at) (db.rows s.memberships) ≤ 1

  abbrev pub owners : ℕ → List Membership → ℕ
  owners organization_id ms = tally (is_active_owner db s.roles organization_id) ms

  -- An active owner would be caught by the guard of both operations.
  active_owner_guarded :
      (organization_id : ℕ) (m : Membership)
      → is_active_owner db s.roles organization_id m ≡ true
      → (is_active m.status && has_owner_role db s.roles m) ≡ true
  active_owner_guarded organization_id m h =
      let role =
        any_mono (λ r. (r.id == m.role_id && is_owner_name r.name) && is_none r.deleted_at)
          (λ r. r.id == m.role_id && is_owner_name r.name) (db.rows s.roles) (λ r. ground arith) in
      ground (arith, role)

  -- A write to a membership that the guard let through leaves an owner.
  pub written_owner :
      (organization_id : ℕ) (target : Membership) (f : Membership → Membership)
      → Memᴰ target (db.rows s.memberships)
      → is_none target.deleted_at ≡ true
      → HasUniqueIds
      → 1 ≤ owners organization_id (db.rows s.memberships)
      → ((is_active target.status && has_owner_role db s.roles target)
          && leb (owners organization_id (db.rows s.memberships)) 1)
        ≡ false
      → 1
        ≤ owners organization_id (
            update_where (λ m. m.id == target.id && is_none m.deleted_at) f (db.rows s.memberships))
  written_owner organization_id target f listed alive unique owned guard =
      let p = λ (m : Membership). m.id == target.id && is_none m.deleted_at in
      let q = is_active_owner db s.roles organization_id in
      let hit : p target ≡ true = ground (arith, alive) in
      elim (Bool-cases (is_active_owner db s.roles organization_id target)) [
        | inl owner ↦ omega (
          arith,
          guard_count owner,
          tally-le-update_where p q f (db.rows s.memberships),
          unique target.id,
        )
        | inr other ↦ omega (
          arith,
          tally-le-update_where_apart p q f (db.rows s.memberships)
              (single_apart p q listed hit other (unique target.id)),
        )
      ]
    where
      guard_count :
          is_active_owner db s.roles organization_id target ≡ true
          → 2 ≤ owners organization_id (db.rows s.memberships)
      guard_count owner = ground (arith, active_owner_guarded organization_id target owner, guard)

  -- The guard of a removal.
  unfoldable pub removal_refused : ℕ → Membership → Bool
  removal_refused organization_id target =
      is_active target.status
      && has_owner_role db s.roles target
      && leb (count_active_owners db organization_id s) 1

  pub remove_member-ok :
      (now organization_id user_id : ℕ) (s' : Tables db)
      → remove_member db now organization_id user_id s ≡ ok s'
      → (target : Membership) × (db.find_first (is_member organization_id user_id) s.memberships
          ≡ some target)
        × (removal_refused organization_id target ≡ false)
        × (db.rows s'.memberships
            ≡ update_where
                (λ m. m.id == target.id && is_none m.deleted_at)
                (mark_removed now)
                (db.rows s.memberships))
        × (s'.roles ≡ s.roles)
  unfolding remove_member removal_refused
  remove_member-ok now organization_id user_id s' h =
      elim (Option-cases (db.find_first (is_member organization_id user_id) s.memberships)) [
        | inl missing ↦ absurd (ground (arith, missing))
        | inr (target, found) ↦ (
          target,
          found,
          ground (arith, found),
          ground (
            arith,
            found,
            db.rows_update_many (λ m. m.id == target.id && is_none m.deleted_at) (mark_removed now)
                s.memberships,
          ),
          ground (arith, found),
        )
      ]

  pub removal_guard :
      (organization_id : ℕ) (target : Membership)
      → removal_refused organization_id target ≡ false
      → ((is_active target.status && has_owner_role db s.roles target)
          && leb (owners organization_id (db.rows s.memberships)) 1)
        ≡ false
  unfolding removal_refused count_active_owners
  removal_guard organization_id target h = rw db.count_rows at h

  unfoldable pub change_refused : ℕ → Role → Membership → Bool
  change_refused organization_id new_role target =
      is_active target.status
      && has_owner_role db s.roles target
      && not (is_owner_name new_role.name)
      && leb (count_active_owners db organization_id s) 1

  pub change_member_role-ok :
      (organization_id user_id role_id : ℕ) (s' : Tables db)
      → change_member_role db organization_id user_id role_id s ≡ ok s'
      → (new_role : Role) × (target : Membership) × (db.find_first
            (is_assignable role_id organization_id)
            s.roles
          ≡ some new_role)
        × (db.find_first (is_member organization_id user_id) s.memberships ≡ some target)
        × (change_refused organization_id new_role target ≡ false)
        × (db.rows s'.memberships
            ≡ update_where
                (λ m. m.id == target.id && is_none m.deleted_at)
                (λ m. record m { role_id = role_id })
                (db.rows s.memberships))
        × (s'.roles ≡ s.roles)
  unfolding change_member_role change_refused
  change_member_role-ok organization_id user_id role_id s' h =
      elim (Option-cases (db.find_first (is_assignable role_id organization_id) s.roles)) [
        | inl missing ↦ absurd (ground (arith, missing))
        | inr (new_role, assignable) ↦
            elim (Option-cases (db.find_first (is_member organization_id user_id) s.memberships)) [
              | inl missing ↦ absurd (ground (arith, assignable, missing))
              | inr (target, found) ↦ (
                new_role,
                target,
                assignable,
                found,
                ground (arith, assignable, found),
                ground (
                  arith,
                  assignable,
                  found,
                  db.rows_update_many (λ m. m.id == target.id && is_none m.deleted_at)
                      (λ m. record m { role_id = role_id }) s.memberships,
                ),
                ground (arith, assignable, found),
              )
            ]
      ]

  pub change_guard :
      (organization_id : ℕ) (new_role : Role) (target : Membership)
      → is_owner_name new_role.name ≡ false
      → change_refused organization_id new_role target ≡ false
      → ((is_active target.status && has_owner_role db s.roles target)
          && leb (owners organization_id (db.rows s.memberships)) 1)
        ≡ false
  unfolding change_refused count_active_owners
  change_guard organization_id new_role target other h =
      ground
        (arith, other, db.count_rows (is_active_owner db s.roles organization_id) s.memberships)

  -- A member who is given a live role named owner counts as an owner if it did before.
  pub promoted_owner :
      (organization_id role_id : ℕ) (new_role : Role)
      → db.find_first (is_assignable role_id organization_id) s.roles ≡ some new_role
      → is_owner_name new_role.name ≡ true
      → (m : Membership) → is_active_owner db s.roles organization_id m ≡ true
      → is_active_owner db s.roles organization_id (record m { role_id = role_id }) ≡ true
  promoted_owner organization_id role_id new_role assignable named m h =
      let (listed, matches) = db.find_first_selects _ s.roles new_role assignable in
      let role =
        any_of_Memᴰ (λ r. (r.id == role_id && is_owner_name r.name) && is_none r.deleted_at) listed
          (ground (arith, matches, named)) in
      ground (arith, role)
