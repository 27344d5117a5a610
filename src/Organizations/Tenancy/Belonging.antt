-- ===== src/Organizations/Tenancy/Belonging.antt =====
-- A session's organization is one that its user belongs to.
use production_backend_found.Prelude.{
  ℕ, ◌≤◌, ◌≡◌, inl, inr, Bool, true, ◌&&◌, none, some, String, List, [], ◌∷◌, ◌==◌, is_none, any,
  keep, tally, update_where, arith, Option-cases, Bool-cases, any_of_Memᴰ, any_mono,
}
use production_backend_found.Errors.{ok}
use production_backend_found.Store.{Prisma}
use production_backend_found.Organizations.Members.{
  Membership, active, is_active_owner, is_owner_name,
}
use production_backend_found.Organizations.Invitations.{
  Organization, Desk, is_membership_of, new_membership,
}
use production_backend_found.Organizations.Tenancy.{
  TenancyMode, disabled, single, multi, is_active_membership, is_resumable, earliest,
  resolve_initial_organization_id, join_default_organization, is_default, new_organization,
  default_organization_slug, is_system_role, create_organization, switch_organization,
  is_switchable_session,
}

-- A written row is found among the rows written to.
module _ {ℓ} {A : Type ℓ} (p q : A → Bool) (f : A → A) where
  any-update_where :
      (xs : List A)
      → any p xs ≡ true
      → ((x : A) → p x ≡ true → q (f x) ≡ true)
      → any q (update_where p f xs) ≡ true
  any-update_where [] h k = ground arith
  any-update_where (x ∷ xs) h k = ground (arith, k x, any-update_where xs)

earliest-any :
    (p : Membership → Bool) (ms : List Membership) (m : Membership)
    → earliest (keep p ms) ≡ some m
    → any (λ n. p n && n.organization_id == m.organization_id) ms ≡ true
earliest-any p [] m h = ground arith
earliest-any p (n ∷ ms) m h = elim (Bool-cases (p n)) [
  | inr miss ↦ ground (arith, miss, earliest-any p ms m)
  | inl hit ↦ elim (Option-cases (earliest (keep p ms))) [
    | inl nothing ↦ ground (arith, hit, nothing)
    | inr (other, later) ↦
        ground (arith, hit, later, earliest-any p ms other later, earliest-any p ms m)
  ]
]

module _ (db : Prisma) where
  any-upsert :
      {R : Type 0} (p q : R → Bool) (r : R) (f : R → R) (t : db.Table R)
      → q r ≡ true
      → ((x : R) → p x ≡ true → q (f x) ≡ true)
      → any q (db.rows (db.upsert p r f t)) ≡ true
  any-upsert p q r f t h k = elim (Bool-cases (any p (db.rows t))) [
    | inl present ↦
        ground
          (arith, present, db.rows_upsert p r f t, any-update_where p q f (db.rows t) present k)
    | inr missing ↦ ground (arith, missing, h, db.rows_upsert p r f t)
  ]

  abbrev organizations : Desk db → ℕ → db.Table Organization
  organizations s new_id =
      db.upsert is_default (new_organization new_id default_organization_slug "Default") (λ o. o)
        s.organizations

  -- Whatever the tenancy mode, the organization in which a session starts is one in which the user
  -- has an active membership when the call returns.
  pub resolve_initial_organization_id-active :
      (mode : TenancyMode) (now user_id new_id new_membership_id o : ℕ) (s s' : Desk db)
      → resolve_initial_organization_id db mode now user_id new_id new_membership_id s
        ≡ ok (s', some o)
      → any (is_active_membership o user_id) (db.rows s'.tables.memberships) ≡ true
  unfolding resolve_initial_organization_id join_default_organization
  resolve_initial_organization_id-active disabled now user_id new_id new_membership_id o s s' h =
      absurd (ground arith)
  resolve_initial_organization_id-active single now user_id new_id new_membership_id o s s' h =
      elim (Option-cases (db.find_first (is_system_role "member") s.tables.roles)) [
        | inl missing ↦ absurd (ground (arith, missing))
        | inr (role, found) ↦
            elim (Option-cases (db.find_first is_default (organizations s new_id))) [
              | inl absent ↦ absurd (ground (arith, found, absent))
              | inr (organization, listed) ↦ ground (
                arith,
                found,
                listed,
                any-upsert (is_membership_of organization.id user_id)
                    (is_active_membership organization.id user_id)
                    (new_membership new_membership_id organization.id user_id role.id now)
                    (λ m. record m { status = active; deleted_at = none }) s.tables.memberships
                    (ground arith) (λ m e. ground (arith, e)),
              )
            ]
      ]
  resolve_initial_organization_id-active multi now user_id new_id new_membership_id o s s' h =
      elim (Option-cases (earliest (keep (is_resumable user_id) (db.rows s.tables.memberships)))) [
        | inl nothing ↦ absurd (ground (arith, nothing))
        | inr (m, first) ↦
            any_mono (λ n. is_resumable user_id n && n.organization_id == m.organization_id)
              (is_active_membership o user_id) (db.rows s'.tables.memberships)
              (λ n. ground (arith, first, h))
              (ground (
                arith,
                first,
                h,
                earliest-any (is_resumable user_id) (db.rows s.tables.memberships) m first,
              ))
      ]

  -- The creator of an organization is an active owner of it.
  pub create_organization-owner :
      (mode : TenancyMode) (now actor_user_id new_id new_membership_id : ℕ) (slug name : String)
      (s s' : Desk db)
      → create_organization db mode now slug name actor_user_id new_id new_membership_id s ≡ ok s'
      → any
          (λ m. is_active_owner db s'.tables.roles new_id m && m.user_id == actor_user_id)
          (db.rows s'.tables.memberships)
        ≡ true
  unfolding create_organization
  create_organization-owner mode now actor_user_id new_id new_membership_id slug name s s' h =
      elim (Option-cases (db.find_first (is_system_role "owner") s.tables.roles)) [
        | inl missing ↦ absurd (ground (arith, missing))
        | inr (role, found) ↦
            let (listed, matches) = db.find_first_selects _ s.tables.roles role found in
            let owner =
              any_of_Memᴰ (λ r. (r.id == role.id && is_owner_name r.name) && is_none r.deleted_at)
                listed (ground (arith, matches)) in
            ground (
              arith,
              found,
              owner,
              db.rows_create (new_membership new_membership_id new_id actor_user_id role.id now)
                  s.tables.memberships,
            )
      ]

  -- A switch that succeeds writes the organization to the sessions with the identifier that are the
  -- user's and neither revoked nor deleted, of which there is one, and to no other; the user is an
  -- active member of the organization, which is active.
  pub switch_organization-ok :
      (user_id session_id organization_id : ℕ) (s s' : Desk db)
      → switch_organization db user_id session_id organization_id s ≡ ok s'
      → (db.rows s'.tables.sessions
          ≡ update_where
              (is_switchable_session session_id user_id)
              (λ x. record x { active_organization_id = some organization_id })
              (db.rows s.tables.sessions))
        × (1 ≤ tally (is_switchable_session session_id user_id) (db.rows s.tables.sessions))
        × (any (is_active_membership organization_id user_id) (db.rows s'.tables.memberships)
            ≡ true)
        × (any
              (λ o. o.id == organization_id && o.is_active && is_none o.deleted_at)
              (db.rows s'.organizations)
            ≡ true)
  unfolding switch_organization
  switch_organization-ok user_id session_id organization_id s s' h =
      elim (Option-cases (
        db.find_first
          (λ m.
            is_active_membership organization_id user_id m
            && any (λ o. o.id == organization_id && o.is_active && is_none o.deleted_at)
                (db.rows s.organizations))
          s.tables.memberships)) [
            | inl missing ↦ absurd (ground (arith, missing))
            | inr (m, found) ↦
                let (listed, matches) = db.find_first_selects _ s.tables.memberships m found in
                (
                  ground (
                    arith,
                    found,
                    db.rows_update_many (is_switchable_session session_id user_id)
                        (λ x. record x { active_organization_id = some organization_id })
                        s.tables.sessions,
                  ),
                  ground (
                    arith,
                    found,
                    db.count_update_many (is_switchable_session session_id user_id)
                        (λ x. record x { active_organization_id = some organization_id })
                        s.tables.sessions,
                  ),
                  ground (
                    arith,
                    found,
                    any_of_Memᴰ (is_active_membership organization_id user_id) listed
                        (ground (arith, matches)),
                  ),
                  ground (arith, found, matches),
                )
          ]
