-- ===== src/Organizations/Invitations/Spending.antt =====
-- What an accepted invitation leaves behind (src/modules/organizations/organizations.service.ts).
use production_backend_found.Prelude.{
  ℕ, ◌≤◌, ◌≡◌, inl, inr, Bool, true, false, not, ◌&&◌, some, String, List, ◌==◌, is_none, any,
  tally, update_where, arith, Option-cases, any_of_Memᴰ, any-update_where-sole,
  tally-update_where-zero,
}
use production_backend_found.Errors.{ok, err, not_found_error}
use production_backend_found.Store.{Prisma}
use production_backend_found.Organizations.Members.{is_active_owner, is_owner_name}
use production_backend_found.Organizations.Invitations.{
  Invitation, Desk, is_membership_of, rejoin, is_redeemable, accept_invitation,
}
use production_backend_found.Organizations.Invitations.Acceptance.{accept_invitation-Accepts}

module _ (db : Prisma) (lower : String → String) (hashes : List ℕ) where
  abbrev pub carries : Invitation → Bool
  carries i = any (λ h. h == i.token_hash) hashes

  accept_invitation-missing :
      (now user_id new_id : ℕ) (s : Desk db)
      → any (is_redeemable db s.organizations hashes now) (db.rows s.invitations) ≡ false
      → accept_invitation db lower now hashes user_id new_id s ≡ err not_found_error
  unfolding accept_invitation
  accept_invitation-missing now user_id new_id s h =
      elim (Option-cases
        (db.find_first (is_redeemable db s.organizations hashes now) s.invitations)) [
          | inl missing ↦ ground (arith, missing)
          | inr (i, found) ↦
              let (listed, selected) = db.find_first_selects _ s.invitations i found in
              absurd (
                ground (
                  arith,
                  h,
                  any_of_Memᴰ (is_redeemable db s.organizations hashes now) listed selected,
                ))
        ]

  -- An invitation is accepted once. If one invitation at most carries the token, then after an
  -- acceptance that succeeds, every acceptance with the token, by whatever user and at whatever time,
  -- finds no invitation.
  pub accept_invitation_once :
      (now user_id new_id later other_id other_new_id : ℕ) (s s' : Desk db)
      → tally carries (db.rows s.invitations) ≤ 1
      → accept_invitation db lower now hashes user_id new_id s ≡ ok s'
      → accept_invitation db lower later hashes other_id other_new_id s' ≡ err not_found_error
  accept_invitation_once now user_id new_id later other_id other_new_id s s' one h =
      let a = accept_invitation-Accepts db lower now hashes user_id new_id s s' h in
      let (listed, matches) = db.find_first_selects _ s.invitations a.invitation a.offered in
      accept_invitation-missing later other_id other_new_id s' (
        rw a.spent (
          any-update_where-sole (λ i. i.id == a.invitation.id && is_none i.deleted_at)
            (is_redeemable db s'.organizations hashes later) carries
            (λ i. record i { accepted_at = some now }) (λ i e. ground (arith, e))
            (λ i. ground arith) listed (ground (arith, matches)) (ground (arith, matches)) one))

  -- Acceptance has no guard for the last owner: where the user is the only active owner of the
  -- organization, and the invitation carries a role that is no live owner role, an acceptance that
  -- succeeds leaves the organization with no active owner.
  pub accept_invitation_disowns :
      (now user_id new_id : ℕ) (s s' : Desk db) (i : Invitation)
      → db.find_first (is_redeemable db s.organizations hashes now) s.invitations ≡ some i
      → any (is_membership_of i.organization_id user_id) (db.rows s.tables.memberships) ≡ true
      → any
          (λ m.
            is_active_owner db s.tables.roles i.organization_id m
            && not (is_membership_of i.organization_id user_id m))
          (db.rows s.tables.memberships)
        ≡ false
      → any
          (λ r. (r.id == i.role_id && is_owner_name r.name) && is_none r.deleted_at)
          (db.rows s.tables.roles)
        ≡ false
      → accept_invitation db lower now hashes user_id new_id s ≡ ok s'
      → tally (is_active_owner db s'.tables.roles i.organization_id) (db.rows s'.tables.memberships)
        ≡ 0
  accept_invitation_disowns now user_id new_id s s' i found belongs sole demoted h =
      let a = accept_invitation-Accepts db lower now hashes user_id new_id s s' h in
      let same : a.invitation ≡ i = ground (arith, a.offered, found) in
      let joined : db.rows s'.tables.memberships
          ≡ update_where (is_membership_of i.organization_id user_id) (rejoin i.role_id now)
              (db.rows s.tables.memberships) =
        ground (arith, a.joined, same, belongs) in
      rw (joined, a.same_roles)
        (tally-update_where-zero (is_membership_of i.organization_id user_id)
          (is_active_owner db s.tables.roles i.organization_id) (rejoin i.role_id now)
          (db.rows s.tables.memberships) sole (λ m _. ground (arith, demoted)))
