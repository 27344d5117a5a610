-- ===== src/Organizations/Invitations/Acceptance.antt =====
-- What accepting an invitation proves and does (src/modules/organizations/organizations.service.ts).
use production_backend_found.Prelude.{
  ℕ, ◌≡◌, inl, inr, true, ◌&&◌, some, String, List, ◌∷◌, ◌==◌, is_none, any, update_where, arith,
  Option-cases, if◌then◌else◌,
}
use production_backend_found.Errors.{ok}
use production_backend_found.Store.{Prisma}
use production_backend_found.Organizations.Members.{User, is_live_user}
use production_backend_found.Organizations.Invitations.{
  Invitation, Desk, verified_email, email_matches, is_membership_of, new_membership, rejoin,
  is_redeemable, accept_invitation,
}

module _ (db : Prisma) (lower : String → String) (now : ℕ) (hashes : List ℕ) (user_id new_id : ℕ)
    (s : Desk db) where
  -- What a successful acceptance rests on, and what it leaves.
  pub record Accepts (s' : Desk db) : Type 0 where
    pub invitation : Invitation
    pub user : User
    pub offered :
        db.find_first (is_redeemable db s.organizations hashes now) s.invitations ≡ some invitation
    pub known : db.find_first (is_live_user user_id) s.tables.users ≡ some user
    pub addressed : email_matches lower (verified_email user) invitation.email ≡ true
    pub joined : db.rows s'.tables.memberships ≡ (
        if any (is_membership_of invitation.organization_id user_id) (db.rows s.tables.memberships)
        then update_where
            (is_membership_of invitation.organization_id user_id)
            (rejoin invitation.role_id now)
            (db.rows s.tables.memberships)
        else new_membership new_id invitation.organization_id user_id invitation.role_id now
          ∷ db.rows s.tables.memberships)
    pub spent :
        db.rows s'.invitations
        ≡ update_where
            (λ i. i.id == invitation.id && is_none i.deleted_at)
            (λ i. record i { accepted_at = some now })
            (db.rows s.invitations)
    pub same_organizations : s'.organizations ≡ s.organizations
    pub same_roles : s'.tables.roles ≡ s.tables.roles

  -- An acceptance that succeeds had a redeemable invitation and a live user whose verified address
  -- is the invited one; it makes the user an active member with the invited role and spends the
  -- invitation.
  pub accept_invitation-Accepts :
      (s' : Desk db) → accept_invitation db lower now hashes user_id new_id s ≡ ok s' → Accepts s'
  unfolding accept_invitation
  accept_invitation-Accepts s' h =
      elim (Option-cases
        (db.find_first (is_redeemable db s.organizations hashes now) s.invitations)) [
          | inl missing ↦ absurd (ground (arith, missing))
          | inr (invitation, offered) ↦
              elim (Option-cases (db.find_first (is_live_user user_id) s.tables.users)) [
                | inl missing ↦ absurd (ground (arith, offered, missing))
                | inr (user, known) ↦ record {
                  invitation = invitation;
                  user = user;
                  offered = offered;
                  known = known;
                  addressed = ground (arith, offered, known);
                  joined = ground (
                    arith,
                    offered,
                    known,
                    db.rows_upsert (is_membership_of invitation.organization_id user_id)
                        (new_membership new_id invitation.organization_id user_id invitation.role_id
                          now)
                        (rejoin invitation.role_id now) s.tables.memberships,
                  );
                  spent = ground (
                    arith,
                    offered,
                    known,
                    db.rows_update_many (λ i. i.id == invitation.id && is_none i.deleted_at)
                        (λ i. record i { accepted_at = some now }) s.invitations,
                  );
                  same_organizations = ground (arith, offered, known);
                  same_roles = ground (arith, offered, known);
                }
              ]
        ]
