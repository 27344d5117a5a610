-- ===== src/Organizations/Invitations.antt =====
-- `acceptInvitation` and `revokeInvitation` of src/modules/organizations/organizations.service.ts.
-- Token hashes are numbers that are only compared; `lower` is the language's `toLowerCase`.
pub mod Acceptance
pub mod Spending
use text.Mathlib.Text.{◌==◌ as str_eq}
use production_backend_found.Prelude.{
  ℕ, Bool, true, false, not, ◌&&◌, Option, none, some, String, List, ◌==◌, ltb, is_none, is_some,
  any,
}
use production_backend_found.Errors.{
  Result, ok, err, ◌>>=◌, ◌>>◌, throw_if, or_throw, forbidden_error, not_found_error,
}
use production_backend_found.Store.{Prisma, update_one}
use production_backend_found.Organizations.Members.{
  Membership, Role, User, Tables, active, is_live_user, bump_epoch,
}

pub record Organization : Type 0 where
  pub id : ℕ
  pub slug : String
  pub name : String
  pub is_active : Bool
  pub permission_epoch : ℕ
  pub deleted_at : Option ℕ

pub record Invitation : Type 0 where
  pub id : ℕ
  pub organization_id : ℕ
  pub email : String
  pub role_id : ℕ
  pub token_hash : ℕ
  pub expires_at : ℕ
  pub accepted_at : Option ℕ
  pub revoked_at : Option ℕ
  pub deleted_at : Option ℕ

pub record Desk (db : Prisma) : Type 0 where
  pub tables : Tables db
  pub organizations : db.Table Organization
  pub invitations : db.Table Invitation

-- `user?.email && user.emailVerifiedAt && …`: the address that the user may act for.
abbrev pub verified_email : User → Option String
verified_email u = elim u.email_verified_at [ none ↦ none | some at ↦ u.email ]

abbrev pub email_matches : (String → String) → Option String → String → Bool
email_matches lower none invited = false
email_matches lower (some email) invited =
    not (str_eq email "") && str_eq (lower email) (lower invited)

abbrev pub is_membership_of : ℕ → ℕ → Membership → Bool
is_membership_of organization_id user_id m =
    m.organization_id == organization_id && m.user_id == user_id

abbrev pub new_membership : ℕ → ℕ → ℕ → ℕ → ℕ → Membership
new_membership id organization_id user_id role_id now = record {
  id = id;
  organization_id = organization_id;
  user_id = user_id;
  role_id = role_id;
  status = active;
  joined_at = some now;
  created_at = now;
  deleted_at = none;
}

abbrev pub rejoin : ℕ → ℕ → Membership → Membership
rejoin role_id now m = record m {
  role_id = role_id;
  status = active;
  deleted_at = none;
  joined_at = some now;
}

module _ (db : Prisma) where
  -- The `where` of the invitation, its organization included.
  abbrev pub is_redeemable : db.Table Organization → List ℕ → ℕ → Invitation → Bool
  is_redeemable organizations hashes now i =
      any (λ h. h == i.token_hash) hashes
      && is_none i.accepted_at
      && is_none i.revoked_at
      && is_none i.deleted_at
      && ltb now i.expires_at
      && any (λ o. o.id == i.organization_id && o.is_active && is_none o.deleted_at)
          (db.rows organizations)

  unfoldable pub accept_invitation :
      (String → String) → ℕ → List ℕ → ℕ → ℕ → Desk db → Result (Desk db)
  accept_invitation lower now hashes user_id new_id s = do
    invitation ←
        or_throw (db.find_first (is_redeemable s.organizations hashes now) s.invitations)
          not_found_error
    user ← or_throw (db.find_first (is_live_user user_id) s.tables.users) forbidden_error
    throw_if (not (email_matches lower (verified_email user) invitation.email)) forbidden_error
    invitations ←
        update_one db (λ i. i.id == invitation.id && is_none i.deleted_at)
          (λ i. record i { accepted_at = some now }) s.invitations
    users ← update_one db (is_live_user user_id) bump_epoch s.tables.users
    ok (record s {
      tables = record (s.tables) {
        memberships =
            db.upsert (is_membership_of invitation.organization_id user_id)
              (new_membership new_id invitation.organization_id user_id invitation.role_id now)
              (rejoin invitation.role_id now) s.tables.memberships;
        users = users;
      };
      invitations = invitations;
    })

  unfoldable pub revoke_invitation : ℕ → ℕ → ℕ → Desk db → Result (Desk db)
  revoke_invitation now organization_id invitation_id s = do
    let revoked =
        db.update_many
          (λ i.
            i.id == invitation_id
            && i.organization_id == organization_id
            && is_none i.accepted_at
            && is_none i.revoked_at
            && is_none i.deleted_at)
          (λ i. record i { revoked_at = some now }) s.invitations
    throw_if (revoked.1 == 0) not_found_error
    ok (record s { invitations = revoked.0 })
