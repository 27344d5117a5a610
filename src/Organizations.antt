-- ===== src/Organizations.antt =====
-- Memberships: src/modules/organizations/organizations.service.ts. The audit row that each operation
-- writes and the notice to live chat sockets are left out; an error rolls the transaction back. Each
-- transaction is one step: `changeMemberRole` and `removeMember` hold the advisory lock of
-- `lockOrganizationMemberships`, and the other operations are modelled with no other in between.
pub mod Members
pub mod Guards
pub mod Owners
pub mod Invitations
pub mod Tenancy
mod Tests
