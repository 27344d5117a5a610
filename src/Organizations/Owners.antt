-- ===== src/Organizations/Owners.antt =====
-- An organization keeps an active owner (src/modules/organizations/organizations.service.ts).
use mathlib.Core.List.{Memᴰ}
use production_backend_found.Prelude.{
  ℕ, ◌≤◌, ◌≡◌, refl, ap, inl, inr, true, false, ◌&&◌, none, some, ◌==◌, is_none, tally,
  update_where, arith, List, [], ◌∷◌, Bool-cases, tally-update_where-le, ==_iff,
}
use production_backend_found.Prelude.{
  tally-le-update_where_kept, tally-le-update_where_apart, single_apart,
}
use production_backend_found.Errors.{Result, ok, err, Result-cases}
use production_backend_found.Store.{Prisma}
use production_backend_found.Organizations.Members.{
  Membership, Tables, is_owner_name, is_active_owner, is_member, change_member_role, remove_member,
  mark_removed,
}
use production_backend_found.Organizations.Guards.{
  HasUniqueIds, removal_guard, remove_member-ok, change_guard, change_member_role-ok,
  promoted_owner, written_owner,
}

module _ (db : Prisma) where
  -- Every organization has an active owner, and membership identifiers are unique.
  pub record IsOwned (organization_id : ℕ) (s : Tables db) : Type 0 where
    pub owned : 1 ≤ tally (is_active_owner db s.roles organization_id) (db.rows s.memberships)
    pub unique : HasUniqueIds db s

  -- A write to one membership of an organization that leaves an owner there leaves one everywhere,
  -- and keeps identifiers unique.
  write-IsOwned :
      (o organization_id user_id : ℕ) (s s' : Tables db) (target : Membership)
      (f : Membership → Membership)
      → db.find_first (is_member organization_id user_id) s.memberships ≡ some target
      → ((m : Membership) → ((f m).id ≡ m.id) × ((f m).deleted_at ≡ none → m.deleted_at ≡ none))
      → db.rows s'.memberships
        ≡ update_where (λ m. m.id == target.id && is_none m.deleted_at) f (db.rows s.memberships)
      → s'.roles ≡ s.roles
      → (o ≡ organization_id
          → is_none target.deleted_at ≡ true
          → Memᴰ target (db.rows s.memberships)
          → 1
            ≤ tally (is_active_owner db s.roles organization_id) (
                update_where
                  (λ m. m.id == target.id && is_none m.deleted_at)
                  f
                  (db.rows s.memberships)))
      → IsOwned o s
      → IsOwned o s'
  write-IsOwned o organization_id user_id s s' target f found keeps written same here v =
      let (listed, matches) = db.find_first_selects _ s.memberships target found in
      let p = λ (m : Membership). m.id == target.id && is_none m.deleted_at in
      let alive : is_none target.deleted_at ≡ true = ground (arith, matches) in
      let hit : p target ≡ true = ground (arith, alive) in
      let owned' : 1
          ≤ tally (is_active_owner db s.roles o) (update_where p f (db.rows s.memberships)) =
        elim (Bool-cases (o == organization_id)) [
          | inl at ↦ let e = (==_iff o organization_id).0 at in rw e (here e alive listed)
          | inr elsewhere ↦
              let other : is_active_owner db s.roles o target ≡ false =
                ground (arith, matches, elsewhere) in
              omega (
                arith,
                v.owned,
                tally-le-update_where_apart p (is_active_owner db s.roles o) f
                    (db.rows s.memberships)
                    (single_apart p (is_active_owner db s.roles o) listed hit other
                      (v.unique target.id)),
              )
        ] in
      record {
        owned = rw (same, written) owned';
        unique = λ id. rw written (
            omega (
              arith,
              v.unique id,
              tally-update_where-le (λ m. m.id == id && is_none m.deleted_at) p f
                  (db.rows s.memberships) (λ m. ground (arith, keeps m)),
            ));
      }

  -- A removal that succeeds keeps an active owner in every organization that has one.
  pub remove_member-IsOwned :
      (o now organization_id user_id : ℕ) (s s' : Tables db)
      → remove_member db now organization_id user_id s ≡ ok s'
      → IsOwned o s
      → IsOwned o s'
  remove_member-IsOwned o now organization_id user_id s s' h v =
      let (target, found, guard, written, same) =
        remove_member-ok db s now organization_id user_id s' h in
      write-IsOwned o organization_id user_id s s' target (mark_removed now) found
        (λ m. (refl, λ e. absurd (cc))) written same
        (λ at alive listed.
          written_owner db s organization_id target (mark_removed now) listed alive v.unique
            (rw (← at) v.owned) (removal_guard db s organization_id target guard))
        v

  -- A role change that succeeds keeps an active owner in every organization that has one.
  pub change_member_role-IsOwned :
      (o organization_id user_id role_id : ℕ) (s s' : Tables db)
      → change_member_role db organization_id user_id role_id s ≡ ok s'
      → IsOwned o s
      → IsOwned o s'
  change_member_role-IsOwned o organization_id user_id role_id s s' h v =
      let (new_role, target, assignable, found, guard, written, same) =
        change_member_role-ok db s organization_id user_id role_id s' h in
      write-IsOwned o organization_id user_id s s' target (λ m. record m { role_id = role_id })
        found (λ m. (refl, λ e. e)) written same
        (λ at alive listed. elim (Bool-cases (is_owner_name new_role.name)) [
          | inl named ↦ omega (
            arith,
            v.owned,
            ap (λ x. tally (is_active_owner db s.roles x) (db.rows s.memberships)) at,
            tally-le-update_where_kept (λ m. m.id == target.id && is_none m.deleted_at)
                (is_active_owner db s.roles organization_id) (λ m. record m { role_id = role_id })
                (db.rows s.memberships)
                (λ m _ owner.
                  promoted_owner db s organization_id role_id new_role assignable named m owner),
          )
          | inr other ↦
              written_owner db s organization_id target (λ m. record m { role_id = role_id }) listed
                alive v.unique (rw (← at) v.owned)
                (change_guard db s organization_id new_role target other guard)
        ])
        v

  -- The owner-changing calls of an administrator.
  pub data Call : Type 0 where
    changes : ℕ → ℕ → ℕ → Call
    removes : ℕ → ℕ → ℕ → Call

  abbrev or_before : Tables db → Result (Tables db) → Tables db
  or_before s (ok s') = s'
  or_before s (err e) = s

  abbrev pub call : Call → Tables db → Tables db
  call (changes organization_id user_id role_id) s =
      or_before s (change_member_role db organization_id user_id role_id s)
  call (removes now organization_id user_id) s =
      or_before s (remove_member db now organization_id user_id s)

  abbrev pub calls : List Call → Tables db → Tables db
  calls [] s = s
  calls (c ∷ rest) s = calls rest (call c s)

  call-IsOwned : (o : ℕ) (c : Call) (s : Tables db) → IsOwned o s → IsOwned o (call c s)
  call-IsOwned o (changes organization_id user_id role_id) s v =
      elim (Result-cases (change_member_role db organization_id user_id role_id s)) [
        | inl (s', e) ↦ rw e (change_member_role-IsOwned o organization_id user_id role_id s s' e v)
        | inr (x, e) ↦ rw e v
      ]
  call-IsOwned o (removes now organization_id user_id) s v =
      elim (Result-cases (remove_member db now organization_id user_id s)) [
        | inl (s', e) ↦ rw e (remove_member-IsOwned o now organization_id user_id s s' e v)
        | inr (x, e) ↦ rw e v
      ]

  -- No sequence of role changes and removals, in whatever organizations and whether they succeed or
  -- are refused, leaves an organization without an active owner that had one.
  pub calls-IsOwned :
      (o : ℕ) (history : List Call) (s : Tables db) → IsOwned o s → IsOwned o (calls history s)
  calls-IsOwned o [] s v = v
  calls-IsOwned o (c ∷ rest) s v = calls-IsOwned o rest (call c s) (call-IsOwned o c s v)
