-- ===== src/Access/Guard.antt =====
-- The answer of the guard, from its cache or not, and calls that change roles.
use production_backend_found.Prelude.{
  ℕ, ◌≡◌, refl, sym, subst, Bool, true, false, ◌&&◌, some, List, [], ◌∷◌, arith, all, is_none,
  Bool-cases, Option-cases, inl, inr,
}
use production_backend_found.Errors.{ok, err, Result-cases}
use production_backend_found.Store.{Prisma}
use production_backend_found.Access.{
  AccessTables, Scope, global_scope, organization_scope, context_scope, CacheKey, same_scope,
  same_key, cached, has_organization_grant, decide, permission_guard, assign_role, revoke_role,
  is_organization_scope,
}
use production_backend_found.Access.Coherence.{
  is_current, is_known, is_right, assign_role-Coherent, revoke_role-Coherent,
}

same_scope_sound : (a b : Scope) → same_scope a b ≡ true → a ≡ b
same_scope_sound global_scope global_scope h = refl
same_scope_sound global_scope organization_scope h = absurd (ground (arith, h))
same_scope_sound global_scope context_scope h = absurd (ground (arith, h))
same_scope_sound organization_scope global_scope h = absurd (ground (arith, h))
same_scope_sound organization_scope organization_scope h = refl
same_scope_sound organization_scope context_scope h = absurd (ground (arith, h))
same_scope_sound context_scope global_scope h = absurd (ground (arith, h))
same_scope_sound context_scope organization_scope h = absurd (ground (arith, h))
same_scope_sound context_scope context_scope h = refl

same_key_sound : (a b : CacheKey) → same_key a b ≡ true → a ≡ b
same_key_sound a b h = ground (arith, h, same_scope_sound a.scope b.scope (ground (arith, h)))

module _ (db : Prisma) where
  cached-decide :
      (k : CacheKey) (s : AccessTables db) (cache : List (CacheKey × Bool)) (allowed : Bool)
      → all (is_right db s) cache ≡ true
      → is_current k (db.rows s.users) ≡ true
      → cached k cache ≡ some allowed
      → allowed ≡ decide db k s
  cached-decide k s [] allowed c now h = absurd (ground (arith, h))
  cached-decide k s ((x, b) ∷ cache) allowed c now h = elim (Bool-cases (same_key x k)) [
    | inl hit ↦
        let e : x ≡ k = same_key_sound x k hit in
        let first : is_right db s (x, b) ≡ true = ground (arith, c) in
        let first' : is_right db s (k, b) ≡ true =
          subst (λ y. is_right db s (y, b) ≡ true) e first in
        let same : b ≡ allowed = ground (arith, h, hit) in ground (arith, same, first', now)
    | inr miss ↦ cached-decide k s cache allowed (ground (arith, c)) now (ground (arith, h, miss))
  ]

  organization_scope-decide :
      (k : CacheKey) (s : AccessTables db)
      → is_organization_scope k.scope ≡ true
      → is_none k.organization_id ≡ true
      → decide db k s ≡ false
  unfolding decide has_organization_grant
  organization_scope-decide k s scoped absent = elim (Option-cases k.organization_id) [
    | inl none_active ↦ rw (scoped, none_active, decide, has_organization_grant) (ground arith)
    | inr (o, active) ↦ absurd (ground (arith, absent, active))
  ]

  -- The guard answers what the database decides: if every cached entry at the current epoch of its
  -- user is what the database decides, and the request carries its user's current epoch, which no
  -- row of the user falls short of, then the answer is the decision from the roles as they are now,
  -- cached or not, and the entries are still right with the one that the guard may have added.
  pub permission_guard-decide :
      (k : CacheKey) (s : AccessTables db) (cache : List (CacheKey × Bool))
      → all (is_right db s) cache ≡ true
      → is_current k (db.rows s.users) ≡ true
      → is_known k (db.rows s.users) ≡ true
      → ((permission_guard db k s cache).0 ≡ decide db k s)
        × (all (is_right db s) (permission_guard db k s cache).1 ≡ true)
  unfolding permission_guard
  permission_guard-decide k s cache c now known =
      elim (Bool-cases (is_organization_scope k.scope && is_none k.organization_id)) [
        | inl refused ↦
            let no =
              organization_scope-decide k s (ground (arith, refused)) (ground (arith, refused)) in
            rw (refused, permission_guard) (sym no, c)
        | inr open_scope ↦ elim (Option-cases (cached k cache)) [
          | inr (allowed, hit) ↦
              rw (open_scope, hit, permission_guard) (cached-decide k s cache allowed c now hit, c)
          | inl miss ↦ rw (open_scope, miss, permission_guard) (refl, added (decide db k s) refl)
        ]
      ]
    where
      own : (b : Bool) → decide db k s ≡ b → is_right db s (k, decide db k s) ≡ true
      own true e = rw e (ground (arith, known, e))
      own false e = rw e (ground (arith, known, e))

      both : (x y : Bool) → x ≡ true → y ≡ true → (x && y) ≡ true
      both x y h w = ground (arith, h, w)

      added :
          (b : Bool) → decide db k s ≡ b → all (is_right db s) ((k, decide db k s) ∷ cache) ≡ true
      added b e = both (is_right db s (k, decide db k s)) (all (is_right db s) cache) (own b e) c

pub data RoleCall : Type 0 where
  assigns : ℕ → ℕ → RoleCall
  revokes : ℕ → ℕ → ℕ → RoleCall

module _ (db : Prisma) where
  -- A call that throws leaves the tables as they were.
  unfoldable pub perform_role : RoleCall → AccessTables db → AccessTables db
  perform_role (assigns user_id role_id) s = elim (assign_role db user_id role_id s) [
    | ok s' ↦ s'
    | err e ↦ s
  ]
  perform_role (revokes now user_id role_id) s = elim (revoke_role db now user_id role_id s) [
    | ok r ↦ r.1
    | err e ↦ s
  ]

  unfoldable pub run_roles : List RoleCall → AccessTables db → AccessTables db
  run_roles [] s = s
  run_roles (c ∷ cs) s = run_roles cs (perform_role c s)

  -- Role changes leave no stale decision: if every cached entry at the current epoch of its user is
  -- what the database decides, and none is from a later epoch, then so after any list of role
  -- assignments and revocations of any users, the refused ones included.
  pub run_roles-Coherent :
      (cs : List RoleCall) (s : AccessTables db) (cache : List (CacheKey × Bool))
      → all (is_right db s) cache ≡ true
      → all (is_right db (run_roles cs s)) cache ≡ true
  unfolding run_roles perform_role
  run_roles-Coherent [] s cache h = h
  run_roles-Coherent (assigns user_id role_id ∷ cs) s cache h =
      elim (Result-cases (assign_role db user_id role_id s)) [
        | inr (e, refused) ↦ rw (refused, run_roles, perform_role) (run_roles-Coherent cs s cache h)
        | inl (s', done) ↦
            rw (done, run_roles, perform_role)
              (run_roles-Coherent cs s' cache
                (assign_role-Coherent db user_id role_id s s' cache done h))
      ]
  run_roles-Coherent (revokes now user_id role_id ∷ cs) s cache h =
      elim (Result-cases (revoke_role db now user_id role_id s)) [
        | inr (e, refused) ↦ rw (refused, run_roles, perform_role) (run_roles-Coherent cs s cache h)
        | inl ((held, s'), done) ↦
            rw (done, run_roles, perform_role)
              (run_roles-Coherent cs s' cache
                (revoke_role-Coherent db user_id role_id s s' now held cache done h))
      ]
