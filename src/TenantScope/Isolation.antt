-- ===== src/TenantScope/Isolation.antt =====
-- What reaches the database from a request (src/lib/tenant-scope.ts).
use production_backend_found.Prelude.{
  ℕ, ◌≡◌, refl, inl, inr, Bool, true, false, not, ◌&&◌, ◌||◌, Option, none, some, String, all,
  is_none, arith, if◌then◌else◌,
}
use production_backend_found.Errors.{ok, err, Result-cases}
use production_backend_found.TenantScope.{
  Operation, missing, literal, listed, Args, assert_agrees, scope_where, tenant_scope_error,
  all_operations, is_tenant_scoped, resolve_scope_organization, unscoped, request,
  is_explicitly_global, is_null_row, is_null_object, scope_create_data, scope_upsert, scope_create,
  is_owner, selects, is_nullable, is_upsert, is_filter_operation, is_create_operation,
  apply_tenant_scope,
}
use production_backend_found.TenantScope.Narrow.{
  is_within, is_written_within, scope_where-within, scope_where-written, scope_create_data-within,
}

filter_not_upsert :
    (operation : Operation) → is_filter_operation operation ≡ true → is_upsert operation ≡ false
filter_not_upsert operation h = ground arith

module _ {Row : Type 0} (has_organization_id : String → Bool) (model : String) where
  all_operations-resolved :
      (o : ℕ) (operation : Operation) (args : Args Row)
      → is_tenant_scoped has_organization_id model ≡ true
      → all_operations has_organization_id (some (request (some o))) model operation args
        ≡ apply_tenant_scope model operation args o
  unfolding all_operations resolve_scope_organization
  all_operations-resolved o operation args h = ground (arith, h)

  -- On a model that the tenant scope covers (it carries an organization and is not one of the exempt
  -- models, which pass unchanged), a request that acts for an organization reads, changes and deletes
  -- rows of that organization only, and rows of no organization where the model is one that has
  -- them: the `where` of a filtered operation or of an upsert that is let through selects no other
  -- row.
  pub all_operations-selects :
      (owned_by : Row → Option ℕ) (o : ℕ) (operation : Operation) (args args' : Args Row)
      (row : Row)
      → is_tenant_scoped has_organization_id model ≡ true
      → (is_filter_operation operation || is_upsert operation) ≡ true
      → all_operations has_organization_id (some (request (some o))) model operation args ≡ ok args'
      → selects owned_by args'.filtered_by row ≡ true
      → is_within model o (owned_by row) ≡ true
  unfolding apply_tenant_scope scope_upsert
  all_operations-selects owned_by o operation args args' row scoped filters h k =
      elim (Result-cases (scope_where model args o)) [
        | inl (narrowed, e) ↦ elim (Result-cases (scope_create_data model narrowed.created o)) [
          | inl (created, d) ↦ ground (
            arith,
            e,
            d,
            filters,
            all_operations-resolved o operation args scoped,
            scope_where-within owned_by model o args narrowed row e,
          )
          | inr (x, d) ↦ ground (
            arith,
            e,
            d,
            filters,
            all_operations-resolved o operation args scoped,
            scope_where-within owned_by model o args narrowed row e,
          )
        ]
        | inr (x, e) ↦
            absurd (ground (arith, e, filters, all_operations-resolved o operation args scoped))
      ]

  -- On a model that the tenant scope covers (it carries an organization and is not one of the exempt
  -- models, which pass unchanged), a request that acts for an organization creates rows of that
  -- organization only, and rows of no organization where the model is one that has them: so for the
  -- data of every create operation that is let through, and for the row that an upsert creates.
  pub all_operations-creates :
      (o : ℕ) (operation : Operation) (args args' : Args Row)
      → is_tenant_scoped has_organization_id model ≡ true
      → all_operations has_organization_id (some (request (some o))) model operation args ≡ ok args'
      → ((not (is_create_operation operation)
            || all (is_written_within model o) (listed args'.written))
          ≡ true)
        × ((not (is_upsert operation) || all (is_written_within model o) (listed args'.created))
            ≡ true)
  unfolding apply_tenant_scope scope_upsert scope_create
  all_operations-creates o operation args args' scoped h =
      (ground (arith, creates), ground (arith, upserts))
    where
      creates :
          is_create_operation operation ≡ true
          → all (is_written_within model o) (listed args'.written) ≡ true
      creates at = elim (Result-cases (scope_create_data model args.written o)) [
        | inl (written, e) ↦ ground (
          arith,
          e,
          at,
          h,
          all_operations-resolved o operation args scoped,
          scope_create_data-within model o args.written written e,
        )
        | inr (x, e) ↦
            absurd (ground (arith, e, at, h, all_operations-resolved o operation args scoped))
      ]

      upserts :
          is_upsert operation ≡ true → all (is_written_within model o) (listed args'.created) ≡ true
      upserts at = elim (Result-cases (scope_where model args o)) [
        | inl (narrowed, e) ↦ elim (Result-cases (scope_create_data model narrowed.created o)) [
          | inl (created, d) ↦ ground (
            arith,
            e,
            d,
            at,
            h,
            all_operations-resolved o operation args scoped,
            scope_create_data-within model o narrowed.created created d,
          )
          | inr (x, d) ↦
              absurd (ground (arith, e, d, at, h, all_operations-resolved o operation args scoped))
        ]
        | inr (x, e) ↦
            absurd (ground (arith, e, at, h, all_operations-resolved o operation args scoped))
      ]

  -- The narrowing loses nothing: a filtered operation whose `where` names no organization is let
  -- through, and selects the organization's rows among those that the rest of its `where` selects,
  -- all of them and no other.
  pub all_operations-narrows :
      (owned_by : Row → Option ℕ) (o : ℕ) (operation : Operation) (args : Args Row)
      → is_tenant_scoped has_organization_id model ≡ true
      → is_filter_operation operation ≡ true
      → args.filtered_by.organization_id ≡ missing
      → (args' : Args Row) × (all_operations has_organization_id
            (some (request (some o)))
            model
            operation
            args
          ≡ ok args')
        × ((row : Row)
            → selects owned_by args'.filtered_by row
              ≡ (is_owner (owned_by row) o && args.filtered_by.rest row))
  unfolding apply_tenant_scope scope_where assert_agrees
  all_operations-narrows owned_by o operation args scoped filters absent = (
    record args { filtered_by = record (args.filtered_by) { organization_id = literal o } },
    ground (
      arith,
      absent,
      filters,
      filter_not_upsert operation filters,
      all_operations-resolved o operation args scoped,
    ),
    λ row. refl,
  )

  -- A model that carries an organization cannot be reached without a context: every operation is
  -- refused. Trusted background work, and a model that carries none, pass unchanged.
  pub all_operations-contextless :
      (operation : Operation) (args : Args Row)
      → (all_operations has_organization_id none model operation args ≡ (
          if is_tenant_scoped has_organization_id model then err tenant_scope_error else ok args))
        × (all_operations has_organization_id (some unscoped) model operation args ≡ ok args)
  unfolding all_operations resolve_scope_organization
  all_operations-contextless operation args = (ground arith, ground arith)

  -- A request whose organization is not resolved reaches rows of no organization only, in models
  -- that have them: an operation that is let through is unchanged, its `where` selects no other row
  -- where it has one, and its data, or the row that an upsert creates, names no organization.
  pub all_operations-unresolved :
      (owned_by : Row → Option ℕ) (operation : Operation) (args args' : Args Row) (row : Row)
      → is_tenant_scoped has_organization_id model ≡ true
      → all_operations has_organization_id (some (request none)) model operation args ≡ ok args'
      → (args' ≡ args)
        × (is_nullable model ≡ true)
        × ((is_create_operation operation
              || not (selects owned_by args.filtered_by row)
              || is_none (owned_by row))
            ≡ true)
        × ((not (is_create_operation operation) || all is_null_row (listed args.written)) ≡ true)
        × ((not (is_upsert operation) || is_null_object args.created) ≡ true)
  unfolding all_operations resolve_scope_organization is_explicitly_global
  all_operations-unresolved owned_by operation args args' row scoped h = (
    ground (arith, scoped, h),
    ground (arith, scoped, h),
    ground (arith, scoped, h),
    ground (arith, scoped, h),
    ground (arith, scoped, h),
  )

  -- The `data` of an update is not looked at: a filtered operation that is let through passes the
  -- values it writes unchanged, an identifier of another organization included.
  pub all_operations-unchecked :
      (o : ℕ) (operation : Operation) (args args' : Args Row)
      → is_tenant_scoped has_organization_id model ≡ true
      → is_filter_operation operation ≡ true
      → all_operations has_organization_id (some (request (some o))) model operation args ≡ ok args'
      → args'.written ≡ args.written
  unfolding apply_tenant_scope
  all_operations-unchecked o operation args args' scoped filters h =
      (scope_where-written {Row = Row} (λ r. none) model o args args'
        (ground (
          arith,
          filters,
          filter_not_upsert operation filters,
          h,
          all_operations-resolved o operation args scoped,
        ))).0
