-- ===== src/TenantScope.antt =====
-- src/lib/tenant-scope.ts. The values of `organizationId` that the code tells apart are a data type,
-- and so are the arguments of an operation; `matches` and `selects` say what the database client does
-- with a `where`, and `owner` what it stores. Which models have the field `organizationId` comes from
-- the generated data model, and is the parameter `has_organization_id`.
pub mod Narrow
pub mod Isolation
mod Tests
use text.Mathlib.Text.{◌==◌ as str_eq}
use production_backend_found.Prelude.{
  ℕ, Bool, true, false, not, ◌&&◌, ◌||◌, Option, none, some, String, List, [], ◌∷◌, ◌==◌, any, all,
  if◌then◌else◌,
}
use production_backend_found.Errors.{Result, ok, err, ◌>>=◌, ◌>>◌, throw_if, plain_error, AppError}

-- `class TenantScopeError extends Error`.
abbrev pub tenant_scope_error : AppError
tenant_scope_error = plain_error

pub data Operation : Type 0 where
  find_unique find_unique_or_throw find_first find_first_or_throw find_many count aggregate group_by
        update update_many delete delete_many :
      Operation
  create create_many create_many_and_return : Operation
  upsert : Operation
  other : Operation

abbrev pub is_create_operation : Operation → Bool
is_create_operation create = true
is_create_operation create_many = true
is_create_operation create_many_and_return = true
is_create_operation _ = false

abbrev pub is_upsert : Operation → Bool
is_upsert upsert = true
is_upsert _ = false

abbrev pub is_filter_operation : Operation → Bool
is_filter_operation other = false
is_filter_operation upsert = false
is_filter_operation create = false
is_filter_operation create_many = false
is_filter_operation create_many_and_return = false
is_filter_operation _ = true

abbrev pub includes : String → List String → Bool
includes name names = any (λ n. str_eq n name) names

abbrev pub tenant_scope_exempt_models : List String
tenant_scope_exempt_models = "Membership" ∷ "Invitation" ∷ "Role" ∷ []

abbrev pub nullable_global_owner_models : List String
nullable_global_owner_models =
    "NotificationPreference" ∷ "PaymentMethod" ∷ "StripePayment" ∷ "StripeRefundOperation"
    ∷ "StripeSubscription" ∷ []

-- Shut, so that a proof meets the name of the set and not its members.
unfoldable pub is_nullable : String → Bool
is_nullable model = includes model nullable_global_owner_models

unfoldable pub is_tenant_scoped : (String → Bool) → String → Bool
is_tenant_scoped has_organization_id model =
    has_organization_id model && not (includes model tenant_scope_exempt_models)

-- An `organizationId`: not there, `null`, an identifier, or a filter object.
pub data Value : Type 0 where
  missing null : Value
  literal : ℕ → Value
  filter : (Option ℕ → Bool) → Value

abbrev pub is_null : Value → Bool
is_null null = true
is_null _ = false

pub record Where (Row : Type 0) : Type 0 where
  pub organization_id : Value
  pub rest : Row → Bool

-- A row to write; `organization` says whether the relation is connected.
pub record NewRow : Type 0 where
  pub organization_id : Value
  pub organization : Bool

-- `data`: one value or an array; a value that is no object is `none`.
pub data Data : Type 0 where
  one : Option NewRow → Data
  many : List (Option NewRow) → Data

abbrev pub listed : Data → List (Option NewRow)
listed (one row) = row ∷ []
listed (many rows) = rows

pub record Args (Row : Type 0) : Type 0 where
  pub filtered_by : Where Row
  pub written : Data
  pub created : Data

unfoldable pub assert_agrees : Value → ℕ → Result (Unit {0})
assert_agrees missing organization_id = ok tt
assert_agrees null organization_id = ok tt
assert_agrees (literal o) organization_id =
    if o == organization_id then ok tt else err tenant_scope_error
assert_agrees (filter f) organization_id = err tenant_scope_error

unfoldable pub scope_where : {Row : Type 0} → String → Args Row → ℕ → Result (Args Row)
scope_where model args organization_id =
    let w = args.filtered_by in
    if is_null w.organization_id && is_nullable model then ok args else do
      assert_agrees w.organization_id organization_id
      ok (record args { filtered_by = record w { organization_id = literal organization_id } })

unfoldable pub scope_row : String → NewRow → ℕ → Result NewRow
scope_row model row organization_id =
    if row.organization
    then err tenant_scope_error
    else if is_null row.organization_id && is_nullable model
    then ok row
    else do
      assert_agrees row.organization_id organization_id
      ok (record row { organization_id = literal organization_id })

-- The loop over the rows: the first that is refused throws.
unfoldable pub scope_rows : String → List (Option NewRow) → ℕ → Result (List (Option NewRow))
unfolding scope_row
scope_rows model [] organization_id = ok []
scope_rows model (none ∷ rows) organization_id = do
  rows' ← scope_rows model rows organization_id
  ok (none ∷ rows')
scope_rows model (some row ∷ rows) organization_id = do
  row' ← scope_row model row organization_id
  rows' ← scope_rows model rows organization_id
  ok (some row' ∷ rows')

-- An array stays one; a single value is scoped in place.
abbrev rebuild : Data → List (Option NewRow) → Data
rebuild (many _) rows = many rows
rebuild (one _) [] = one none
rebuild (one _) (row ∷ _) = one row

unfoldable pub scope_create_data : String → Data → ℕ → Result Data
scope_create_data model data' organization_id = do
  rows ← scope_rows model (listed data') organization_id
  ok (rebuild data' rows)

unfoldable pub scope_upsert : {Row : Type 0} → String → Args Row → ℕ → Result (Args Row)
scope_upsert model args organization_id = do
  scoped ← scope_where model args organization_id
  created ← scope_create_data model scoped.created organization_id
  ok (record scoped { created = created })

unfoldable pub scope_create : {Row : Type 0} → String → Args Row → ℕ → Result (Args Row)
scope_create model args organization_id = do
  written ← scope_create_data model args.written organization_id
  ok (record args { written = written })

unfoldable pub apply_tenant_scope :
    {Row : Type 0} → String → Operation → Args Row → ℕ → Result (Args Row)
apply_tenant_scope model operation args organization_id =
    if is_upsert operation
    then scope_upsert model args organization_id
    else if is_filter_operation operation
    then scope_where model args organization_id
    else if is_create_operation operation
    then scope_create model args organization_id
    else err tenant_scope_error

-- The request context: trusted background work, or a request whose organization may be unresolved.
pub data Context : Type 0 where
  unscoped : Context
  request : Option ℕ → Context

abbrev pub is_null_row : Option NewRow → Bool
is_null_row none = false
is_null_row (some row) = is_null row.organization_id

abbrev pub is_null_object : Data → Bool
is_null_object (one row) = is_null_row row
is_null_object (many _) = false

unfoldable pub is_explicitly_global : {Row : Type 0} → String → Operation → Args Row → Bool
is_explicitly_global model operation args =
    is_nullable model
    && ((is_filter_operation operation && is_null args.filtered_by.organization_id)
        || (is_create_operation operation && all is_null_row (listed args.written))
        || (is_upsert operation
            && is_null args.filtered_by.organization_id
            && is_null_object args.created))

unfoldable pub resolve_scope_organization :
    {Row : Type 0}
    → (String → Bool)
    → Option Context
    → String
    → Operation
    → Args Row
    → Result (Option ℕ)
resolve_scope_organization has_organization_id context model operation args =
    if not (is_tenant_scoped has_organization_id model) then ok none else elim context [
      | none ↦ err tenant_scope_error
      | some unscoped ↦ ok none
      | some (request none) ↦
          if is_explicitly_global model operation args then ok none else err tenant_scope_error
      | some (request (some organization_id)) ↦ ok (some organization_id)
    ]

-- `$allOperations`: the arguments that reach the query.
unfoldable pub all_operations :
    {Row : Type 0}
    → (String → Bool)
    → Option Context
    → String
    → Operation
    → Args Row
    → Result (Args Row)
all_operations has_organization_id context model operation args = do
  organization_id ← resolve_scope_organization has_organization_id context model operation args
  elim organization_id [ none ↦ ok args | some o ↦ apply_tenant_scope model operation args o ]

-- What the client does with an `organizationId` in a `where`, and which rows a `where` selects.
abbrev pub is_owner : Option ℕ → ℕ → Bool
is_owner none o = false
is_owner (some p) o = p == o

abbrev pub matches : Value → Option ℕ → Bool
matches missing owned_by = true
matches null none = true
matches null (some o) = false
matches (literal o) owned_by = is_owner owned_by o
matches (filter f) owned_by = f owned_by

abbrev pub selects : {Row : Type 0} → (Row → Option ℕ) → Where Row → Row → Bool
selects owned_by w row = matches w.organization_id (owned_by row) && w.rest row

-- The owner that a created row is stored with; the column is nullable.
abbrev pub owner : NewRow → Option ℕ
owner row = elim row.organization_id [ literal o ↦ some o | _ ↦ none ]
