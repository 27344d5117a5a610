-- ===== src/TenantScope/Tests.antt =====
-- The tenant scope on concrete operations; a row is its owner.
use production_backend_found.Prelude.{
  ℕ, ◌≡◌, refl, Bool, true, false, not, ◌||◌, Option, none, some, String, [], ◌∷◌, all,
}
use production_backend_found.Errors.{ok, err}
use production_backend_found.TenantScope.{
  Operation, Value, missing, null, literal, one, listed, Args, tenant_scope_error, all_operations,
  is_tenant_scoped, request, is_nullable, apply_tenant_scope, assert_agrees, scope_where,
  scope_rows, scope_create_data, scope_create, resolve_scope_organization, is_explicitly_global,
  is_create_operation, is_upsert,
}
use production_backend_found.TenantScope.Narrow.{is_within, is_written_within}
use production_backend_found.TenantScope.Isolation.{all_operations-selects, all_operations-creates}

abbrev has_field : String → Bool
has_field model = true

abbrev owner_of : Option ℕ → Option ℕ
owner_of row = row

abbrev args : Value → Value → Args (Option ℕ)
args w d = record {
  filtered_by = record { organization_id = w; rest = λ row. true };
  written = one (some (record { organization_id = d; organization = false }));
  created = one none;
}

upload_scoped : is_tenant_scoped has_field "Upload" ≡ true
unfolding is_tenant_scoped
upload_scoped = refl

payment_scoped : is_tenant_scoped has_field "StripePayment" ≡ true
unfolding is_tenant_scoped
payment_scoped = refl

finds :
    all_operations has_field
      (some (request (some 5)))
      "Upload"
      Operation.find_many
      (args missing missing)
    ≡ ok (args (literal 5) missing)
unfolding all_operations resolve_scope_organization apply_tenant_scope scope_where assert_agrees
    is_nullable is_tenant_scoped
finds = refl

creates :
    all_operations has_field (some (request (some 5))) "Upload" Operation.create (args missing null)
    ≡ ok (args missing (literal 5))
unfolding all_operations resolve_scope_organization apply_tenant_scope scope_create
    scope_create_data scope_rows assert_agrees is_nullable is_tenant_scoped
creates = refl

refuses_other :
    all_operations has_field
      (some (request (some 5)))
      "Upload"
      Operation.find_many
      (args (literal 6) missing)
    ≡ err tenant_scope_error
unfolding all_operations resolve_scope_organization apply_tenant_scope scope_where assert_agrees
    is_nullable is_tenant_scoped
refuses_other = refl

finds_global :
    all_operations has_field
      (some (request none))
      "StripePayment"
      Operation.find_many
      (args null missing)
    ≡ ok (args null missing)
unfolding all_operations resolve_scope_organization is_explicitly_global is_nullable
    is_tenant_scoped
finds_global = refl

updates :
    all_operations has_field
      (some (request (some 5)))
      "Upload"
      Operation.update
      (args missing (literal 6))
    ≡ ok (args (literal 5) (literal 6))
unfolding all_operations resolve_scope_organization apply_tenant_scope scope_where assert_agrees
    is_nullable is_tenant_scoped
updates = refl

all_operations-selects_example : is_within "Upload" 5 (some 5) ≡ true
all_operations-selects_example =
    all_operations-selects has_field "Upload" owner_of 5 Operation.find_many (args missing missing)
      (args (literal 5) missing) (some 5) upload_scoped refl finds refl

all_operations-creates_example :
    ((not (is_create_operation Operation.create)
        || all
            (is_written_within "Upload" 5)
            (listed (one (some (record { organization_id = literal 5; organization = false })))))
      ≡ true)
    × ((not (is_upsert Operation.create) || all (is_written_within "Upload" 5) (none ∷ [])) ≡ true)
all_operations-creates_example =
    all_operations-creates has_field "Upload" 5 Operation.create (args missing null)
      (args missing (literal 5)) upload_scoped creates
