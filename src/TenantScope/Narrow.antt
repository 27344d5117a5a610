-- ===== src/TenantScope/Narrow.antt =====
-- What the narrowing of one operation's arguments gives (src/lib/tenant-scope.ts).
use production_backend_found.Prelude.{
  ℕ, ◌≡◌, inl, inr, Bool, true, ◌&&◌, ◌||◌, Option, none, some, String, List, [], ◌∷◌, all, is_none,
  arith,
}
use production_backend_found.Errors.{ok, Result-cases}
use production_backend_found.TenantScope.{
  NewRow, Data, listed, Args, assert_agrees, scope_where, scope_row, scope_rows, scope_create_data,
  is_owner, selects, owner, is_nullable,
}

-- A row of the organization, or a row of no organization in a model that has such rows.
abbrev pub is_within : String → ℕ → Option ℕ → Bool
is_within model o owned_by = is_owner owned_by o || (is_none owned_by && is_nullable model)

abbrev pub is_written_within : String → ℕ → Option NewRow → Bool
is_written_within model o none = true
is_written_within model o (some row) = is_within model o (owner row)

module _ {Row : Type 0} (owned_by : Row → Option ℕ) (model : String) (o : ℕ) where
  pub scope_where-within :
      (args args' : Args Row) (row : Row)
      → scope_where model args o ≡ ok args'
      → selects owned_by args'.filtered_by row ≡ true
      → is_within model o (owned_by row) ≡ true
  unfolding scope_where assert_agrees
  scope_where-within args args' row h k = ground arith

  pub scope_where-written :
      (args args' : Args Row)
      → scope_where model args o ≡ ok args'
      → (args'.written ≡ args.written) × (args'.created ≡ args.created)
  unfolding scope_where assert_agrees
  scope_where-written args args' h = ground arith

scope_row-within :
    (model : String) (o : ℕ) (row row' : NewRow)
    → scope_row model row o ≡ ok row'
    → is_within model o (owner row') ≡ true
unfolding scope_row assert_agrees
scope_row-within model o row row' h = ground arith

scope_rows-within :
    (model : String) (o : ℕ) (rows rows' : List (Option NewRow))
    → scope_rows model rows o ≡ ok rows'
    → all (is_written_within model o) rows' ≡ true
unfolding scope_rows
scope_rows-within model o [] rows' h = ground arith
scope_rows-within model o (none ∷ rows) rows' h = elim (Result-cases (scope_rows model rows o)) [
  | inl (later, e) ↦ ground (arith, e, scope_rows-within model o rows later e)
  | inr (x, e) ↦ absurd (ground (arith, e))
]
scope_rows-within model o (some row ∷ rows) rows' h = elim (Result-cases (scope_row model row o)) [
  | inl (first, d) ↦ elim (Result-cases (scope_rows model rows o)) [
    | inl (later, e) ↦
        ground (
          arith,
          d,
          e,
          scope_row-within model o row first d,
          scope_rows-within model o rows later e,
        )
    | inr (x, e) ↦ absurd (ground (arith, d, e))
  ]
  | inr (x, e) ↦ absurd (ground (arith, e))
]

pub scope_create_data-within :
    (model : String) (o : ℕ) (d d' : Data)
    → scope_create_data model d o ≡ ok d'
    → all (is_written_within model o) (listed d') ≡ true
unfolding scope_create_data
scope_create_data-within model o d d' h = elim (Result-cases (scope_rows model (listed d) o)) [
  | inl (rows, e) ↦ ground (arith, e, scope_rows-within model o (listed d) rows e)
  | inr (x, e) ↦ absurd (ground (arith, e))
]
