-- ===== src/Store.antt =====
-- The database client that src/lib/prisma.ts configures, as an interface. The package is not part
-- of the repository: a table is known by its rows, and each operation by what it does to them.
pub mod Lists
pub mod Laws
use production_backend_found.Prelude.{
  ℕ, ◌≡◌, Bool, not, keep, true, false, List, ◌∷◌, Option, none, some, ◌==◌, update_where, tally,
  total, any, if◌then◌else◌,
}
use mathlib.Core.List.{Memᴰ}
use production_backend_found.Errors.{Result, ok, err, plain_error}

pub record Prisma : Type 1 where
  pub Table : Type 0 → Type 0
  pub rows : {R : Type 0} → Table R → List R
  -- `findFirst` with no order: any row that `where` selects.
  pub find_first : {R : Type 0} → (R → Bool) → Table R → Option R
  -- `updateMany`: the new table and the number of rows selected.
  pub update_many : {R : Type 0} → (R → Bool) → (R → R) → Table R → Table R × ℕ
  pub count : {R : Type 0} → (R → Bool) → Table R → ℕ
  -- `aggregate` of one sum, `null` of no row read as 0.
  pub sum : {R : Type 0} → (R → Bool) → (R → ℕ) → Table R → ℕ
  pub create : {R : Type 0} → R → Table R → Table R
  -- `upsert`: the row to create if `where` selects none, else the update.
  pub upsert : {R : Type 0} → (R → Bool) → R → (R → R) → Table R → Table R
  -- `deleteMany`.
  pub delete_many : {R : Type 0} → (R → Bool) → Table R → Table R
  -- Raw SQL that leaves these rows.
  pub execute_raw : {R : Type 0} → (List R → List R) → Table R → Table R
  pub find_first_selects :
      {R : Type 0} (p : R → Bool) (t : Table R) (r : R)
      → find_first p t ≡ some r
      → Memᴰ r (rows t) × (p r ≡ true)
  pub find_first_misses :
      {R : Type 0} (p : R → Bool) (t : Table R) → find_first p t ≡ none → any p (rows t) ≡ false
  pub rows_update_many :
      {R : Type 0} (p : R → Bool) (f : R → R) (t : Table R)
      → rows (update_many p f t).0 ≡ update_where p f (rows t)
  pub count_update_many :
      {R : Type 0} (p : R → Bool) (f : R → R) (t : Table R)
      → (update_many p f t).1 ≡ tally p (rows t)
  pub count_rows : {R : Type 0} (p : R → Bool) (t : Table R) → count p t ≡ tally p (rows t)
  pub sum_rows :
      {R : Type 0} (p : R → Bool) (size : R → ℕ) (t : Table R)
      → sum p size t ≡ total p size (rows t)
  pub rows_create : {R : Type 0} (r : R) (t : Table R) → rows (create r t) ≡ r ∷ rows t
  pub rows_upsert :
      {R : Type 0} (p : R → Bool) (r : R) (f : R → R) (t : Table R)
      → rows (upsert p r f t) ≡ (if any p (rows t) then update_where p f (rows t) else r ∷ rows t)
  pub rows_delete_many :
      {R : Type 0} (p : R → Bool) (t : Table R)
      → rows (delete_many p t) ≡ keep (λ r. not (p r)) (rows t)
  pub rows_execute_raw :
      {R : Type 0} (f : List R → List R) (t : Table R) → rows (execute_raw f t) ≡ f (rows t)

-- `update` by a unique key: a missing row makes the client throw.
abbrev pub update_one :
    (db : Prisma) → {R : Type 0} → (R → Bool) → (R → R) → db.Table R → Result (db.Table R)
update_one db p f t =
    let written = db.update_many p f t in if written.1 == 0 then err plain_error else ok written.0

-- `create` of a row with a unique key: `where` selects the rows of that key, and `none` is the
-- client's P2002.
abbrev pub create_unique :
    (db : Prisma) → {R : Type 0} → (R → Bool) → R → db.Table R → Option (db.Table R)
create_unique db p r t = if any p (db.rows t) then none else some (db.create r t)
