-- ===== src/Store/Lists.antt =====
-- The interface of Store met by tables that are their lists of rows, for tests and witnesses.
use mathlib.Core.List.{Memᴰ}
use production_backend_found.Prelude.{
  ◌≡◌, refl, Bool, not, keep, true, false, List, [], ◌∷◌, Option, none, some, update_where, tally,
  total, any, if◌then◌else◌, arith, Bool-cases, inl, inr,
}
use production_backend_found.Store.{Prisma}

abbrev pub first {ℓ} : {A : Type ℓ} → (A → Bool) → List A → Option A
first p [] = none
first p (x ∷ xs) = if p x then some x else first p xs

pub first_selects {ℓ} :
    {A : Type ℓ} (p : A → Bool) (xs : List A) (x : A)
    → first p xs ≡ some x
    → Memᴰ x xs × (p x ≡ true)
first_selects p [] x h = absurd (ground arith)
first_selects p (y ∷ ys) x h = elim (Bool-cases (p y)) [
  | inl hit ↦ (Memᴰ.head (ground (arith, hit)), ground (arith, hit))
  | inr miss ↦
      let (later, selected) = first_selects p ys x (ground (arith, miss)) in
      (Memᴰ.tail later, selected)
]

pub first_misses {ℓ} :
    {A : Type ℓ} (p : A → Bool) (xs : List A) → first p xs ≡ none → any p xs ≡ false
first_misses p [] h = refl
first_misses p (x ∷ xs) h = ground (arith, first_misses p xs)

abbrev pub list_prisma : Prisma
list_prisma = record {
  Table = List;
  rows = λ t. t;
  find_first = first;
  update_many = λ p f t. (update_where p f t, tally p t);
  count = tally;
  sum = total;
  create = λ r t. r ∷ t;
  upsert = λ p r f t. if any p t then update_where p f t else r ∷ t;
  delete_many = λ p t. keep (λ r. not (p r)) t;
  execute_raw = λ f t. f t;
  find_first_selects = first_selects;
  find_first_misses = first_misses;
  rows_update_many = λ p f t. refl;
  count_update_many = λ p f t. refl;
  count_rows = λ p t. refl;
  sum_rows = λ p size t. refl;
  rows_create = λ r t. refl;
  rows_upsert = λ p r f t. refl;
  rows_delete_many = λ p t. refl;
  rows_execute_raw = λ f t. refl;
}
