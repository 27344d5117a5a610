-- ===== src/Prelude/Sums.antt =====
-- Sums over the rows of a list that is written to.
use Prim.Native.Nat.{ℕ, ◌+◌, ◌≤◌}
use mathlib.Core.Path.{◌≡◌, refl}
use mathlib.Core.Bool.{Bool, true}
use mathlib.Core.List.{List, [], ◌∷◌}
use native.Mathlib.Omega.{arith}
use production_backend_found.Prelude.Lists.{total, tally, update_where}

-- A write that adds no row to the sum, and changes no size, does not raise it.
module _ {ℓ} {A : Type ℓ} (q : A → Bool) (size : A → ℕ) (p : A → Bool) (f : A → A)
    (same : (x : A) → size (f x) ≡ size x) (out : (x : A) → q (f x) ≡ true → q x ≡ true) where
  pub total-update_where-le : (xs : List A) → total q size (update_where p f xs) ≤ total q size xs
  total-update_where-le [] = omega arith
  total-update_where-le (x ∷ xs) = ground (arith, same x, out x, total-update_where-le xs)

-- A write to rows of the sum, each of which grows by `step`.
module _ {ℓ} {A : Type ℓ} (q : A → Bool) (size : A → ℕ) (p : A → Bool) (f : A → A) (step : ℕ)
    (grown : (x : A) → size (f x) ≡ size x + step) (kept : (x : A) → q (f x) ≡ q x)
    (within : (x : A) → p x ≡ true → q x ≡ true) where
  total-update_where_none :
      (xs : List A) → tally p xs ≡ 0 → total q size (update_where p f xs) ≡ total q size xs
  total-update_where_none [] h = refl
  total-update_where_none (x ∷ xs) h = ground (arith, total-update_where_none xs)

  pub total-update_where_one :
      (xs : List A) → tally p xs ≡ 1 → total q size (update_where p f xs) ≡ total q size xs + step
  total-update_where_one [] h = absurd (omega arith)
  total-update_where_one (x ∷ xs) h =
      ground
        (arith, grown x, kept x, within x, total-update_where_one xs, total-update_where_none xs)

module _ {ℓ} {A : Type ℓ} (q : A → Bool) (size : A → ℕ) where
  pub total_none : (xs : List A) → tally q xs ≡ 0 → total q size xs ≡ 0
  total_none [] h = refl
  total_none (x ∷ xs) h = ground (arith, total_none xs)

  tally-le :
      (p : A → Bool) → ((x : A) → p x ≡ true → q x ≡ true) → (xs : List A) → tally p xs ≤ tally q xs
  tally-le p within [] = omega arith
  tally-le p within (x ∷ xs) = ground (arith, within x, tally-le p within xs)

  -- Where one row at most is summed, the sum is bounded as that row is.
  pub total_sole-le :
      (p : A → Bool) (bound : ℕ)
      → ((x : A) → p x ≡ true → q x ≡ true)
      → ((x : A) → p x ≡ true → size x ≤ bound)
      → (xs : List A) → tally p xs ≡ 1
      → tally q xs ≤ 1
      → total q size xs ≤ bound
  total_sole-le p bound within small [] h one = omega arith
  total_sole-le p bound within small (x ∷ xs) h one = ground (
    arith,
    within x,
    small x,
    tally-le p within xs,
    total_none xs,
    total_sole-le p bound within small xs,
  )
