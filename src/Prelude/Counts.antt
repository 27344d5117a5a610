-- ===== src/Prelude/Counts.antt =====
-- Counting the rows of a list that is written to.
use Prim.Native.Nat.{◌+◌, ◌≤◌}
use mathlib.Core.Path.{◌≡◌, refl}
use mathlib.Core.Bool.{Bool, true, false, not, ◌&&◌}
use mathlib.Core.List.{List, [], ◌∷◌, Memᴰ}
use native.Mathlib.Omega.{arith}
use production_backend_found.Prelude.Lists.{tally, any, update_where}

-- What a write to few rows does to a count.
module _ {ℓ} {A : Type ℓ} (p q : A → Bool) (f : A → A) where
  pub tally-le-update_where :
      (xs : List A) → tally q xs ≤ tally q (update_where p f xs) + tally p xs
  tally-le-update_where [] = omega arith
  tally-le-update_where (x ∷ xs) = ground (arith, tally-le-update_where xs)

  pub tally-le-update_where_kept :
      (xs : List A)
      → ((x : A) → p x ≡ true → q x ≡ true → q (f x) ≡ true)
      → tally q xs ≤ tally q (update_where p f xs)
  tally-le-update_where_kept [] h = omega arith
  tally-le-update_where_kept (x ∷ xs) h = ground (arith, h x, tally-le-update_where_kept xs h)

  pub tally-le-update_where_apart :
      (xs : List A) → any (λ x. p x && q x) xs ≡ false → tally q xs ≤ tally q (update_where p f xs)
  tally-le-update_where_apart [] h = omega arith
  tally-le-update_where_apart (x ∷ xs) h = ground (arith, tally-le-update_where_apart xs)

module _ {ℓ} {A : Type ℓ} (p q : A → Bool) where
  pub tally-Memᴰ : {t : A} {xs : List A} → Memᴰ t xs → p t ≡ true → 1 ≤ tally p xs
  tally-Memᴰ (Memᴰ.head e) h = let h' = rw e at h in ground (arith, h')
  tally-Memᴰ (Memᴰ.tail m) h = ground (arith, tally-Memᴰ m h)

  pub any_both-tally : (xs : List A) → tally p xs ≡ 0 → any (λ x. p x && q x) xs ≡ false
  any_both-tally [] h = refl
  any_both-tally (x ∷ xs) h = ground (arith, any_both-tally xs)

  -- If the one row under `p` is not under `q`, no row is under both.
  pub single_apart :
      {t : A} {xs : List A}
      → Memᴰ t xs
      → p t ≡ true
      → q t ≡ false
      → tally p xs ≤ 1
      → any (λ x. p x && q x) xs ≡ false
  single_apart (Memᴰ.head {xs = rest} e) h k one =
      let h' = rw e at h in let k' = rw e at k in ground (arith, h', k', any_both-tally rest)
  single_apart (Memᴰ.tail m) h k one = ground (arith, tally-Memᴰ m h, single_apart m h k)

-- A write that takes every row under `q` out of it.
module _ {ℓ} {A : Type ℓ} (p q : A → Bool) (f : A → A) where
  pub tally-update_where-zero :
      (xs : List A)
      → any (λ x. q x && not (p x)) xs ≡ false
      → ((x : A) → p x ≡ true → q (f x) ≡ false)
      → tally q (update_where p f xs) ≡ 0
  tally-update_where-zero [] h k = refl
  tally-update_where-zero (x ∷ xs) h k = ground (arith, k x, tally-update_where-zero xs)

-- A write that takes the only row under `r` out of `q`.
module _ {ℓ} {A : Type ℓ} (p q r : A → Bool) (f : A → A)
    (within : (x : A) → q x ≡ true → r x ≡ true) (out : (x : A) → q (f x) ≡ false) where
  any-update_where-zero : (xs : List A) → tally r xs ≡ 0 → any q (update_where p f xs) ≡ false
  any-update_where-zero [] h = refl
  any-update_where-zero (x ∷ xs) h = ground (arith, within x, out x, any-update_where-zero xs)

  pub any-update_where-sole :
      {t : A} {xs : List A}
      → Memᴰ t xs
      → p t ≡ true
      → r t ≡ true
      → tally r xs ≤ 1
      → any q (update_where p f xs) ≡ false
  any-update_where-sole (Memᴰ.head {x = y} {xs = rest} e) h k one =
      let h' = rw e at h in
      let k' = rw e at k in
      let none_left : tally r rest ≡ 0 = omega (arith, one, tally_head rest k') in
      ground (arith, h', out y, any-update_where-zero rest none_left)
    where
      tally_head : {y : A} (xs : List A) → r y ≡ true → tally r (y ∷ xs) ≡ 1 + tally r xs
      tally_head xs e = rw e refl
  any-update_where-sole (Memᴰ.tail {x = y} {xs = rest} m) h k one =
      let apart : r y ≡ false = ground (arith, one, tally-Memᴰ r r m k) in
      let fewer : tally r rest ≤ 1 = ground (arith, one, apart) in
      ground (arith, apart, within y, out y, any-update_where-sole m h k fewer)

-- A write that puts what it selects under `q`.
module _ {ℓ} {A : Type ℓ} (p q : A → Bool) (f : A → A) where
  pub any-update_where-hit :
      (xs : List A)
      → 1 ≤ tally p xs
      → ((x : A) → p x ≡ true → q (f x) ≡ true)
      → any q (update_where p f xs) ≡ true
  any-update_where-hit [] h k = absurd (omega arith)
  any-update_where-hit (x ∷ xs) h k = ground (arith, k x, any-update_where-hit xs)
