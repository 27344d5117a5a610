-- ===== src/Prelude/Lists.antt =====
-- Lists measured by native numbers, and the rows of a table as a list.
use Prim.Native.Nat.{ℕ, zero, suc, ◌+◌, ◌≤◌}
use mathlib.Core.Path.{◌≡◌, refl}
use mathlib.Core.Bool.{Bool, true, false, not, ◌&&◌, ◌||◌}
use mathlib.Core.List.{List, [], ◌∷◌, Memᴰ}
use native.Mathlib.Omega.{arith}
use mathlib.Core.Logic.{inl, inr}
use production_backend_found.Prelude.Tests.{if◌then◌else◌, Bool-cases}

module _ {ℓ} {A : Type ℓ} where
  abbrev pub length : List A → ℕ
  length [] = 0
  length (x ∷ xs) = suc (length xs)

  abbrev pub take : ℕ → List A → List A
  take zero xs = []
  take (suc n) [] = []
  take (suc n) (x ∷ xs) = x ∷ take n xs

  -- `filter` by a Boolean test.
  abbrev pub keep : (A → Bool) → List A → List A
  keep p [] = []
  keep p (x ∷ xs) = if p x then x ∷ keep p xs else keep p xs

  abbrev pub any : (A → Bool) → List A → Bool
  any p [] = false
  any p (x ∷ xs) = p x || any p xs

  abbrev pub all : (A → Bool) → List A → Bool
  all p [] = true
  all p (x ∷ xs) = p x && all p xs

  -- How many elements pass the test.
  abbrev pub tally : (A → Bool) → List A → ℕ
  tally p [] = 0
  tally p (x ∷ xs) = (if p x then 1 else 0) + tally p xs

  -- What the elements that pass the test add up to.
  abbrev pub total : (A → Bool) → (A → ℕ) → List A → ℕ
  total p size [] = 0
  total p size (x ∷ xs) = (if p x then size x else 0) + total p size xs

  -- The rows after `data` was written to those that `where` selects.
  abbrev pub update_where : (A → Bool) → (A → A) → List A → List A
  update_where p f [] = []
  update_where p f (x ∷ xs) = (if p x then f x else x) ∷ update_where p f xs

module _ {ℓ κ} {A : Type ℓ} (P : A → Type κ) where
  abbrev pub All : List A → Type κ
  All [] = Unit
  All (x ∷ xs) = P x × All xs

module _ {ℓ} {A : Type ℓ} where
  pub length-take-le : (n : ℕ) (xs : List A) → length (take n xs) ≤ n
  length-take-le zero xs = omega arith
  length-take-le (suc n) [] = omega arith
  length-take-le (suc n) (x ∷ xs) = omega (arith, length-take-le n xs)

  pub length-update_where :
      (p : A → Bool) (f : A → A) (xs : List A) → length (update_where p f xs) ≡ length xs
  length-update_where p f [] = refl
  length-update_where p f (x ∷ xs) = omega (arith, length-update_where p f xs)

  -- An update that no selected row notices under `q` leaves the number of `q` rows alone.
  pub tally-update_where :
      (q p : A → Bool) (f : A → A) (xs : List A)
      → ((x : A) → p x ≡ true → q (f x) ≡ q x)
      → tally q (update_where p f xs) ≡ tally q xs
  tally-update_where q p f [] h = refl
  tally-update_where q p f (x ∷ xs) h = ground (arith, h x, tally-update_where q p f xs h)

module _ {ℓ} {A : Type ℓ} where
  pub any-take : (q : A → Bool) (n : ℕ) (xs : List A) → any q (take n xs) ≡ true → any q xs ≡ true
  any-take q zero xs h = ground arith
  any-take q (suc n) [] h = ground arith
  any-take q (suc n) (x ∷ xs) h = ground (arith, any-take q n xs)

  pub any-keep : (q p : A → Bool) (xs : List A) → any q (keep p xs) ≡ any (λ x. p x && q x) xs
  any-keep q p [] = refl
  any-keep q p (x ∷ xs) = ground (arith, any-keep q p xs)

  pub any_mono :
      (p q : A → Bool) (xs : List A)
      → ((x : A) → p x ≡ true → q x ≡ true)
      → any p xs ≡ true
      → any q xs ≡ true
  any_mono p q [] h e = ground arith
  any_mono p q (x ∷ xs) h e = ground (arith, h x, any_mono p q xs h)

  -- What holds of every updated row holds of the updated table.
  pub all-update_where :
      (q p : A → Bool) (f : A → A) (xs : List A)
      → ((x : A) → q (if p x then f x else x) ≡ true)
      → all q (update_where p f xs) ≡ true
  all-update_where q p f [] h = refl
  all-update_where q p f (x ∷ xs) h = ground (arith, h x, all-update_where q p f xs h)

  -- No row is selected any more once every selected row was written to leave the selection.
  pub tally-update_where_none :
      (p : A → Bool) (f : A → A) (xs : List A)
      → ((x : A) → p (f x) ≡ false)
      → tally p (update_where p f xs) ≡ 0
  tally-update_where_none p f [] h = refl
  tally-update_where_none p f (x ∷ xs) h = ground (arith, h x, tally-update_where_none p f xs h)

  -- A write that selects no row changes nothing.
  pub update_where_none :
      (p : A → Bool) (f : A → A) (xs : List A) → any p xs ≡ false → update_where p f xs ≡ xs
  update_where_none p f [] h = refl
  update_where_none p f (x ∷ xs) h = ground (arith, update_where_none p f xs)

  pub tally_none : (p : A → Bool) (xs : List A) → any p xs ≡ false → tally p xs ≡ 0
  tally_none p [] h = refl
  tally_none p (x ∷ xs) h = ground (arith, tally_none p xs)

  pub any-Memᴰ : (p : A → Bool) {x : A} {xs : List A} → any p xs ≡ false → Memᴰ x xs → p x ≡ false
  any-Memᴰ p h (Memᴰ.head e) = rw e (ground arith)
  any-Memᴰ p h (Memᴰ.tail m) = any-Memᴰ p (ground arith) m

  -- Two writes, the second of which selects just the rows that the first wrote, are one.
  pub update_where-update_where :
      (p q : A → Bool) (f g : A → A) (xs : List A)
      → ((x : A) → p x ≡ true → q (f x) ≡ true)
      → any (λ x. q x && not (p x)) xs ≡ false
      → update_where q g (update_where p f xs) ≡ update_where p (λ x. g (f x)) xs
  update_where-update_where p q f g [] h none_left = refl
  update_where-update_where p q f g (x ∷ xs) h none_left =
      ground (arith, h x, update_where-update_where p q f g xs h)

  pub tally-update_where_moved :
      (p q : A → Bool) (f : A → A) (xs : List A)
      → ((x : A) → p x ≡ true → q (f x) ≡ true)
      → any (λ x. q x && not (p x)) xs ≡ false
      → tally q (update_where p f xs) ≡ tally p xs
  tally-update_where_moved p q f [] h none_left = refl
  tally-update_where_moved p q f (x ∷ xs) h none_left =
      ground (arith, h x, tally-update_where_moved p q f xs h)

  pub any_mono_false :
      (p q : A → Bool) (xs : List A)
      → ((x : A) → p x ≡ true → q x ≡ true)
      → any q xs ≡ false
      → any p xs ≡ false
  any_mono_false p q [] h e = refl
  any_mono_false p q (x ∷ xs) h e = ground (arith, h x, any_mono_false p q xs h)

  pub any_of_Memᴰ : (p : A → Bool) {x : A} {xs : List A} → Memᴰ x xs → p x ≡ true → any p xs ≡ true
  any_of_Memᴰ p (Memᴰ.head e) h = let h' = rw e at h in ground (arith, h')
  any_of_Memᴰ p (Memᴰ.tail m) h = ground (arith, any_of_Memᴰ p m h)

  pub tally-update_where-le :
      (q p : A → Bool) (f : A → A) (xs : List A)
      → ((x : A) → q (f x) ≡ true → q x ≡ true)
      → tally q (update_where p f xs) ≤ tally q xs
  tally-update_where-le q p f [] h = omega arith
  tally-update_where-le q p f (x ∷ xs) h = ground (arith, h x, tally-update_where-le q p f xs h)

  -- A write that keeps what it selects under `q` keeps a table under `q`.
  pub all-update_where_kept :
      (q p : A → Bool) (f : A → A) (xs : List A)
      → ((x : A) → p x ≡ true → q x ≡ true → q (f x) ≡ true)
      → all q xs ≡ true
      → all q (update_where p f xs) ≡ true
  all-update_where_kept q p f [] k h = refl
  all-update_where_kept q p f (x ∷ xs) k h = ground (arith, k x, all-update_where_kept q p f xs k)

  pub all-Memᴰ : (q : A → Bool) {x : A} {xs : List A} → all q xs ≡ true → Memᴰ x xs → q x ≡ true
  all-Memᴰ q h (Memᴰ.head e) = rw e (ground arith)
  all-Memᴰ q h (Memᴰ.tail m) = all-Memᴰ q (ground arith) m

module _ {ℓ} {A : Type ℓ} (q : A → Bool) where
  -- A write that the test does not notice is done to the rows that pass it.
  pub keep-update_where :
      (p : A → Bool) (f : A → A) (xs : List A)
      → ((x : A) → q (f x) ≡ q x)
      → keep q (update_where p f xs) ≡ update_where p f (keep q xs)
  keep-update_where p f [] h = refl
  keep-update_where p f (x ∷ xs) h = ground (arith, h x, keep-update_where p f xs)

  pub any-update_where_same :
      (p : A → Bool) (f : A → A) (xs : List A)
      → ((x : A) → q (f x) ≡ q x)
      → any q (update_where p f xs) ≡ any q xs
  any-update_where_same p f [] h = refl
  any-update_where_same p f (x ∷ xs) h = ground (arith, h x, any-update_where_same p f xs)

  pub any_of_keep : (y : A) (ys xs : List A) → keep q xs ≡ y ∷ ys → any q xs ≡ true
  any_of_keep y ys [] h = absurd (ground (arith, h))
  any_of_keep y ys (x ∷ xs) h = ground (arith, h, any_of_keep y ys xs)

  pub keep_none : (xs : List A) → any q xs ≡ false → keep q xs ≡ []
  keep_none [] h = refl
  keep_none (x ∷ xs) h = ground (arith, h, keep_none xs)

  pub Memᴰ-keep : {x : A} {xs : List A} → q x ≡ true → Memᴰ x xs → Memᴰ x (keep q xs)
  Memᴰ-keep h (Memᴰ.head {x = y} e) = let h' = rw e at h in rw h' (Memᴰ.head e)
  Memᴰ-keep {x} h (Memᴰ.tail {x = y} {xs = ys} m) =
      let rest = Memᴰ-keep h m in
      elim (Bool-cases (q y)) as (λ _. Memᴰ x (keep q (y ∷ ys))) [
        | inl k ↦ rw k (Memᴰ.tail rest)
        | inr k ↦ rw k rest
      ]

  pub sole_Memᴰ : {x y : A} → Memᴰ x (y ∷ []) → x ≡ y
  sole_Memᴰ (Memᴰ.head e) = e
  sole_Memᴰ (Memᴰ.tail m) = elim m [ ]

  -- A row under the test is still there after a write that keeps it under the test.
  pub any-update_where_kept :
      (p : A → Bool) (f : A → A) (xs : List A)
      → ((x : A) → p x ≡ true → q x ≡ true → q (f x) ≡ true)
      → any q xs ≡ true
      → any q (update_where p f xs) ≡ true
  any-update_where_kept p f [] k h = h
  any-update_where_kept p f (x ∷ xs) k h = ground (arith, k x, h, any-update_where_kept p f xs k)
