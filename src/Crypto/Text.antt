-- ===== src/Crypto/Text.antt =====
-- Texts as lists of character codes, split at and joined by dots.
use production_backend_found.Prelude.{
  ℕ, ◌≡◌, refl, ap, ◌∙◌, Bool, true, false, not, ◌&&◌, List, [], ◌∷◌, ◌++◌, arith, all, ◌==◌,
  if◌then◌else◌,
}

abbrev pub Chars : Type 0
Chars = List ℕ

abbrev pub dot : ℕ
dot = 46

abbrev pub codes_eq : Chars → Chars → Bool
codes_eq [] [] = true
codes_eq [] (b ∷ bs) = false
codes_eq (c ∷ cs) [] = false
codes_eq (c ∷ cs) (b ∷ bs) = c == b && codes_eq cs bs

pub codes_eq_refl : (cs : Chars) → codes_eq cs cs ≡ true
codes_eq_refl [] = refl
codes_eq_refl (c ∷ cs) = ground (arith, codes_eq_refl cs)

pub codes_eq_sound : (cs bs : Chars) → codes_eq cs bs ≡ true → cs ≡ bs
codes_eq_sound [] [] h = refl
codes_eq_sound [] (b ∷ bs) h = absurd (ground (arith, h))
codes_eq_sound (c ∷ cs) [] h = absurd (ground (arith, h))
codes_eq_sound (c ∷ cs) (b ∷ bs) h = ground (arith, h, codes_eq_sound cs bs)

abbrev pub is_dot_free : Chars → Bool
is_dot_free cs = all (λ c. not (c == dot)) cs

-- A character before the first of the parts.
abbrev push : ℕ → List Chars → List Chars
push c [] = (c ∷ []) ∷ []
push c (p ∷ ps) = (c ∷ p) ∷ ps

-- `split('.')` and `join('.')`.
abbrev pub split_dots : Chars → List Chars
split_dots [] = [] ∷ []
split_dots (c ∷ cs) = if c == dot then [] ∷ split_dots cs else push c (split_dots cs)

abbrev pub join_dots : List Chars → Chars
join_dots [] = []
join_dots (p ∷ []) = p
join_dots (p ∷ q ∷ ps) = p ++ (dot ∷ join_dots (q ∷ ps))

split_dots_sole : (p : Chars) → is_dot_free p ≡ true → split_dots p ≡ p ∷ []
split_dots_sole [] h = refl
split_dots_sole (c ∷ cs) h = ground (arith, h, split_dots_sole cs)

split_dots-append :
    (p rest : Chars) → is_dot_free p ≡ true → split_dots (p ++ (dot ∷ rest)) ≡ p ∷ split_dots rest
split_dots-append [] rest h = refl
split_dots-append (c ∷ cs) rest h = ground (arith, h, split_dots-append cs rest)

pub split_dots-join_dots :
    (p : Chars) (ps : List Chars)
    → all is_dot_free (p ∷ ps) ≡ true
    → split_dots (join_dots (p ∷ ps)) ≡ p ∷ ps
split_dots-join_dots p [] h = split_dots_sole p (ground (arith, h))
split_dots-join_dots p (q ∷ ps) h =
    split_dots-append p (join_dots (q ∷ ps)) (ground (arith, h))
    ∙ ap (λ parts. p ∷ parts) (split_dots-join_dots q ps (ground (arith, h)))
