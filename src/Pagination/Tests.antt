-- ===== src/Pagination/Tests.antt =====
-- Seven rows in pages of three.
use production_backend_found.Prelude.{ℕ, ◌≡◌, refl, Option, some, List, [], ◌∷◌, take}
use production_backend_found.Pagination.{paginate_cursor, from_cursor}

abbrev id : ℕ → ℕ
id x = x

abbrev rows : List ℕ
rows = 9 ∷ 4 ∷ 7 ∷ 1 ∷ 8 ∷ 2 ∷ 6 ∷ []

abbrev fetch_page : Option ℕ → ℕ → List ℕ
fetch_page c n = take n (from_cursor id c rows)

second_page : (paginate_cursor id 3 (some 7) fetch_page).items ≡ 1 ∷ 8 ∷ 2 ∷ []
unfolding paginate_cursor
second_page = refl
