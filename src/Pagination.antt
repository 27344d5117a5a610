-- ===== src/Pagination.antt =====
-- src/lib/cursor-pagination.ts. What the query fetches is a parameter: the rows in their order, from
-- the start or after the row of the cursor.
mod Tests
use production_backend_found.Prelude.{
  ℕ, zero, suc, ◌+◌, Bool, true, not, ◌&&◌, ◌||◌, Option, none, some, List, [], ◌∷◌, ◌++◌, any,
  length, take, ltb, ◌==◌, if◌then◌else◌,
}

module _ {A : Type 0} (id : A → ℕ) where
  -- The rows after the one with the identifier.
  abbrev pub after : ℕ → List A → List A
  after c [] = []
  after c (x ∷ xs) = if id x == c then xs else after c xs

  abbrev pub from_cursor : Option ℕ → List A → List A
  from_cursor none xs = xs
  from_cursor (some c) xs = after c xs

  abbrev pub distinct : List A → Bool
  distinct [] = true
  distinct (x ∷ xs) = not (any (λ y. id y == id x) xs) && distinct xs

  -- `pageItems.at(-1)?.id ?? null`.
  abbrev pub last_id : List A → Option ℕ
  last_id [] = none
  last_id (x ∷ []) = some (id x)
  last_id (x ∷ y ∷ ys) = last_id (y ∷ ys)

  pub record CursorPage : Type 0 where
    pub items : List A
    pub next_cursor : Option ℕ

  unfoldable pub paginate_cursor : ℕ → Option ℕ → (Option ℕ → ℕ → List A) → CursorPage
  paginate_cursor limit cursor fetch_page =
      let items = fetch_page cursor (limit + 1) in
      let page_items = if ltb limit (length items) then take limit items else items in
      record {
        items = page_items;
        next_cursor = if ltb limit (length items) then last_id page_items else none;
      }

  -- A client that asks for page after page, at most as many as the fuel.
  unfoldable pub all_pages : ℕ → ℕ → (Option ℕ → ℕ → List A) → Option ℕ → List A
  all_pages zero limit fetch_page cursor = []
  all_pages (suc fuel) limit fetch_page cursor =
      let page = paginate_cursor limit cursor fetch_page in
      elim page.next_cursor [
        | none ↦ page.items
        | some c ↦ page.items ++ all_pages fuel limit fetch_page (some c)
      ]

  abbrev drop : ℕ → List A → List A
  drop zero xs = xs
  drop (suc n) [] = []
  drop (suc n) (x ∷ xs) = drop n xs

  abbrev has : ℕ → List A → Bool
  has i xs = any (λ y. id y == i) xs
