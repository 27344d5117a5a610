-- ===== src/Store/Laws.antt =====
-- What the operations of Store keep of the rows of a table.
use production_backend_found.Prelude.{
  ◌≡◌, ap, ◌∙◌, Bool, true, arith, all, all-update_where, all-update_where_kept, if◌then◌else◌,
}
use production_backend_found.Errors.{ok, err}
use production_backend_found.Store.{Prisma, update_one}

module _ (db : Prisma) {R : Type 0} (q : R → Bool) where
  -- Every row is under `q`.
  abbrev pub Holds : db.Table R → Type 0
  Holds t = all q (db.rows t) ≡ true

  pub create-Holds : (r : R) (t : db.Table R) → q r ≡ true → Holds t → Holds (db.create r t)
  create-Holds r t h k = ap (all q) (db.rows_create r t) ∙ ground (arith, h, k)

  module _ (p : R → Bool) (f : R → R) where
    pub update_many-Holds :
        ((x : R) → p x ≡ true → q x ≡ true → q (f x) ≡ true)
        → (t : db.Table R) → Holds t
        → Holds (db.update_many p f t).0
    update_many-Holds k t h =
        ap (all q) (db.rows_update_many p f t) ∙ all-update_where_kept q p f (db.rows t) k h

    -- A write that puts every row under `q`, whatever it was.
    pub update_many_sets :
        ((x : R) → q (if p x then f x else x) ≡ true)
        → (t : db.Table R) → Holds (db.update_many p f t).0
    update_many_sets k t =
        ap (all q) (db.rows_update_many p f t) ∙ all-update_where q p f (db.rows t) k

-- `update_one` is `update_many` that selected a row.
module _ (db : Prisma) {R : Type 0} (p : R → Bool) (f : R → R) where
  pub update_one-ok :
      (t t' : db.Table R) → update_one db p f t ≡ ok t' → t' ≡ (db.update_many p f t).0
  update_one-ok t t' h = ground (arith, h)

  pub update_one-err :
      (t : db.Table R) (e : _) → update_one db p f t ≡ err e → (db.update_many p f t).1 ≡ 0
  update_one-err t e h = ground (arith, h)
