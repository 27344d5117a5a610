-- ===== src/Outbox/Claim/Laws.antt =====
-- What a claim selects, and that two relays do not hold one event at a time.
use production_backend_found.Prelude.{
  ℕ, ◌+◌, ◌<◌, ◌≡◌, refl, sym, ◌∙◌, Bool, true, false, not, ◌&&◌, ◌||◌, List, [], ◌∷◌, arith, ◌==◌,
  keep, any, update_where, Bool-cases, ==_iff, inl, inr, any-take, any-keep,
}
use production_backend_found.Store.{Prisma}
use production_backend_found.Outbox.Event.{OutboxEvent}
use production_backend_found.Outbox.Claim.{
  is_available, insert_by_age, sort_by_age, candidates, has_id, mark_claimed, claim_outbox_batch,
  claim_lease_ms,
}

module _ (q : OutboxEvent → Bool) where
  any-insert_by_age :
      (x : OutboxEvent) (xs : List OutboxEvent) → any q (insert_by_age x xs) ≡ q x || any q xs
  unfolding insert_by_age
  any-insert_by_age x [] = refl
  any-insert_by_age x (y ∷ ys) = ground (arith, any-insert_by_age x ys)

  any-sort_by_age : (xs : List OutboxEvent) → any q (sort_by_age xs) ≡ any q xs
  unfolding sort_by_age
  any-sort_by_age [] = refl
  any-sort_by_age (x ∷ xs) =
      ground (arith, any-insert_by_age x (sort_by_age xs), any-sort_by_age xs)

-- A candidate with some identifier is an available, unlocked row with that identifier.
any-candidates :
    (locked : ℕ → Bool) (n now i : ℕ) (es : List OutboxEvent)
    → any (λ e. e.id == i) (candidates locked n now es) ≡ true
    → any (λ e. (is_available now e && not (locked e.id)) && e.id == i) es ≡ true
unfolding candidates
any-candidates locked n now i es h =
    sym (any-keep (λ e. e.id == i) (λ e. is_available now e && not (locked e.id)) es)
    ∙ sym
        (any-sort_by_age (λ e. e.id == i) (keep (λ e. is_available now e && not (locked e.id)) es))
    ∙ any-take (λ e. e.id == i) n _ h

module _ (now token later : ℕ) (early : later < now + claim_lease_ms) where
  -- A row that a claim has just marked is not available until its lease has run out.
  mark_claimed-leased : (e : OutboxEvent) → is_available later (mark_claimed now token e) ≡ false
  unfolding is_available
  mark_claimed-leased e = ground arith

  has_id_of_id :
      (chosen : List OutboxEvent) (e : OutboxEvent) (i : ℕ)
      → any (λ c. c.id == i) chosen ≡ true
      → e.id ≡ i
      → has_id chosen e ≡ true
  has_id_of_id chosen e i h same = rw same h

  -- No row whose identifier was claimed is available in the table that the claim leaves.
  claimed-unavailable :
      (chosen es : List OutboxEvent) (i : ℕ) (other : OutboxEvent → Bool)
      → any (λ c. c.id == i) chosen ≡ true
      → any
          (λ e. (is_available later e && other e) && e.id == i)
          (update_where (has_id chosen) (mark_claimed now token) es)
        ≡ false
  claimed-unavailable chosen [] i other h = refl
  claimed-unavailable chosen (e ∷ es) i other h = elim (Bool-cases (has_id chosen e)) [
    | inl hit ↦ rw (hit, mark_claimed-leased e) (claimed-unavailable chosen es i other h)
    | inr miss ↦
        ground (arith, miss, has_id_of_id chosen e i h, claimed-unavailable chosen es i other h)
  ]

-- What the statement returns was chosen by its first half.
chosen_of_returned :
    (chosen es : List OutboxEvent) (i : ℕ)
    → any (λ e. e.id == i) (keep (has_id chosen) es) ≡ true
    → any (λ c. c.id == i) chosen ≡ true
chosen_of_returned chosen [] i h = ground arith
chosen_of_returned chosen (e ∷ es) i h = elim (Bool-cases (has_id chosen e)) [
  | inl hit ↦ elim (Bool-cases (e.id == i)) [
    | inl same ↦ rw (← (==_iff e.id i).0 same) hit
    | inr other ↦ chosen_of_returned chosen es i (ground (arith, hit, other))
  ]
  | inr miss ↦ chosen_of_returned chosen es i (rw miss at h)
]

module _ (db : Prisma) (t : db.Table OutboxEvent) where
  chosen_of_claim :
      (locked : ℕ → Bool) (batch now token i : ℕ)
      → any (λ e. e.id == i) (claim_outbox_batch db locked batch now token t).1 ≡ true
      → any (λ c. c.id == i) (candidates locked batch now (db.rows t)) ≡ true
  unfolding claim_outbox_batch
  chosen_of_claim locked batch now token i h =
      chosen_of_returned (candidates locked batch now (db.rows t)) _ i h

  rows-claim_outbox_batch :
      (locked : ℕ → Bool) (batch now token : ℕ)
      → db.rows (claim_outbox_batch db locked batch now token t).0
        ≡ update_where
            (has_id (candidates locked batch now (db.rows t)))
            (mark_claimed now token)
            (db.rows t)
  unfolding claim_outbox_batch
  rows-claim_outbox_batch locked batch now token = db.rows_execute_raw _ t

-- Two claims, the second within the lease of the first and on the table as the first left it, return
-- no event twice: if no other write came in between (the release of a failed event is such a write),
-- then whatever rows the peers lock, an identifier that the first returned is not among those of the
-- second.
pub claim_disjoint :
    (db : Prisma) (t : db.Table OutboxEvent) (locked locked' : ℕ → Bool)
    (batch batch' now later token token' i : ℕ)
    → later < now + claim_lease_ms
    → any (λ e. e.id == i) (claim_outbox_batch db locked batch now token t).1 ≡ true
    → any
        (λ e. e.id == i)
        (claim_outbox_batch db locked' batch' later token'
          (claim_outbox_batch db locked batch now token t).0).1
      ≡ false
claim_disjoint db t locked locked' batch batch' now later token token' i early h =
    let t' = (claim_outbox_batch db locked batch now token t).0 in
    let none_left =
      claimed-unavailable now token later early (candidates locked batch now (db.rows t))
        (db.rows t) i (λ e. not (locked' e.id)) (chosen_of_claim db t locked batch now token i h) in
    elim (Bool-cases
      (any (λ e. e.id == i) (claim_outbox_batch db locked' batch' later token' t').1)) [
        | inl again ↦
            let left =
              any-candidates locked' batch' later i (db.rows t')
                (chosen_of_claim db t' locked' batch' later token' i again) in
            let left' = rw (rows-claim_outbox_batch db t locked batch now token) at left in
            cc (none_left, left')
        | inr gone ↦ gone
      ]
