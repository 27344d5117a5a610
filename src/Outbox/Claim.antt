-- ===== src/Outbox/Claim.antt =====
-- `claimOutboxBatch` of src/modules/outbox/outbox.relay.ts: the SQL statement over the rows.
pub mod Laws
use production_backend_found.Prelude.{
  ℕ, ◌+◌, Bool, true, false, not, ◌&&◌, ◌||◌, Option, none, some, List, [], ◌∷◌, leb, ltb, ◌==◌,
  if◌then◌else◌, is_none, is_past, take, keep, any, update_where,
}
use production_backend_found.Store.{Prisma}
use production_backend_found.Outbox.Event.{OutboxEvent, claimed, is_pending, is_claimed}

-- OUTBOX_CLAIM_LEASE_MS.
abbrev pub claim_lease_ms : ℕ
claim_lease_ms = 30000

-- `"expiresAt" IS NULL OR "expiresAt" > now`.
abbrev pub is_unexpired : Option ℕ → ℕ → Bool
is_unexpired none now = true
is_unexpired (some at) now = ltb now at

-- The WHERE clause of `candidates`.
unfoldable pub is_available : ℕ → OutboxEvent → Bool
is_available now e =
    is_none e.deleted_at
    && leb e.available_at now
    && is_unexpired e.expires_at now
    && (is_pending e.status || (is_claimed e.status && is_past e.claim_expires_at now))

-- ORDER BY "createdAt" ASC.
unfoldable pub insert_by_age : OutboxEvent → List OutboxEvent → List OutboxEvent
insert_by_age e [] = e ∷ []
insert_by_age e (x ∷ xs) =
    if leb e.created_at x.created_at then e ∷ x ∷ xs else x ∷ insert_by_age e xs

unfoldable pub sort_by_age : List OutboxEvent → List OutboxEvent
unfolding insert_by_age
sort_by_age [] = []
sort_by_age (x ∷ xs) = insert_by_age x (sort_by_age xs)

-- The rows that the statement selects; `locked` are those that a peer holds (SKIP LOCKED).
unfoldable pub candidates : (ℕ → Bool) → ℕ → ℕ → List OutboxEvent → List OutboxEvent
unfolding is_available sort_by_age
candidates locked batch_size now es =
    take batch_size (sort_by_age (keep (λ e. is_available now e && not (locked e.id)) es))

-- `event."id" = candidates."id"`.
abbrev pub has_id : List OutboxEvent → OutboxEvent → Bool
has_id chosen e = any (λ c. c.id == e.id) chosen

abbrev pub mark_claimed : ℕ → ℕ → OutboxEvent → OutboxEvent
mark_claimed now token e = record e {
  status = claimed;
  claimed_at = some now;
  claim_expires_at = some (now + claim_lease_ms);
  claim_token = some token;
}

-- The new table, and the rows that RETURNING hands back.
module _ (db : Prisma) where
  unfoldable pub claim_outbox_batch :
      (ℕ → Bool) → ℕ → ℕ → ℕ → db.Table OutboxEvent → db.Table OutboxEvent × List OutboxEvent
  claim_outbox_batch locked batch_size now token t =
      let chosen = candidates locked batch_size now (db.rows t) in
      let t' = db.execute_raw (update_where (has_id chosen) (mark_claimed now token)) t in
      (t', keep (has_id chosen) (db.rows t'))
