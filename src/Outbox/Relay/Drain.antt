-- ===== src/Outbox/Relay/Drain.antt =====
-- A tick of the relay takes every event that was there for it.
use production_backend_found.Prelude.{
  ℕ, zero, suc, ◌+◌, ◌*◌, ◌≤◌, ◌<◌, ◌||◌, leb, is_none, is_past, ◌≡◌, refl, ap, ◌∙◌, Bool, true,
  false, not, ◌&&◌, Option, String, List, [], ◌∷◌, arith, all, tally, length, take, keep, ltb,
  if◌then◌else◌, update_where, tally-update_where-le, tally-update_where, Option-cases, Bool-cases,
  inl, inr,
}
use production_backend_found.Store.{Prisma}
use production_backend_found.Outbox.Event.{OutboxEvent, is_pending, is_claimed}
use production_backend_found.Outbox.Claim.{
  is_available, is_unexpired, claim_lease_ms, insert_by_age, sort_by_age, candidates, has_id,
  mark_claimed, claim_outbox_batch,
}
use production_backend_found.Outbox.Action.{
  enqueue_retry_delay_ms, holds_claim, release_claim, mark_enqueued,
}
use production_backend_found.Outbox.Relay.{
  enqueue_claimed_event, enqueue_all, relay_outbox_batch, relay_batches, relay_available_outbox,
  outbox_batch_size, max_batches_per_tick,
}

-- An event that a relay may claim at some time until `finish`, its expiry left aside.
abbrev pub is_due : (ℕ → Bool) → ℕ → OutboxEvent → Bool
is_due locked finish e =
    is_none e.deleted_at
    && leb e.available_at finish
    && (is_pending e.status || (is_claimed e.status && is_past e.claim_expires_at finish))
    && not (locked e.id)

-- An event that a relay may claim at `now`.
abbrev pub is_claimable : (ℕ → Bool) → ℕ → OutboxEvent → Bool
is_claimable locked now e = is_available now e && not (locked e.id)

-- An event that a relay may claim all the time from `start` to `finish`.
abbrev pub is_waiting : (ℕ → Bool) → ℕ → ℕ → OutboxEvent → Bool
is_waiting locked start finish e = is_claimable locked start e && is_unexpired e.expires_at finish

module _ (q : OutboxEvent → Bool) where
  tally-keep :
      (p : OutboxEvent → Bool) (es : List OutboxEvent)
      → tally q (keep p es) ≡ tally (λ e. p e && q e) es
  tally-keep p [] = refl
  tally-keep p (e ∷ es) = ground (arith, tally-keep p es)

  tally-insert_by_age :
      (e : OutboxEvent) (es : List OutboxEvent) → tally q (insert_by_age e es) ≡ tally q (e ∷ es)
  unfolding insert_by_age
  tally-insert_by_age e [] = refl
  tally-insert_by_age e (x ∷ xs) = ground (arith, tally-insert_by_age e xs)

  tally-sort_by_age : (es : List OutboxEvent) → tally q (sort_by_age es) ≡ tally q es
  unfolding sort_by_age
  tally-sort_by_age [] = refl
  tally-sort_by_age (e ∷ es) =
      tally-insert_by_age e (sort_by_age es) ∙ ground (arith, tally-sort_by_age es)

  tally-take-le : (n : ℕ) (es : List OutboxEvent) → tally q (take n es) ≤ tally q es
  tally-take-le zero es = omega arith
  tally-take-le (suc n) [] = omega arith
  tally-take-le (suc n) (e ∷ es) = ground (arith, tally-take-le n es)

  tally-all : (es : List OutboxEvent) → all q es ≡ true → tally q es ≡ length es
  tally-all [] h = refl
  tally-all (e ∷ es) h = ground (arith, h, tally-all es)

length-tally : (es : List OutboxEvent) → length es ≡ tally (λ _. true) es
length-tally [] = refl
length-tally (e ∷ es) = ground (arith, length-tally es)

length-take :
    (n : ℕ) (es : List OutboxEvent)
    → length (take n es) ≡ (if ltb (length es) n then length es else n)
length-take zero es = ground arith
length-take (suc n) [] = ground arith
length-take (suc n) (e ∷ es) = ground (arith, length-take n es)

has_id-cons :
    (c : OutboxEvent) (cs es : List OutboxEvent)
    → all (has_id cs) es ≡ true
    → all (has_id (c ∷ cs)) es ≡ true
has_id-cons c cs [] h = refl
has_id-cons c cs (e ∷ es) h = ground (arith, h, has_id-cons c cs es)

has_id_own : (cs : List OutboxEvent) → all (has_id cs) cs ≡ true
has_id_own [] = refl
has_id_own (c ∷ cs) = ground (arith, has_id-cons c cs cs (has_id_own cs))

-- What is claimed leaves the claimable.
tally-mark_claimed :
    (locked : ℕ → Bool) (now token : ℕ) (chosen es : List OutboxEvent)
    → tally (is_claimable locked now) (update_where (has_id chosen) (mark_claimed now token) es)
        + tally (λ e. is_claimable locked now e && has_id chosen e) es
      ≡ tally (is_claimable locked now) es
unfolding is_available
tally-mark_claimed locked now token chosen [] = refl
tally-mark_claimed locked now token chosen (e ∷ es) =
    ground (arith, tally-mark_claimed locked now token chosen es)

-- What is claimed is not due again before its lease has run out.
tally-mark_claimed_due :
    (locked : ℕ → Bool) (now finish token : ℕ) (chosen es : List OutboxEvent)
    → finish < now + claim_lease_ms
    → tally (is_due locked finish) (update_where (has_id chosen) (mark_claimed now token) es)
        + tally (λ e. is_due locked finish e && has_id chosen e) es
      ≡ tally (is_due locked finish) es
tally-mark_claimed_due locked now finish token chosen [] soon = refl
tally-mark_claimed_due locked now finish token chosen (e ∷ es) soon =
    ground (arith, soon, tally-mark_claimed_due locked now finish token chosen es soon)

tally_mono :
    (p q : OutboxEvent → Bool) (es : List OutboxEvent)
    → ((e : OutboxEvent) → p e ≡ true → q e ≡ true)
    → tally p es ≤ tally q es
tally_mono p q [] h = omega arith
tally_mono p q (e ∷ es) h = ground (arith, h e, tally_mono p q es h)

module _ (db : Prisma) (locked : ℕ → Bool) (now finish : ℕ) (from_now : now ≤ finish)
    (soon : finish < now + claim_lease_ms) where
  abbrev claimable : db.Table OutboxEvent → ℕ
  claimable t = tally (is_claimable locked now) (db.rows t)

  abbrev due : db.Table OutboxEvent → ℕ
  due t = tally (is_due locked finish) (db.rows t)

  -- A batch takes as many of the claimable as it may, and says at least how many.
  claim_outbox_batch-claimable :
      (n token : ℕ) (t : db.Table OutboxEvent)
      → let r = claim_outbox_batch db locked n now token t in
        (claimable r.0 + (if ltb (claimable t) n then claimable t else n) ≤ claimable t)
        × ((if ltb (claimable t) n then claimable t else n) ≤ length r.1)
        × (due r.0 + (if ltb (claimable t) n then claimable t else n) ≤ due t)
  unfolding claim_outbox_batch candidates is_available
  claim_outbox_batch-claimable n token t =
      let sorted = sort_by_age (keep (is_claimable locked now) (db.rows t)) in
      let chosen = take n sorted in
      let t' = db.execute_raw (update_where (has_id chosen) (mark_claimed now token)) t in
      let both = λ (e : OutboxEvent). is_claimable locked now e && has_id chosen e in
      let own = tally-all (has_id chosen) chosen (has_id_own chosen) in
      let taken = tally-take-le (has_id chosen) n sorted in
      let spread =
        tally-sort_by_age (has_id chosen) (keep (is_claimable locked now) (db.rows t))
        ∙ tally-keep (has_id chosen) (is_claimable locked now) (db.rows t) in
      let size =
        length-tally sorted
        ∙ (tally-sort_by_age (λ _. true) (keep (is_claimable locked now) (db.rows t))
            ∙ tally-keep (λ _. true) (is_claimable locked now) (db.rows t)) in
      let all_of =
        tally_mono (is_claimable locked now) (λ e. is_claimable locked now e && true) (db.rows t)
          (λ e h. ground (arith, h)) in
      let none_else =
        tally_mono (λ e. is_claimable locked now e && true) (is_claimable locked now) (db.rows t)
          (λ e h. ground (arith, h)) in
      let cut = length-take n sorted in
      let left =
        ap (tally (is_claimable locked now))
          (db.rows_execute_raw (update_where (has_id chosen) (mark_claimed now token)) t) in
      let moved = tally-mark_claimed locked now token chosen (db.rows t) in
      let told =
        length-tally (keep (has_id chosen) (db.rows t'))
        ∙ (tally-keep (λ _. true) (has_id chosen) (db.rows t')
            ∙ (ap (tally (λ e. has_id chosen e && true))
                  (db.rows_execute_raw (update_where (has_id chosen) (mark_claimed now token)) t)
                ∙ tally-update_where (λ e. has_id chosen e && true) (has_id chosen)
                    (mark_claimed now token) (db.rows t) (λ e h. refl))) in
      let within =
        tally_mono both (λ e. has_id chosen e && true) (db.rows t) (λ e h. ground (arith, h)) in
      let enough : length chosen ≤ tally both (db.rows t) = omega (arith, own, taken, spread) in
      let exact : length chosen ≡ (if ltb (claimable t) n then claimable t else n) =
        ground (arith, cut, size, all_of, none_else) in
      let left_due =
        ap (tally (is_due locked finish))
          (db.rows_execute_raw (update_where (has_id chosen) (mark_claimed now token)) t) in
      let moved_due = tally-mark_claimed_due locked now finish token chosen (db.rows t) soon in
      let were_due =
        tally_mono both (λ e. is_due locked finish e && has_id chosen e) (db.rows t)
          (λ e h. ground (arith, h, from_now)) in
      (
        ground (arith, left, moved, enough, exact),
        ground (arith, told, within, enough, exact),
        ground (arith, left_due, moved_due, were_due, enough, exact),
      )

-- A count of events that a write of this tick never raises.
module _ (db : Prisma) (q : OutboxEvent → Bool) where
  -- Neither an enqueued event nor one that is put back counts.
  module _ (add : OutboxEvent → Option String) (start : ℕ)
      (out : (now : ℕ)
        → start ≤ now
        → (e : OutboxEvent)
        → (q (mark_enqueued now e) ≡ false)
          × ((message : String) → q (release_claim now message e) ≡ false)) where
    tally-enqueue_claimed_event :
        (now : ℕ) (e : OutboxEvent) (t : db.Table OutboxEvent)
        → start ≤ now
        → tally q (db.rows (enqueue_claimed_event db now e add t).1) ≤ tally q (db.rows t)
    unfolding enqueue_claimed_event
    tally-enqueue_claimed_event now e t late = elim (Option-cases e.claim_token) [
      | inl lost ↦ rw (lost, enqueue_claimed_event) (omega arith)
      | inr (token, held) ↦ elim (Option-cases (add e)) [
        | inl added ↦
            rw (held, enqueue_claimed_event, added, db.rows_update_many)
              (tally-update_where-le q (holds_claim e.id token) (mark_enqueued now) (db.rows t)
                (λ x h. absurd (ground (arith, h, (out now late x).0))))
        | inr (message, failed) ↦
            rw (held, enqueue_claimed_event, failed, db.rows_update_many)
              (tally-update_where-le q (holds_claim e.id token) (release_claim now message)
                (db.rows t) (λ x h. absurd (ground (arith, h, (out now late x).1 message))))
      ]
    ]

    tally-enqueue_all :
        (settled_at : OutboxEvent → ℕ) (events : List OutboxEvent) (t : db.Table OutboxEvent)
        → ((e : OutboxEvent) → start ≤ settled_at e)
        → tally q (db.rows (enqueue_all db settled_at add events t)) ≤ tally q (db.rows t)
    unfolding enqueue_all
    tally-enqueue_all settled_at [] t late = omega arith
    tally-enqueue_all settled_at (e ∷ es) t late = omega (
      arith,
      tally-enqueue_all settled_at es (enqueue_claimed_event db (settled_at e) e add t).1 late,
      tally-enqueue_claimed_event (settled_at e) e t (late e),
    )

module _ (db : Prisma) (locked : ℕ → Bool) (start finish : ℕ)
    (short : finish < start + enqueue_retry_delay_ms) (claimed_at : ℕ → ℕ)
    (settled_at : ℕ → OutboxEvent → ℕ)
    (claims : (batch : ℕ) → (start ≤ claimed_at batch) × (claimed_at batch ≤ finish))
    (settles : (batch : ℕ) (e : OutboxEvent) → start ≤ settled_at batch e) (token : ℕ → ℕ)
    (add : OutboxEvent → Option String) where
  abbrev waiting : db.Table OutboxEvent → ℕ
  waiting t = tally (is_waiting locked start finish) (db.rows t)

  abbrev due_in : db.Table OutboxEvent → ℕ
  due_in t = tally (is_due locked finish) (db.rows t)

  waiting-enqueue_all :
      (batch : ℕ) (events : List OutboxEvent) (t : db.Table OutboxEvent)
      → waiting (enqueue_all db (settled_at batch) add events t) ≤ waiting t
  unfolding is_available
  waiting-enqueue_all batch events t =
      tally-enqueue_all db (is_waiting locked start finish) add start
        (λ now late e. (ground arith, λ message. ground (arith, late))) (settled_at batch) events t
        (settles batch)

  due-enqueue_all :
      (batch : ℕ) (events : List OutboxEvent) (t : db.Table OutboxEvent)
      → due_in (enqueue_all db (settled_at batch) add events t) ≤ due_in t
  due-enqueue_all batch events t =
      tally-enqueue_all db (is_due locked finish) add start
        (λ now late e. (ground arith, λ message. ground (arith, late, short))) (settled_at batch)
        events t (settles batch)

  waiting-claim_outbox_batch :
      (n now id : ℕ) (t : db.Table OutboxEvent)
      → start ≤ now
      → waiting (claim_outbox_batch db locked n now id t).0 ≤ waiting t
  unfolding claim_outbox_batch is_available
  waiting-claim_outbox_batch n now id t late =
      let chosen = candidates locked n now (db.rows t) in
      rw (db.rows_execute_raw (update_where (has_id chosen) (mark_claimed now id)) t) (
        tally-update_where-le (is_waiting locked start finish) (has_id chosen) (mark_claimed now id)
          (db.rows t) (λ x h. absurd (ground (arith, h, late))))

  waiting-relay_batches :
      (batches : ℕ) (t : db.Table OutboxEvent)
      → waiting (relay_batches db batches locked claimed_at settled_at token add t).0 ≤ waiting t
  unfolding relay_batches relay_outbox_batch
  waiting-relay_batches zero t = omega arith
  waiting-relay_batches (suc batches) t =
      let now = claimed_at batches in
      let r = claim_outbox_batch db locked outbox_batch_size now (token batches) t in
      let t' = enqueue_all db (settled_at batches) add r.1 r.0 in
      let claimed =
        waiting-claim_outbox_batch outbox_batch_size now (token batches) t (claims batches).0 in
      let settled = waiting-enqueue_all batches r.1 r.0 in
      let rest = waiting-relay_batches batches t' in
      elim (Bool-cases (ltb (length r.1) outbox_batch_size)) [
        | inl few ↦ rw (few, relay_batches, relay_outbox_batch) (omega (arith, claimed, settled))
        | inr full ↦
            rw (full, relay_batches, relay_outbox_batch) (omega (arith, claimed, settled, rest))
      ]

  relay_batches-drains :
      (batches : ℕ) (t : db.Table OutboxEvent)
      → due_in t ≤ batches * outbox_batch_size
      → waiting (relay_batches db batches locked claimed_at settled_at token add t).0 ≡ 0
  unfolding relay_batches relay_outbox_batch is_available
  relay_batches-drains zero t h =
      let within =
        tally_mono (is_waiting locked start finish) (is_due locked finish) (db.rows t)
          (λ e k. ground (arith, k, claims 0)) in
      omega (arith, h, within)
  relay_batches-drains (suc batches) t h =
      let now = claimed_at batches in
      let r = claim_outbox_batch db locked outbox_batch_size now (token batches) t in
      let t' = enqueue_all db (settled_at batches) add r.1 r.0 in
      let (left, told, fewer) =
        claim_outbox_batch-claimable db locked now finish (claims batches).1
          (omega (arith, short, claims batches)) outbox_batch_size (token batches) t in
      let within =
        tally_mono (is_waiting locked start finish) (is_claimable locked now) (db.rows r.0)
          (λ e k. ground (arith, k, claims batches)) in
      let settled = waiting-enqueue_all batches r.1 r.0 in
      let settled_due = due-enqueue_all batches r.1 r.0 in
      let rest = waiting-relay_batches batches t' in
      elim (Bool-cases (ltb (tally (is_claimable locked now) (db.rows t)) outbox_batch_size)) [
        | inl all_taken ↦
            let gone : waiting t' ≡ 0 = ground (arith, all_taken, left, within, settled) in
            elim (Bool-cases (ltb (length r.1) outbox_batch_size)) [
              | inl few ↦ rw (few, relay_batches, relay_outbox_batch) gone
              | inr full ↦ rw (full, relay_batches, relay_outbox_batch) (omega (arith, gone, rest))
            ]
        | inr more ↦
            let full : ltb (length r.1) outbox_batch_size ≡ false = ground (arith, more, told) in
            rw (full, relay_batches, relay_outbox_batch)
              (relay_batches-drains batches t' (ground (arith, more, fewer, settled_due, h)))
      ]

  -- No event is left waiting by a tick that is not refused, in which nobody else writes: if the times
  -- that it reads lie within less than the five seconds of the retry delay, and at most a tick's ten
  -- batches of a hundred events are due until its end, by their status, times and locks, then it
  -- leaves no event that may be claimed all that time, whatever the queue answers.
  pub relay_available_outbox-drains :
      (t : db.Table OutboxEvent)
      → tally (is_due locked finish) (db.rows t) ≤ max_batches_per_tick * outbox_batch_size
      → tally
          (is_waiting locked start finish)
          (db.rows (relay_available_outbox db false locked claimed_at settled_at token add t).0)
        ≡ 0
  unfolding relay_available_outbox
  relay_available_outbox-drains t h = relay_batches-drains max_batches_per_tick t h
