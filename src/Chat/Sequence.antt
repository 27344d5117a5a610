-- ===== src/Chat/Sequence.antt =====
-- The sequence of a conversation has no gap and no repetition.
use production_backend_found.Prelude.{
  ℕ, zero, suc, ◌≤◌, ◌≡◌, refl, ap, ◌∙◌, Bool, false, not, ◌&&◌, Option, none, some, List, [], ◌∷◌,
  arith, any, any-Memᴰ, tally, tally-update_where, single_apart, update_where, if◌then◌else◌, ◌==◌,
  Bool-cases, Option-cases, inl, inr,
}
use production_backend_found.Errors.{Result-cases}
use production_backend_found.Store.{Prisma, update_one}
use production_backend_found.Store.Laws.{update_one-ok}
use production_backend_found.Chat.{
  Conversation, Message, SendMessageInput, ChatTables, is_writable, bump_seq, is_copy, new_message,
  clashes, insert_message, settle_insertion, delete_message, find_own_message, passes_filter,
}

-- The sequence numbers of a conversation's messages, the latest first.
abbrev pub seqs : ℕ → List Message → List ℕ
seqs k [] = []
seqs k (m ∷ ms) = if m.conversation_id == k then m.seq ∷ seqs k ms else seqs k ms

abbrev pub countdown : ℕ → List ℕ
countdown zero = []
countdown (suc n) = suc n ∷ countdown n

abbrev pub is_conversation : ℕ → Conversation → Bool
is_conversation k c = c.id == k

abbrev is_off : ℕ → ℕ → Conversation → Bool
is_off k n c = is_conversation k c && not (c.last_seq == n)

-- A message is rewritten with its conversation and its number kept.
seqs-update_where :
    (k : ℕ) (p : Message → Bool) (f : Message → Message) (ms : List Message)
    → ((m : Message) → (f m).conversation_id ≡ m.conversation_id)
    → ((m : Message) → (f m).seq ≡ m.seq)
    → seqs k (update_where p f ms) ≡ seqs k ms
seqs-update_where k p f [] same kept = refl
seqs-update_where k p f (m ∷ ms) same kept =
    ground (arith, same m, kept m, seqs-update_where k p f ms same kept)

module _ (active : Option ℕ) (now id k n : ℕ) where
  is_off-bump_seq_other :
      (cs : List Conversation)
      → (id == k) ≡ false
      → any (is_off k n) cs ≡ false
      → any (is_off k n) (update_where (is_writable active id) (bump_seq now) cs) ≡ false
  is_off-bump_seq_other [] other h = refl
  is_off-bump_seq_other (c ∷ cs) other h = ground (arith, other, is_off-bump_seq_other cs)

  is_off-bump_seq :
      (cs : List Conversation)
      → any (λ c. is_conversation k c && not (is_writable active id c)) cs ≡ false
      → any (is_off k n) cs ≡ false
      → any (is_off k (suc n)) (update_where (is_writable active id) (bump_seq now) cs) ≡ false
  is_off-bump_seq [] all_written h = refl
  is_off-bump_seq (c ∷ cs) all_written h = ground (arith, is_off-bump_seq cs)

module _ (db : Prisma) (k : ℕ) where
  -- The conversation has one row at most, and its messages are numbered from `n` down to 1.
  abbrev pub Numbered : ℕ → ChatTables db → Type 0
  Numbered n s =
      (tally (is_conversation k) (db.rows s.conversations) ≤ 1)
      × (any (is_off k n) (db.rows s.conversations) ≡ false)
      × (seqs k (db.rows s.messages) ≡ countdown n)

  abbrev pub IsDense : ChatTables db → Type 0
  IsDense s = (n : ℕ) × Numbered n s

  module _ (active : Option ℕ) (now new_id id user_id : ℕ) (input : SendMessageInput) where
    bumped-tally :
        (cs : db.Table Conversation)
        → tally
            (is_conversation k)
            (db.rows (db.update_many (is_writable active id) (bump_seq now) cs).0)
          ≡ tally (is_conversation k) (db.rows cs)
    bumped-tally cs = rw (db.rows_update_many (is_writable active id) (bump_seq now) cs) (
        tally-update_where (is_conversation k) (is_writable active id) (bump_seq now) (db.rows cs)
          (λ x h. refl))

    -- What an insertion leaves, for the conversation it found.
    added-IsDense :
        (c : Conversation) (n : ℕ) (s : ChatTables db)
        → db.find_first (is_writable active id) s.conversations ≡ some c
        → Numbered n s
        → IsDense (record s {
          conversations = (db.update_many (is_writable active id) (bump_seq now) s.conversations).0;
          messages = db.create (new_message new_id user_id input c) s.messages;
        })
    added-IsDense c n s found (one, same, numbered) =
        let (member, hit) = db.find_first_selects (is_writable active id) s.conversations c found in
        let p = is_writable active id in
        elim (Bool-cases (id == k)) [
          | inl own ↦ (
            suc n,
            (
              rw (bumped-tally s.conversations) one,
              rw (db.rows_update_many p (bump_seq now) s.conversations) (
                  is_off-bump_seq active now id k n (db.rows s.conversations)
                    (single_apart (is_conversation k) (λ x. not (p x)) member
                      (ground (arith, hit, own)) (ground (arith, hit)) one)
                    same),
              rw (db.rows_create (new_message new_id user_id input c) s.messages)
                  (ground (arith, hit, own, numbered, any-Memᴰ (is_off k n) same member)),
            ),
          )
          | inr other ↦ (
            n,
            (
              rw (bumped-tally s.conversations) one,
              rw (db.rows_update_many p (bump_seq now) s.conversations)
                  (is_off-bump_seq_other active now id k n (db.rows s.conversations) other same),
              rw (db.rows_create (new_message new_id user_id input c) s.messages)
                  (ground (arith, hit, other, numbered)),
            ),
          )
        ]

    pub insert_message-IsDense :
        (s : ChatTables db)
        → IsDense s
        → IsDense
            (settle_insertion db active id input.client_message_id
              (insert_message db active now new_id id user_id input s)
              s).1
    unfolding insert_message settle_insertion
    insert_message-IsDense s (n, d) =
        elim (Option-cases (db.find_first (is_writable active id) s.conversations)) [
          | inl none_found ↦ rw (none_found, insert_message) (n, d)
          | inr (c, found) ↦
              let m = new_message new_id user_id input c in
              elim (Bool-cases (any (clashes m) (db.rows s.messages))) [
                | inr free ↦ rw (found, insert_message, free) (added-IsDense c n s found d)
                | inl taken ↦
                    elim (Option-cases
                      (db.find_first (is_copy active id input.client_message_id) s.messages)) [
                        | inl lost ↦
                            rw (found, insert_message, taken, settle_insertion, lost) (n, d)
                        | inr (copy, kept) ↦
                            rw (found, insert_message, taken, settle_insertion, kept) (n, d)
                      ]
              ]
        ]

  pub delete_message-IsDense :
      (active : Option ℕ) (now message_id user_id : ℕ) (meanwhile : ChatTables db → ChatTables db)
      (s : ChatTables db)
      → IsDense (meanwhile s)
      → IsDense s
      → IsDense (delete_message db active now message_id user_id meanwhile s).1
  unfolding delete_message
  delete_message-IsDense active now message_id user_id meanwhile s d h =
      elim (Result-cases (find_own_message db active message_id user_id s)) [
        | inr (e, refused) ↦ rw (refused, delete_message) h
        | inl (m, found) ↦
            let p = λ (x : Message). x.id == m.id && passes_filter active x.organization_id in
            let f =
              λ (x : Message). record x { deleted_at = some now; body = none; upload_id = none } in
            let t = (meanwhile s).messages in
            elim (Result-cases (update_one db p f t)) [
              | inr (e, refused) ↦ rw (found, delete_message, refused) d
              | inl (t', done) ↦
                  rw (found, delete_message, done)
                    (
                      d.0,
                      (
                        d.1.0,
                        d.1.1,
                        ap (seqs k) (
                              ap db.rows (update_one-ok db p f t t' done)
                              ∙ db.rows_update_many p f t)
                            ∙ (seqs-update_where k p f (db.rows t) (λ x. refl) (λ x. refl) ∙ d.1.2),
                      ),
                    )
            ]
      ]
