-- ===== src/Chat/Calls.antt =====
-- The calls that write a conversation, one after the other, each with the calls that others make
-- between its checks and its write.
use production_backend_found.Prelude.{
  ℕ, ◌≡◌, refl, true, false, Option, List, [], ◌∷◌, arith, any, ltb, leb, Bool-cases, Option-cases,
  inl, inr, ◌==◌, ◌&&◌, is_none, ◌≢◌, ◌⊎◌, any_mono,
}
use production_backend_found.Errors.{ok, Result-cases}
use production_backend_found.Store.{Prisma, update_one}
use production_backend_found.Chat.{
  ConversationParticipant, SendMessageInput, Message, ChatTables, passes_filter, is_copy,
  is_writable, new_message, clashes, insert_message, settle_insertion, check_send, send_message,
  mark_read, read_position, delete_message,
}
use production_backend_found.Chat.Sequence.{IsDense, insert_message-IsDense, delete_message-IsDense}

pub data ChatCall : Type 0 where
  send : Option ℕ → ℕ → ℕ → ℕ → ℕ → SendMessageInput → ChatCall
  read_to : Option ℕ → ℕ → ℕ → ℕ → ChatCall
  delete : Option ℕ → ℕ → ℕ → ℕ → ChatCall

module _ (db : Prisma) where
  unfoldable pub perform_chat :
      ChatCall → (ChatTables db → ChatTables db) → ChatTables db → ChatTables db
  perform_chat (send active now new_id id user_id input) meanwhile s =
      (send_message db active now new_id id user_id input meanwhile s).1
  perform_chat (read_to active id user_id seq) meanwhile s =
      (mark_read db active id user_id seq meanwhile s).1
  perform_chat (delete active now message_id user_id) meanwhile s =
      (delete_message db active now message_id user_id meanwhile s).1

  unfoldable pub perform_peers : List ChatCall → ChatTables db → ChatTables db
  perform_peers [] s = s
  perform_peers (c ∷ cs) s = perform_peers cs (perform_chat c (λ x. x) s)

  -- Each call with the calls of others that interrupt it.
  unfoldable pub run_chat : List (ChatCall × List ChatCall) → ChatTables db → ChatTables db
  run_chat [] s = s
  run_chat ((c, peers) ∷ cs) s = run_chat cs (perform_chat c (perform_peers peers) s)

  module _ (k : ℕ) where
    mark_read-IsDense :
        (active : Option ℕ) (id user_id seq : ℕ) (meanwhile : ChatTables db → ChatTables db)
        (s : ChatTables db)
        → IsDense db k (meanwhile s)
        → IsDense db k s
        → IsDense db k (mark_read db active id user_id seq meanwhile s).1
    unfolding mark_read
    mark_read-IsDense active id user_id seq meanwhile s d h =
        elim (Result-cases (read_position db active id user_id s)) [
          | inr (e, refused) ↦ rw (refused, mark_read) h
          | inl (read, found) ↦
              let p = λ (x : ConversationParticipant).
                x.id == read.0.id
                && passes_filter active x.organization_id
                && is_none x.deleted_at in
              let f = λ (x : ConversationParticipant). record x { last_read_seq = seq } in
              rw (found, mark_read)
                (elim (Bool-cases (ltb read.1.last_seq seq)) [
                  | inl ahead ↦ rw ahead h
                  | inr within ↦ elim (Bool-cases (leb seq read.0.last_read_seq)) [
                    | inl known ↦ rw (within, known) h
                    | inr fresh ↦
                        elim (Result-cases (update_one db p f (meanwhile s).participants)) [
                          | inl (t', done) ↦ rw (within, fresh, done) d
                          | inr (e, refused) ↦ rw (within, fresh, refused) d
                        ]
                  ]
                ])
        ]

    send_message-IsDense :
        (active : Option ℕ) (now new_id id user_id : ℕ) (input : SendMessageInput)
        (meanwhile : ChatTables db → ChatTables db) (s : ChatTables db)
        → IsDense db k (meanwhile s)
        → IsDense db k s
        → IsDense db k (send_message db active now new_id id user_id input meanwhile s).1
    unfolding send_message
    send_message-IsDense active now new_id id user_id input meanwhile s d h =
        elim (Result-cases (check_send db active id user_id input s)) [
          | inr (e, refused) ↦ rw (refused, send_message) h
          | inl (_, passed) ↦
              rw (passed, send_message)
                (insert_message-IsDense db k active now new_id id user_id input (meanwhile s) d)
        ]

    perform_chat-IsDense :
        (c : ChatCall) (meanwhile : ChatTables db → ChatTables db) (s : ChatTables db)
        → IsDense db k (meanwhile s)
        → IsDense db k s
        → IsDense db k (perform_chat c meanwhile s)
    unfolding perform_chat
    perform_chat-IsDense (send active now new_id id user_id input) meanwhile s d h =
        send_message-IsDense active now new_id id user_id input meanwhile s d h
    perform_chat-IsDense (read_to active id user_id seq) meanwhile s d h =
        mark_read-IsDense active id user_id seq meanwhile s d h
    perform_chat-IsDense (delete active now message_id user_id) meanwhile s d h =
        delete_message-IsDense db k active now message_id user_id meanwhile s d h

    perform_peers-IsDense :
        (cs : List ChatCall) (s : ChatTables db)
        → IsDense db k s
        → IsDense db k (perform_peers cs s)
    unfolding perform_peers
    perform_peers-IsDense [] s h = h
    perform_peers-IsDense (c ∷ cs) s h =
        perform_peers-IsDense cs (perform_chat c (λ x. x) s) (perform_chat-IsDense c (λ x. x) s h h)

    -- If a conversation has one row at most and its messages are numbered without gap or repetition
    -- from its last number down to 1, then so after any list of calls that send, read and delete
    -- messages in any conversation, by any users and of any organization, each interrupted by any
    -- calls of the same kinds between its checks and its write.
    pub run_chat-IsDense :
        (cs : List (ChatCall × List ChatCall)) (s : ChatTables db)
        → IsDense db k s
        → IsDense db k (run_chat cs s)
    unfolding run_chat
    run_chat-IsDense [] s h = h
    run_chat-IsDense ((c, peers) ∷ cs) s h =
        run_chat-IsDense cs (perform_chat c (perform_peers peers) s)
          (perform_chat-IsDense c (perform_peers peers) s (perform_peers-IsDense peers s h) h)

  -- A message that was sent already is not sent again: if the conversation has a message with the
  -- client's identifier when the insertion runs, then the answer is no new message, and the tables
  -- are as they were at the start or as others left them meanwhile.
  pub send_message_retry :
      (active : Option ℕ) (now new_id id user_id : ℕ) (input : SendMessageInput)
      (meanwhile : ChatTables db → ChatTables db) (s : ChatTables db) (m : Message)
      → any
          (λ x. x.conversation_id == id && x.client_message_id == input.client_message_id)
          (db.rows (meanwhile s).messages)
        ≡ true
      → ((send_message db active now new_id id user_id input meanwhile s).0 ≢ ok (m, false))
        × (((send_message db active now new_id id user_id input meanwhile s).1 ≡ s)
            ⊎ ((send_message db active now new_id id user_id input meanwhile s).1 ≡ meanwhile s))
  unfolding send_message insert_message settle_insertion
  send_message_retry active now new_id id user_id input meanwhile s m sent =
      let s' = meanwhile s in
      elim (Result-cases (check_send db active id user_id input s)) [
        | inr (e, refused) ↦ rw (refused, send_message) (λ k. ground (arith, k), inl refl)
        | inl (_, passed) ↦
            elim (Option-cases (db.find_first (is_writable active id) s'.conversations)) [
              | inl lost ↦
                  rw (passed, send_message, insert_message, settle_insertion, lost)
                    (λ k. ground (arith, k), inr refl)
              | inr (c, found) ↦
                  let (_, hit) =
                    db.find_first_selects (is_writable active id) s'.conversations c found in
                  let taken : any (clashes (new_message new_id user_id input c))
                        (db.rows s'.messages)
                      ≡ true =
                    any_mono
                      (λ x.
                        x.conversation_id == id && x.client_message_id == input.client_message_id)
                      (clashes (new_message new_id user_id input c)) (db.rows s'.messages)
                      (λ x k. ground (arith, k, hit)) sent in
                  elim (Option-cases
                    (db.find_first (is_copy active id input.client_message_id) s'.messages)) [
                      | inl lost ↦
                          rw
                            (
                              passed, send_message, insert_message, settle_insertion, found, taken,
                              lost,
                            )
                            (λ k. ground (arith, k), inr refl)
                      | inr (copy, kept) ↦
                          rw
                            (
                              passed, send_message, insert_message, settle_insertion, found, taken,
                              kept,
                            )
                            (λ k. ground (arith, k), inr refl)
                    ]
            ]
      ]
