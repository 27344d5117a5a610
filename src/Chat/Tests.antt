-- ===== src/Chat/Tests.antt =====
-- A conversation between two users.
use production_backend_found.Prelude.{
  ℕ, ◌≡◌, ◌≢◌, ◌⊎◌, refl, false, none, some, List, [], ◌∷◌, arith,
}
use production_backend_found.Errors.{ok}
use production_backend_found.Store.Lists.{list_prisma}
use production_backend_found.Chat.{
  ConversationParticipant, Message, text_message, SendMessageInput, ChatTables, send_message,
  insert_message, settle_insertion, check_send, require_participant, mark_read, read_position,
  delete_message, find_own_message,
}
use production_backend_found.Chat.Sequence.{IsDense, seqs}
use production_backend_found.Chat.Calls.{
  ChatCall, send, read_to, delete, perform_chat, perform_peers, run_chat, run_chat-IsDense,
  send_message_retry,
}

abbrev hello : ℕ → SendMessageInput
hello client_id = record {
  client_message_id = client_id;
  body = some 70;
  upload_id = none;
  type = none;
}

abbrev member : ℕ → ConversationParticipant
member user_id = record {
  id = user_id;
  organization_id = none;
  conversation_id = 9;
  user_id = user_id;
  last_read_seq = 0;
  left_at = none;
  deleted_at = none;
}

abbrev empty : ChatTables list_prisma
empty = record {
  conversations =
      record {
        id = 9;
        organization_id = none;
        last_seq = 0;
        last_message_at = none;
        deleted_at = none;
      }
      ∷ [];
  participants = member 1 ∷ member 2 ∷ [];
  messages = [];
  uploads = [];
}

-- Two messages, one of them sent twice, an interruption, a deletion and an acknowledgement.
abbrev calls : List (ChatCall × List ChatCall)
calls =
    (send none 100 31 9 1 (hello 501), send none 101 32 9 2 (hello 502) ∷ [])
    ∷ (send none 102 33 9 1 (hello 501), [])
    ∷ (delete none 103 32 2, [])
    ∷ (read_to none 9 2 2, [])
    ∷ []

calls_run : seqs 9 (run_chat list_prisma calls empty).messages ≡ 2 ∷ 1 ∷ []
unfolding run_chat perform_chat perform_peers send_message insert_message settle_insertion
    check_send require_participant delete_message find_own_message mark_read read_position
calls_run = refl

run_chat-IsDense_example : IsDense list_prisma 9 (run_chat list_prisma calls empty)
run_chat-IsDense_example = run_chat-IsDense list_prisma 9 calls empty (0, (omega arith, refl, refl))

abbrev sent_once : Message
sent_once = record {
  id = 31;
  organization_id = none;
  conversation_id = 9;
  sender_user_id = 1;
  seq = 1;
  client_message_id = 501;
  type = text_message;
  body = some 70;
  upload_id = none;
  deleted_at = none;
}

abbrev started : ChatTables list_prisma
started = record empty { messages = sent_once ∷ [] }

abbrev undisturbed : ChatTables list_prisma → ChatTables list_prisma
undisturbed s = s

send_message_retry_example :
    ((send_message list_prisma none 102 33 9 1 (hello 501) undisturbed started).0
      ≢ ok (sent_once, false))
    × (((send_message list_prisma none 102 33 9 1 (hello 501) undisturbed started).1 ≡ started)
        ⊎ ((send_message list_prisma none 102 33 9 1 (hello 501) undisturbed started).1
            ≡ undisturbed started))
send_message_retry_example =
    send_message_retry list_prisma none 102 33 9 1 (hello 501) undisturbed started sent_once refl
