-- ===== src/Chat.antt =====
-- src/modules/chat/chat.service.ts: conversations, their messages and what has been read. The
-- active organization is a parameter; client identifiers and bodies are numbers that are only
-- compared. `meanwhile` is what others write between the checks of an operation and its write.
pub mod Sequence
pub mod Calls
mod Tests
use production_backend_found.Prelude.{
  ℕ, ◌+◌, ◌-◌, Bool, true, false, not, ◌&&◌, ◌||◌, Option, none, some, String, List, ◌==◌, leb, ltb,
  is_none, is_some, is_at, any, if◌then◌else◌,
}
use production_backend_found.Errors.{
  Result, ok, err, ◌>>=◌, ◌>>◌, throw_if, or_throw, bad_request_error, forbidden_error,
  not_found_error, plain_error,
}
use production_backend_found.Store.{Prisma, update_one, create_unique}
use production_backend_found.Uploads.{Upload, is_ready, is_live_of}

pub record Conversation : Type 0 where
  pub id : ℕ
  pub organization_id : Option ℕ
  pub last_seq : ℕ
  pub last_message_at : Option ℕ
  pub deleted_at : Option ℕ

pub record ConversationParticipant : Type 0 where
  pub id : ℕ
  pub organization_id : Option ℕ
  pub conversation_id : ℕ
  pub user_id : ℕ
  pub last_read_seq : ℕ
  pub left_at : Option ℕ
  pub deleted_at : Option ℕ

pub data MessageType : Type 0 where
  text_message attachment : MessageType

pub record Message : Type 0 where
  pub id : ℕ
  pub organization_id : Option ℕ
  pub conversation_id : ℕ
  pub sender_user_id : ℕ
  pub seq : ℕ
  pub client_message_id : ℕ
  pub type : MessageType
  pub body : Option ℕ
  pub upload_id : Option ℕ
  pub deleted_at : Option ℕ

pub record SendMessageInput : Type 0 where
  pub client_message_id : ℕ
  pub body : Option ℕ
  pub upload_id : Option ℕ
  pub type : Option MessageType

pub record ChatTables (db : Prisma) : Type 0 where
  pub conversations : db.Table Conversation
  pub participants : db.Table ConversationParticipant
  pub messages : db.Table Message
  pub uploads : db.Table Upload

-- `organizationFilter`: no organization, no condition.
abbrev pub passes_filter : Option ℕ → Option ℕ → Bool
passes_filter none column = true
passes_filter (some active) column = is_at column active

-- `tenantPredicate`: no organization is the `NULL` of the column.
abbrev pub is_of_tenant : Option ℕ → Option ℕ → Bool
is_of_tenant none column = is_none column
is_of_tenant (some active) column = is_at column active

abbrev pub is_live_conversation : ℕ → Conversation → Bool
is_live_conversation id c = c.id == id && is_none c.deleted_at

abbrev pub is_writable : Option ℕ → ℕ → Conversation → Bool
is_writable active id c = is_live_conversation id c && is_of_tenant active c.organization_id

abbrev pub bump_seq : ℕ → Conversation → Conversation
bump_seq now c = record c { last_seq = c.last_seq + 1; last_message_at = some now }

abbrev type_or : Option MessageType → Option ℕ → MessageType
type_or (some t) upload_id = t
type_or none none = text_message
type_or none (some u) = attachment

abbrev pub new_message : ℕ → ℕ → SendMessageInput → Conversation → Message
new_message new_id user_id input c = record {
  id = new_id;
  organization_id = c.organization_id;
  conversation_id = c.id;
  sender_user_id = user_id;
  seq = c.last_seq + 1;
  client_message_id = input.client_message_id;
  type = type_or input.type input.upload_id;
  body = input.body;
  upload_id = input.upload_id;
  deleted_at = none;
}

-- The two unique keys of a message.
abbrev pub clashes : Message → Message → Bool
clashes new m =
    m.conversation_id == new.conversation_id
    && (m.seq == new.seq || m.client_message_id == new.client_message_id)

-- The copy of a message that was sent already.
abbrev pub is_copy : Option ℕ → ℕ → ℕ → Message → Bool
is_copy active conversation_id client_message_id m =
    passes_filter active m.organization_id
    && m.conversation_id == conversation_id
    && m.client_message_id == client_message_id

module _ (db : Prisma) where
  -- `where` of `requireParticipant`, its conversation included.
  abbrev pub participates :
      Option ℕ → db.Table Conversation → ℕ → ℕ → ConversationParticipant → Bool
  participates active conversations conversation_id user_id p =
      passes_filter active p.organization_id
      && p.conversation_id == conversation_id
      && p.user_id == user_id
      && is_none p.left_at
      && is_none p.deleted_at
      && any (is_live_conversation conversation_id) (db.rows conversations)

  unfoldable pub require_participant :
      Option ℕ → ℕ → ℕ → ChatTables db → Result ConversationParticipant
  require_participant active conversation_id user_id s =
      or_throw
        (db.find_first (participates active s.conversations conversation_id user_id) s.participants)
        not_found_error

  abbrev is_usable_upload : ℕ → Option ℕ → db.Table Upload → Bool
  is_usable_upload user_id none t = true
  is_usable_upload user_id (some id) t =
      is_some (db.find_first (λ u. is_live_of id user_id u && is_ready u.status) t)

  -- The one statement that counts up the sequence and inserts the message: no conversation, a clash
  -- of unique keys that undoes both, or the message.
  pub data Insertion : Type 0 where
    missing collision : Insertion
    inserted : Message → ChatTables db → Insertion

  unfoldable pub insert_message :
      Option ℕ → ℕ → ℕ → ℕ → ℕ → SendMessageInput → ChatTables db → Insertion
  insert_message active now new_id conversation_id user_id input s =
      elim (db.find_first (is_writable active conversation_id) s.conversations) [
        | none ↦ missing
        | some c ↦
            let m = new_message new_id user_id input c in
            elim (create_unique db (clashes m) m s.messages) [
              | none ↦ collision
              | some messages ↦ inserted m (record s {
                conversations =
                    (db.update_many (is_writable active conversation_id) (bump_seq now)
                      s.conversations).0;
                messages = messages;
              })
            ]
      ]

  -- The `try` and its `catch`; the Boolean of the answer is `duplicate`.
  unfoldable pub settle_insertion :
      Option ℕ → ℕ → ℕ → Insertion → ChatTables db → Result (Message × Bool) × ChatTables db
  settle_insertion active conversation_id client_message_id missing s = (err not_found_error, s)
  settle_insertion active conversation_id client_message_id (inserted m s') s = (ok (m, false), s')
  settle_insertion active conversation_id client_message_id collision s =
      elim (db.find_first (is_copy active conversation_id client_message_id) s.messages) [
        | some m ↦ (ok (m, true), s)
        | none ↦ (err plain_error, s)
      ]

  unfoldable pub check_send :
      Option ℕ → ℕ → ℕ → SendMessageInput → ChatTables db → Result (Unit {0})
  check_send active conversation_id user_id input s = do
    participant ← require_participant active conversation_id user_id s
    throw_if (not (is_usable_upload user_id input.upload_id s.uploads)) bad_request_error

  unfoldable pub send_message :
      Option ℕ
      → ℕ
      → ℕ
      → ℕ
      → ℕ
      → SendMessageInput
      → (ChatTables db → ChatTables db)
      → ChatTables db
      → Result (Message × Bool) × ChatTables db
  send_message active now new_id conversation_id user_id input meanwhile s =
      elim (check_send active conversation_id user_id input s) [
        | err e ↦ (err e, s)
        | ok _ ↦
            settle_insertion active conversation_id input.client_message_id
              (insert_message active now new_id conversation_id user_id input (meanwhile s))
              (meanwhile s)
      ]

  -- The participant and the conversation's last sequence that it is read with.
  unfoldable pub read_position :
      Option ℕ → ℕ → ℕ → ChatTables db → Result (ConversationParticipant × Conversation)
  read_position active conversation_id user_id s = do
    participant ← require_participant active conversation_id user_id s
    conversation ←
        or_throw (db.find_first (is_live_conversation conversation_id) s.conversations)
          not_found_error
    ok (participant, conversation)

  unfoldable pub mark_read :
      Option ℕ
      → ℕ
      → ℕ
      → ℕ
      → (ChatTables db → ChatTables db)
      → ChatTables db
      → Result ℕ × ChatTables db
  mark_read active conversation_id user_id seq meanwhile s =
      elim (read_position active conversation_id user_id s) [
        | err e ↦ (err e, s)
        | ok read ↦
            if ltb read.1.last_seq seq
            then (err bad_request_error, s)
            else if leb seq read.0.last_read_seq
            then (ok read.0.last_read_seq, s)
            else elim (update_one db
                (λ p.
                  p.id == read.0.id
                  && passes_filter active p.organization_id
                  && is_none p.deleted_at)
                (λ p. record p { last_read_seq = seq }) (meanwhile s).participants) [
                  | err e ↦ (err e, meanwhile s)
                  | ok participants ↦ (ok seq, record (meanwhile s) { participants = participants })
                ]
      ]

  -- The message that a user may delete.
  unfoldable pub find_own_message : Option ℕ → ℕ → ℕ → ChatTables db → Result Message
  find_own_message active message_id user_id s = do
    message ←
        or_throw
          (db.find_first
            (λ m.
              passes_filter active m.organization_id && m.id == message_id && is_none m.deleted_at)
            s.messages)
          not_found_error
    participant ← require_participant active message.conversation_id user_id s
    throw_if (not (message.sender_user_id == user_id)) forbidden_error
    ok message

  -- `Message` is not filtered for deleted rows.
  unfoldable pub delete_message :
      Option ℕ
      → ℕ
      → ℕ
      → ℕ
      → (ChatTables db → ChatTables db)
      → ChatTables db
      → Result (Unit {0}) × ChatTables db
  delete_message active now message_id user_id meanwhile s =
      elim (find_own_message active message_id user_id s) [
        | err e ↦ (err e, s)
        | ok message ↦
            elim (update_one db (λ m. m.id == message.id && passes_filter active m.organization_id)
              (λ m. record m { deleted_at = some now; body = none; upload_id = none })
              (meanwhile s).messages) [
                | err e ↦ (err e, meanwhile s)
                | ok messages ↦ (ok tt, record (meanwhile s) { messages = messages })
              ]
      ]
