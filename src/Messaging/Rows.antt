-- ===== src/Messaging/Rows.antt =====
-- Rows of chat_messages and the domain's records of them, in
-- backend/internal/modules/messaging/infra/postgres_repository.go and domain/messaging.go.
use merope.Prelude.{ℕ, Bool, false, Option, none, some, String, if◌then◌else◌}
use merope.Prelude.Text.{str_eq, is_empty}
use merope.Prelude.Outcome.{Result, ok, err}
use merope.Messaging.Store.{Message, Tables, Error, Faults, statement_failed}

-- domain.ChatMessage; instants are in microseconds.
pub record ChatMessage : Type 0 where
  pub id : String
  pub room_id : String
  pub sender_id : String
  pub parent_id : Option String
  pub forwarded_from_id : Option String
  pub content : String
  pub encrypted_payload : Option String
  pub message_type : String
  pub voice_url : String
  pub file_url : String
  pub is_edited : Bool
  pub is_encrypted : Bool
  pub is_deleted : Bool
  pub expires_at : Option ℕ

-- domain.ChatRoom
pub record ChatRoom : Type 0 where
  pub id : String
  pub name : String
  pub is_group : Bool
  pub is_e2ee_enabled : Bool
  pub is_archived : Bool
  pub muted_until : Option ℕ

-- A string that is stored as NULL when it is empty.
abbrev pub text_of : String → Option String
text_of s = if is_empty s then none else some s

abbrev pub payload_of : Option String → Option String
payload_of none = none
payload_of (some p) = text_of p

abbrev pub flag_of : Option Bool → Bool
flag_of none = false
flag_of (some b) = b

-- The row of a message that the statements answer, as a domain.ChatMessage.
unfoldable pub map_message : Message → ChatMessage
map_message m = record {
  id = m.id;
  room_id = m.room_id;
  sender_id = m.author_id;
  parent_id = m.parent_id;
  forwarded_from_id = none;
  content = m.content;
  encrypted_payload = none;
  message_type = m.message_type;
  voice_url = "";
  file_url = "";
  is_edited = m.is_edited;
  is_encrypted = m.is_encrypted;
  is_deleted = false;
  expires_at = none;
}

-- INSERT INTO chat_messages (room_id, author_id, parent_id, content, message_type, voice_url, is_encrypted):
-- the other columns take their defaults.
unfoldable pub new_message :
    String → String → String → Option String → String → String → Option String → Bool → Message
new_message id room author parent content kind voice is_encrypted = record {
  id = id;
  room_id = room;
  author_id = author;
  parent_id = parent;
  forwarded_from_id = none;
  content = content;
  encrypted_payload = none;
  message_type = kind;
  voice_url = voice;
  file_url = none;
  is_edited = false;
  is_pinned = false;
  is_encrypted = is_encrypted;
  is_deleted = false;
  expires_at = none;
}

-- The end of a statement or of a commit.
abbrev pub exec : Faults → ℕ → Tables → Tables → Result Error (Unit {0}) × Tables
exec f n old new =
    if f.fails n then (err statement_failed, if f.kept then new else old) else (ok tt, new)

-- What a call answers when its last statement has succeeded.
abbrev pub answer :
    {A : Type 0} → Result Error (Unit {0}) × Tables → Result Error A → Result Error A × Tables
answer (err e, t) r = (err e, t)
answer (ok _, t) r = (r, t)

-- `column = $n`, for a parameter that may be NULL.
abbrev pub is_id : Option String → String → Bool
is_id none column = false
is_id (some id) column = str_eq column id
