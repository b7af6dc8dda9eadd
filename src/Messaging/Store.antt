-- ===== src/Messaging/Store.antt =====
-- The tables that backend/internal/modules/messaging/infra/postgres_repository.go reads and writes, as its
-- statements name them. An identifier is a UUID in its canonical text; `none` is the NULL that a text
-- which is no UUID is sent as. Rows are listed newest first, and instants are in microseconds.
use merope.Prelude.{
  ℕ, Bool, true, false, ◌&&◌, Option, none, some, List, [], ◌∷◌, String, if◌then◌else◌,
}
use merope.Prelude.Pairs.{Pairs, pair_eq}
use merope.Prelude.Text.{str_eq}

pub record Room : Type 0 where
  pub id : String
  pub name : String
  pub is_group : Bool
  pub is_e2ee_enabled : Bool

pub record Message : Type 0 where
  pub id : String
  pub room_id : String
  pub author_id : String
  pub parent_id : Option String
  pub forwarded_from_id : Option String
  pub content : String
  pub encrypted_payload : Option String
  pub message_type : String
  pub voice_url : Option String
  pub file_url : Option String
  pub is_edited : Bool
  pub is_pinned : Bool
  pub is_encrypted : Bool
  pub is_deleted : Bool
  pub expires_at : Option ℕ

pub record Rotation : Type 0 where
  pub room_id : String
  pub user_id : String
  pub public_key_id : String
  pub device_id : String

pub record Tables : Type 0 where
  pub rooms : List Room
  pub members : List (String × String)
  pub messages : List Message
  pub reads : Pairs ℕ
  pub reactions : Pairs String
  pub mutes : Pairs ℕ
  pub archives : Pairs Bool
  pub rotations : List Rotation

pub data Error : Type 0 where
  statement_failed invalid_id not_found member_required payload_required integrity unavailable
        reencrypt not_in_rooms mute_too_long repository_missing :
      Error

-- Whether the statement of a number, counted in a call, answers an error, and whether what it was to
-- write is kept all the same, as when the connection breaks before the answer.
pub record Faults : Type 0 where
  pub fails : ℕ → Bool
  pub kept : Bool

unfoldable pub is_member : String → String → List (String × String) → Bool
is_member room user [] = false
is_member room user (m ∷ rest) = if pair_eq m (room, user) then true else is_member room user rest

unfoldable pub find_room : String → List Room → Option Room
find_room id [] = none
find_room id (r ∷ rest) = if str_eq r.id id then some r else find_room id rest

unfoldable pub find_message : String → List Message → Option Message
find_message id [] = none
find_message id (m ∷ rest) = if str_eq m.id id then some m else find_message id rest

-- UPDATE chat_messages, of the rows that the test holds of.
unfoldable pub update_messages :
    (Message → Bool) → (Message → Message) → List Message → List Message
update_messages test f [] = []
update_messages test f (m ∷ rest) = (if test m then f m else m) ∷ update_messages test f rest

-- UPDATE chat_rooms SET is_e2ee_enabled = $2 WHERE id = $1
unfoldable pub set_e2ee : String → Bool → List Room → List Room
set_e2ee id enabled [] = []
set_e2ee id enabled (r ∷ rest) =
    (if str_eq r.id id then record r { is_e2ee_enabled = enabled } else r)
    ∷ set_e2ee id enabled rest

-- EXISTS (... chat_messages cm JOIN chat_members member ... WHERE cm.id = $1 AND member.user_id = $2)
unfoldable pub sees : String → String → List (String × String) → List Message → Bool
unfolding is_member
sees message user members [] = false
sees message user members (m ∷ rest) =
    if str_eq m.id message && is_member m.room_id user members
    then true
    else sees message user members rest
