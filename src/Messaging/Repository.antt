-- ===== src/Messaging/Repository.antt =====
-- The functions of backend/internal/modules/messaging/infra/postgres_repository.go that change the tables, and
-- the reads that the service decides by. `scan_uuid` is pgtype's, and gives the canonical text;
-- `uuid_in` is the database's own reading of a text that is sent as it is.
use merope.Prelude.{
  ℕ, suc, Bool, true, false, ◌&&◌, ◌||◌, Option, none, some, List, [], ◌∷◌, String, if◌then◌else◌,
}
use merope.Prelude.Text.{str_eq, is_empty, trim_space}
use merope.Prelude.Outcome.{Result, ok, err}
use merope.Messaging.Store.{
  Room, Message, Tables, Error, Faults, statement_failed, invalid_id, not_found, member_required,
  find_room, find_message, update_messages,
}
use merope.Messaging.Rows.{
  ChatMessage, ChatRoom, text_of, payload_of, map_message, new_message, exec, answer, is_id,
}

unfoldable pub is_seen : String → List String → Bool
is_seen u [] = false
is_seen u (v ∷ vs) = let below = is_seen u vs in if str_eq u v then true else below

unfoldable pub find_owned : (Message → Bool) → List Message → Option Message
find_owned test [] = none
find_owned test (m ∷ rest) = if test m then some m else find_owned test rest

module _ (scan_uuid : String → Option String) where
  abbrev pub scan_opt : Option String → Option String
  scan_opt none = none
  scan_opt (some s) = scan_uuid s

  -- The members' loop of `CreateRoom`: the members to insert, and how many statements there were.
  unfoldable pub add_members :
      Faults
      → ℕ
      → String
      → List String
      → List String
      → List (String × String)
      → Result Error (ℕ × List (String × String))
  unfolding is_seen
  add_members f n room seen [] ms = ok (n, ms)
  add_members f n room seen (user ∷ users) ms =
      let uid = trim_space user in
      elim (is_empty uid) [
        | true ↦ err member_required
        | false ↦ elim (is_seen uid seen) [
          | true ↦ add_members f n room seen users ms
          | false ↦ elim (scan_uuid uid) [
            | none ↦ err invalid_id
            | some member ↦ elim (f.fails n) [
              | true ↦ err statement_failed
              | false ↦ add_members f (suc n) room (uid ∷ seen) users ((room, member) ∷ ms)
            ]
          ]
        ]
      ]

  -- `CreateRoom`; `id` is the identifier that the database gives to the room.
  unfoldable pub create_room :
      Faults → String → String → Bool → List String → Tables → Result Error ChatRoom × Tables
  unfolding add_members
  create_room f id name is_group users t =
      let room : Room = record {
        id = id;
        name = name;
        is_group = is_group;
        is_e2ee_enabled = false;
      } in
      if f.fails 0 || f.fails 1
      then (err statement_failed, t)
      else elim (add_members f 2 id [] users t.members) [
        | err e ↦ (err e, t)
        | ok (n, members) ↦
            answer (exec f n t (record t { rooms = room ∷ t.rooms; members = members })) (
              ok (record {
                id = id;
                name = name;
                is_group = is_group;
                is_e2ee_enabled = false;
                is_archived = false;
                muted_until = none;
              }))
      ]

  -- `SendMessage`, at the statement `n` of a call. The columns room_id and author_id are NOT NULL, and the
  -- room is a foreign key. The payload goes into the answer alone.
  unfoldable pub send_message :
      Faults → ℕ → String → ChatMessage → Tables → Result Error ChatMessage × Tables
  unfolding find_room map_message new_message
  send_message f n id msg t = elim (scan_uuid msg.room_id) [
    | none ↦ (err statement_failed, t)
    | some room ↦ elim (scan_uuid msg.sender_id) [
      | none ↦ (err statement_failed, t)
      | some author ↦ elim (find_room room t.rooms) [
        | none ↦ (err statement_failed, t)
        | some _ ↦
            let row =
              new_message id room author (scan_opt msg.parent_id) msg.content msg.message_type
                (text_of msg.voice_url) msg.is_encrypted in
            answer (exec f n t (record t { messages = row ∷ t.messages })) (
              ok
                (record (map_message row) { encrypted_payload = payload_of msg.encrypted_payload }))
      ]
    ]
  ]

  -- `UpdateMessage`: the statement answers the row that it has changed, or none.
  unfoldable pub update_message :
      Faults → String → String → String → Tables → Result Error ChatMessage × Tables
  unfolding find_message update_messages map_message
  update_message f message sender content t =
      let owns : Message → Bool =
        λ m. is_id (scan_uuid message) m.id && is_id (scan_uuid sender) m.author_id in
      let edit : Message → Message = λ m. record m { content = content; is_edited = true } in
      answer (exec f 0 t (record t { messages = update_messages owns edit t.messages }))
        (elim (find_owned owns t.messages) [
          | none ↦ err not_found
          | some m ↦ ok (map_message (edit m))
        ])

  -- `DeleteMessage`
  unfoldable pub delete_message :
      Faults → String → String → Tables → Result Error (Unit {0}) × Tables
  unfolding update_messages
  delete_message f message sender t =
      let owns : Message → Bool =
        λ m. is_id (scan_uuid message) m.id && is_id (scan_uuid sender) m.author_id in
      exec f 0 t (record t {
        messages = update_messages owns (λ m. record m { is_deleted = true }) t.messages;
      })

  -- `PinMessage`
  unfoldable pub pin_message :
      Faults → String → String → Bool → Tables → Result Error (Unit {0}) × Tables
  unfolding update_messages
  pin_message f room message pinned t =
      let there : Message → Bool =
        λ m. is_id (scan_uuid message) m.id && is_id (scan_uuid room) m.room_id in
      exec f 0 t (record t {
        messages = update_messages there (λ m. record m { is_pinned = pinned }) t.messages;
      })

  -- `GetMessageByID`, at the statement 0 of a call.
  unfoldable pub get_message_by_id : Faults → String → Tables → Result Error ChatMessage
  unfolding find_message map_message
  get_message_by_id f message t = elim (scan_uuid (trim_space message)) [
    | none ↦ err invalid_id
    | some id ↦ if f.fails 0 then err statement_failed else elim (find_message id t.messages) [
      | none ↦ err not_found
      | some m ↦ ok (record (map_message m) {
        parent_id = none;
        encrypted_payload = m.encrypted_payload;
        is_edited = false;
        is_deleted = m.is_deleted;
        expires_at = m.expires_at;
      })
    ]
  ]
