-- ===== src/Messaging/Service.antt =====
-- The functions of backend/internal/modules/messaging/service/messaging_service.go and e2ee_service.go. The HTML
-- sanitizers and whether a text is a JSON object are parameters. A call answers a result, the tables and
-- what it has published; a bus may be missing, and the errors of publishing a message are ignored.
use merope.Prelude.{
  ℕ, ◌+◌, ◌*◌, Bool, true, false, Option, none, some, List, [], ◌∷◌, ◌++◌, String, if◌then◌else◌,
  ltb,
}
use merope.Prelude.Int.{ℤ, pos, pos_part, ltb_ℤ}
use merope.Prelude.Text.{str_eq}
use merope.Prelude.Outcome.{Result, ok, err}
use merope.Messaging.Store.{Tables, Error, Faults, payload_required, integrity, mute_too_long}
use merope.Messaging.Rows.{ChatMessage, ChatRoom}
use merope.Messaging.Repository.{
  create_room, send_message, update_message, delete_message, pin_message,
}
use merope.Messaging.Marks.{mark_read, add_reaction, mute_room, archive_room, get_e2ee_status}
use merope.Messaging.Guard.{AegisGuard, verify_message_integrity}

pub data Event : Type 0 where
  e2ee_message_sent : ChatMessage → Event
  message_sent : ChatMessage → Event
  message_edited : ChatMessage → Event
  message_deleted : String → Event
  reaction_added : String → String → String → Event
  read_receipt : String → String → Event
  key_bundle_requested : String → String → String → Event

abbrev pub Call : Type 0 → Type 0
Call A = Result Error A × Tables × List Event

-- What is published when a repository's call has succeeded and there is a bus.
abbrev pub announce : {A : Type 0} → Bool → (A → Event) → Result Error A × Tables → Call A
announce bus event (err e, t) = (err e, t, [])
announce bus event (ok a, t) = (ok a, t, if bus then event a ∷ [] else [])

abbrev pub silent : {A : Type 0} → Result Error A × Tables → Call A
silent (r, t) = (r, t, [])

-- The two events of a message to an encrypted room.
abbrev pub announce_both : Bool → Bool → Result Error ChatMessage × Tables → Call ChatMessage
announce_both e2ee_bus bus (err e, t) = (err e, t, [])
announce_both e2ee_bus bus (ok m, t) = (
  ok m,
  t,
  (if e2ee_bus then e2ee_message_sent m ∷ [] else []) ++ (if bus then message_sent m ∷ [] else []),
)

-- `hasRoom`
unfoldable pub has_room : List ChatRoom → String → Bool
has_room [] id = false
has_room (r ∷ rest) id = let below = has_room rest id in if str_eq r.id id then true else below

abbrev pub is_some : {A : Type 0} → Option A → Bool
is_some none = false
is_some (some a) = true

abbrev pub is_before : Option ℕ → ℕ → Bool
is_before none now = false
is_before (some t) now = ltb t now

-- What the service is built with: the buses, the guard, and the functions of other packages. `is_json_map` is
-- whether json.Unmarshal takes a text into a map: an object, or null.
pub record Deps : Type 0 where
  pub bus : Bool
  pub e2ee_bus : Bool
  pub guard : Option AegisGuard
  pub scan_uuid : String → Option String
  pub uuid_in : String → Option String
  pub sanitize_html : String → String
  pub strip_html : String → String
  pub is_json_map : String → Bool

-- Whether the guard lets a payload pass. It is asked about no payload (`nil`), whatever the text is.
unfoldable pub guard_passes : Deps → ℤ → ChatMessage → String → Bool
unfolding verify_message_integrity
guard_passes d now msg text = elim d.guard [
  | none ↦ true
  | some g ↦
      if d.is_json_map text
      then elim (verify_message_integrity now msg.room_id none g).0 [ ok _ ↦ true | err _ ↦ false ]
      else true
]

-- `SendMessage`; the guard reads the time `now` in milliseconds.
unfoldable pub send : Deps → Faults → ℤ → String → ChatMessage → Tables → Call ChatMessage
unfolding guard_passes send_message get_e2ee_status
send d f now id msg t =
    let clean : ChatMessage = record msg { content = d.sanitize_html msg.content } in
    let sealed : ChatMessage = record msg { content = ""; is_encrypted = true } in
    elim (get_e2ee_status d.uuid_in f 0 msg.room_id t) [
      | err e ↦ (err e, t, [])
      | ok false ↦ announce d.bus (λ m. message_sent m) (send_message d.scan_uuid f 1 id clean t)
      | ok true ↦ elim msg.encrypted_payload [
        | none ↦ (err payload_required, t, [])
        | some text ↦
            if guard_passes d now msg text
            then announce_both d.e2ee_bus d.bus (send_message d.scan_uuid f 1 id sealed t)
            else (err integrity, t, [])
      ]
    ]

-- `EditMessage`
unfoldable pub edit : Deps → Faults → String → String → String → Tables → Call ChatMessage
unfolding update_message
edit d f message sender content t =
    announce d.bus (λ m. message_edited m)
      (update_message d.scan_uuid f message sender (d.sanitize_html content) t)

-- `DeleteMessage`
unfoldable pub delete : Deps → Faults → String → String → Tables → Call (Unit {0})
unfolding delete_message
delete d f message sender t =
    announce d.bus (λ _. message_deleted message) (delete_message d.scan_uuid f message sender t)

-- `BurnMessage`
unfoldable pub burn : Deps → Faults → String → String → Tables → Call (Unit {0})
unfolding delete_message
burn d f message user t = silent (delete_message d.scan_uuid f message user t)

-- `AddReaction`
unfoldable pub react : Deps → Faults → String → String → String → Tables → Call (Unit {0})
unfolding add_reaction
react d f message user emoji t =
    announce d.bus (λ _. reaction_added message user emoji)
      (add_reaction d.scan_uuid f message user emoji t)

-- `MarkAsRead`
unfoldable pub read : Deps → Faults → ℕ → String → String → Tables → Call (Unit {0})
unfolding mark_read
read d f now message user t =
    announce d.bus (λ _. read_receipt message user) (mark_read d.scan_uuid f now message user t)

-- `MuteRoom`
unfoldable pub mute : Deps → Faults → ℕ → String → String → ℤ → Tables → Call (Unit {0})
unfolding mute_room
mute d f now user room minutes t =
    if ltb_ℤ (pos 43200) minutes
    then (err mute_too_long, t, [])
    else silent (
        mute_room d.scan_uuid f user room
          (if ltb_ℤ (pos 0) minutes then some (now + pos_part minutes * 60000000) else none) t)

-- `ArchiveRoom`
unfoldable pub archive : Deps → Faults → String → String → Bool → Tables → Call (Unit {0})
unfolding archive_room
archive d f user room archived t = silent (archive_room d.scan_uuid f user room archived t)

-- `PinMessage`
unfoldable pub pin : Deps → Faults → String → String → Tables → Call (Unit {0})
unfolding pin_message
pin d f room message t = silent (pin_message d.scan_uuid f room message true t)

-- `StartDirectChat`
unfoldable pub start_direct : Deps → Faults → String → String → String → Tables → Call ChatRoom
unfolding create_room
start_direct d f id a b t = silent (create_room d.scan_uuid f id "" false (a ∷ b ∷ []) t)

-- `CreateGroupChat`
unfoldable pub create_group : Deps → Faults → String → String → List String → Tables → Call ChatRoom
unfolding create_room
create_group d f id name users t =
    silent (create_room d.scan_uuid f id (d.strip_html name) true users t)
