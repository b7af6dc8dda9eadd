-- ===== src/Messaging/Encryption.antt =====
-- `ForwardMessage` of backend/internal/modules/messaging/service/messaging_service.go, and the switches of
-- encryption in backend/internal/modules/messaging/service/e2ee_service.go.
use merope.Prelude.{
  ℕ, Bool, true, false, not, ◌||◌, none, some, List, [], ◌∷◌, String, if◌then◌else◌,
}
use merope.Prelude.Text.{str_eq, is_empty}
use merope.Prelude.Outcome.{Result, ok, err, fail_if, ◌>>=◌, ◌>>◌}
use merope.Messaging.Store.{Tables, Error, Faults, not_found, unavailable, reencrypt, not_in_rooms}
use merope.Messaging.Rows.{ChatMessage}
use merope.Messaging.Repository.{send_message, get_message_by_id}
use merope.Messaging.Marks.{get_user_rooms, set_e2ee_status, get_room_members, record_key_rotation}
use merope.Messaging.Service.{
  Deps, Call, Event, key_bundle_requested, silent, has_room, is_some, is_before,
}

-- The message that a forward sends.
abbrev pub forwarded : ChatMessage → String → String → ChatMessage
forwarded original from_user to_room = record {
  id = "";
  room_id = to_room;
  sender_id = from_user;
  parent_id = none;
  forwarded_from_id = some original.id;
  content = original.content;
  encrypted_payload = none;
  message_type = original.message_type;
  voice_url = original.voice_url;
  file_url = original.file_url;
  is_edited = false;
  is_encrypted = false;
  is_deleted = false;
  expires_at = none;
}

-- What `ForwardMessage` sends, when its checks pass.
unfoldable pub to_forward :
    Deps → Faults → ℕ → String → String → String → Tables → Result Error ChatMessage
unfolding get_message_by_id get_user_rooms has_room
to_forward d f now message from_user to_room t = do
  original ← get_message_by_id d.scan_uuid f message t
  fail_if (is_empty original.id) not_found
  fail_if (original.is_deleted || is_before original.expires_at now) unavailable
  fail_if (original.is_encrypted || is_some original.encrypted_payload) reencrypt
  rooms ← get_user_rooms d.scan_uuid f 1 from_user t
  fail_if (not (has_room rooms original.room_id) || not (has_room rooms to_room)) not_in_rooms
  ok (forwarded original from_user to_room)

-- `ForwardMessage`; `id` is the identifier that the database gives to the new message.
unfoldable pub forward :
    Deps → Faults → ℕ → String → String → String → String → Tables → Call ChatMessage
unfolding to_forward send_message
forward d f now id message from_user to_room t =
    elim (to_forward d f now message from_user to_room t) [
      | err e ↦ (err e, t, [])
      | ok msg ↦ silent (send_message d.scan_uuid f 2 id msg t)
    ]

-- The requests of `EnableE2EE`; the publication of a request may fail, and ends the call.
unfoldable pub request_bundles :
    (String → Bool) → String → String → List String → Result Error (Unit {0}) × List Event
request_bundles refused room initiator [] = (ok tt, [])
request_bundles refused room initiator (user ∷ users) =
    let (r, events) = request_bundles refused room initiator users in
    if str_eq user initiator
    then (r, events)
    else if refused user
    then (err unavailable, [])
    else (r, key_bundle_requested room initiator user ∷ events)

-- The rest of `EnableE2EE`, after the room's row was set.
unfoldable pub requested :
    Deps
    → Faults
    → (String → Bool)
    → String
    → String
    → Result Error (Unit {0}) × Tables
    → Call (Unit {0})
unfolding get_room_members request_bundles
requested d f refused room initiator (err e, t) = (err e, t, [])
requested d f refused room initiator (ok _, t) = elim (get_room_members d.uuid_in f 1 room t) [
  | err e ↦ (err e, t, [])
  | ok users ↦
      let (r, events) = request_bundles refused room initiator users in
      if d.bus then (r, t, events) else (ok tt, t, [])
]

-- `EnableE2EE`
unfoldable pub enable_e2ee :
    Deps → Faults → (String → Bool) → String → String → Tables → Call (Unit {0})
unfolding set_e2ee_status requested
enable_e2ee d f refused room initiator t =
    requested d f refused room initiator (set_e2ee_status d.uuid_in f room true t)

-- `DisableE2EE`
unfoldable pub disable_e2ee : Deps → Faults → String → Tables → Call (Unit {0})
unfolding set_e2ee_status
disable_e2ee d f room t = silent (set_e2ee_status d.uuid_in f room false t)

-- `RecordKeyRotation`
unfoldable pub rotate_key :
    Deps → Faults → String → String → String → String → Tables → Call (Unit {0})
unfolding record_key_rotation
rotate_key d f room user key device t =
    silent (record_key_rotation d.uuid_in f room user key device t)
