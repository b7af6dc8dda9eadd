-- ===== src/Messaging/Tests.antt =====
-- A service with two rooms, of which one is encrypted, and messages to them.
use merope.Prelude.{
  ◌≡◌, refl, true, false, Option, none, some, List, [], ◌∷◌, String, if◌then◌else◌,
}
use merope.Prelude.Int.{pos}
use merope.Prelude.Text.{str_eq, trim_space}
use merope.Messaging.Store.{Message, Tables, Faults}
use merope.Messaging.Rows.{ChatMessage, new_message}
use merope.Messaging.Guard.{new_guard}
use merope.Messaging.Service.{Deps, send}
use merope.Messaging.Encryption.{forward}
use merope.Messaging.Sealed.{sealed_send}
use merope.Messaging.Forwards.{Forwards, forward-Forwards}
use merope.Messaging.Calls.{Op, run}
use merope.Messaging.Receipts.{Receipts}
use merope.Messaging.Members.{run-Receipts}
use merope.Messaging.Ratchet.{IsIncreasing, accepted, ratchet_increases, validate, purge}

program : Unit {0}
unfolding send forward new_message run trim_space
program = tt

abbrev same_text : String → String
same_text s = s

abbrev known : String → Option String
known s = if str_eq s "" then none else some s

abbrev deps : Deps
deps = record {
  bus = true;
  e2ee_bus = true;
  guard = some new_guard;
  scan_uuid = known;
  uuid_in = known;
  sanitize_html = same_text;
  strip_html = same_text;
  is_json_map = λ s. str_eq s "{}";
}

abbrev well : Faults
well = record { fails = λ _. false; kept = false }

abbrev chat : Tables
chat = record {
  rooms =
      record { id = "open"; name = ""; is_group = false; is_e2ee_enabled = false }
      ∷ record { id = "secret"; name = ""; is_group = false; is_e2ee_enabled = true }
      ∷ [];
  members = ("open", "ada") ∷ ("secret", "ada") ∷ [];
  messages = new_message "m1" "open" "ada" none "hello" "voice" (some "voice.ogg") false ∷ [];
  reads = [];
  reactions = [];
  mutes = [];
  archives = [];
  rotations = [];
}

abbrev draft : Option String → ChatMessage
draft payload = record {
  id = "";
  room_id = "secret";
  sender_id = "ada";
  parent_id = none;
  forwarded_from_id = none;
  content = "hello";
  encrypted_payload = payload;
  message_type = "text";
  voice_url = "";
  file_url = "";
  is_edited = false;
  is_encrypted = false;
  is_deleted = false;
  expires_at = none;
}

sealed_send_example :
    (text : String) × (row : Message) × (some "cipher" ≡ some text)
    × ((send deps well (pos 5) "m2" (draft (some "cipher")) chat).1
        ≡ record chat { messages = row ∷ chat.messages })
    × (row.is_encrypted ≡ true)
    × (row.content ≡ "")
    × (row.encrypted_payload ≡ none)
unfolding program
sealed_send_example = sealed_send deps well (pos 5) "m2" (draft (some "cipher")) chat refl refl

forward-Forwards_example :
    Forwards deps well 7 "m1" "ada" "secret" chat
      (forward deps well 7 "m3" "m1" "ada" "secret" chat).1
unfolding program
forward-Forwards_example = forward-Forwards deps well 7 "m3" "m1" "ada" "secret" chat refl

ratchet_increases_example : IsIncreasing (
    accepted "c"
      (validate "c" (pos 4) ∷ validate "c" (pos 3) ∷ purge "c" ∷ validate "c" (pos 9) ∷ []))
ratchet_increases_example =
    ratchet_increases "c"
      (validate "c" (pos 4) ∷ validate "c" (pos 3) ∷ purge "c" ∷ validate "c" (pos 9) ∷ [])

abbrev calls : List (Faults × Op)
calls = (well, Op.react "m1" "ada" "+1") ∷ (well, Op.read 3 "m1" "eve") ∷ []

run-Receipts_example : Receipts (run deps calls chat)
run-Receipts_example =
    run-Receipts deps calls chat
      (record { reads = tt; reactions = tt; one_read = tt; one_reaction = tt })
