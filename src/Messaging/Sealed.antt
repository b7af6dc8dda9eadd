-- ===== src/Messaging/Sealed.antt =====
-- What `SendMessage` of backend/internal/modules/messaging/service/messaging_service.go leaves of a message to
-- an encrypted room.
use merope.Prelude.{
  ℕ, ◌≡◌, refl, ◌∙◌, Bool, true, inl, inr, Bool-cases, Option-cases, Option, none, some, ◌∷◌,
  String,
}
use merope.Prelude.Int.{ℤ}
use merope.Prelude.Outcome.{Result, ok, err}
use merope.Messaging.Store.{Message, Tables, Error, Faults, find_room}
use merope.Messaging.Rows.{ChatMessage, new_message, text_of}
use merope.Messaging.Repository.{send_message, scan_opt}
use merope.Messaging.Marks.{get_e2ee_status}
use merope.Messaging.Service.{Deps, announce_both, guard_passes, send}

-- What a successful `SendMessage` of the repository adds.
pub record Stores (scan_uuid : String → Option String) (msg : ChatMessage) (t t' : Tables)
    : Type 0 where
  pub row : Message
  pub adds : t' ≡ record t { messages = row ∷ t.messages }
  pub in_room : scan_uuid msg.room_id ≡ some row.room_id
  pub by_sender : scan_uuid msg.sender_id ≡ some row.author_id
  pub content : row.content ≡ msg.content
  pub is_encrypted : row.is_encrypted ≡ msg.is_encrypted
  pub no_payload : row.encrypted_payload ≡ none
  pub no_file : row.file_url ≡ none
  pub no_source : row.forwarded_from_id ≡ none
  pub voice : row.voice_url ≡ text_of msg.voice_url

module _ (scan_uuid : String → Option String) where
  pub send_message-Stores :
      (f : Faults) (n : ℕ) (id : String) (msg : ChatMessage) (t : Tables) {reply : ChatMessage}
      → (send_message scan_uuid f n id msg t).0 ≡ ok reply
      → Stores scan_uuid msg t (send_message scan_uuid f n id msg t).1
  unfolding send_message new_message
  send_message-Stores f n id msg t h = elim (Option-cases (scan_uuid msg.room_id)) [
    | inl no_room ↦ absurd (cc (rw (send_message, no_room) at h))
    | inr (room, is_room) ↦ elim (Option-cases (scan_uuid msg.sender_id)) [
      | inl no_author ↦ absurd (cc (rw (send_message, is_room, no_author) at h))
      | inr (author, is_author) ↦ elim (Option-cases (find_room room t.rooms)) [
        | inl missing ↦ absurd (cc (rw (send_message, is_room, is_author, missing) at h))
        | inr (r, found) ↦ elim (Bool-cases (f.fails n)) [
          | inl fails ↦ absurd (cc (rw (send_message, is_room, is_author, found, fails) at h))
          | inr works ↦
              rw (send_message, is_room, is_author, found, works)
                (record {
                  row =
                      new_message id room author (scan_opt scan_uuid msg.parent_id) msg.content
                        msg.message_type (text_of msg.voice_url) msg.is_encrypted;
                  adds = refl;
                  in_room = is_room;
                  by_sender = is_author;
                  content = refl;
                  is_encrypted = refl;
                  no_payload = refl;
                  no_file = refl;
                  no_source = refl;
                  voice = refl;
                })
        ]
      ]
    ]
  ]

-- The announcements change neither the result nor the tables.
announce_both-ok :
    (a b : Bool) (r : Result Error ChatMessage × Tables) {reply : ChatMessage}
    → (announce_both a b r).0 ≡ ok reply
    → (r.0 ≡ ok reply) × ((announce_both a b r).1 ≡ r.1)
announce_both-ok a b (err e, t) h = absurd (cc)
announce_both-ok a b (ok m, t) h = (h, refl)

-- A message that is sent with success to a room whose encryption is on came with a payload. Its row is
-- marked as encrypted and has no content, but no payload either, and nothing else in the tables changes.
pub sealed_send :
    (d : Deps) (f : Faults) (now : ℤ) (id : String) (msg : ChatMessage) (t : Tables)
    {reply : ChatMessage}
    → get_e2ee_status d.uuid_in f 0 msg.room_id t ≡ ok true
    → (send d f now id msg t).0 ≡ ok reply
    → (text : String) × (row : Message) × (msg.encrypted_payload ≡ some text)
      × ((send d f now id msg t).1 ≡ record t { messages = row ∷ t.messages })
      × (row.is_encrypted ≡ true)
      × (row.content ≡ "")
      × (row.encrypted_payload ≡ none)
unfolding send
sealed_send d f now id msg t on h = elim (Option-cases msg.encrypted_payload) [
  | inl missing ↦ absurd (cc (rw (send, on, missing) at h))
  | inr (text, given) ↦ elim (Bool-cases (guard_passes d now msg text)) [
    | inr refused ↦ absurd (cc (rw (send, on, given, refused) at h))
    | inl passes ↦
        let sealed : ChatMessage = record msg { content = ""; is_encrypted = true } in
        let (sent, same) =
          announce_both-ok d.e2ee_bus d.bus (send_message d.scan_uuid f 1 id sealed t)
            (rw (send, on, given, passes) at h) in
        let s = send_message-Stores d.scan_uuid f 1 id sealed t sent in
        (
          text,
          s.row,
          given,
          rw (send, on, given, passes) (same ∙ s.adds),
          s.is_encrypted,
          s.content,
          s.no_payload,
        )
  ]
]
