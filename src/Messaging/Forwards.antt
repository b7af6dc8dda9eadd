-- ===== src/Messaging/Forwards.antt =====
-- What `ForwardMessage` of backend/internal/modules/messaging/service/messaging_service.go sends on.
use merope.Prelude.{
  ℕ, ◌≡◌, refl, sym, ap, ◌∙◌, Bool, true, false, not, ◌||◌, inl, inr, Bool-cases, Option-cases,
  Option, none, some, List, [], ◌∷◌, String,
}
use merope.Prelude.Text.{trim_space, is_empty, str_eq, str_eq_iff}
use merope.Prelude.Outcome.{Result, ok, err, Result-cases, fail_if-eq-ok, >>=-eq-ok}
use merope.Messaging.Store.{
  Message, Room, Tables, Error, Faults, is_member, find_message, not_found, unavailable, reencrypt,
  not_in_rooms,
}
use merope.Messaging.Rows.{ChatMessage, ChatRoom, text_of, map_message}
use merope.Messaging.Repository.{get_message_by_id}
use merope.Messaging.Marks.{get_user_rooms, rooms_of}
use merope.Messaging.Service.{Deps, has_room, is_some, is_before}
use merope.Messaging.Encryption.{to_forward, forward, forwarded}
use merope.Messaging.Sealed.{send_message-Stores}

-- A room among those of a user has the user as a member.
has_room-is_member :
    (user id : String) (t : Tables) (rooms : List Room)
    → has_room (rooms_of user t rooms) id ≡ true
    → is_member id user t.members ≡ true
unfolding has_room rooms_of
has_room-is_member user id t [] h = absurd (cc)
has_room-is_member user id t (r ∷ rest) h = elim (Bool-cases (is_member r.id user t.members)) [
  | inl joined ↦ elim (Bool-cases (str_eq r.id id)) [
    | inl same ↦ rw (sym ((str_eq_iff r.id id).0 same)) joined
    | inr other ↦ has_room-is_member user id t rest (rw (rooms_of, joined, has_room, other) at h)
  ]
  | inr away ↦ has_room-is_member user id t rest (rw (rooms_of, away) at h)
]

-- Only the users that the identifier names have rooms.
get_user_rooms-is_member :
    (scan_uuid : String → Option String) (f : Faults) (n : ℕ) (from_user : String) (t : Tables)
    {rooms : List ChatRoom}
    → get_user_rooms scan_uuid f n from_user t ≡ ok rooms
    → (a b : String) → has_room rooms a ≡ true
    → has_room rooms b ≡ true
    → (user : String) × (scan_uuid from_user ≡ some user)
      × (is_member a user t.members ≡ true)
      × (is_member b user t.members ≡ true)
unfolding get_user_rooms has_room
get_user_rooms-is_member scan_uuid f n from_user t {rooms} h a b in_a in_b =
    elim (Bool-cases (f.fails n)) [
      | inl fails ↦ absurd (cc (rw (get_user_rooms, fails) at h))
      | inr works ↦ elim (Option-cases (scan_uuid from_user)) [
        | inl unknown ↦
            let none_ : [] ≡ rooms = cc (rw (get_user_rooms, works, unknown) at h) in
            absurd (no_rooms rooms none_ a in_a)
        | inr (user, known) ↦
            let these : rooms_of user t t.rooms ≡ rooms =
              cc (rw (get_user_rooms, works, known) at h) in
            (
              user,
              known,
              has_room-is_member user a t t.rooms (rw these in_a),
              has_room-is_member user b t t.rooms (rw these in_b),
            )
      ]
    ]
  where
    no_rooms : (rooms : List ChatRoom) → [] ≡ rooms → (a : String) → has_room rooms a ≡ true → ⊥
    no_rooms [] e a h = cc
    no_rooms (r ∷ rs) e a h = cc

-- A message that is read has no voice URL, whatever its row holds.
get_message_by_id-voice :
    (scan_uuid : String → Option String) (f : Faults) (message : String) (t : Tables)
    {original : ChatMessage}
    → get_message_by_id scan_uuid f message t ≡ ok original
    → original.voice_url ≡ ""
unfolding get_message_by_id map_message
get_message_by_id-voice scan_uuid f message t h =
    elim (Option-cases (scan_uuid (trim_space message))) [
      | inl bad ↦ absurd (cc (rw (get_message_by_id, bad) at h))
      | inr (id, good) ↦ elim (Bool-cases (f.fails 0)) [
        | inl fails ↦ absurd (cc (rw (get_message_by_id, good, fails) at h))
        | inr works ↦ elim (Option-cases (find_message id t.messages)) [
          | inl missing ↦ absurd (cc (rw (get_message_by_id, good, works, missing) at h))
          | inr (m, found) ↦ sym (ap voice_of (rw (get_message_by_id, good, works, found) at h))
        ]
      ]
    ]
  where
    voice_of : Result Error ChatMessage → String
    voice_of (ok m) = m.voice_url
    voice_of (err e) = ""

-- What a successful forward of a message leaves.
pub record Forwards (d : Deps) (f : Faults) (now : ℕ) (message from_user to_room : String)
    (t t' : Tables) : Type 0 where
  original : ChatMessage
  is_read : get_message_by_id d.scan_uuid f message t ≡ ok original
  kept : original.is_deleted ≡ false
  current : is_before original.expires_at now ≡ false
  plain : original.is_encrypted ≡ false
  unsealed : is_some original.encrypted_payload ≡ false
  user : String
  by_user : d.scan_uuid from_user ≡ some user
  in_source : is_member original.room_id user t.members ≡ true
  in_target : is_member to_room user t.members ≡ true
  pub row : Message
  pub adds : t' ≡ record t { messages = row ∷ t.messages }
  pub by_sender : d.scan_uuid from_user ≡ some row.author_id
  pub in_room : d.scan_uuid to_room ≡ some row.room_id
  pub content : row.content ≡ original.content
  pub unmarked : row.is_encrypted ≡ false
  pub no_voice : row.voice_url ≡ none
  pub no_source : row.forwarded_from_id ≡ none

both_off : (a b : Bool) → (a || b) ≡ false → (a ≡ false) × (b ≡ false)
both_off true b h = absurd (cc)
both_off false b h = (refl, h)

unnegate : (a : Bool) → not a ≡ false → a ≡ true
unnegate true h = refl
unnegate false h = absurd (cc)

-- What the checks of a forward that passes them have found.
record Cleared (d : Deps) (f : Faults) (now : ℕ) (message from_user to_room : String) (t : Tables)
    (msg : ChatMessage) : Type 0 where
  original : ChatMessage
  is_read : get_message_by_id d.scan_uuid f message t ≡ ok original
  sends : msg ≡ forwarded original from_user to_room
  alive : (original.is_deleted || is_before original.expires_at now) ≡ false
  plain : (original.is_encrypted || is_some original.encrypted_payload) ≡ false
  rooms : List ChatRoom
  listed : get_user_rooms d.scan_uuid f 1 from_user t ≡ ok rooms
  joined : (not (has_room rooms original.room_id) || not (has_room rooms to_room)) ≡ false

to_forward-Cleared :
    (d : Deps) (f : Faults) (now : ℕ) (message from_user to_room : String) (t : Tables)
    {msg : ChatMessage}
    → to_forward d f now message from_user to_room t ≡ ok msg
    → Cleared d f now message from_user to_room t msg
unfolding to_forward
to_forward-Cleared d f now message from_user to_room t h =
    let (original, read, h1) = >>=-eq-ok (get_message_by_id d.scan_uuid f message t) _ h in
    let (named, h2) = fail_if-eq-ok (is_empty original.id) not_found _ h1 in
    let (alive, h3) =
      fail_if-eq-ok (original.is_deleted || is_before original.expires_at now) unavailable _ h2 in
    let (plain, h4) =
      fail_if-eq-ok (original.is_encrypted || is_some original.encrypted_payload) reencrypt _ h3 in
    let (rooms, listed, h5) = >>=-eq-ok (get_user_rooms d.scan_uuid f 1 from_user t) _ h4 in
    let (joined, h6) =
      fail_if-eq-ok (not (has_room rooms original.room_id) || not (has_room rooms to_room))
        not_in_rooms _ h5 in
    record {
      original = original;
      is_read = read;
      sends = cc (h6);
      alive = alive;
      plain = plain;
      rooms = rooms;
      listed = listed;
      joined = joined;
    }

-- A forward that succeeds sends a message that is not deleted, expired or encrypted, for a user who is a
-- member of its room and of the target. The new row is the user's, in the target, with the content of the
-- original, and nothing else in the tables changes. It is not marked as encrypted, whether the target's
-- encryption is on or not, and has neither a voice URL nor the identifier of its source.
pub forward-Forwards :
    (d : Deps) (f : Faults) (now : ℕ) (id message from_user to_room : String) (t : Tables)
    {reply : ChatMessage}
    → (forward d f now id message from_user to_room t).0 ≡ ok reply
    → Forwards d f now message from_user to_room t
        (forward d f now id message from_user to_room t).1
unfolding forward
forward-Forwards d f now id message from_user to_room t h =
    elim (Result-cases (to_forward d f now message from_user to_room t)) [
      | inl (e, refused) ↦ absurd (cc (rw (forward, refused) at h))
      | inr (msg, clear) ↦
          let c = to_forward-Cleared d f now message from_user to_room t clear in
          let s = send_message-Stores d.scan_uuid f 2 id msg t (rw (forward, clear) at h) in
          let (kept, current) =
            both_off c.original.is_deleted (is_before c.original.expires_at now) c.alive in
          let (plain, unsealed) =
            both_off c.original.is_encrypted (is_some c.original.encrypted_payload) c.plain in
          let (source, target) =
            both_off (not (has_room c.rooms c.original.room_id)) (not (has_room c.rooms to_room))
              c.joined in
          let (user, by_user, in_source, in_target) =
            get_user_rooms-is_member d.scan_uuid f 1 from_user t c.listed c.original.room_id to_room
              (unnegate _ source) (unnegate _ target) in
          record {
            original = c.original;
            is_read = c.is_read;
            kept = kept;
            current = current;
            plain = plain;
            unsealed = unsealed;
            user = user;
            by_user = by_user;
            in_source = in_source;
            in_target = in_target;
            row = s.row;
            adds = rw (forward, clear) s.adds;
            by_sender = rw (ap (λ m. m.sender_id) (sym c.sends)) s.by_sender;
            in_room = rw (ap (λ m. m.room_id) (sym c.sends)) s.in_room;
            content = s.content ∙ ap (λ m. m.content) c.sends;
            unmarked = s.is_encrypted ∙ ap (λ m. m.is_encrypted) c.sends;
            no_voice =
                s.voice
                ∙ ap (λ m. text_of m.voice_url) c.sends
                ∙ ap text_of (get_message_by_id-voice d.scan_uuid f message t c.is_read);
            no_source = s.no_source;
          }
    ]
