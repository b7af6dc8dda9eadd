-- ===== src/Messaging/Receipts.antt =====
-- Who may have left a read receipt or a reaction: an invariant of the tables of
-- backend/internal/modules/messaging, and that the repository's statements keep it.
use merope.Prelude.{
  ℕ, suc, ◌≡◌, refl, sym, ap, ◌∙◌, Bool, true, false, ◌||◌, inl, inr, Bool-cases, Option-cases,
  Option, List, [], ◌∷◌, String, if◌then◌else◌, All,
}
use merope.Prelude.Text.{is_empty, trim_space}
use merope.Prelude.Outcome.{Result, ok, err, Result-cases}
use merope.Prelude.Pairs.{IsKeyed, pair_eq}
use merope.Messaging.Store.{
  Room, Message, Tables, Error, Faults, is_member, sees, update_messages, find_room,
}
use merope.Messaging.Rows.{ChatMessage, exec, answer, text_of, new_message}
use merope.Messaging.Repository.{is_seen, scan_opt, add_members, create_room, send_message}
use merope.Messaging.Marked.{sees-members, sees-cons, sees-update}

-- The message of a row is one that the user of the row sees.
abbrev pub IsSeen : Tables → String × String → Type 0
IsSeen t k = sees k.0 k.1 t.members t.messages ≡ true

-- Every receipt and every reaction is of a message in a room of its user, and a user has one of each at
-- most for a message.
pub record Receipts (t : Tables) : Type 0 where
  pub reads : All (λ p. IsSeen t p.0) t.reads
  pub reactions : All (λ p. IsSeen t p.0) t.reactions
  pub one_read : IsKeyed t.reads
  pub one_reaction : IsKeyed t.reactions

All-mono :
    {A : Type 0} (P Q : A → Type 0) → ((a : A) → P a → Q a) → (xs : List A) → All P xs → All Q xs
All-mono P Q up [] h = tt
All-mono P Q up (x ∷ xs) h = (up x h.0, All-mono P Q up xs h.1)

-- Tables with the same receipts, in which nobody sees less.
pub wider-Receipts :
    (t t' : Tables)
    → t'.reads ≡ t.reads
    → t'.reactions ≡ t.reactions
    → ((k : String × String) → IsSeen t k → IsSeen t' k)
    → Receipts t
    → Receipts t'
wider-Receipts t t' e e' wider h = record {
  reads = rw e (All-mono (λ p. IsSeen t p.0) (λ p. IsSeen t' p.0) (λ p. wider p.0) t.reads h.reads);
  reactions =
      rw e' (
        All-mono (λ p. IsSeen t p.0) (λ p. IsSeen t' p.0) (λ p. wider p.0) t.reactions h.reactions);
  one_read = rw e h.one_read;
  one_reaction = rw e' h.one_reaction;
}

pub exec-Receipts :
    (f : Faults) (n : ℕ) (old new : Tables)
    → Receipts old
    → Receipts new
    → Receipts (exec f n old new).1
exec-Receipts f n old new h k = elim (Bool-cases (f.fails n)) [
  | inr works ↦ rw works k
  | inl fails ↦ elim (Bool-cases f.kept) [
    | inl kept ↦ rw (fails, kept) k
    | inr lost ↦ rw (fails, lost) h
  ]
]

pub answer-Receipts :
    {A : Type 0} (p : Result Error (Unit {0}) × Tables) (r : Result Error A)
    → Receipts p.1
    → Receipts (answer p r).1
answer-Receipts (err e, t) r h = h
answer-Receipts (ok u, t) r h = h

-- An update of messages that keeps their identifiers.
pub update-Receipts :
    (t : Tables) (test : Message → Bool) (f : Message → Message)
    → ((m : Message) → (f m).id ≡ m.id)
    → ((m : Message) → (f m).room_id ≡ m.room_id)
    → Receipts t
    → Receipts (record t { messages = update_messages test f t.messages })
update-Receipts t test f ids rooms h =
    wider-Receipts t (record t { messages = update_messages test f t.messages }) refl refl
      (λ k seen. sees-update k.0 k.1 t.members test f ids rooms t.messages ∙ seen) h

abbrev members_of :
    List (String × String) → Result Error (ℕ × List (String × String)) → List (String × String)
members_of ms (ok (n, ms')) = ms'
members_of ms (err e) = ms

module _ (scan_uuid : String → Option String) where
  pub send_message-Receipts :
      (f : Faults) (n : ℕ) (id : String) (msg : ChatMessage) (t : Tables)
      → Receipts t
      → Receipts (send_message scan_uuid f n id msg t).1
  unfolding send_message
  send_message-Receipts f n id msg t h = elim (Option-cases (scan_uuid msg.room_id)) [
    | inl no_room ↦ rw (send_message, no_room) h
    | inr (room, is_room) ↦ elim (Option-cases (scan_uuid msg.sender_id)) [
      | inl no_author ↦ rw (send_message, is_room, no_author) h
      | inr (author, is_author) ↦ elim (Option-cases (find_room room t.rooms)) [
        | inl missing ↦ rw (send_message, is_room, is_author, missing) h
        | inr (r, found) ↦
            let row =
              new_message id room author (scan_opt scan_uuid msg.parent_id) msg.content
                msg.message_type (text_of msg.voice_url) msg.is_encrypted in
            let new : Tables = record t { messages = row ∷ t.messages } in
            let kept = exec-Receipts f n t new h (
              wider-Receipts t new refl refl (λ k. sees-cons k.0 k.1 t.members row t.messages) h) in
            rw (send_message, is_room, is_author, found) (answer-Receipts (exec f n t new) _ kept)
      ]
    ]
  ]

  -- The members that a loop adds are added to those that it starts from.
  add_members-wider :
      (f : Faults) (n : ℕ) (room : String) (seen users : List String) (ms : List (String × String))
      {n' : ℕ} {ms' : List (String × String)}
      → add_members scan_uuid f n room seen users ms ≡ ok (n', ms')
      → (r u : String) → is_member r u ms ≡ true
      → is_member r u ms' ≡ true
  unfolding add_members is_member
  add_members-wider f n room seen [] ms h r u joined = rw (sym (ap (λ o. members_of ms o) h)) joined
  add_members-wider f n room seen (user ∷ users) ms {n'} {ms'} h r u joined =
      let uid = trim_space user in
      elim (Bool-cases (is_empty uid)) [
        | inl empty ↦ absurd (cc (rw (add_members, empty) at h))
        | inr full ↦ elim (Bool-cases (is_seen uid seen)) [
          | inl again ↦
              add_members-wider f n room seen users ms (rw (add_members, full, again) at h) r u
                joined
          | inr new ↦ elim (Option-cases (scan_uuid uid)) [
            | inl bad ↦ absurd (cc (rw (add_members, full, new, bad) at h))
            | inr (member, good) ↦ elim (Bool-cases (f.fails n)) [
              | inl fails ↦ absurd (cc (rw (add_members, full, new, good, fails) at h))
              | inr works ↦
                  add_members-wider f (suc n) room (uid ∷ seen) users ((room, member) ∷ ms)
                    (rw (add_members, full, new, good, works) at h) r u
                    (older (pair_eq (room, member) (r, u)) joined)
            ]
          ]
        ]
      ]
    where
      older : (b : Bool) → is_member r u ms ≡ true → (if b then true else is_member r u ms) ≡ true
      older true joined = refl
      older false joined = joined

  pub create_room-Receipts :
      (f : Faults) (id name : String) (is_group : Bool) (users : List String) (t : Tables)
      → Receipts t
      → Receipts (create_room scan_uuid f id name is_group users t).1
  unfolding create_room
  create_room-Receipts f id name is_group users t h = elim (Bool-cases (f.fails 0 || f.fails 1)) [
    | inl fails ↦ rw (create_room, fails) h
    | inr works ↦ elim (Result-cases (add_members scan_uuid f 2 id [] users t.members)) [
      | inl (e, refused) ↦ rw (create_room, works, refused) h
      | inr ((n, members), added) ↦
          let room : Room = record {
            id = id;
            name = name;
            is_group = is_group;
            is_e2ee_enabled = false;
          } in
          let new : Tables = record t { rooms = room ∷ t.rooms; members = members } in
          rw (create_room, works, added)
            (answer-Receipts (exec f n t new) _ (
              exec-Receipts f n t new h (
                wider-Receipts t new refl refl
                  (λ k.
                    sees-members k.0 k.1 t.members members
                      (λ r. add_members-wider f 2 id [] users t.members added r k.1) t.messages)
                  h)))
    ]
  ]
