-- ===== src/Messaging/Keeps.antt =====
-- The repository's statements of backend/internal/modules/messaging keep the receipts those of members.
use merope.Prelude.{
  ℕ, ◌≡◌, refl, Bool, true, inl, inr, Bool-cases, Option-cases, Option, none, some, String,
  if◌then◌else◌,
}
use merope.Prelude.Pairs.{remove, upsert, upsert-All, upsert-IsKeyed}
use merope.Messaging.Store.{Tables, Faults, sees, find_room}
use merope.Messaging.Rows.{exec}
use merope.Messaging.Repository.{update_message, delete_message, pin_message}
use merope.Messaging.Marks.{mute_room, record_key_rotation, with_pair, keyed}
use merope.Messaging.Receipts.{
  IsSeen, Receipts, wider-Receipts, exec-Receipts, answer-Receipts, update-Receipts,
}

-- Tables that differ in neither members, messages nor receipts.
pub same-Receipts :
    (t t' : Tables)
    → t'.members ≡ t.members
    → t'.messages ≡ t.messages
    → t'.reads ≡ t.reads
    → t'.reactions ≡ t.reactions
    → Receipts t
    → Receipts t'
same-Receipts t t' e1 e2 e3 e4 h = wider-Receipts t t' e3 e4 (λ k seen. rw (e1, e2) seen) h

module _ (scan_uuid : String → Option String) where
  pub with_pair-Receipts :
      (f : Faults) (a b : String) (t : Tables) (next : String × String → Tables)
      → Receipts t
      → ((k : String × String) → Receipts (next k))
      → Receipts (with_pair scan_uuid f a b t t next).1
  with_pair-Receipts f a b t next h k = elim (Option-cases (scan_uuid a)) [
    | inl no_id ↦ rw (with_pair, no_id) (exec-Receipts f 0 t t h h)
    | inr (x, is_x) ↦ elim (Option-cases (scan_uuid b)) [
      | inl no_id ↦ rw (with_pair, is_x, no_id) (exec-Receipts f 0 t t h h)
      | inr (y, is_y) ↦ rw (with_pair, is_x, is_y) (exec-Receipts f 0 t (next (x, y)) h (k (x, y)))
    ]
  ]

  pub keyed-Receipts :
      (f : Faults) (a b : String) (t : Tables) (next : String × String → Tables)
      → Receipts t
      → ((k : String × String) → Receipts (next k))
      → Receipts (keyed scan_uuid f a b t next).1
  keyed-Receipts f a b t next h k = elim (Option-cases (scan_uuid a)) [
    | inl no_id ↦ rw (keyed, no_id) h
    | inr (x, is_x) ↦ elim (Option-cases (scan_uuid b)) [
      | inl no_id ↦ rw (keyed, is_x, no_id) h
      | inr (y, is_y) ↦ rw (keyed, is_x, is_y) (exec-Receipts f 0 t (next (x, y)) h (k (x, y)))
    ]
  ]

-- What a receipt or a reaction writes, if the user sees the message.
pub read-Receipts :
    (t : Tables) (now : ℕ) (k : String × String)
    → Receipts t
    → Receipts
        (if sees k.0 k.1 t.members t.messages then record t { reads = upsert k now t.reads } else t)
read-Receipts t now k h = elim (Bool-cases (sees k.0 k.1 t.members t.messages)) [
  | inr unseen ↦ rw unseen h
  | inl seen ↦ rw seen (record {
    reads = upsert-All (IsSeen t) k now t.reads seen h.reads;
    reactions = h.reactions;
    one_read = upsert-IsKeyed k now t.reads h.one_read;
    one_reaction = h.one_reaction;
  })
]

pub reaction-Receipts :
    (t : Tables) (emoji : String) (k : String × String)
    → Receipts t
    → Receipts (
        if sees k.0 k.1 t.members t.messages
        then record t { reactions = upsert k emoji t.reactions }
        else t)
reaction-Receipts t emoji k h = elim (Bool-cases (sees k.0 k.1 t.members t.messages)) [
  | inr unseen ↦ rw unseen h
  | inl seen ↦ rw seen (record {
    reads = h.reads;
    reactions = upsert-All (IsSeen t) k emoji t.reactions seen h.reactions;
    one_read = h.one_read;
    one_reaction = upsert-IsKeyed k emoji t.reactions h.one_reaction;
  })
]

pub mute_room-Receipts :
    (scan_uuid : String → Option String) (f : Faults) (user room : String) (until : Option ℕ)
    (t : Tables)
    → Receipts t
    → Receipts (mute_room scan_uuid f user room until t).1
unfolding mute_room
mute_room-Receipts scan_uuid f user room none t h =
    let next : String × String → Tables = λ k. record t { mutes = remove k (λ _. true) t.mutes } in
    with_pair-Receipts scan_uuid f user room t next h
      (λ k. same-Receipts t (next k) refl refl refl refl h)
mute_room-Receipts scan_uuid f user room (some until) t h =
    let next : String × String → Tables = λ k. record t { mutes = upsert k until t.mutes } in
    keyed-Receipts scan_uuid f user room t next h
      (λ k. same-Receipts t (next k) refl refl refl refl h)

pub update_message-Receipts :
    (scan_uuid : String → Option String) (f : Faults) (message sender content : String) (t : Tables)
    → Receipts t
    → Receipts (update_message scan_uuid f message sender content t).1
unfolding update_message
update_message-Receipts scan_uuid f message sender content t h =
    answer-Receipts (exec f 0 t _) _
      (exec-Receipts f 0 t _ h (update-Receipts t _ _ (λ m. refl) (λ m. refl) h))

pub delete_message-Receipts :
    (scan_uuid : String → Option String) (f : Faults) (message sender : String) (t : Tables)
    → Receipts t
    → Receipts (delete_message scan_uuid f message sender t).1
unfolding delete_message
delete_message-Receipts scan_uuid f message sender t h =
    exec-Receipts f 0 t _ h (update-Receipts t _ _ (λ m. refl) (λ m. refl) h)

pub pin_message-Receipts :
    (scan_uuid : String → Option String) (f : Faults) (room message : String) (pinned : Bool)
    (t : Tables)
    → Receipts t
    → Receipts (pin_message scan_uuid f room message pinned t).1
unfolding pin_message
pin_message-Receipts scan_uuid f room message pinned t h =
    exec-Receipts f 0 t _ h (update-Receipts t _ _ (λ m. refl) (λ m. refl) h)

pub record_key_rotation-Receipts :
    (uuid_in : String → Option String) (f : Faults) (room user key device : String) (t : Tables)
    → Receipts t
    → Receipts (record_key_rotation uuid_in f room user key device t).1
unfolding record_key_rotation
record_key_rotation-Receipts uuid_in f room user key device t h =
    elim (Option-cases (uuid_in room)) [
      | inl bad ↦ rw (record_key_rotation, bad) h
      | inr (r, is_r) ↦ elim (Option-cases (uuid_in user)) [
        | inl bad ↦ rw (record_key_rotation, is_r, bad) h
        | inr (u, is_u) ↦ elim (Option-cases (find_room r t.rooms)) [
          | inl missing ↦ rw (record_key_rotation, is_r, is_u, missing) h
          | inr (there, found) ↦
              rw (record_key_rotation, is_r, is_u, found)
                (exec-Receipts f 0 t _ h (same-Receipts t _ refl refl refl refl h))
        ]
      ]
    ]
