-- ===== src/Messaging/Members.antt =====
-- Runs of backend/internal/modules/messaging keep the receipts those of members.
use merope.Prelude.{
  ℕ, refl, Bool, true, false, inl, inr, Bool-cases, Option-cases, List, [], ◌∷◌, String,
}
use merope.Prelude.Int.{ℤ, pos, ltb_ℤ}
use merope.Prelude.Outcome.{Result, ok, err, Result-cases}
use merope.Prelude.Pairs.{upsert}
use merope.Messaging.Store.{Tables, Error, Faults, set_e2ee}
use merope.Messaging.Rows.{ChatMessage}
use merope.Messaging.Repository.{send_message}
use merope.Messaging.Marks.{
  mark_read, add_reaction, archive_room, get_e2ee_status, get_room_members, set_e2ee_status,
}
use merope.Messaging.Receipts.{Receipts, exec-Receipts, send_message-Receipts, create_room-Receipts}
use merope.Messaging.Service as Service
use merope.Messaging.Service.{Deps, Event, announce, announce_both, silent, guard_passes}
use merope.Messaging.Encryption.{
  forward, to_forward, requested, enable_e2ee, disable_e2ee, rotate_key,
}
use merope.Messaging.Keeps.{
  same-Receipts, with_pair-Receipts, keyed-Receipts, read-Receipts, reaction-Receipts,
  mute_room-Receipts, update_message-Receipts, delete_message-Receipts, pin_message-Receipts,
  record_key_rotation-Receipts,
}
use merope.Messaging.Calls.{Op, execute, run}

announce-Receipts :
    {A : Type 0} (bus : Bool) (event : A → Event) (p : Result Error A × Tables)
    → Receipts p.1
    → Receipts (announce bus event p).1
announce-Receipts bus event (err e, t) h = h
announce-Receipts bus event (ok a, t) h = h

announce_both-Receipts :
    (a b : Bool) (p : Result Error ChatMessage × Tables)
    → Receipts p.1
    → Receipts (announce_both a b p).1
announce_both-Receipts a b (err e, t) h = h
announce_both-Receipts a b (ok m, t) h = h

module _ (d : Deps) (f : Faults) (t : Tables) (h : Receipts t) where
  send-Receipts :
      (now : ℤ) (id : String) (msg : ChatMessage) → Receipts (Service.send d f now id msg t).1
  unfolding Service.send
  send-Receipts now id msg =
      let clean : ChatMessage = record msg { content = d.sanitize_html msg.content } in
      let sealed : ChatMessage = record msg { content = ""; is_encrypted = true } in
      elim (Result-cases (get_e2ee_status d.uuid_in f 0 msg.room_id t)) [
        | inl (e, failed) ↦ rw (Service.send, failed) h
        | inr (false, off) ↦
            rw (Service.send, off)
              (announce-Receipts d.bus _ (send_message d.scan_uuid f 1 id clean t)
                (send_message-Receipts d.scan_uuid f 1 id clean t h))
        | inr (true, on) ↦ elim (Option-cases msg.encrypted_payload) [
          | inl missing ↦ rw (Service.send, on, missing) h
          | inr (text, given) ↦ elim (Bool-cases (guard_passes d now msg text)) [
            | inr refused ↦ rw (Service.send, on, given, refused) h
            | inl passes ↦
                rw (Service.send, on, given, passes)
                  (announce_both-Receipts d.e2ee_bus d.bus
                    (send_message d.scan_uuid f 1 id sealed t)
                    (send_message-Receipts d.scan_uuid f 1 id sealed t h))
          ]
        ]
      ]

  mute-Receipts :
      (now : ℕ) (user room : String) (minutes : ℤ)
      → Receipts (Service.mute d f now user room minutes t).1
  unfolding Service.mute
  mute-Receipts now user room minutes = elim (Bool-cases (ltb_ℤ (pos 43200) minutes)) [
    | inl long ↦ rw long h
    | inr short ↦ rw short (mute_room-Receipts d.scan_uuid f user room _ t h)
  ]

  forward-Receipts :
      (now : ℕ) (id message from_user to_room : String)
      → Receipts (forward d f now id message from_user to_room t).1
  unfolding forward
  forward-Receipts now id message from_user to_room =
      elim (Result-cases (to_forward d f now message from_user to_room t)) [
        | inl (e, refused) ↦ rw (forward, refused) h
        | inr (msg, clear) ↦ rw (forward, clear) (send_message-Receipts d.scan_uuid f 2 id msg t h)
      ]

  set_e2ee_status-Receipts :
      (room : String) (enabled : Bool) → Receipts (set_e2ee_status d.uuid_in f room enabled t).1
  unfolding set_e2ee_status
  set_e2ee_status-Receipts room enabled = elim (Option-cases (d.uuid_in room)) [
    | inl bad ↦ rw (set_e2ee_status, bad) h
    | inr (id, good) ↦
        let new : Tables = record t { rooms = set_e2ee id enabled t.rooms } in
        rw (set_e2ee_status, good)
          (exec-Receipts f 0 t new h (same-Receipts t new refl refl refl refl h))
  ]

  enable-Receipts :
      (refused : String → Bool) (room user : String)
      → Receipts (enable_e2ee d f refused room user t).1
  unfolding enable_e2ee
  enable-Receipts refused room user =
      let (done_, t') = set_e2ee_status d.uuid_in f room true t in
      notified done_ t' (set_e2ee_status-Receipts room true)
    where
      notified :
          (done_ : Result Error (Unit {0})) (t' : Tables)
          → Receipts t'
          → Receipts (requested d f refused room user (done_, t')).1
      notified (err e) t' k = k
      notified (ok u) t' k = elim (Result-cases (get_room_members d.uuid_in f 1 room t')) [
        | inl (e, failed) ↦ rw (requested, failed) k
        | inr (users, listed) ↦ elim (Bool-cases d.bus) [
          | inl on ↦ rw (requested, listed, on) k
          | inr off ↦ rw (requested, listed, off) k
        ]
      ]

  execute-Receipts : (op : Op) → Receipts (execute d f op t)
  unfolding execute Service.start_direct Service.create_group Service.edit Service.delete
      Service.burn Service.react Service.read Service.archive Service.pin disable_e2ee rotate_key
      mark_read add_reaction archive_room
  execute-Receipts (Op.start_direct id a b) =
      create_room-Receipts d.scan_uuid f id "" false (a ∷ b ∷ []) t h
  execute-Receipts (Op.create_group id name users) =
      create_room-Receipts d.scan_uuid f id (d.strip_html name) true users t h
  execute-Receipts (Op.send now id msg) = send-Receipts now id msg
  execute-Receipts (Op.edit m u content) =
      announce-Receipts d.bus _ _ (update_message-Receipts d.scan_uuid f m u _ t h)
  execute-Receipts (Op.delete m u) =
      announce-Receipts d.bus _ _ (delete_message-Receipts d.scan_uuid f m u t h)
  execute-Receipts (Op.burn m u) = delete_message-Receipts d.scan_uuid f m u t h
  execute-Receipts (Op.react m u emoji) =
      announce-Receipts d.bus _ _
        (with_pair-Receipts d.scan_uuid f m u t _ h (λ k. reaction-Receipts t emoji k h))
  execute-Receipts (Op.read now m u) =
      announce-Receipts d.bus _ _
        (with_pair-Receipts d.scan_uuid f m u t _ h (λ k. read-Receipts t now k h))
  execute-Receipts (Op.mute now u r minutes) = mute-Receipts now u r minutes
  execute-Receipts (Op.archive u r archived) =
      let next : String × String → Tables =
        λ k. record t { archives = upsert k archived t.archives } in
      keyed-Receipts d.scan_uuid f u r t next h
        (λ k. same-Receipts t (next k) refl refl refl refl h)
  execute-Receipts (Op.pin r m) = pin_message-Receipts d.scan_uuid f r m true t h
  execute-Receipts (Op.forward_to now id m u r) = forward-Receipts now id m u r
  execute-Receipts (Op.enable refused r u) = enable-Receipts refused r u
  execute-Receipts (Op.disable r) = set_e2ee_status-Receipts r false
  execute-Receipts (Op.rotate r u key device) =
      record_key_rotation-Receipts d.uuid_in f r u key device t h

-- After any calls of the service, with any faults on the way, every read receipt and every reaction is of
-- a message in a room that its user is a member of, and a user has at most one of each for a message, if
-- that was so at the start.
pub run-Receipts :
    (d : Deps) (ops : List (Faults × Op)) (t : Tables) → Receipts t → Receipts (run d ops t)
unfolding run
run-Receipts d [] t h = h
run-Receipts d ((f, op) ∷ ops) t h =
    run-Receipts d ops (execute d f op t) (execute-Receipts d f t h op)
