-- ===== src/Messaging/Marked.antt =====
-- Rows of the pairs' tables of backend/internal/modules/messaging: their keys, and who sees which message.
use merope.Prelude.{◌≡◌, refl, Bool, true, ◌&&◌, inl, inr, Bool-cases, List, [], ◌∷◌, String}
use merope.Prelude.Text.{str_eq}
use merope.Messaging.Store.{Message, is_member, sees, update_messages}

-- More members see no less.
pub sees-members :
    (message user : String) (members more : List (String × String))
    → ((room : String) → is_member room user members ≡ true → is_member room user more ≡ true)
    → (ms : List Message) → sees message user members ms ≡ true
    → sees message user more ms ≡ true
unfolding sees
sees-members message user members more wider [] h = absurd (cc)
sees-members message user members more wider (m ∷ rest) h =
    elim (Bool-cases (str_eq m.id message)) [
      | inr other ↦
          rw other (sees-members message user members more wider rest (rw (sees, other) at h))
      | inl same ↦ elim (Bool-cases (is_member m.room_id user members)) [
        | inl joined ↦ rw (same, wider m.room_id joined) refl
        | inr away ↦
            let below =
              sees-members message user members more wider rest (rw (sees, same, away) at h) in
            elim (Bool-cases (is_member m.room_id user more)) [
              | inl joined ↦ rw (same, joined) refl
              | inr still ↦ rw (same, still) below
            ]
      ]
    ]

-- A new message hides none.
pub sees-cons :
    (message user : String) (members : List (String × String)) (m : Message) (ms : List Message)
    → sees message user members ms ≡ true
    → sees message user members (m ∷ ms) ≡ true
unfolding sees
sees-cons message user members m ms h =
    let here = str_eq m.id message && is_member m.room_id user members in
    elim (Bool-cases here) [ inl first ↦ rw first refl | inr later ↦ rw later h ]

-- An update that keeps the identifiers changes nothing about who sees what.
pub sees-update :
    (message user : String) (members : List (String × String)) (test : Message → Bool)
    (f : Message → Message)
    → ((m : Message) → (f m).id ≡ m.id)
    → ((m : Message) → (f m).room_id ≡ m.room_id)
    → (ms : List Message)
    → sees message user members (update_messages test f ms) ≡ sees message user members ms
unfolding sees update_messages
sees-update message user members test f ids rooms [] = refl
sees-update message user members test f ids rooms (m ∷ rest) =
    let below = sees-update message user members test f ids rooms rest in
    elim (Bool-cases (test m)) [
      | inl picked ↦ rw (picked, ids m, rooms m, below) refl
      | inr passed ↦ rw (passed, below) refl
    ]
