-- ===== src/Hub/Queue.antt =====
-- The channel of clients to unregister, in backend/internal/core/realtime/websocket.go, and its loop.
use merope.Prelude.{
  ℕ, zero, suc, ◌+◌, ◌-◌, ◌≤◌, ◌≡◌, refl, ap, arith, true, ◌&&◌, inl, inr, Bool-cases, ==_iff, some,
  List, [], ◌∷◌, ◌++◌, String, if◌then◌else◌, ltb, ◌==◌, length,
}
use merope.Prelude.Text.{str_eq, str_eq_refl}
use merope.Hub.Shards.{Client, Hub, State, without, unregister, recipients, leave, take_unregister}
use merope.Hub.Delivery.{recipients-unregister}

-- How often a list holds an address.
unfoldable pub times : ℕ → List Client → ℕ
times p [] = 0
times p (c ∷ cs) = (if c.pointer == p then 1 else 0) + times p cs

-- How often a list holds an address of a user.
unfoldable pub times_of : String → ℕ → List Client → ℕ
times_of user p [] = 0
times_of user p (c ∷ cs) =
    (if str_eq user c.user_id && (c.pointer == p) then 1 else 0) + times_of user p cs

-- `Run` takes clients from the channel, as many as a number says.
unfoldable pub take_many : ℕ → State → State
unfolding take_unregister
take_many zero s = s
take_many (suc n) s = take_many n (take_unregister s)

times-without :
    (p q : ℕ) (cs : List Client) → times p (without q cs) ≡ times p cs - (if q == p then 1 else 0)
unfolding times without
times-without p q [] = ground arith
times-without p q (c ∷ cs) = elim (Bool-cases (c.pointer == q)) [
  | inl it ↦ let e = (==_iff c.pointer q).0 it in rw (it, e) (ground arith)
  | inr other ↦ rw other (ground (arith, times-without p q cs, other))
]

-- When the loop has emptied the channel, an address of a user is left as often as it was registered less
-- as often as it was in the channel.
take_all :
    (user : String) (p : ℕ) (hub : Hub) (queue : List Client)
    → let s = take_many (length queue) (record { hub = hub; unregister_queue = queue }) in
      times p (recipients user s.hub) ≡ times p (recipients user hub) - times_of user p queue
unfolding take_many times_of
take_all user p hub [] = omega arith
take_all user p hub (c ∷ queue) =
    let rest = take_all user p (unregister (some c) hub) queue in
    let one = ap (times p) (recipients-unregister user c hub) in
    elim (Bool-cases (str_eq user c.user_id)) [
      | inr other ↦ rw other (omega (arith, rest, rw other at one))
      | inl same ↦
          let less = times-without p c.pointer (recipients user hub) in
          rw same (omega (arith, rest, rw same at one, less))
    ]

times_of-append :
    (user : String) (p : ℕ) (queue : List Client) (c : Client)
    → times_of user p (queue ++ (c ∷ []))
      ≡ times_of user p queue + (if str_eq user c.user_id && (c.pointer == p) then 1 else 0)
unfolding times_of
times_of-append user p [] c = omega arith
times_of-append user p (d ∷ queue) c = omega (arith, times_of-append user p queue c)

-- A client that leaves while the channel has room, and is registered at most once, is delivered nothing any
-- more when the loop has taken as many clients as the channel holds.
pub left_is_removed :
    (c : Client) (s : State)
    → ltb (length s.unregister_queue) 1024 ≡ true
    → times c.pointer (recipients c.user_id s.hub) ≤ 1
    → let left = leave c s in
      let end = take_many (length left.unregister_queue) left in
      times c.pointer (recipients c.user_id end.hub) ≡ 0
unfolding leave
left_is_removed c s room once =
    let queue = s.unregister_queue ++ (c ∷ []) in
    let gone = take_all c.user_id c.pointer s.hub queue in
    let last = times_of-append c.user_id c.pointer s.unregister_queue c in
    let it : (c.pointer == c.pointer) ≡ true = (==_iff c.pointer c.pointer).1 refl in
    rw (room) (omega (arith, gone, once, rw (str_eq_refl c.user_id, it) at last))
