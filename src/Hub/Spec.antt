-- ===== src/Hub/Spec.antt =====
-- What the hub of backend/internal/core/realtime/websocket.go promises: the clients that are registered, in the
-- order in which they came.
use merope.Prelude.{
  ◌≡◌, refl, ap, false, ◌&&◌, Bool-cases, both_true, inl, inr, Option, none, some, List, [], ◌∷◌,
  ◌++◌, String, if◌then◌else◌, ◌==◌,
}
use merope.Prelude.Text.{str_eq, str_eq_iff}
use merope.Hub.Shards.{Client, Hub, new_hub, is_valid, without, register, unregister, stop}

-- The clients of a user.
unfoldable pub of_user : String → List Client → List Client
of_user user [] = []
of_user user (c ∷ cs) =
    let below = of_user user cs in if str_eq user c.user_id then c ∷ below else below

-- The clients without the first of a user that has the address.
unfoldable pub leave_first : Client → List Client → List Client
leave_first c [] = []
leave_first c (d ∷ ds) =
    let below = leave_first c ds in
    if str_eq c.user_id d.user_id && (d.pointer == c.pointer) then ds else d ∷ below

pub data Op : Type 0 where
  join : Option Client → Op
  leave : Option Client → Op
  stop_all : Op

unfoldable pub apply : Op → Hub → Hub
unfolding register unregister stop
apply (join c) hub = register c hub
apply (leave c) hub = unregister c hub
apply stop_all hub = stop hub

unfoldable pub promise : Op → List Client → List Client
unfolding is_valid leave_first
promise (join none) cs = cs
promise (join (some c)) cs = if is_valid c then cs ++ (c ∷ []) else cs
promise (leave none) cs = cs
promise (leave (some c)) cs = leave_first c cs
promise stop_all cs = []

-- The hub and the promised list after operations, newest first.
unfoldable pub hub_after : List Op → Hub
unfolding apply
hub_after [] = new_hub
hub_after (op ∷ earlier) = apply op (hub_after earlier)

unfoldable pub promised : List Op → List Client
unfolding promise
promised [] = []
promised (op ∷ earlier) = promise op (promised earlier)

pub of_user-append :
    (user : String) (c : Client) (cs : List Client)
    → of_user user (cs ++ (c ∷ []))
      ≡ (if str_eq user c.user_id then of_user user cs ++ (c ∷ []) else of_user user cs)
unfolding of_user
of_user-append user c [] = refl
of_user-append user c (d ∷ ds) = elim (Bool-cases (str_eq user d.user_id)) [
  | inr other ↦ rw other (of_user-append user c ds)
  | inl same ↦ elim (Bool-cases (str_eq user c.user_id)) [
    | inl here ↦ rw (same, here, of_user-append user c ds, here) refl
    | inr away ↦ rw (same, away, of_user-append user c ds, away) refl
  ]
]

-- Leaving touches the clients of that user alone.
pub of_user-leave_first :
    (user : String) (c : Client) (cs : List Client)
    → of_user user (leave_first c cs)
      ≡ (if str_eq user c.user_id then without c.pointer (of_user user cs) else of_user user cs)
unfolding of_user leave_first without
of_user-leave_first user c [] = elim (Bool-cases (str_eq user c.user_id)) [
  | inl here ↦ rw here refl
  | inr away ↦ rw away refl
]
of_user-leave_first user c (d ∷ ds) =
    let below = of_user-leave_first user c ds in
    elim (Bool-cases (str_eq user c.user_id)) [
      | inl here ↦
          let e = (str_eq_iff user c.user_id).0 here in
          elim (Bool-cases (str_eq user d.user_id)) [
            | inr other ↦ rw (here, other, ← e, other, other) (rw here at below)
            | inl same ↦ elim (Bool-cases (d.pointer == c.pointer)) [
              | inl it ↦ rw (here, same, ← e, same, it) refl
              | inr no_ ↦ rw (here, same, ← e, same, no_) (rw same (ap (◌∷◌ d) (rw here at below)))
            ]
          ]
      | inr away ↦ elim (Bool-cases (str_eq c.user_id d.user_id && (d.pointer == c.pointer))) [
        | inl it ↦
            let (owner, _) = both_true (str_eq c.user_id d.user_id) (d.pointer == c.pointer) it in
            let other : str_eq user d.user_id ≡ false =
              rw (← (str_eq_iff c.user_id d.user_id).0 owner) away in
            rw (away, it, other) refl
        | inr no_ ↦ elim (Bool-cases (str_eq user d.user_id)) [
          | inl same ↦ rw (away, no_, same) (ap (◌∷◌ d) (rw away at below))
          | inr other ↦ rw (away, no_, other) (rw away at below)
        ]
      ]
    ]
