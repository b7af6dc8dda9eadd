-- ===== src/Hub/Delivery.antt =====
-- The clients that backend/internal/core/realtime/websocket.go delivers to are those that are promised.
use merope.Prelude.{
  ◌≡◌, refl, sym, ap, ◌∙◌, arith, true, inl, inr, Bool-cases, Option-cases, ==_iff, lt→ltb, Option,
  none, some, List, [], ◌∷◌, ◌++◌, String, if◌then◌else◌, ltb, ◌==◌,
}
use merope.Prelude.Text.{str_eq, str_eq_iff}
use merope.Hub.Shards.{
  Client, Hub, get_shard, slice_of, set_clients, is_valid, add_client, register, without,
  unless_empty, unregister, stop, recipients,
}
use merope.Hub.Spec.{
  of_user, Op, join, leave, stop_all, apply, promise, hub_after, promised, of_user-append,
  of_user-leave_first,
}

-- The slot of a user that is set, as any user meets it.
recipients-set_clients :
    (user owner : String) (cs : Option (List Client)) (hub : Hub)
    → recipients user (set_clients (get_shard owner) owner cs hub)
      ≡ (if str_eq user owner then slice_of cs else recipients user hub)
unfolding recipients
recipients-set_clients user owner cs hub = elim (Bool-cases (str_eq user owner)) [
  | inl same ↦
      let here : (get_shard user == get_shard owner) ≡ true =
        (==_iff _ _).1 (ap get_shard ((str_eq_iff user owner).0 same)) in
      rw (here, same) refl
  | inr other ↦ elim (Bool-cases (get_shard user == get_shard owner)) [
    | inl shared ↦ rw (shared, other) refl
    | inr apart ↦ rw (apart, other) refl
  ]
]

recipients-add_client :
    (user : String) (c : Client) (hub : Hub)
    → recipients user (add_client c hub)
      ≡ (if str_eq user c.user_id then recipients user hub ++ (c ∷ []) else recipients user hub)
unfolding add_client recipients
recipients-add_client user c hub =
    let cs = recipients c.user_id hub ++ (c ∷ []) in
    let set = recipients-set_clients user c.user_id (some cs) hub in
    elim (Bool-cases (str_eq user c.user_id)) [
      | inr other ↦ rw other (rw other at set)
      | inl same ↦
          let e = (str_eq_iff user c.user_id).0 same in
          rw same ((rw same at set) ∙ ap (λ u. recipients u hub ++ (c ∷ [])) (sym e))
    ]

slice_of-unless_empty : (cs : List Client) → slice_of (unless_empty cs) ≡ cs
slice_of-unless_empty [] = refl
slice_of-unless_empty (c ∷ cs) = refl

pub recipients-unregister :
    (user : String) (c : Client) (hub : Hub)
    → recipients user (unregister (some c) hub) ≡ (
        if str_eq user c.user_id
        then without c.pointer (recipients user hub)
        else recipients user hub)
unfolding unregister recipients
recipients-unregister user c hub = elim (Option-cases (hub (get_shard c.user_id) c.user_id)) [
  | inl nobody ↦ elim (Bool-cases (str_eq user c.user_id)) [
    | inr other ↦ rw (unregister, nobody, other) refl
    | inl same ↦
        let e = (str_eq_iff user c.user_id).0 same in
        let none_ : recipients user hub ≡ [] = ap (λ u. recipients u hub) e ∙ ap slice_of nobody in
        rw (unregister, nobody, same) (none_ ∙ sym (ap (without c.pointer) none_))
  ]
  | inr (cs, found) ↦
      let left = unless_empty (without c.pointer cs) in
      let set = recipients-set_clients user c.user_id left hub in
      elim (Bool-cases (str_eq user c.user_id)) [
        | inr other ↦ rw (unregister, found, other) (rw other at set)
        | inl same ↦
            let e = (str_eq_iff user c.user_id).0 same in
            let these : recipients user hub ≡ cs =
              ap (λ u. recipients u hub) e ∙ ap slice_of found in
            rw (unregister, found, same)
              ((rw same at set)
                ∙ slice_of-unless_empty (without c.pointer cs)
                ∙ sym (ap (without c.pointer) these))
      ]
]

-- There is no shard but those that `Stop` clears.
get_shard-bound : (user : String) → ltb (get_shard user) 32 ≡ true
unfolding get_shard
get_shard-bound user = lt→ltb _ 32 (omega arith)

recipients-stop : (user : String) (hub : Hub) → recipients user (stop hub) ≡ []
unfolding stop recipients
recipients-stop user hub = rw (get_shard-bound user) refl

abbrev Follows : Hub → List Client → Type 0
Follows hub cs = (user : String) → recipients user hub ≡ of_user user cs

apply-Follows :
    (op : Op) (hub : Hub) (cs : List Client)
    → Follows hub cs
    → Follows (apply op hub) (promise op cs)
unfolding apply promise register of_user
apply-Follows (join none) hub cs h user = h user
apply-Follows (join (some c)) hub cs h user = elim (Bool-cases (is_valid c)) [
  | inr bad ↦ rw bad (h user)
  | inl good ↦ rw good (
      recipients-add_client user c hub
      ∙ ap (λ x. if str_eq user c.user_id then x ++ (c ∷ []) else x) (h user)
      ∙ sym (of_user-append user c cs))
]
apply-Follows (leave none) hub cs h user = h user
apply-Follows (leave (some c)) hub cs h user =
    recipients-unregister user c hub
    ∙ ap (λ x. if str_eq user c.user_id then without c.pointer x else x) (h user)
    ∙ sym (of_user-leave_first user c cs)
apply-Follows stop_all hub cs h user = recipients-stop user hub

hub-Follows : (ops : List Op) → Follows (hub_after ops) (promised ops)
unfolding hub_after promised recipients of_user
hub-Follows [] user = refl
hub-Follows (op ∷ earlier) user =
    apply-Follows op (hub_after earlier) (promised earlier) (hub-Follows earlier) user

-- After any clients that join and leave and any stops, a message to a user is delivered to the clients of
-- that user that are registered, in the order in which they came.
pub delivery_refines :
    (user : String) (ops : List Op) → recipients user (hub_after ops) ≡ of_user user (promised ops)
delivery_refines user ops = hub-Follows ops user
