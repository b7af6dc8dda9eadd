-- ===== src/Hub/Shards.antt =====
-- backend/internal/core/realtime/websocket.go: the hub's shards, its loop over the two channels, and what it
-- does with a client's message. The connections are left out, but for whether a client has one; each
-- section under a shard's lock is one step.
use merope.Prelude.{
  ℕ, ◌+◌, ◌*◌, ◌/◌, ◌%◌, ◌^◌, Bool, not, ◌&&◌, ◌||◌, Option, none, some, List, [], ◌∷◌, ◌++◌,
  String, if◌then◌else◌, ltb, ◌==◌, length,
}
use Prim.Native.Nat.{bit_xor}
use merope.Prelude.Text.{str_eq, str_append, is_empty, byte_len, codes}

-- A client; `pointer` is its address.
pub record Client : Type 0 where
  pub pointer : ℕ
  pub user_id : String
  pub has_conn : Bool

-- The UTF-8 bytes of a code point, and of a text.
abbrev pub utf8 : ℕ → List ℕ
utf8 c =
    if ltb c 0x80
    then c ∷ []
    else if ltb c 0x800
    then (0xc0 + c / 64) ∷ (0x80 + c % 64) ∷ []
    else if ltb c 0x10000
    then (0xe0 + c / 4096) ∷ (0x80 + c / 64 % 64) ∷ (0x80 + c % 64) ∷ []
    else (0xf0 + c / 262144) ∷ (0x80 + c / 4096 % 64) ∷ (0x80 + c / 64 % 64) ∷ (0x80 + c % 64) ∷ []

abbrev pub bytes_of : List ℕ → List ℕ
bytes_of [] = []
bytes_of (c ∷ cs) = utf8 c ++ bytes_of cs

abbrev pub fnv1a : ℕ → List ℕ → ℕ
fnv1a hash [] = hash
fnv1a hash (b ∷ bs) = fnv1a (bit_xor hash b * 16777619 % 2 ^ 32) bs

-- `getShard`
unfoldable pub get_shard : String → ℕ
get_shard user_id = fnv1a 2166136261 (bytes_of (codes user_id)) % 32

-- The map of a shard.
abbrev pub Clients : Type 0
Clients = String → Option (List Client)

abbrev pub Hub : Type 0
Hub = ℕ → Clients

-- `NewHub`
abbrev pub new_hub : Hub
new_hub = λ _ _. none

abbrev pub slice_of : Option (List Client) → List Client
slice_of none = []
slice_of (some cs) = cs

abbrev pub set_clients : ℕ → String → Option (List Client) → Hub → Hub
set_clients i user cs hub = λ j u. if (j == i) && str_eq u user then cs else hub j u

unfoldable pub is_valid : Client → Bool
is_valid c = c.has_conn && not (is_empty c.user_id)

-- `s.clients[client.UserID] = append(s.clients[client.UserID], client)`
unfoldable pub add_client : Client → Hub → Hub
unfolding get_shard
add_client c hub =
    let i = get_shard c.user_id in
    set_clients i c.user_id (some (slice_of (hub i c.user_id) ++ (c ∷ []))) hub

-- The case `<-h.register` of `Run`, for a client or nil; `Serve` adds a client the same way.
unfoldable pub register : Option Client → Hub → Hub
unfolding is_valid add_client
register none hub = hub
register (some c) hub = if is_valid c then add_client c hub else hub

-- The clients without the first that has the address.
unfoldable pub without : ℕ → List Client → List Client
without p [] = []
without p (c ∷ cs) = let below = without p cs in if c.pointer == p then cs else c ∷ below

abbrev pub unless_empty : List Client → Option (List Client)
unless_empty [] = none
unless_empty (c ∷ cs) = some (c ∷ cs)

-- The case `<-h.unregister` of `Run`.
unfoldable pub unregister : Option Client → Hub → Hub
unfolding get_shard without
unregister none hub = hub
unregister (some c) hub =
    let i = get_shard c.user_id in
    elim (hub i c.user_id) [
      | none ↦ hub
      | some cs ↦ set_clients i c.user_id (unless_empty (without c.pointer cs)) hub
    ]

-- `Stop`
unfoldable pub stop : Hub → Hub
stop hub = λ i u. if ltb i 32 then none else hub i u

-- The clients that `LocalDelivery` and `Broadcast` write to.
unfoldable pub recipients : String → Hub → List Client
unfolding get_shard
recipients user hub = slice_of (hub (get_shard user) user)

pub record Message : Type 0 where
  pub type : String
  pub to : String
  pub from : String
  pub payload : String
  pub timestamp : Option ℕ

-- A message that a client has sent, as it is published, with its subject.
unfoldable pub route : ℕ → Client → Message → Option (String × Message)
route now c msg =
    if is_empty msg.type || ltb 64 (byte_len msg.type) || ltb 128 (byte_len msg.to)
    then none
    else if ltb 65536 (byte_len msg.payload)
    then none
    else if is_empty msg.to
    then none
    else some (
      str_append "ws.route." msg.to,
      record msg {
        from = c.user_id;
        timestamp = elim msg.timestamp [ none ↦ some now | some t ↦ some t ];
      },
    )

-- The hub with its channel of clients to unregister, which holds 1024.
pub record State : Type 0 where
  pub hub : Hub
  pub unregister_queue : List Client

-- The end of `handleIncoming`: a client that finds the channel full is closed and not sent.
unfoldable pub leave : Client → State → State
leave c s =
    if ltb (length s.unregister_queue) 1024
    then record s { unregister_queue = s.unregister_queue ++ (c ∷ []) }
    else s

-- `Run` takes the next client from the channel, if there is one.
unfoldable pub take_unregister : State → State
unfolding unregister
take_unregister s = elim s.unregister_queue [
  | [] ↦ s
  | c ∷ cs ↦ record { hub = unregister (some c) s.hub; unregister_queue = cs }
]
