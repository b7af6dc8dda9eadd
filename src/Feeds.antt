-- ===== src/Feeds.antt =====
-- backend/internal/core/feeds/editor.go: items, the engine's tasks, and the functions that cut lists into
-- parts. The float `Score` of an item is left out.
mod Chunks
mod Pages
mod Fanout
mod Diversity
mod Tests
use merope.Prelude.{
  ℕ, zero, suc, ◌+◌, ◌-◌, Bool, true, false, Option, none, some, List, [], ◌∷◌, String,
  if◌then◌else◌, leb, ltb, length, take, drop, get_elem?, ◌++◌,
}
use merope.Prelude.Int.{ℤ, pos, pos_part, leb_ℤ, ltb_ℤ}
use merope.Prelude.Text.{str_eq, is_empty}
use merope.Prelude.Outcome.{Result, ok, err}

pub record FeedItem : Type 0 where
  pub id : String
  pub author_id : String
  pub content_type : String
  pub content : String
  pub created_at : ℕ
  pub source_type : String

pub record FanoutTask : Type 0 where
  pub author_id : String
  pub followers : List String
  pub item : FeedItem

-- The loop of `chunkFollowers` at a positive size, which takes at most one round for each follower.
unfoldable pub chunks {ℓ} : {A : Type ℓ} → ℕ → ℕ → List A → List (List A)
chunks zero size xs = []
chunks (suc fuel) size [] = []
chunks (suc fuel) size (x ∷ xs) = take size (x ∷ xs) ∷ chunks fuel size (drop size (x ∷ xs))

abbrev pub or_default : ℤ → ℕ → ℕ
or_default n d = if leb_ℤ n (pos 0) then d else pos_part n

unfoldable pub chunk_followers : List String → ℤ → List (List String)
unfolding chunks
chunk_followers followers size = chunks (length followers) (or_default size 100) followers

-- The index after the first item with this id, or 0.
unfoldable pub index_after : String → List FeedItem → Option ℕ
index_after cursor [] = none
index_after cursor (x ∷ xs) =
    let below = index_after cursor xs in
    if str_eq x.id cursor then some 1 else elim below [ none ↦ none | some i ↦ some (suc i) ]

abbrev pub or_zero : Option ℕ → ℕ
or_zero none = 0
or_zero (some i) = i

abbrev pub id_at : ℕ → List FeedItem → String
id_at i items = elim (get_elem? items i) [ none ↦ "" | some x ↦ x.id ]

-- `paginate` at the positive limit that `GetFeed` passes.
unfoldable pub paginate : List FeedItem → ℕ → String → List FeedItem × String
unfolding index_after
paginate items limit cursor =
    if leb (length items) limit
    then (items, "")
    else (let start = if is_empty cursor then 0 else or_zero (index_after cursor items) in
        let end = if ltb (length items) (start + limit) then length items else start + limit in
        (
          take (end - start) (drop start items),
          if ltb end (length items) then id_at (end - 1) items else "",
        ))

-- The sends of `Publish`; the list says of each whether the queue takes it before the context is done.
unfoldable pub send : List Bool → List FanoutTask → List FanoutTask × Bool
send takes [] = ([], true)
send [] (t ∷ ts) = ([], false)
send (false ∷ takes) (t ∷ ts) = ([], false)
send (true ∷ takes) (t ∷ ts) = let (sent, all_sent) = send takes ts in (t ∷ sent, all_sent)

unfoldable pub tasks_of : FeedItem → List (List String) → List FanoutTask
tasks_of item [] = []
tasks_of item (c ∷ cs) =
    record { author_id = item.author_id; followers = c; item = item } ∷ tasks_of item cs

pub data Error : Type 0 where
  graph_failed context_done : Error

-- What is sent to the queue, and the result. `graph` is the answer of `GetFollowers`.
unfoldable pub publish :
    ℤ
    → Result Error (List String)
    → List Bool
    → FeedItem
    → List FanoutTask × Result Error (Unit {0})
unfolding send tasks_of chunk_followers
publish batch_size (err e) takes item = ([], err e)
publish batch_size (ok followers) takes item =
    let (sent, all_sent) = send takes (tasks_of item (chunk_followers followers batch_size)) in
    (sent, if all_sent then ok tt else err context_done)

-- What the select of `fanoutWorker` receives. The channel is closed, or the context done, at the end.
pub data Event : Type 0 where
  task : FanoutTask → Event
  tick : Event

-- The batches that `processBatch` is called with until the worker returns, from a buffer on.
unfoldable pub fanout_worker : ℕ → List Event → List FanoutTask → List (List FanoutTask)
fanout_worker batch_size [] [] = []
fanout_worker batch_size [] (t ∷ ts) = (t ∷ ts) ∷ []
fanout_worker batch_size (tick ∷ es) [] = fanout_worker batch_size es []
fanout_worker batch_size (tick ∷ es) (t ∷ ts) = (t ∷ ts) ∷ fanout_worker batch_size es []
fanout_worker batch_size (task t ∷ es) buffer =
    let full = fanout_worker batch_size es [] in
    let more = fanout_worker batch_size es (buffer ++ t ∷ []) in
    if leb batch_size (length (buffer ++ t ∷ [])) then (buffer ++ t ∷ []) ∷ full else more
