-- ===== src/Lru.antt =====
-- backend/internal/core/util/lru_cache.go: a map from keys to the elements of a linked list. An
-- element is known by the address that `PushFront` gave it, so the map and the list can disagree.
-- `Lock` and `Unlock` make each method one step.
pub mod Entries
pub mod Synced
pub mod Eviction
pub mod Refinement
pub mod Insertion
pub mod History
mod Tests
use merope.Prelude.{
  ℕ, suc, Bool, true, false, Option, none, some, List, [], ◌∷◌, if◌then◌else◌, ◌==◌, length, ite,
}
use merope.Prelude.Int.{ℤ, pos, leb_ℤ}

-- `*list.Element` with its `*entry`.
pub record Element {ℓ} (K V : Type ℓ) : Type ℓ where
  pub id : ℕ
  pub key : K
  pub value : V

pub record LruCache {ℓ} (K V : Type ℓ) : Type ℓ where
  pub capacity : ℤ
  pub cache : List (K × ℕ)
  pub list : List (Element K V)
  -- The address of the next element.
  pub next : ℕ

module _ {ℓ} {K V : Type ℓ} where
  -- `NewLRUCache`
  unfoldable pub new : ℤ → LruCache K V
  new capacity = record { capacity = capacity; cache = []; list = []; next = 0 }

  unfoldable pub clear : LruCache K V → LruCache K V
  clear c = record c { cache = []; list = [] }

  -- The element and the list without it.
  unfoldable pub extract : ℕ → List (Element K V) → Option (Element K V × List (Element K V))
  extract p [] = none
  extract p (e ∷ l) =
      let below : Option (Element K V × List (Element K V)) = elim (extract p l) [
        | none ↦ none
        | some (found, rest) ↦ some (found, e ∷ rest)
      ] in
      if e.id == p then some (e, l) else below

  -- `list.MoveToFront`
  unfoldable pub move_to_front : ℕ → List (Element K V) → List (Element K V)
  unfolding extract
  move_to_front p l = elim (extract p l) [ none ↦ l | some (e, rest) ↦ e ∷ rest ]

  -- `elem.Value.(*entry[K, V]).value`
  unfoldable pub value_at : ℕ → List (Element K V) → Option V
  value_at p [] = none
  value_at p (e ∷ l) = if e.id == p then some e.value else value_at p l

  -- `elem.Value.(*entry[K, V]).value = value`
  unfoldable pub set_value : ℕ → V → List (Element K V) → List (Element K V)
  set_value p v [] = []
  set_value p v (e ∷ l) = if e.id == p then record e { value = v } ∷ l else e ∷ set_value p v l

  -- `list.Back`
  unfoldable pub back : List (Element K V) → Option (Element K V)
  back [] = none
  back (e ∷ []) = some e
  back (e ∷ f ∷ l) = back (f ∷ l)

  -- `list.Remove`
  unfoldable pub remove : ℕ → List (Element K V) → List (Element K V)
  remove p [] = []
  remove p (e ∷ l) = if e.id == p then l else e ∷ remove p l

module _ {ℓ} {K : Type ℓ} (dec : Discrete K) where
  -- `m[key]`
  unfoldable pub get_key : K → List (K × ℕ) → Option ℕ
  get_key k [] = none
  get_key k ((j, p) ∷ m) = ite (dec j k) (some p) (get_key k m)

  -- `delete(m, key)`
  unfoldable pub delete_key : K → List (K × ℕ) → List (K × ℕ)
  delete_key k [] = []
  delete_key k ((j, p) ∷ m) = let rest = delete_key k m in ite (dec j k) rest ((j, p) ∷ rest)

  -- `m[key] = p`
  abbrev pub set_key : K → ℕ → List (K × ℕ) → List (K × ℕ)
  set_key k p m = (k, p) ∷ delete_key k m

module _ {ℓ} {K V : Type ℓ} (dec : Discrete K) where
  unfoldable pub get : K → LruCache K V → Option V × LruCache K V
  get k c = elim (get_key dec k c.cache) [
    | none ↦ (none, c)
    | some p ↦ let l = move_to_front p c.list in (value_at p l, record c { list = l })
  ]

  unfoldable pub remove_oldest : LruCache K V → LruCache K V
  remove_oldest c = elim (back c.list) [
    | none ↦ c
    | some e ↦ record c { list = remove e.id c.list; cache = delete_key dec e.key c.cache }
  ]

  -- The new element is pushed to the front and entered in the map.
  unfoldable pub push_front : K → V → LruCache K V → LruCache K V
  push_front k v c = record c {
    list = record { id = c.next; key = k; value = v } ∷ c.list;
    cache = set_key dec k c.next c.cache;
    next = suc c.next;
  }

  unfoldable pub put : K → V → LruCache K V → LruCache K V
  unfolding remove_oldest push_front
  put k v c = elim (get_key dec k c.cache) [
    | some p ↦ record c { list = set_value p v (move_to_front p c.list) }
    | none ↦ push_front k v (if leb_ℤ c.capacity (pos (length c.list)) then remove_oldest c else c)
  ]
