-- ===== src/Redis.antt =====
-- The keys of a Redis server as the backend's scripts and commands use them: a key holds a value and the
-- instant at which it expires, in the unit of the component that uses it.
use merope.Prelude.{
  ℕ, ◌+◌, ◌≤◌, ◌<◌, ◌≡◌, refl, ap, arith, Bool, true, false, Bool-cases, Option-cases, Option-cases,
  inl, inr, Option, none, some, String, if◌then◌else◌, ltb,
}
use merope.Prelude.Text.{str_eq, str_eq_refl}

abbrev pub Redis : Type 0
Redis = String → Option (String × ℕ)

abbrev pub live : ℕ → Option (String × ℕ) → Option String
live now none = none
live now (some (v, expires)) = if ltb now expires then some v else none

-- GET
unfoldable pub get : ℕ → String → Redis → Option String
get now k m = live now (m k)

-- DEL
unfoldable pub del : String → Redis → Redis
del k m = λ j. if str_eq j k then none else m j

-- SET ... EX or PX, for a positive duration.
unfoldable pub set_ex : ℕ → String → String → ℕ → Redis → Redis
set_ex now k v seconds m = λ j. if str_eq j k then some (v, now + seconds) else m j

-- SET ... NX: whether the key was free, and what the server holds then.
unfoldable pub set_nx : ℕ → String → String → ℕ → Redis → Bool × Redis
unfolding get set_ex
set_nx now k v duration m = elim (get now k m) [
  | none ↦ (true, set_ex now k v duration m)
  | some _ ↦ (false, m)
]

pub get-del_same : (now : ℕ) (k : String) (m : Redis) → get now k (del k m) ≡ none
unfolding get del
get-del_same now k m = rw (get, str_eq_refl k) refl

pub get-del-none :
    (now : ℕ) (j k : String) (m : Redis) → get now j m ≡ none → get now j (del k m) ≡ none
unfolding get del
get-del-none now j k m h = elim (Bool-cases (str_eq j k)) [
  | inl same ↦ rw (get, same) refl
  | inr other ↦ rw (get, other) h
]

pub get-set_ex_same :
    (now later : ℕ) (k v : String) (seconds : ℕ) (m : Redis)
    → later < now + seconds
    → get later k (set_ex now k v seconds m) ≡ some v
unfolding get set_ex
get-set_ex_same now later k v seconds m h =
    let alive : ltb later (now + seconds) ≡ true = ground arith in
    rw (get, str_eq_refl k, alive) refl

pub get-set_ex_other :
    (now later : ℕ) (j k v : String) (seconds : ℕ) (m : Redis)
    → str_eq j k ≡ false
    → get later j (set_ex now k v seconds m) ≡ get later j m
unfolding get set_ex
get-set_ex_other now later j k v seconds m h = rw (get, h) refl

pub get-later :
    (now later : ℕ) (k : String) (m : Redis)
    → now ≤ later
    → get now k m ≡ none
    → get later k m ≡ none
unfolding get
get-later now later k m p h = expired (m k) h
  where
    expired : (o : Option (String × ℕ)) → live now o ≡ none → live later o ≡ none
    expired none h = refl
    expired (some (v, e)) h = ground arith

pub set_ex_other :
    (now : ℕ) (j k v : String) (duration : ℕ) (m : Redis)
    → str_eq j k ≡ false
    → set_ex now k v duration m j ≡ m j
unfolding set_ex
set_ex_other now j k v duration m h = rw h refl

pub del_other : (j k : String) (m : Redis) → str_eq j k ≡ false → del k m j ≡ m j
unfolding del
del_other j k m h = rw h refl

pub set_nx_other :
    (now : ℕ) (j k v : String) (duration : ℕ) (m : Redis)
    → str_eq j k ≡ false
    → (set_nx now k v duration m).1 j ≡ m j
unfolding set_nx
set_nx_other now j k v duration m h = elim (Option-cases (get now k m)) [
  | inl free ↦ rw (set_nx, free) (set_ex_other now j k v duration m h)
  | inr (v', taken) ↦ rw (set_nx, taken) refl
]

pub set_ex_here :
    (now : ℕ) (k v : String) (duration : ℕ) (m : Redis)
    → set_ex now k v duration m k ≡ some (v, now + duration)
unfolding set_ex
set_ex_here now k v duration m = rw (str_eq_refl k) refl

pub get_here :
    (now : ℕ) (k v : String) (expires : ℕ) (m : Redis)
    → m k ≡ some (v, expires)
    → now < expires
    → get now k m ≡ some v
unfolding get
get_here now k v expires m h alive =
    let young : ltb now expires ≡ true = ground arith in rw (get, h, young) refl

pub get_same : (now : ℕ) (k : String) (m n : Redis) → m k ≡ n k → get now k m ≡ get now k n
unfolding get
get_same now k m n h = ap (live now) h
