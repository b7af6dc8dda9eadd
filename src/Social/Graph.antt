-- ===== src/Social/Graph.antt =====
-- The statements of backend/internal/modules/social/infra/postgres_repository.go and of
-- backend/internal/database/db/social_extended.go on the follow graph. An identifier is a UUID in its
-- canonical text; `scan_uuid` is pgtype's.
use merope.Prelude.{
  ℕ, Bool, true, false, not, ◌&&◌, ◌||◌, Option, none, some, List, [], ◌∷◌, String, if◌then◌else◌,
}
use merope.Prelude.Text.{str_eq}
use merope.Prelude.Outcome.{Result, ok, err}
use merope.Prelude.Pairs.{Pairs, pair_eq, upsert, remove, find_pair}

pub record User : Type 0 where
  pub id : String
  pub is_private : Bool

pub record Graph : Type 0 where
  pub users : List User
  pub follows : Pairs String
  pub blocks : List (String × String)
  pub requests : Pairs String
  -- neural_connections, by connection_type
  pub connections : Pairs String

pub data Error : Type 0 where
  invalid_id invalid_relationship invalid_request invalid_status statement_failed no_user
        private_account forbidden not_permitted not_pending not_private excessive :
      Error

-- Whether the statement of a number, counted in a call, answers an error, and whether what it was to write
-- is kept all the same.
pub record Faults : Type 0 where
  pub fails : ℕ → Bool
  pub kept : Bool

abbrev pub Done : Type 0
Done = Result Error (Unit {0}) × Graph

abbrev pub exec : Faults → ℕ → Graph → Graph → Done
exec f n old new =
    if f.fails n then (err statement_failed, if f.kept then new else old) else (ok tt, new)

unfoldable pub find_user : String → List User → Option User
find_user id [] = none
find_user id (u ∷ rest) = if str_eq u.id id then some u else find_user id rest

unfoldable pub has_pair : String × String → List (String × String) → Bool
has_pair k [] = false
has_pair k (p ∷ rest) = if pair_eq p k then true else has_pair k rest

-- EXISTS (SELECT 1 FROM blocks ... either way)
unfoldable pub blocked_between : String → String → Graph → Bool
unfolding has_pair
blocked_between a b g = has_pair (a, b) g.blocks || has_pair (b, a) g.blocks

abbrev pub is_status : Option String → String → Bool
is_status none s = false
is_status (some t) s = str_eq t s

-- UPDATE follow_requests SET status = ... of the row with the key
unfoldable pub set_status : String × String → String → Pairs String → Pairs String
set_status k status [] = []
set_status k status ((j, s) ∷ rest) =
    let below = set_status k status rest in
    if pair_eq j k then (j, status) ∷ rest else (j, s) ∷ below

module _ (scan_uuid : String → Option String) where
  -- Both identifiers of a call, or the error of the first that is none.
  abbrev pub with_ids : {A : Type 0} → A → String → String → (String → String → A) → A
  with_ids bad a b next = elim (scan_uuid a) [
    | none ↦ bad
    | some x ↦ elim (scan_uuid b) [ none ↦ bad | some y ↦ next x y ]
  ]

  -- `CanViewProfile`
  unfoldable pub can_view_profile : Faults → ℕ → String → String → Graph → Result Error Bool
  unfolding find_user find_pair blocked_between
  can_view_profile f n viewer target g = with_ids (err invalid_id) viewer target (λ v t.
      if f.fails n then err statement_failed else elim (find_user t g.users) [
        | none ↦ ok false
        | some u ↦ ok (
            (str_eq t v || not u.is_private || is_status (find_pair (v, t) g.follows) "accepted")
            && not (blocked_between v t g))
      ])

  -- `IsPrivateUser`
  unfoldable pub is_private_user : Faults → ℕ → String → Graph → Result Error Bool
  unfolding find_user
  is_private_user f n user g = elim (scan_uuid user) [
    | none ↦ err invalid_id
    | some id ↦
        if f.fails n
        then err statement_failed
        else elim (find_user id g.users) [ none ↦ err no_user | some u ↦ ok u.is_private ]
  ]

  -- The edge of `Follow`; both ends are foreign keys.
  unfoldable pub insert_follow : Faults → ℕ → String → String → Graph → Done
  unfolding find_user blocked_between upsert
  insert_follow f n follower following g = elim (find_user following g.users) [
    | none ↦ if f.fails n then (err statement_failed, g) else (err not_permitted, g)
    | some _ ↦
        if blocked_between follower following g
        then (if f.fails n then (err statement_failed, g) else (err not_permitted, g))
        else elim (find_user follower g.users) [
          | none ↦ (err statement_failed, g)
          | some _ ↦
              exec f n g (record g { follows = upsert (follower, following) "accepted" g.follows })
        ]
  ]

  -- `Follow`
  unfoldable pub follow : Faults → ℕ → String → String → Graph → Done
  unfolding insert_follow
  follow f n follower following g =
      with_ids (err invalid_id, g) follower following (λ a b. insert_follow f n a b g)

  -- `Unfollow`
  unfoldable pub unfollow : Faults → String → String → Graph → Done
  unfolding remove
  unfollow f follower following g =
      with_ids (err invalid_id, g) follower following
        (λ a b. exec f 0 g (record g { follows = remove (a, b) (λ _. true) g.follows }))

  -- `Block`, by `BlockUserAtomically`
  unfoldable pub block : Faults → String → String → Graph → Done
  unfolding remove upsert
  block f blocker blocked g =
      with_ids (err invalid_id, g) blocker blocked
        (λ a b. exec f 0 g (record g {
          follows = remove (b, a) (λ _. true) (remove (a, b) (λ _. true) g.follows);
          connections = upsert (a, b) "blocked" g.connections;
        }))

  -- `IsBlocked`, which looks one way.
  unfoldable pub is_blocked : Faults → ℕ → String → String → Graph → Result Error Bool
  unfolding has_pair
  is_blocked f n a b g =
      with_ids (err invalid_id) a b
        (λ x y. if f.fails n then err statement_failed else ok (has_pair (x, y) g.blocks))

  -- `SendFollowRequest`; a violated foreign key is one of its faults.
  unfoldable pub send_follow_request : Faults → ℕ → String → String → Graph → Done
  unfolding upsert
  send_follow_request f n follower following g =
      with_ids (err invalid_id, g) follower following
        (λ a b. exec f n g (record g { requests = upsert (a, b) "pending" g.requests }))

  -- `RespondToFollowRequest`, for one of the three statuses.
  unfoldable pub respond : Faults → ℕ → String → String → String → Graph → Done
  unfolding find_pair blocked_between set_status
  respond f n follower following status g =
      with_ids (err invalid_id, g) follower following
        (λ a b.
          if is_status (find_pair (a, b) g.requests) "pending" && not (blocked_between a b g)
          then exec f n g (record g { requests = set_status (a, b) status g.requests })
          else (if f.fails n then (err statement_failed, g) else (err not_pending, g)))
