-- ===== src/Social/Polite.antt =====
-- Runs of the calls of backend/internal/modules/social/service/social_service.go.
use merope.Prelude.{
  ℕ, ◌≡◌, refl, true, false, inl, inr, Bool-cases, Option-cases, Option, some, [], ◌∷◌, String, All,
}
use merope.Prelude.Outcome.{Result, ok, err}
use merope.Prelude.Pairs.{Pairs, upsert, has_key, upsert-All}
use merope.Social.Graph.{
  Graph, Error, Faults, Done, find_user, blocked_between, with_ids, is_private_user, insert_follow,
  follow, invalid_id,
}
use merope.Social.Service.{after, then_do}
use merope.Social.Requests.{IsAsked, IsPolite, is_open, asked_still, exec-IsPolite}

-- Requests that are not withdrawn keep the edges asked for.
pub wider-IsPolite :
    (g : Graph) (r : Pairs String)
    → ((k : String × String) → has_key k g.requests ≡ true → has_key k r ≡ true)
    → IsPolite g
    → IsPolite (record g { requests = r })
wider-IsPolite g r up h = over g.follows h
  where
    over :
        (es : Pairs String)
        → All (λ e. IsAsked g e.0) es
        → All (λ e. IsAsked (record g { requests = r }) e.0) es
    over [] h = tt
    over (e ∷ es) h =
        (asked_still (is_open (find_user e.0.1 g.users)) e.0 g.requests r (up e.0) h.0, over es h.1)

pub then_do-IsPolite :
    (p : Done) (next : Graph → Done)
    → IsPolite p.1
    → (p.0 ≡ ok tt → IsPolite (next p.1).1)
    → IsPolite (then_do p next).1
then_do-IsPolite (err e, g) next h k = h
then_do-IsPolite (ok u, g) next h k = k refl

pub after-IsPolite :
    {A : Type 0} (r : Result Error A) (g : Graph) (next : A → Done)
    → IsPolite g
    → ((a : A) → r ≡ ok a → IsPolite (next a).1)
    → IsPolite (after r g next).1
after-IsPolite (err e) g next h k = h
after-IsPolite (ok a) g next h k = k a refl

module _ (scan_uuid : String → Option String) where
  pub with_ids-IsPolite :
      (a b : String) (g : Graph) (next : String → String → Done)
      → IsPolite g
      → ((x y : String) → scan_uuid a ≡ some x → scan_uuid b ≡ some y → IsPolite (next x y).1)
      → IsPolite (with_ids scan_uuid (err invalid_id, g) a b next).1
  with_ids-IsPolite a b g next h k = elim (Option-cases (scan_uuid a)) [
    | inl bad ↦ rw (with_ids, bad) h
    | inr (x, is_x) ↦ elim (Option-cases (scan_uuid b)) [
      | inl bad ↦ rw (with_ids, is_x, bad) h
      | inr (y, is_y) ↦ rw (with_ids, is_x, is_y) (k x y is_x is_y)
    ]
  ]

  insert_follow-IsPolite :
      (f : Faults) (n : ℕ) (a b : String) (g : Graph)
      → IsPolite g
      → IsAsked g (a, b)
      → IsPolite (insert_follow scan_uuid f n a b g).1
  unfolding insert_follow
  insert_follow-IsPolite f n a b g h asked = elim (Option-cases (find_user b g.users)) [
    | inl nobody ↦ elim (Bool-cases (f.fails n)) [
      | inl fails ↦ rw (insert_follow, nobody, fails) h
      | inr works ↦ rw (insert_follow, nobody, works) h
    ]
    | inr (u, found) ↦ elim (Bool-cases (blocked_between a b g)) [
      | inl blocked ↦ elim (Bool-cases (f.fails n)) [
        | inl fails ↦ rw (insert_follow, found, blocked, fails) h
        | inr works ↦ rw (insert_follow, found, blocked, works) h
      ]
      | inr free ↦ elim (Option-cases (find_user a g.users)) [
        | inl nobody ↦ rw (insert_follow, found, free, nobody) h
        | inr (v, there) ↦
            let new : Graph = record g { follows = upsert (a, b) "accepted" g.follows } in
            rw (insert_follow, found, free, there)
              (exec-IsPolite f n g new h
                (upsert-All (IsAsked g) (a, b) "accepted" g.follows asked h))
      ]
    ]
  ]

  pub follow-IsPolite :
      (f : Faults) (n : ℕ) (follower following : String) (g : Graph)
      → IsPolite g
      → ((a b : String)
          → scan_uuid follower ≡ some a
          → scan_uuid following ≡ some b
          → IsAsked g (a, b))
      → IsPolite (follow scan_uuid f n follower following g).1
  unfolding follow
  follow-IsPolite f n follower following g h asked =
      with_ids-IsPolite follower following g _ h
        (λ a b is_a is_b. insert_follow-IsPolite f n a b g h (asked a b is_a is_b))

  -- An account that is not private is open.
  pub is_private_user-open :
      (f : Faults) (n : ℕ) (user id : String) (g : Graph)
      → scan_uuid user ≡ some id
      → is_private_user scan_uuid f n user g ≡ ok false
      → is_open (find_user id g.users) ≡ true
  unfolding is_private_user
  is_private_user-open f n user id g is_id h = elim (Bool-cases (f.fails n)) [
    | inl fails ↦ absurd (cc (rw (is_private_user, is_id, fails) at h))
    | inr works ↦ elim (Option-cases (find_user id g.users)) [
      | inl nobody ↦ absurd (cc (rw (is_private_user, is_id, works, nobody) at h))
      | inr (u, found) ↦
          let open_ : u.is_private ≡ false = cc (rw (is_private_user, is_id, works, found) at h) in
          rw (found, open_) refl
    ]
  ]
