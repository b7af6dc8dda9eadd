-- ===== src/Social/Asked.antt =====
-- After any calls of backend/internal/modules/social/service/social_service.go, the edges onto private accounts
-- were asked for.
use merope.Prelude.{
  ℕ, ◌≡◌, refl, ◌∙◌, Bool, true, false, not, ◌&&◌, ◌||◌, inl, inr, Bool-cases, Option, some, List,
  [], ◌∷◌, String, if◌then◌else◌, both_true,
}
use merope.Prelude.Text.{str_eq}
use merope.Prelude.Outcome.{ok, err, Result-cases}
use merope.Prelude.Pairs.{upsert, remove, find_pair, has_key}
use merope.Social.Graph.{
  Graph, Faults, exec, find_user, blocked_between, is_status, set_status, with_ids, is_private_user,
  follow, unfollow, block, send_follow_request, respond, is_blocked, statement_failed, not_pending,
  private_account, not_private,
}
use merope.Social.Service.{
  Counts, after, bad_pair, follow_user, unfollow_user, request_follow, handle_follow_request,
  block_user, track_interaction,
}
use merope.Social.Requests.{
  IsAsked, IsPolite, is_open, exec-IsPolite, has_key-upsert_mono, has_key-set_status,
  has_key-find_pair, remove-All,
}
use merope.Social.Polite.{
  wider-IsPolite, then_do-IsPolite, after-IsPolite, with_ids-IsPolite, follow-IsPolite,
  is_private_user-open,
}

pub data Op : Type 0 where
  follows : Bool → ℕ → String → String → Op
  unfollows : String → String → Op
  asks : String → String → Op
  handles : String → String → String → Op
  blocks : String → String → Op

module _ (scan_uuid : String → Option String) where
  unfoldable pub execute : Faults → Op → Graph → Counts → Graph × Counts
  unfolding follow_user unfollow_user request_follow handle_follow_request block_user
  execute f (follows guarded now a b) g c =
      let (done_, c') = follow_user scan_uuid guarded f now a b g c in (done_.1, c')
  execute f (unfollows a b) g c = ((unfollow_user scan_uuid f a b g).1, c)
  execute f (asks a b) g c = ((request_follow scan_uuid f a b g).1, c)
  execute f (handles a b status) g c = ((handle_follow_request scan_uuid f a b status g).1, c)
  execute f (blocks a b) g c = ((block_user scan_uuid f a b g).1, c)

  unfoldable pub run : List (Faults × Op) → Graph → Counts → Graph
  unfolding execute
  run [] g c = g
  run ((f, op) ∷ ops) g c = let (g', c') = execute f op g c in run ops g' c'

  send_follow_request-IsPolite :
      (f : Faults) (n : ℕ) (a b : String) (g : Graph)
      → IsPolite g
      → IsPolite (send_follow_request scan_uuid f n a b g).1
  unfolding send_follow_request
  send_follow_request-IsPolite f n a b g h = with_ids-IsPolite scan_uuid a b g _ h (λ x y _ _.
      exec-IsPolite f n g (record g { requests = upsert (x, y) "pending" g.requests }) h
        (wider-IsPolite g (upsert (x, y) "pending" g.requests)
          (λ k. has_key-upsert_mono k (x, y) "pending" g.requests) h))

  -- What an answer to a request writes.
  answered-IsPolite :
      (f : Faults) (n : ℕ) (x y status : String) (g : Graph)
      → IsPolite g
      → IsPolite
          (if is_status (find_pair (x, y) g.requests) "pending" && not (blocked_between x y g)
            then exec f n g (record g { requests = set_status (x, y) status g.requests })
            else (if f.fails n then (err statement_failed, g) else (err not_pending, g))).1
  answered-IsPolite f n x y status g h =
      let waits =
        is_status (find_pair (x, y) g.requests) "pending" && not (blocked_between x y g) in
      elim (Bool-cases waits) [
        | inl yes_ ↦
            let r = set_status (x, y) status g.requests in
            rw yes_ (
              exec-IsPolite f n g (record g { requests = r }) h
                (wider-IsPolite g r
                  (λ k there. has_key-set_status k (x, y) status g.requests ∙ there) h))
        | inr no_ ↦ elim (Bool-cases (f.fails n)) [
          | inl fails ↦ rw (no_, fails) h
          | inr works ↦ rw (no_, works) h
        ]
      ]

  respond-IsPolite :
      (f : Faults) (n : ℕ) (follower viewer status : String) (g : Graph)
      → IsPolite g
      → IsPolite (respond scan_uuid f n follower viewer status g).1
  unfolding respond
  respond-IsPolite f n follower viewer status g h =
      with_ids-IsPolite scan_uuid follower viewer g _ h
        (λ x y _ _. answered-IsPolite f n x y status g h)

  -- A request that was answered is there.
  respond-IsAsked :
      (f : Faults) (n : ℕ) (follower viewer status : String) (g : Graph)
      → (respond scan_uuid f n follower viewer status g).0 ≡ ok tt
      → (x y : String) → scan_uuid follower ≡ some x
      → scan_uuid viewer ≡ some y
      → IsAsked (respond scan_uuid f n follower viewer status g).1 (x, y)
  unfolding respond
  respond-IsAsked f n follower viewer status g done_ x y is_x is_y =
      let waits =
        is_status (find_pair (x, y) g.requests) "pending" && not (blocked_between x y g) in
      elim (Bool-cases waits) [
        | inr no_ ↦ elim (Bool-cases (f.fails n)) [
          | inl fails ↦ absurd (cc (rw (respond, with_ids, is_x, is_y, no_, fails) at done_))
          | inr works ↦ absurd (cc (rw (respond, with_ids, is_x, is_y, no_, works) at done_))
        ]
        | inl yes_ ↦ elim (Bool-cases (f.fails n)) [
          | inl fails ↦ absurd (cc (rw (respond, with_ids, is_x, is_y, yes_, fails) at done_))
          | inr works ↦
              let (pending, _) =
                both_true (is_status (find_pair (x, y) g.requests) "pending")
                  (not (blocked_between x y g)) yes_ in
              let there : has_key (x, y) (set_status (x, y) status g.requests) ≡ true =
                has_key-set_status (x, y) (x, y) status g.requests
                ∙ has_key-find_pair (x, y) "pending" g.requests pending in
              rw (respond, with_ids, is_x, is_y, yes_, works)
                (asked_or (is_open (find_user y g.users)) there)
        ]
      ]
    where
      asked_or : (o : Bool) {b : Bool} → b ≡ true → (o || b) ≡ true
      asked_or true h = refl
      asked_or false h = h

  follow_user-IsPolite :
      (guarded : Bool) (f : Faults) (now : ℕ) (a b : String) (g : Graph) (c : Counts)
      → IsPolite g
      → IsPolite (follow_user scan_uuid guarded f now a b g c).0.1
  unfolding follow_user
  follow_user-IsPolite guarded f now a b g c h = elim (Bool-cases (bad_pair a b)) [
    | inl bad ↦ rw (follow_user, bad) h
    | inr good ↦ elim (Result-cases (is_private_user scan_uuid f 0 b g)) [
      | inl (e, failed) ↦ rw (follow_user, good, failed) h
      | inr (true, closed) ↦ rw (follow_user, good, closed) h
      | inr (false, opened) ↦
          let edge : IsPolite (follow scan_uuid f 1 a b g).1 =
            follow-IsPolite scan_uuid f 1 a b g h
              (λ x y _ is_y. rw (is_private_user-open scan_uuid f 0 b y g is_y opened) refl) in
          elim (Bool-cases guarded) [
            | inr off ↦ rw (follow_user, good, opened, off) edge
            | inl on ↦ elim (Bool-cases (track_interaction now a c).0) [
              | inl flagged ↦ rw (follow_user, good, opened, on, flagged) h
              | inr fine ↦ rw (follow_user, good, opened, on, fine) edge
            ]
          ]
    ]
  ]

  request_follow-IsPolite :
      (f : Faults) (a b : String) (g : Graph)
      → IsPolite g
      → IsPolite (request_follow scan_uuid f a b g).1
  unfolding request_follow
  request_follow-IsPolite f a b g h = elim (Bool-cases (bad_pair a b)) [
    | inl bad ↦ rw bad h
    | inr good ↦ rw good (
        after-IsPolite (is_private_user scan_uuid f 0 b g) g _ h (λ is_private _. asked is_private))
  ]
    where
      sent :
          (blocked : Bool)
          → IsPolite
              (if blocked
                then (err private_account, g)
                else send_follow_request scan_uuid f 2 a b g).1
      sent true = h
      sent false = send_follow_request-IsPolite f 2 a b g h

      asked :
          (is_private : Bool)
          → IsPolite
              (if not is_private
                then (err not_private, g)
                else after (is_blocked scan_uuid f 1 a b g) g (λ blocked.
                  if blocked
                  then (err private_account, g)
                  else send_follow_request scan_uuid f 2 a b g)).1
      asked false = h
      asked true = after-IsPolite (is_blocked scan_uuid f 1 a b g) g _ h (λ blocked _. sent blocked)

  handle-IsPolite :
      (f : Faults) (viewer follower status : String) (g : Graph)
      → IsPolite g
      → IsPolite (handle_follow_request scan_uuid f viewer follower status g).1
  unfolding handle_follow_request
  handle-IsPolite f viewer follower status g h =
      let odd =
        not (str_eq status "accepted" || str_eq status "rejected" || str_eq status "cancelled") in
      elim (Bool-cases odd) [
        | inl yes_ ↦ rw yes_ h
        | inr known ↦ elim (Bool-cases (bad_pair viewer follower)) [
          | inl bad ↦ rw (known, bad) h
          | inr good ↦
              let kept = respond-IsPolite f 0 follower viewer status g h in
              rw (known, good)
                (then_do-IsPolite (respond scan_uuid f 0 follower viewer status g) _ kept (λ done_.
                  elim (Bool-cases (str_eq status "accepted")) [
                    | inr other ↦ rw other kept
                    | inl accepted ↦ rw accepted (
                        follow-IsPolite scan_uuid f 1 follower viewer
                          (respond scan_uuid f 0 follower viewer status g).1 kept
                          (λ x y. respond-IsAsked f 0 follower viewer status g done_ x y))
                  ]))
        ]
      ]

  execute-IsPolite :
      (f : Faults) (op : Op) (g : Graph) (c : Counts) → IsPolite g → IsPolite (execute f op g c).0
  unfolding execute unfollow_user block_user unfollow block
  execute-IsPolite f (follows guarded now a b) g c h = follow_user-IsPolite guarded f now a b g c h
  execute-IsPolite f (unfollows a b) g c h = elim (Bool-cases (bad_pair a b)) [
    | inl bad ↦ rw bad h
    | inr good ↦ rw good (
        with_ids-IsPolite scan_uuid a b g _ h (λ x y _ _.
          exec-IsPolite f 0 g _ h (remove-All (IsAsked g) (x, y) (λ _. true) g.follows h)))
  ]
  execute-IsPolite f (asks a b) g c h = request_follow-IsPolite f a b g h
  execute-IsPolite f (handles viewer follower status) g c h =
      handle-IsPolite f viewer follower status g h
  execute-IsPolite f (blocks a b) g c h = elim (Bool-cases (bad_pair a b)) [
    | inl bad ↦ rw bad h
    | inr good ↦ rw good (
        with_ids-IsPolite scan_uuid a b g _ h (λ x y _ _. exec-IsPolite f 0 g _ h (
          remove-All (IsAsked g) (y, x) (λ _. true) (remove (x, y) (λ _. true) g.follows)
            (remove-All (IsAsked g) (x, y) (λ _. true) g.follows h))))
  ]

  -- After any calls of the service that change the follow graph, with any faults on the way, every edge
  -- leads to a public account or to one that has a follow request of the follower, whatever its status, if
  -- that was so at the start.
  pub run-IsPolite :
      (ops : List (Faults × Op)) (g : Graph) (c : Counts) → IsPolite g → IsPolite (run ops g c)
  unfolding run
  run-IsPolite [] g c h = h
  run-IsPolite ((f, op) ∷ ops) g c h =
      let (g', c') = execute f op g c in run-IsPolite ops g' c' (execute-IsPolite f op g c h)
