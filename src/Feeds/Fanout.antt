-- ===== src/Feeds/Fanout.antt =====
-- What `Publish` sends and `fanoutWorker` batches: backend/internal/core/feeds/editor.go.
use merope.Prelude.{
  ℕ, suc, ◌≤◌, ◌≡◌, refl, ap, ◌∙◌, arith, tests, Bool, true, false, Bool-cases, inl, inr, List, [],
  ◌∷◌, ◌++◌, String, length, length-append, append_assoc, leb, All,
}
use merope.Prelude.Int.{ℤ}
use merope.Prelude.Outcome.{ok}
use merope.Feeds.{
  FeedItem, FanoutTask, chunk_followers, send, tasks_of, publish, Event, task, tick, fanout_worker,
}
use merope.Feeds.Chunks.{concat, IsPart, chunk_followers_parts}

unfoldable pub received : List Event → List FanoutTask
received [] = []
received (task t ∷ es) = t ∷ received es
received (tick ∷ es) = received es

concat-fanout_worker :
    (n : ℕ) (es : List Event) (buffer : List FanoutTask)
    → concat (fanout_worker n es buffer) ≡ buffer ++ received es
unfolding fanout_worker concat received
concat-fanout_worker n [] [] = refl
concat-fanout_worker n [] (t ∷ ts) = refl
concat-fanout_worker n (tick ∷ es) [] = concat-fanout_worker n es []
concat-fanout_worker n (tick ∷ es) (t ∷ ts) = ap (◌++◌ (t ∷ ts)) (concat-fanout_worker n es [])
concat-fanout_worker n (task t ∷ es) buffer =
    elim (Bool-cases (leb n (length (buffer ++ t ∷ [])))) [
      | inl full ↦ rw full (
          ap (◌++◌ (buffer ++ t ∷ [])) (concat-fanout_worker n es [])
          ∙ append_assoc buffer (t ∷ []) (received es))
      | inr room ↦ rw room (
          concat-fanout_worker n es (buffer ++ t ∷ []) ∙ append_assoc buffer (t ∷ []) (received es))
    ]

fanout_worker-IsPart :
    (n : ℕ) (es : List Event) (buffer : List FanoutTask)
    → suc (length buffer) ≤ n
    → All (IsPart n) (fanout_worker n es buffer)
unfolding fanout_worker
fanout_worker-IsPart n [] [] h = tt
fanout_worker-IsPart n [] (t ∷ ts) h = ((omega arith, omega arith), tt)
fanout_worker-IsPart n (tick ∷ es) [] h = fanout_worker-IsPart n es [] h
fanout_worker-IsPart n (tick ∷ es) (t ∷ ts) h =
    ((omega arith, omega arith), fanout_worker-IsPart n es [] (omega arith))
fanout_worker-IsPart n (task t ∷ es) buffer h =
    elim (Bool-cases (leb n (length (buffer ++ t ∷ [])))) [
      | inl full ↦ rw full (
        (
          omega (arith, length-append buffer (t ∷ [])),
          omega (arith, length-append buffer (t ∷ [])),
        ),
        fanout_worker-IsPart n es [] (omega arith),
      )
      | inr room ↦ rw room (fanout_worker-IsPart n es (buffer ++ t ∷ []) (omega (tests, room)))
    ]

-- A worker hands every task that it receives to exactly one batch, in the order of arrival, and no
-- batch is empty or larger than the batch size, if that is positive.
pub worker_batches :
    (batch_size : ℕ) (es : List Event)
    → 1 ≤ batch_size
    → (concat (fanout_worker batch_size es []) ≡ received es)
      × All (IsPart batch_size) (fanout_worker batch_size es [])
worker_batches batch_size es h =
    (concat-fanout_worker batch_size es [], fanout_worker-IsPart batch_size es [] (omega arith))

unfoldable pub addressees : List FanoutTask → List String
addressees [] = []
addressees (t ∷ ts) = t.followers ++ addressees ts

addressees-tasks_of :
    (item : FeedItem) (cs : List (List String)) → addressees (tasks_of item cs) ≡ concat cs
unfolding addressees tasks_of concat
addressees-tasks_of item [] = refl
addressees-tasks_of item (c ∷ cs) = ap (◌++◌ c) (addressees-tasks_of item cs)

send_all :
    (takes : List Bool) (ts : List FanoutTask) → (send takes ts).1 ≡ true → (send takes ts).0 ≡ ts
unfolding send
send_all takes [] h = refl
send_all [] (t ∷ ts) h = absurd (cc)
send_all (false ∷ takes) (t ∷ ts) h = absurd (cc)
send_all (true ∷ takes) (t ∷ ts) h = ap (◌∷◌ t) (send_all takes ts h)

-- If `Publish` succeeds and a worker receives the tasks that it sent and no others, the batches of the
-- worker address exactly the followers that the follow graph answered, in its order.
pub published_item_reaches_followers :
    (size : ℤ) (followers : List String) (takes : List Bool) (item : FeedItem) (batch_size : ℕ)
    (es : List Event)
    → (publish size (ok followers) takes item).1 ≡ ok tt
    → received es ≡ (publish size (ok followers) takes item).0
    → addressees (concat (fanout_worker batch_size es [])) ≡ followers
unfolding publish
published_item_reaches_followers size followers takes item batch_size es sent arrived =
    let ts = tasks_of item (chunk_followers followers size) in
    let whole : (send takes ts).1 ≡ true = ground arith in
    rw
      (
        concat-fanout_worker batch_size es [],
        arrived,
        send_all takes ts whole,
        addressees-tasks_of item (chunk_followers followers size),
      )
      (chunk_followers_parts followers size).0
