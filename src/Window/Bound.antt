-- ===== src/Window/Bound.antt =====
-- The bound that the rate limiter of backend/internal/core/middleware/rate_limit_redis.go keeps.
use merope.Prelude.{
  ℕ, ◌≤◌, ◌≡◌, ◌≢◌, refl, subst, sym, Bool, true, false, ◌&&◌, List, [], ◌∷◌, String, arith, tests,
  length, ltb, if◌then◌else◌, All, Bool-cases, inl, inr,
}
use merope.Prelude.Text.{str_eq, str_eq_iff}
use merope.Window.Admission.{covered, count_covered}
use merope.Window.Limiter.{
  Member, SortedSet, no_key, keep_covered, has_member, z_add, live_members, Answer, sliding_window,
  Response, limited, passed, limit_for, key_for, Redis, Connection, absent, failing, working,
  Request, rate_limit,
}
use merope.Window.Limited.{
  scores, Tracks, has-keep, IsDated-later, kept_length, blocked-Tracks, passed-Tracks,
  unheard-Tracks,
}

has-live :
    (now later : ℕ) (id : String) (set : SortedSet)
    → has_member later id set.members ≡ false
    → has_member later id (live_members now set) ≡ false
unfolding live_members has_member
has-live now later id set h = ground arith

has-new :
    (now later : ℕ) (id other : String) (ms : List Member)
    → id ≢ other
    → has_member later other ms ≡ false
    → has_member later other (record { score = now; id = id } ∷ ms) ≡ false
unfolding has_member
has-new now later id other ms differ h = ground (arith, str_eq_iff id other)

-- A script's run does not bring in the members of another id.
has-sliding :
    (window limit now later : ℕ) (id other : String) (set : SortedSet)
    → id ≢ other
    → has_member later other set.members ≡ false
    → has_member later other (sliding_window window limit id now set).1.members ≡ false
unfolding sliding_window z_add
has-sliding window limit now later id other set differ h =
    let kept = keep_covered window now (live_members now set) in
    let unseen =
      has-keep window now later other (live_members now set) (has-live now later other set h) in
    elim (Bool-cases (ltb (length kept) limit)) [
      | inr full ↦ rw full unseen
      | inl room ↦ elim (Bool-cases (has_member now id kept)) [
        | inl there ↦ rw (room, there) unseen
        | inr new ↦ rw (room, new) (has-new now later id other kept differ unseen)
      ]
    ]

abbrev passed_with : Answer → ℕ → List ℕ → List ℕ
passed_with a now times = if a.blocked then times else now ∷ times

sliding-Tracks :
    (window bound last limit now : ℕ) (id : String) (times : List ℕ) (set : SortedSet)
    → Tracks window bound last times set
    → last ≤ now
    → limit ≤ bound
    → has_member now id set.members ≡ false
    → let (a, set') = sliding_window window limit id now set in
      Tracks window bound now (passed_with a now times) set'
unfolding sliding_window z_add
sliding-Tracks window bound last limit now id times set k ordered fits unseen =
    let kept = keep_covered window now (live_members now set) in
    let size = kept_length window bound last now times set k ordered in
    elim (Bool-cases (ltb (length kept) limit)) [
      | inr full ↦ rw full (blocked-Tracks window bound last now times set k ordered)
      | inl room ↦
          let new =
            has-keep window now now id (live_members now set) (has-live now now id set unseen) in
          rw (room, new)
            (passed-Tracks window bound last now times set k ordered limit _ id fits
              (omega (tests, room, size)) (omega arith))
    ]

-- A script's run whose answer is not heard.
unheard_sliding-Tracks :
    (window bound last limit now : ℕ) (id : String) (times : List ℕ) (set : SortedSet)
    → Tracks window bound last times set
    → last ≤ now
    → has_member now id set.members ≡ false
    → Tracks window bound now times (sliding_window window limit id now set).1
unfolding sliding_window z_add
unheard_sliding-Tracks window bound last limit now id times set k ordered unseen =
    let kept = keep_covered window now (live_members now set) in
    elim (Bool-cases (ltb (length kept) limit)) [
      | inr full ↦ rw full (blocked-Tracks window bound last now times set k ordered)
      | inl room ↦
          let new =
            has-keep window now now id (live_members now set) (has-live now now id set unseen) in
          rw (room, new)
            (unheard-Tracks window bound last now times set k ordered _ id (omega arith))
    ]

Tracks-later :
    (window bound last now : ℕ) (times : List ℕ) (set : SortedSet)
    → Tracks window bound last times set
    → last ≤ now
    → Tracks window bound now times set
Tracks-later window bound last now times set k h = record {
  agrees = λ t p. k.agrees t (omega arith);
  dated =
      IsDated-later window last now set.expires set.expires set.members h (inl (omega arith))
        k.dated;
  bounded = λ t p. k.bounded t (omega arith);
}

-- A request, and how Redis is reached for it.
abbrev pub Visit : Type 0
Visit = Connection × Request

-- The requests that the handler has had, the latest first.
module _ (max_requests window : ℕ) (prefix : String) where
  unfoldable pub serve : List Visit → Redis
  serve [] = λ key. no_key
  serve ((c, r) ∷ older) = (rate_limit c max_requests window prefix r (serve older)).2

  abbrev is_passed : Response → Bool
  is_passed passed = true
  is_passed other = false

  response_times :
      (blocked : Bool) (now : ℕ) (times : List ℕ)
      → (if is_passed (if blocked then limited else passed) then now ∷ times else times)
        ≡ (if blocked then times else now ∷ times)
  response_times true now times = refl
  response_times false now times = refl

  -- The instants at which requests of a key were passed on.
  unfoldable pub passed_times : String → List Visit → List ℕ
  passed_times key [] = []
  passed_times key ((c, r) ∷ older) =
      let (response, _, _) = rate_limit c max_requests window prefix r (serve older) in
      let times = passed_times key older in
      if str_eq key (key_for prefix r.ip r.user_id) && is_passed response
      then r.now ∷ times
      else times

  abbrev pub last_of : List Visit → ℕ
  last_of [] = 0
  last_of ((_, r) ∷ older) = r.now

  -- Time does not go back, short ids are new, and no request of the key has a higher limit.
  abbrev pub IsHistory : String → ℕ → List Visit → Type 0
  IsHistory key bound [] = Unit
  IsHistory key bound ((_, r) ∷ older) =
      (last_of older ≤ r.now)
      × All (λ (v : Visit). v.1.id ≢ r.id) older
      × (str_eq key (key_for prefix r.ip r.user_id) ≡ true → limit_for max_requests r.role ≤ bound)
      × IsHistory key bound older

  absent_id :
      (older : List Visit) (now : ℕ) (id key : String)
      → All (λ (v : Visit). v.1.id ≢ id) older
      → has_member now id (serve older key).members ≡ false
  unfolding serve rate_limit
  absent_id [] now id key h = unfold has_member in refl
  absent_id ((absent, r) ∷ older) now id key h = absent_id older now id key h.1
  absent_id ((failing false, r) ∷ older) now id key h = absent_id older now id key h.1
  absent_id ((failing true, r) ∷ older) now id key h =
      elim (Bool-cases (str_eq key (key_for prefix r.ip r.user_id))) [
        | inl same ↦ rw same (
            has-sliding window (limit_for max_requests r.role) r.now now r.id id
              (serve older (key_for prefix r.ip r.user_id)) h.0
              (absent_id older now id (key_for prefix r.ip r.user_id) h.1))
        | inr other ↦ rw other (absent_id older now id key h.1)
      ]
  absent_id ((working, r) ∷ older) now id key h =
      elim (Bool-cases (str_eq key (key_for prefix r.ip r.user_id))) [
        | inl same ↦ rw same (
            has-sliding window (limit_for max_requests r.role) r.now now r.id id
              (serve older (key_for prefix r.ip r.user_id)) h.0
              (absent_id older now id (key_for prefix r.ip r.user_id) h.1))
        | inr other ↦ rw other (absent_id older now id key h.1)
      ]

  serve-Tracks :
      (key : String) (bound : ℕ) (requests : List Visit)
      → IsHistory key bound requests
      → Tracks window bound (last_of requests) (passed_times key requests) (serve requests key)
  unfolding serve rate_limit passed_times
  serve-Tracks key bound [] h = record {
    agrees = λ t p. unfold count_covered covered scores in omega arith;
    dated = tt;
    bounded = λ t p. unfold count_covered covered in omega arith;
  }
  serve-Tracks key bound ((absent, r) ∷ older) h =
      let later =
        Tracks-later window bound (last_of older) r.now (passed_times key older) (serve older key)
          (serve-Tracks key bound older h.3) h.0 in
      elim (Bool-cases (str_eq key (key_for prefix r.ip r.user_id))) [
        | inr other ↦ rw other later
        | inl same ↦ rw same later
      ]
  serve-Tracks key bound ((failing false, r) ∷ older) h =
      let later =
        Tracks-later window bound (last_of older) r.now (passed_times key older) (serve older key)
          (serve-Tracks key bound older h.3) h.0 in
      elim (Bool-cases (str_eq key (key_for prefix r.ip r.user_id))) [
        | inr other ↦ rw other later
        | inl same ↦ rw same later
      ]
  serve-Tracks key bound ((failing true, r) ∷ older) h =
      let ih = serve-Tracks key bound older h.3 in
      elim (Bool-cases (str_eq key (key_for prefix r.ip r.user_id))) [
        | inr other ↦ rw other (
            Tracks-later window bound (last_of older) r.now (passed_times key older)
              (serve older key) ih h.0)
        | inl same ↦
            rw (same, ← ((str_eq_iff key (key_for prefix r.ip r.user_id)).0 same))
              (unheard_sliding-Tracks window bound (last_of older) (limit_for max_requests r.role)
                r.now r.id (passed_times key older) (serve older key) ih h.0
                (absent_id older r.now r.id key h.1))
      ]
  serve-Tracks key bound ((working, r) ∷ older) h =
      let ih = serve-Tracks key bound older h.3 in
      elim (Bool-cases (str_eq key (key_for prefix r.ip r.user_id))) [
        | inr other ↦ rw other (
            Tracks-later window bound (last_of older) r.now (passed_times key older)
              (serve older key) ih h.0)
        | inl same ↦
            let unseen = absent_id older r.now r.id key h.1 in
            let step =
              sliding-Tracks window bound (last_of older) (limit_for max_requests r.role) r.now r.id
                (passed_times key older) (serve older key) ih h.0 (h.2 same) unseen in
            rw (same, ← ((str_eq_iff key (key_for prefix r.ip r.user_id)).0 same))
              (subst
                (λ ts.
                  Tracks window bound r.now ts
                    (sliding_window window (limit_for max_requests r.role) r.id r.now
                      (serve older key)).1)
                (sym (
                  response_times
                    (sliding_window window (limit_for max_requests r.role) r.id r.now
                      (serve older key)).0.blocked
                    r.now (passed_times key older)))
                step)
      ]

  -- In any window, the handler has passed on at most `bound` requests of a key, whether Redis is there,
  -- fails, or fails after the script has run, if time does not go back, no short id comes twice, and no
  -- request of the key is allowed more than `bound`.
  pub window_bound :
      (key : String) (bound : ℕ) (requests : List Visit) (t : ℕ)
      → IsHistory key bound requests
      → last_of requests ≤ t
      → count_covered window t (passed_times key requests) ≤ bound
  window_bound key bound requests t h p = (serve-Tracks key bound requests h).bounded t p
