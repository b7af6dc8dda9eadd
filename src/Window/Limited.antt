-- ===== src/Window/Limited.antt =====
-- What the Redis rate limiter of backend/internal/core/middleware/rate_limit_redis.go lets through.
use merope.Prelude.{
  ℕ, suc, ◌+◌, ◌≤◌, ◌<◌, ◌≡◌, ◌⊎◌, refl, sym, ap, ◌∙◌, false, List, [], ◌∷◌, String, arith, tests,
  length, ltb, if◌then◌else◌, All, Bool-cases, inl, inr,
}
use merope.Window.Admission.{
  covers, covered, count_covered, count_covered_mono, count_covered-covered,
}
use merope.Window.Limiter.{Member, SortedSet, keep_covered, has_member, live_members}

unfoldable pub scores : List Member → List ℕ
scores [] = []
scores (m ∷ ms) = m.score ∷ scores ms

scores-keep :
    (window now : ℕ) (ms : List Member)
    → scores (keep_covered window now ms) ≡ covered window now (scores ms)
unfolding scores keep_covered covered
scores-keep window now [] = refl
scores-keep window now (m ∷ ms) = ground (arith, scores-keep window now ms)

length-scores : (ms : List Member) → length (scores ms) ≡ length ms
unfolding scores
length-scores [] = refl
length-scores (m ∷ ms) = omega (arith, length-scores ms)

pub has-keep :
    (window now later : ℕ) (id : String) (ms : List Member)
    → has_member later id ms ≡ false
    → has_member later id (keep_covered window now ms) ≡ false
unfolding has_member keep_covered
has-keep window now later id [] h = refl
has-keep window now later id (m ∷ ms) h = ground (arith, has-keep window now later id ms)

All-keep :
    (P : Member → Type 0) (window now : ℕ) (ms : List Member)
    → All P ms
    → All P (keep_covered window now ms)
unfolding keep_covered
All-keep P window now [] h = tt
All-keep P window now (m ∷ ms) h = elim (Bool-cases (covers window now m.score)) [
  | inl kept ↦ rw kept (h.0, All-keep P window now ms h.1)
  | inr gone ↦ rw gone (All-keep P window now ms h.1)
]

-- Every member was added by now, and is out of the window when the key expires.
abbrev pub IsDated : ℕ → ℕ → ℕ → List Member → Type 0
IsDated window last expires [] = Unit
IsDated window last expires (m ∷ ms) =
    (m.score ≤ last) × (m.score + window ≤ expires) × IsDated window last expires ms

IsDated-keep :
    (window now last expires : ℕ) (ms : List Member)
    → IsDated window last expires ms
    → IsDated window last expires (keep_covered window now ms)
unfolding keep_covered
IsDated-keep window now last expires [] h = tt
IsDated-keep window now last expires (m ∷ ms) h = elim (Bool-cases (covers window now m.score)) [
  | inl kept ↦ rw kept (h.0, h.1, IsDated-keep window now last expires ms h.2)
  | inr gone ↦ rw gone (IsDated-keep window now last expires ms h.2)
]

pub IsDated-later :
    (window last now expires expires' : ℕ) (ms : List Member)
    → last ≤ now
    → (expires ≤ expires') ⊎ (now + window ≤ expires')
    → IsDated window last expires ms
    → IsDated window now expires' ms
IsDated-later window last now expires expires' [] p q h = tt
IsDated-later window last now expires expires' (m ∷ ms) p (inl q) h = (
  omega (arith, h.0),
  omega (arith, h.1),
  IsDated-later window last now expires expires' ms p (inl q) h.2,
)
IsDated-later window last now expires expires' (m ∷ ms) p (inr q) h = (
  omega (arith, h.0),
  omega (arith, h.0),
  IsDated-later window last now expires expires' ms p (inr q) h.2,
)

expired_none :
    (window last expires now : ℕ) (ms : List Member)
    → IsDated window last expires ms
    → expires ≤ now
    → count_covered window now (scores ms) ≡ 0
unfolding count_covered covered scores
expired_none window last expires now [] h p = refl
expired_none window last expires now (m ∷ ms) h p =
    ground (arith, expired_none window last expires now ms h.2 p)

-- The set has a member for each request of its key that was passed on.
pub record Tracks (window bound last : ℕ) (times : List ℕ) (set : SortedSet) : Type 0 where
  pub agrees :
      (t : ℕ)
      → last ≤ t
      → count_covered window t times ≤ count_covered window t (scores set.members)
  pub dated : IsDated window last set.expires set.members
  pub bounded : (t : ℕ) → last ≤ t → count_covered window t times ≤ bound

none_covered : (window t : ℕ) → count_covered window t (scores []) ≡ 0
unfolding count_covered covered scores
none_covered window t = refl

-- What the script keeps is what the window covers of the requests passed on before.
module _ (window bound last now : ℕ) (times : List ℕ) (set : SortedSet)
    (k : Tracks window bound last times set) (ordered : last ≤ now) where
  live_agrees :
      (t : ℕ)
      → now ≤ t
      → count_covered window t times ≤ count_covered window t (scores (live_members now set))
  unfolding live_members
  live_agrees t p = elim (Bool-cases (ltb now set.expires)) [
    | inl alive ↦ rw alive (k.agrees t (omega arith))
    | inr dead ↦
        let held = k.agrees t (omega arith) in
        let gone =
          expired_none window last set.expires t set.members k.dated (omega (tests, dead)) in
        rw dead (omega (arith, held, gone))
  ]

  live-IsDated : IsDated window last set.expires (live_members now set)
  unfolding live_members
  live-IsDated = elim (Bool-cases (ltb now set.expires)) [
    | inl alive ↦ rw alive k.dated
    | inr dead ↦ rw dead tt
  ]

  kept_agrees :
      (t : ℕ)
      → now ≤ t
      → count_covered window t times
        ≤ count_covered window t (scores (keep_covered window now (live_members now set)))
  kept_agrees t p =
      rw
        (
          scores-keep window now (live_members now set),
          count_covered-covered window now t (scores (live_members now set)) p,
        )
        (live_agrees t p)

  pub kept_length :
      count_covered window now times ≤ length (keep_covered window now (live_members now set))
  kept_length =
      let kept = keep_covered window now (live_members now set) in
      let same : length kept ≡ count_covered window now (scores (live_members now set)) =
        unfold count_covered in
        (sym (length-scores kept) ∙ ap length (scores-keep window now (live_members now set))) in
      omega (arith, live_agrees now (omega arith), same)

  later_bounded : (t : ℕ) → now ≤ t → count_covered window t times ≤ bound
  later_bounded t p = k.bounded t (omega arith)

  pub blocked-Tracks :
      Tracks window bound now times
        (record set { members = keep_covered window now (live_members now set) })
  blocked-Tracks = record {
    agrees = kept_agrees;
    dated = IsDated-keep window now now set.expires (live_members now set) (
        IsDated-later window last now set.expires set.expires (live_members now set) ordered
          (inl (omega arith)) live-IsDated);
    bounded = later_bounded;
  }

  count_with :
      (t : ℕ) (ts : List ℕ)
      → count_covered window t (now ∷ ts) ≡ (
          if covers window t now
          then suc (count_covered window t ts)
          else count_covered window t ts)
  unfolding count_covered covered
  count_with t ts = ground arith

  -- The set when a member is added.
  abbrev pub with_member : String → ℕ → SortedSet
  with_member id expires = record {
    members = record { score = now; id = id } ∷ keep_covered window now (live_members now set);
    expires = expires;
  }

  with_member-IsDated :
      (id : String) (expires : ℕ)
      → now + window ≤ expires
      → IsDated window now expires (with_member id expires).members
  with_member-IsDated id expires long = (
    omega arith,
    long,
    IsDated-keep window now now expires (live_members now set) (
        IsDated-later window last now set.expires expires (live_members now set) ordered (inr long)
          live-IsDated),
  )

  pub passed-Tracks :
      (limit expires : ℕ) (id : String)
      → limit ≤ bound
      → count_covered window now times < limit
      → now + window ≤ expires
      → Tracks window bound now (now ∷ times) (with_member id expires)
  unfolding scores
  passed-Tracks limit expires id fits room long = record {
    agrees = λ t p.
        rw
          (
            count_with t times,
            count_with t (scores (keep_covered window now (live_members now set))),
          )
          (ground (arith, kept_agrees t p));
    dated = with_member-IsDated id expires long;
    bounded =
        λ t p. rw (count_with t times) (ground (arith, count_covered_mono window now t times p));
  }

  -- The script ran, and the request was not passed on.
  pub unheard-Tracks :
      (expires : ℕ) (id : String)
      → now + window ≤ expires
      → Tracks window bound now times (with_member id expires)
  unfolding scores
  unheard-Tracks expires id long = record {
    agrees = λ t p.
        rw (count_with t (scores (keep_covered window now (live_members now set))))
          (ground (arith, kept_agrees t p));
    dated = with_member-IsDated id expires long;
    bounded = later_bounded;
  }
