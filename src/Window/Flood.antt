-- ===== src/Window/Flood.antt =====
-- The flood check of backend/internal/core/security/anomaly_detector.go.
use merope.Prelude.{
  ℕ, suc, ◌≤◌, ◌<◌, ◌≡◌, refl, sym, ◌∙◌, Bool, true, false, ◌&&◌, List, [], ◌∷◌, ◌++◌, String,
  arith, tests, length, ltb, if◌then◌else◌, ◌⊎◌, Bool-cases, inl, inr,
}
use merope.Prelude.Text.{str_eq, str_eq_iff, byte_len}
use merope.Window.Admission.{
  covers, covered, count_covered, count_covered_mono, count_covered-covered,
}
use merope.Window.Anomaly.{
  malicious_patterns, contains_any, Verdict, accepted, Counts, ten_seconds, analyze_payload,
}

count_covered-append :
    (width t now : ℕ) (ts : List ℕ)
    → count_covered width t (ts ++ (now ∷ [])) ≡ count_covered width t (now ∷ ts)
unfolding count_covered covered
count_covered-append width t now [] = refl
count_covered-append width t now (s ∷ ts) = ground (arith, count_covered-append width t now ts)

count_with :
    (width t now : ℕ) (ts : List ℕ)
    → count_covered width t (now ∷ ts)
      ≡ (if covers width t now then suc (count_covered width t ts) else count_covered width t ts)
unfolding count_covered covered
count_with width t now ts = ground arith

-- What the detector remembers of a user stands for the instants of the payloads that it accepted.
record Remembers (width bound last : ℕ) (times kept : List ℕ) : Type 0 where
  agrees : (t : ℕ) → last ≤ t → count_covered width t times ≡ count_covered width t kept
  bounded : (t : ℕ) → last ≤ t → count_covered width t times ≤ bound

Remembers-later :
    (width bound last now : ℕ) (times kept : List ℕ)
    → Remembers width bound last times kept
    → last ≤ now
    → Remembers width bound now times kept
Remembers-later width bound last now times kept k h = record {
  agrees = λ t p. k.agrees t (omega arith);
  bounded = λ t p. k.bounded t (omega arith);
}

Remembers-accept :
    (width bound last now : ℕ) (times kept : List ℕ)
    → Remembers width bound last times kept
    → last ≤ now
    → length (covered width now kept) < bound
    → Remembers width bound now (now ∷ times) (covered width now kept ++ (now ∷ []))
Remembers-accept width bound last now times kept k h room = record {
  agrees = λ t p.
      let same = count_covered-covered width now t kept p ∙ sym (k.agrees t (omega arith)) in
      rw
        (
          count_covered-append width t now (covered width now kept),
          count_with width t now times,
          count_with width t now (covered width now kept),
          same,
        )
        refl;
  bounded = λ t p.
      let size : count_covered width now times < bound =
        rw (k.agrees now h) (unfold count_covered in room) in
      rw (count_with width t now times) (ground (arith, count_covered_mono width now t times p));
}

pub record Request : Type 0 where
  pub now : ℕ
  pub user_id : String
  pub payload : String

module _ (to_lower : String → String) (is_low_entropy : String → Bool) where
  -- The payloads analyzed, the latest first.
  unfoldable pub analyzed : List Request → Counts
  analyzed [] = λ user. []
  analyzed (r ∷ older) =
      (analyze_payload to_lower is_low_entropy r.now r.user_id r.payload (analyzed older)).1

  abbrev is_accepted : Verdict → Bool
  is_accepted accepted = true
  is_accepted other = false

  unfoldable pub accepted_times : String → List Request → List ℕ
  accepted_times user [] = []
  accepted_times user (r ∷ older) =
      let verdict =
        (analyze_payload to_lower is_low_entropy r.now r.user_id r.payload (analyzed older)).0 in
      let times = accepted_times user older in
      if str_eq user r.user_id && is_accepted verdict then r.now ∷ times else times

  abbrev pub last_of : List Request → ℕ
  last_of [] = 0
  last_of (r ∷ older) = r.now

  abbrev pub IsOrdered : List Request → Type 0
  IsOrdered [] = Unit
  IsOrdered (r ∷ older) = (last_of older ≤ r.now) × IsOrdered older

  -- A payload changes what is remembered exactly when it is accepted.
  refused_or_accepted :
      (now : ℕ) (user payload : String) (counts : Counts)
      → let (verdict, counts') = analyze_payload to_lower is_low_entropy now user payload counts in
        ((is_accepted verdict ≡ false) × (counts' ≡ counts))
        ⊎ ((is_accepted verdict ≡ true)
            × (length (covered ten_seconds now (counts user)) < 51)
            × (counts' ≡ (λ u.
                if str_eq u user
                then covered ten_seconds now (counts user) ++ (now ∷ [])
                else counts u)))
  unfolding analyze_payload
  refused_or_accepted now user payload counts =
      elim (Bool-cases (contains_any (to_lower payload) malicious_patterns)) [
        | inl bad ↦ rw bad (inl (refl, refl))
        | inr fine ↦ elim (Bool-cases (ltb 1000 (byte_len payload) && is_low_entropy payload)) [
          | inl noise ↦ rw (fine, noise) (inl (refl, refl))
          | inr varied ↦
              elim (Bool-cases (ltb 50 (length (covered ten_seconds now (counts user))))) [
                | inl many ↦ rw (fine, varied, many) (inl (refl, refl))
                | inr few ↦ rw (fine, varied, few) (inr (refl, omega (tests, few), refl))
              ]
        ]
      ]

  -- One payload, by any user.
  step-Remembers :
      (user : String) (r : Request) (counts : Counts) (times : List ℕ) (last : ℕ)
      → Remembers ten_seconds 51 last times (counts user)
      → last ≤ r.now
      → let (verdict, counts') =
          analyze_payload to_lower is_low_entropy r.now r.user_id r.payload counts in
        Remembers ten_seconds 51 r.now
          (if str_eq user r.user_id && is_accepted verdict then r.now ∷ times else times)
          (counts' user)
  step-Remembers user r counts times last k h =
      elim (refused_or_accepted r.now r.user_id r.payload counts) [
        | inl (refused, same) ↦ elim (Bool-cases (str_eq user r.user_id)) [
          | inl own ↦
              rw (own, refused, same)
                (Remembers-later ten_seconds 51 last r.now times (counts user) k h)
          | inr other ↦
              rw (other, same) (Remembers-later ten_seconds 51 last r.now times (counts user) k h)
        ]
        | inr (taken, room, changed) ↦ elim (Bool-cases (str_eq user r.user_id)) [
          | inr other ↦
              rw (other, changed, other)
                (Remembers-later ten_seconds 51 last r.now times (counts user) k h)
          | inl own ↦
              rw (own, taken, changed, own, ← ((str_eq_iff user r.user_id).0 own))
                (Remembers-accept ten_seconds 51 last r.now times (counts user) k h
                  (rw ((str_eq_iff user r.user_id).0 own) room))
        ]
      ]

  analyzed-Remembers :
      (user : String) (requests : List Request)
      → IsOrdered requests
      → Remembers ten_seconds 51
          (last_of requests)
          (accepted_times user requests)
          (analyzed requests user)
  unfolding analyzed accepted_times
  analyzed-Remembers user [] h = record {
    agrees = λ t p. refl;
    bounded = λ t p. unfold count_covered covered in omega arith;
  }
  analyzed-Remembers user (r ∷ older) h =
      step-Remembers user r (analyzed older) (accepted_times user older) (last_of older)
        (analyzed-Remembers user older h.1) h.0

  -- In any ten seconds the detector accepts at most 51 payloads of a user, if time does not go back.
  pub flood_bound :
      (user : String) (requests : List Request) (t : ℕ)
      → IsOrdered requests
      → last_of requests ≤ t
      → count_covered ten_seconds t (accepted_times user requests) ≤ 51
  flood_bound user requests t h p = (analyzed-Remembers user requests h).bounded t p
