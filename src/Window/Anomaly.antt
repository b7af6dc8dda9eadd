-- ===== src/Window/Anomaly.antt =====
-- backend/internal/core/security/anomaly_detector.go. Instants are in nanoseconds. Lower case and the entropy
-- test, which goes by floats, are parameters.
use merope.Prelude.{
  ℕ, Bool, true, false, ◌&&◌, ◌||◌, List, [], ◌∷◌, ◌++◌, String, length, ltb, ◌==◌, if◌then◌else◌,
}
use merope.Prelude.Text.{str_eq, codes, byte_len}
use merope.Window.Admission.{covered}

-- `strings.HasPrefix` and `strings.Contains`, on code points.
unfoldable pub has_prefix : List ℕ → List ℕ → Bool
has_prefix s [] = true
has_prefix [] (p ∷ ps) = false
has_prefix (c ∷ s) (p ∷ ps) = (c == p) && has_prefix s ps

unfoldable pub contains : List ℕ → List ℕ → Bool
unfolding has_prefix
contains [] pattern = has_prefix [] pattern
contains (c ∷ s) pattern = has_prefix (c ∷ s) pattern || contains s pattern

abbrev pub malicious_patterns : List String
malicious_patterns =
    "<script>" ∷ "javascript:" ∷ "onerror=" ∷ "onload=" ∷ "drop table" ∷ "truncate table"
    ∷ "delete from" ∷ "insert into" ∷ "or 1=1" ∷ "union select" ∷ "waitfor delay" ∷ "pg_sleep"
    ∷ "../" ∷ "/etc/passwd" ∷ ".bash_history" ∷ ".env" ∷ []

unfoldable pub contains_any : String → List String → Bool
unfolding contains
contains_any text [] = false
contains_any text (p ∷ ps) = contains (codes text) (codes p) || contains_any text ps

pub data Verdict : Type 0 where
  malicious_injection low_entropy flood accepted : Verdict

abbrev pub Counts : Type 0
Counts = String → List ℕ

abbrev pub ten_seconds : ℕ
ten_seconds = 10000000000

module _ (to_lower : String → String) (is_low_entropy : String → Bool) where
  unfoldable pub analyze_payload : ℕ → String → String → Counts → Verdict × Counts
  unfolding contains_any
  analyze_payload now user_id payload counts =
      let recent = covered ten_seconds now (counts user_id) in
      if contains_any (to_lower payload) malicious_patterns
      then (malicious_injection, counts)
      else if ltb 1000 (byte_len payload) && is_low_entropy payload
      then (low_entropy, counts)
      else if ltb 50 (length recent)
      then (flood, counts)
      else (accepted, λ u. if str_eq u user_id then recent ++ (now ∷ []) else counts u)
