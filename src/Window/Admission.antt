-- ===== src/Window/Admission.antt =====
-- The instants at which requests were let through, and those of them that a window still covers.
use merope.Prelude.{ℕ, ◌+◌, ◌≤◌, ◌≡◌, refl, Bool, List, [], ◌∷◌, arith, ltb, if◌then◌else◌, length}

-- The window of this width that ends now covers t.
abbrev pub covers : ℕ → ℕ → ℕ → Bool
covers width now t = ltb now (t + width)

unfoldable pub covered : ℕ → ℕ → List ℕ → List ℕ
covered width now [] = []
covered width now (t ∷ ts) =
    let rest = covered width now ts in if covers width now t then t ∷ rest else rest

unfoldable pub count_covered : ℕ → ℕ → List ℕ → ℕ
unfolding covered
count_covered width now ts = length (covered width now ts)

-- A later window covers no more of them.
pub count_covered_mono :
    (width now later : ℕ) (ts : List ℕ)
    → now ≤ later
    → count_covered width later ts ≤ count_covered width now ts
unfolding count_covered covered
count_covered_mono width now later [] h = omega arith
count_covered_mono width now later (t ∷ ts) h =
    ground (arith, count_covered_mono width now later ts)

-- What was dropped from the window at an earlier instant is not covered later.
pub count_covered-covered :
    (width now later : ℕ) (ts : List ℕ)
    → now ≤ later
    → count_covered width later (covered width now ts) ≡ count_covered width later ts
unfolding count_covered covered
count_covered-covered width now later [] h = refl
count_covered-covered width now later (t ∷ ts) h =
    ground (arith, count_covered-covered width now later ts)

pub covered-le : (width now : ℕ) (ts : List ℕ) → count_covered width now ts ≤ length ts
unfolding count_covered covered
covered-le width now [] = omega arith
covered-le width now (t ∷ ts) = ground (arith, covered-le width now ts)
