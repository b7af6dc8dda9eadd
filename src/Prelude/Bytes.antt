-- ===== src/Prelude/Bytes.antt =====
-- Equality of lists of bytes, as a test.
use Prim.Native.Nat.{ℕ}
use mathlib.Core.Path.{◌≡◌, refl}
use mathlib.Core.Bool.{Bool, true, false, ◌&&◌}
use mathlib.Core.List.{List, [], ◌∷◌}
use merope.Prelude.Tests.{◌==◌, ==_iff, both_true}

abbrev pub bytes_eq : List ℕ → List ℕ → Bool
bytes_eq [] [] = true
bytes_eq [] (y ∷ ys) = false
bytes_eq (x ∷ xs) [] = false
bytes_eq (x ∷ xs) (y ∷ ys) = (x == y) && bytes_eq xs ys

pub bytes_eq_lem :
    (xs ys : List ℕ) → (bytes_eq xs ys ≡ true → xs ≡ ys) × (xs ≡ ys → bytes_eq xs ys ≡ true)
bytes_eq_lem [] [] = (λ _. refl, λ _. refl)
bytes_eq_lem [] (y ∷ ys) = (λ h. absurd (cc), λ h. absurd (cc))
bytes_eq_lem (x ∷ xs) [] = (λ h. absurd (cc), λ h. absurd (cc))
bytes_eq_lem (x ∷ xs) (y ∷ ys) = (
  λ h.
      let (a, b) = both_true (x == y) (bytes_eq xs ys) h in
      let e = (==_iff x y).0 a in let e' = (bytes_eq_lem xs ys).0 b in cc,
  λ h.
      let e : x ≡ y = cc in
      let e' : xs ≡ ys = cc in rw ((==_iff x y).1 e, (bytes_eq_lem xs ys).1 e') refl,
)
