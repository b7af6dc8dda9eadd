-- ===== src/Feeds/Chunks.antt =====
-- The parts into which `chunkFollowers` of backend/internal/core/feeds/editor.go cuts a list.
use merope.Prelude.{
  ℕ, zero, suc, ◌≤◌, ◌≡◌, refl, ap, ◌∙◌, arith, List, [], ◌∷◌, ◌++◌, String, length, take, drop,
  All, take-append-drop, length-take, length-drop,
}
use merope.Prelude.Int.{ℤ}
use merope.Feeds.{chunks, or_default, chunk_followers}

module _ {ℓ} {A : Type ℓ} where
  unfoldable pub concat : List (List A) → List A
  concat [] = []
  concat (xs ∷ xss) = xs ++ concat xss

  abbrev pub IsPart : ℕ → List A → Type 0
  IsPart size xs = (1 ≤ length xs) × (length xs ≤ size)

  concat-chunks :
      (fuel size : ℕ) (xs : List A)
      → 1 ≤ size
      → length xs ≤ fuel
      → concat (chunks fuel size xs) ≡ xs
  unfolding chunks concat
  concat-chunks zero size [] p h = refl
  concat-chunks zero size (x ∷ xs) p h = absurd (omega arith)
  concat-chunks (suc fuel) size [] p h = refl
  concat-chunks (suc fuel) size (x ∷ xs) p h =
      ap (◌++◌ (take size (x ∷ xs)))
        (concat-chunks fuel size (drop size (x ∷ xs)) p (omega (arith, length-drop size (x ∷ xs))))
      ∙ take-append-drop size (x ∷ xs)

  chunks-IsPart : (fuel size : ℕ) (xs : List A) → 1 ≤ size → All (IsPart size) (chunks fuel size xs)
  unfolding chunks
  chunks-IsPart zero size xs p = tt
  chunks-IsPart (suc fuel) size [] p = tt
  chunks-IsPart (suc fuel) size (x ∷ xs) p = (
    (omega (arith, length-take size (x ∷ xs)), omega (arith, length-take size (x ∷ xs))),
    chunks-IsPart fuel size (drop size (x ∷ xs)) p,
  )

or_default-positive : (n : ℤ) (d : ℕ) → 1 ≤ d → 1 ≤ or_default n d
or_default-positive n d h = ground arith

-- The chunks of a list of followers, joined again, are the list, and each has at least one follower and
-- at most the size asked for, or 100 when that is not positive.
pub chunk_followers_parts :
    (followers : List String) (size : ℤ)
    → (concat (chunk_followers followers size) ≡ followers)
      × All (IsPart (or_default size 100)) (chunk_followers followers size)
unfolding chunk_followers
chunk_followers_parts followers size =
    let positive = or_default-positive size 100 (omega arith) in
    (
      concat-chunks (length followers) (or_default size 100) followers positive (omega arith),
      chunks-IsPart (length followers) (or_default size 100) followers positive,
    )
