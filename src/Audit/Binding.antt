-- ===== src/Audit/Binding.antt =====
-- What the root of backend/internal/core/audit/merkle_audit.go says about the actions.
use merope.Prelude.{
  ℕ, zero, suc, ◌≡◌, ◌≢◌, refl, sym, ap, ◌∙◌, arith, ◌⊎◌, inl, inr, Bool-cases, List, [], ◌∷◌, ◌++◌,
  String, length, take, map, append_assoc, append_nil,
}
use merope.Prelude.Bytes.{bytes_eq, bytes_eq_lem}
use merope.Audit.{
  Bytes, Action, entry, append_privacy_action, roll, get_root_hash, record_all, zeros,
}

-- Two inputs with one hash.
pub record Collision (sha256 : Bytes → Bytes) : Type 0 where
  pub left : Bytes
  pub right : Bytes
  pub apart : left ≢ right
  pub meet : sha256 left ≡ sha256 right

-- Lists of the same length that agree after `++` agree in both parts.
append_cancel :
    {A : Type 0} (a b c e : List A) → length a ≡ length b → a ++ c ≡ b ++ e → (a ≡ b) × (c ≡ e)
append_cancel [] [] c e h k = (refl, k)
append_cancel [] (y ∷ b) c e h k = absurd (omega (arith, h))
append_cancel (x ∷ a) [] c e h k = absurd (omega (arith, h))
append_cancel (x ∷ a) (y ∷ b) c e h k =
    let head : x ≡ y = cc in
    let tail : a ++ c ≡ b ++ e = cc in
    let (u, v) = append_cancel a b c e (omega (arith, h)) tail in (cc, v)

-- A prefix of a list that is as long as that.
take_all : {A : Type 0} (xs ys : List A) (n : ℕ) → length xs ≡ n → take n (xs ++ ys) ≡ xs
take_all [] ys zero h = refl
take_all [] ys (suc n) h = absurd (omega (arith, h))
take_all (x ∷ xs) ys zero h = absurd (omega (arith, h))
take_all (x ∷ xs) ys (suc n) h = ap (◌∷◌ x) (take_all xs ys n (omega (arith, h)))

module _ (sha256 : Bytes → Bytes) (fixed : (x : Bytes) → length (sha256 x) ≡ 32)
    (bytes : String → Bytes) where
  hash_binds : (x y : Bytes) → sha256 x ≡ sha256 y → (x ≡ y) ⊎ Collision sha256
  hash_binds x y h = elim (Bool-cases (bytes_eq x y)) [
    | inl same ↦ inl ((bytes_eq_lem x y).0 same)
    | inr other ↦
        inr (record {
          left = x;
          right = y;
          apart = λ e. cc ((bytes_eq_lem x y).1 e, other);
          meet = h;
        })
  ]

  -- The leaves that a list of actions adds.
  abbrev leaves_of : List Action → List Bytes
  leaves_of [] = []
  leaves_of (a ∷ rest) = sha256 (entry sha256 bytes a) ∷ leaves_of rest

  record_all_lem :
      (ps : List Action) (leaves : List Bytes)
      → record_all sha256 bytes ps leaves ≡ leaves ++ leaves_of ps
  unfolding record_all append_privacy_action
  record_all_lem [] leaves = sym (append_nil leaves)
  record_all_lem (a ∷ rest) leaves =
      record_all_lem rest (append_privacy_action sha256 bytes a leaves)
      ∙ append_assoc leaves (sha256 (entry sha256 bytes a) ∷ []) (leaves_of rest)

  length-roll :
      (r : Bytes) (ls : List Action)
      → length r ≡ 32
      → length (roll sha256 bytes r (leaves_of ls)) ≡ 32
  unfolding roll
  length-roll r [] h = h
  length-roll r (a ∷ rest) h =
      length-roll (sha256 (r ++ sha256 (entry sha256 bytes a))) rest (fixed _)

  -- Equal roots of as many actions come from equal entries, or show a collision.
  roll_binds :
      (ps qs : List Action) (r r' : Bytes)
      → length ps ≡ length qs
      → length r ≡ length r'
      → roll sha256 bytes r (leaves_of ps) ≡ roll sha256 bytes r' (leaves_of qs)
      → ((r ≡ r') × (map (entry sha256 bytes) ps ≡ map (entry sha256 bytes) qs)) ⊎ Collision sha256
  unfolding roll
  roll_binds [] [] r r' n l h = inl (h, refl)
  roll_binds [] (b ∷ qs) r r' n l h = absurd (omega (arith, n))
  roll_binds (a ∷ ps) [] r r' n l h = absurd (omega (arith, n))
  roll_binds (a ∷ ps) (b ∷ qs) r r' n l h =
      let x = sha256 (entry sha256 bytes a) in
      let y = sha256 (entry sha256 bytes b) in
      elim (roll_binds ps qs (sha256 (r ++ x)) (sha256 (r' ++ y)) (omega (arith, n))
        (fixed _ ∙ sym (fixed _)) h) [
          | inr c ↦ inr c
          | inl (same, rest) ↦ elim (hash_binds (r ++ x) (r' ++ y) same) [
            | inr c ↦ inr c
            | inl joined ↦
                let (e, leaf) = append_cancel r r' x y l joined in
                elim (hash_binds (entry sha256 bytes a) (entry sha256 bytes b) leaf) [
                  | inr c ↦ inr c
                  | inl it ↦ inl (e, cc)
                ]
          ]
        ]

  leaves_bind :
      (ps qs : List Action)
      → length ps ≡ length qs
      → get_root_hash sha256 bytes (leaves_of ps) ≡ get_root_hash sha256 bytes (leaves_of qs)
      → (map (entry sha256 bytes) ps ≡ map (entry sha256 bytes) qs) ⊎ Collision sha256
  unfolding get_root_hash
  leaves_bind [] [] n h = inl refl
  leaves_bind [] (q ∷ qs) n h = absurd (omega (arith, n))
  leaves_bind (p ∷ ps) [] n h = absurd (omega (arith, n))
  leaves_bind (p ∷ ps) (q ∷ qs) n h =
      let x = sha256 (entry sha256 bytes p) in
      let y = sha256 (entry sha256 bytes q) in
      let whole =
        sym (take_all (roll sha256 bytes x (leaves_of ps)) zeros 32 (length-roll x ps (fixed _)))
        ∙ h
        ∙ take_all (roll sha256 bytes y (leaves_of qs)) zeros 32 (length-roll y qs (fixed _)) in
      elim (roll_binds ps qs x y (omega (arith, n)) (fixed _ ∙ sym (fixed _)) whole) [
        | inr c ↦ inr c
        | inl (leaf, rest) ↦ elim (hash_binds (entry sha256 bytes p) (entry sha256 bytes q) leaf) [
          | inr c ↦ inr c
          | inl it ↦ inl (cc)
        ]
      ]

  -- Trees of as many actions, empty before them, that have one root were told entries (user and action
  -- joined by a colon) with the same bytes in the same order, or two different inputs of the hash that
  -- have one hash can be named. A hash has 32 bytes.
  pub root_binds :
      (ps qs : List Action)
      → length ps ≡ length qs
      → get_root_hash sha256 bytes (record_all sha256 bytes ps [])
        ≡ get_root_hash sha256 bytes (record_all sha256 bytes qs [])
      → (map (entry sha256 bytes) ps ≡ map (entry sha256 bytes) qs) ⊎ Collision sha256
  root_binds ps qs n h = leaves_bind ps qs n (rw (record_all_lem ps [], record_all_lem qs []) at h)
