-- ===== src/Finance/Settled.antt =====
-- Rows of the escrow table that are no longer held: no statement makes them held again.
use merope.Prelude.{
  ℕ, String, ◌≡◌, refl, ◌≢◌, Bool, true, false, ◌&&◌, ◌||◌, [], ◌∷◌, arith, ◌==◌, Bool-cases, inl,
  inr, ◌∙◌,
}
use merope.Prelude.Text.{str_eq}
use merope.Finance.Store.{
  Escrow, Escrows, Reply, row, no_rows, failed, map_row, settle, insert_escrow,
}
use native.Mathlib.Decide.{ℕ_discrete}
use merope.Finance.Money.{OnRow, OnRow-map_row}

-- Whether a row has the id.
unfoldable pub has : ℕ → Escrows → Bool
has eid [] = false
has eid ((id, e) ∷ es) = (id == eid) || has eid es

-- Whether a held row has the id.
unfoldable pub any_held : ℕ → Escrows → Bool
any_held eid [] = false
any_held eid ((id, e) ∷ es) = (id == eid) && str_eq e.status "held" || any_held eid es

-- No id is listed twice.
abbrev pub IsKeyed : Escrows → Type 0
IsKeyed [] = Unit
IsKeyed ((id, e) ∷ es) = (has id es ≡ false) × IsKeyed es

-- The escrow is in the table, and is not held.
pub record IsSettled (eid : ℕ) (es : Escrows) : Type 0 where
  pub present : has eid es ≡ true
  pub not_held : any_held eid es ≡ false

pub settle_settled :
    (status : String) (eid : ℕ) (es : Escrows)
    → any_held eid es ≡ false
    → settle status eid es ≡ no_rows
unfolding settle any_held map_row
settle_settled status eid [] h = refl
settle_settled status eid ((id, e) ∷ es) h = ground (arith, settle_settled status eid es)

has-settle :
    (eid : ℕ) (status : String) (key : ℕ) (es : Escrows)
    → OnRow (λ r. has eid r.1 ≡ has eid es) (settle status key es)
unfolding settle has
has-settle eid status key [] = tt
has-settle eid status key ((id, e) ∷ es) =
    elim (Bool-cases ((id == key) && str_eq e.status "held")) [
      | inl hit ↦ rw hit refl
      | inr miss ↦ rw miss (
          OnRow-map_row (λ r. has eid r.1 ≡ has eid es) _ _ (settle status key es)
            (λ r h. rw h refl) (has-settle eid status key es))
    ]

any_held-settle :
    (eid : ℕ) (status : String) (key : ℕ) (es : Escrows)
    → str_eq status "held" ≡ false
    → any_held eid es ≡ false
    → OnRow (λ r. any_held eid r.1 ≡ false) (settle status key es)
unfolding settle any_held
any_held-settle eid status key [] out h = tt
any_held-settle eid status key ((id, e) ∷ es) out h =
    elim (Bool-cases ((id == key) && str_eq e.status "held")) [
      | inl hit ↦ rw hit (ground arith)
      | inr miss ↦ rw miss (
          OnRow-map_row (λ r. any_held eid r.1 ≡ false) _ _ (settle status key es)
            (λ r k. ground arith) (any_held-settle eid status key es out (ground arith)))
    ]

any_held-absent : (eid : ℕ) (es : Escrows) → has eid es ≡ false → any_held eid es ≡ false
unfolding has any_held
any_held-absent eid [] h = refl
any_held-absent eid ((id, e) ∷ es) h = ground (arith, any_held-absent eid es)

-- The statement that settles an escrow leaves it settled.
any_held-settle_self :
    (status : String) (key : ℕ) (es : Escrows)
    → str_eq status "held" ≡ false
    → IsKeyed es
    → OnRow (λ r. (any_held key r.1 ≡ false) × (has key es ≡ true)) (settle status key es)
unfolding settle any_held has
any_held-settle_self status key [] out h = tt
any_held-settle_self status key ((id, e) ∷ es) out h =
    elim (Bool-cases ((id == key) && str_eq e.status "held")) [
      | inl hit ↦ rw hit (ground (arith, any_held-absent id es), ground arith)
      | inr miss ↦ rw miss (
          OnRow-map_row (λ r. (any_held key r.1 ≡ false) × (has key es ≡ true)) _ _
            (settle status key es) (λ r k. (ground arith, ground arith))
            (any_held-settle_self status key es out h.1))
    ]

has-insert :
    (eid key : ℕ) (e : Escrow) (es : Escrows)
    → has eid es ≡ true
    → OnRow (λ es'. has eid es' ≡ true) (insert_escrow key e es)
unfolding insert_escrow has
has-insert eid key e [] h = absurd (cc)
has-insert eid key e ((id, d) ∷ es) h = elim (Bool-cases (id == key)) [
  | inl hit ↦ rw hit tt
  | inr miss ↦ elim (Bool-cases (id == eid)) [
    | inl here ↦ rw miss (
        OnRow-map_row (λ es'. Unit {0}) _ _ (insert_escrow key e es) (λ es' k. ground arith)
          (OnRow-any (insert_escrow key e es)))
    | inr there ↦ rw miss (
        OnRow-map_row (λ es'. has eid es' ≡ true) _ _ (insert_escrow key e es)
          (λ es' k. ground arith) (has-insert eid key e es (ground arith)))
  ]
]
  where
    OnRow-any : (r : Reply Escrows) → OnRow (λ es'. Unit {0}) r
    OnRow-any (row es') = tt
    OnRow-any no_rows = tt
    OnRow-any failed = tt

any_held-insert_ne :
    (eid key : ℕ) (e : Escrow) (es : Escrows)
    → key ≢ eid
    → any_held eid es ≡ false
    → OnRow (λ es'. any_held eid es' ≡ false) (insert_escrow key e es)
unfolding insert_escrow any_held
any_held-insert_ne eid key e [] ne h = ground arith
any_held-insert_ne eid key e ((id, d) ∷ es) ne h = elim (Bool-cases (id == key)) [
  | inl hit ↦ rw hit tt
  | inr miss ↦ rw miss (
      OnRow-map_row (λ es'. any_held eid es' ≡ false) _ _ (insert_escrow key e es)
        (λ es' k. ground arith) (any_held-insert_ne eid key e es ne (ground arith)))
]

insert_present :
    (key : ℕ) (e : Escrow) (es : Escrows) → has key es ≡ true → insert_escrow key e es ≡ failed
unfolding insert_escrow has map_row
insert_present key e [] h = absurd (cc)
insert_present key e ((id, d) ∷ es) h = ground (arith, insert_present key e es)

-- An escrow that is in the table and not held stays so when a row is inserted.
pub insert-IsSettled :
    (eid key : ℕ) (e : Escrow) (es : Escrows)
    → IsSettled eid es
    → OnRow (IsSettled eid) (insert_escrow key e es)
insert-IsSettled eid key e es h = elim (ℕ_discrete key eid) [
  | yes same ↦ rw (insert_present key e es (rw same h.present)) tt
  | no other ↦
      OnRow-IsSettled (insert_escrow key e es) (has-insert eid key e es h.present)
        (any_held-insert_ne eid key e es other h.not_held)
]
  where
    OnRow-IsSettled :
        (r : Reply Escrows)
        → OnRow (λ es'. has eid es' ≡ true) r
        → OnRow (λ es'. any_held eid es' ≡ false) r
        → OnRow (IsSettled eid) r
    OnRow-IsSettled (row es') x y = record { present = x; not_held = y }
    OnRow-IsSettled no_rows x y = tt
    OnRow-IsSettled failed x y = tt

-- Nor does settling another one change it.
pub settle-IsSettled :
    (eid : ℕ) (status : String) (key : ℕ) (es : Escrows)
    → str_eq status "held" ≡ false
    → IsSettled eid es
    → OnRow (λ r. IsSettled eid r.1) (settle status key es)
settle-IsSettled eid status key es out h =
    both (settle status key es) (has-settle eid status key es)
      (any_held-settle eid status key es out h.not_held)
  where
    both :
        (r : Reply (Escrow × Escrows))
        → OnRow (λ r. has eid r.1 ≡ has eid es) r
        → OnRow (λ r. any_held eid r.1 ≡ false) r
        → OnRow (λ r. IsSettled eid r.1) r
    both (row r) x y = record { present = x ∙ h.present; not_held = y }
    both no_rows x y = tt
    both failed x y = tt

-- The escrow that a statement settles is in the table, and not held.
pub settle-IsSettled_self :
    (status : String) (key : ℕ) (es : Escrows)
    → str_eq status "held" ≡ false
    → IsKeyed es
    → OnRow (λ r. IsSettled key r.1) (settle status key es)
settle-IsSettled_self status key es out h =
    both (settle status key es) (has-settle key status key es)
      (any_held-settle_self status key es out h)
  where
    both :
        (r : Reply (Escrow × Escrows))
        → OnRow (λ r. has key r.1 ≡ has key es) r
        → OnRow (λ r. (any_held key r.1 ≡ false) × (has key es ≡ true)) r
        → OnRow (λ r. IsSettled key r.1) r
    both (row r) x y = record { present = x ∙ y.1; not_held = y.0 }
    both no_rows x y = tt
    both failed x y = tt
