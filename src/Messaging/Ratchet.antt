-- ===== src/Messaging/Ratchet.antt =====
-- The ratchet sequences that the guard of backend/internal/modules/messaging/service/aegis_messaging_guard.go
-- accepts, over a list of its calls.
use merope.Prelude.{
  ◌≡◌, refl, sym, arith, Bool, true, false, ◌||◌, inl, inr, Bool-cases, Option, none, some, List,
  [], ◌∷◌, String, if◌then◌else◌,
}
use merope.Prelude.Int.{ℤ, ltb_ℤ}
use merope.Prelude.Text.{is_empty, str_eq, str_eq_iff}
use merope.Prelude.Outcome.{Result, ok, err}
use merope.Messaging.Guard.{
  AegisPayload, GuardError, AegisGuard, new_guard, is_replay, is_stale, validate_ratchet_sequence,
  verify_message_integrity, register_key_bundle, purge_ephemeral_session,
}

pub data Op : Type 0 where
  verify : ℤ → String → Option AegisPayload → Op
  validate : String → ℤ → Op
  register : String → String → String → Op
  purge : String → Op

unfoldable pub apply : Op → AegisGuard → Result GuardError (Unit {0}) × AegisGuard
unfolding validate_ratchet_sequence verify_message_integrity register_key_bundle
    purge_ephemeral_session
apply (verify now c p) g = verify_message_integrity now c p g
apply (validate c sequence) g = validate_ratchet_sequence c sequence g
apply (register user device key) g = register_key_bundle user device key g
apply (purge c) g = (ok tt, purge_ephemeral_session c g)

-- The guard after calls, newest first.
unfoldable pub guard_after : List Op → AegisGuard
unfolding apply
guard_after [] = new_guard
guard_after (op ∷ earlier) = (apply op (guard_after earlier)).1

-- The sequence that a call checks for a conversation.
abbrev pub sequence_of : Op → String → Option ℤ
sequence_of (verify now c (some p)) k = if str_eq k c then some p.ratchet_sequence else none
sequence_of (verify now c none) k = none
sequence_of (validate c sequence) k = if str_eq k c then some sequence else none
sequence_of (register user device key) k = none
sequence_of (purge c) k = none

abbrev pub is_ok : Result GuardError (Unit {0}) → Bool
is_ok (ok u) = true
is_ok (err e) = false

abbrev pub is_purge : Op → String → Bool
is_purge (purge c) k = str_eq k c
is_purge _ k = false

abbrev pub cons_opt : {A : Type 0} → Option A → List A → List A
cons_opt none xs = xs
cons_opt (some x) xs = x ∷ xs

-- The sequences that were accepted in a conversation since it was last purged, newest first.
unfoldable pub accepted : String → List Op → List ℤ
unfolding apply guard_after
accepted k [] = []
accepted k (op ∷ earlier) =
    let before = accepted k earlier in
    if is_purge op k
    then []
    else if is_ok (apply op (guard_after earlier)).0
    then cons_opt (sequence_of op k) before
    else before

abbrev pub IsBelow : List ℤ → ℤ → Type 0
IsBelow [] x = Unit
IsBelow (y ∷ ys) x = ltb_ℤ y x ≡ true

-- Each number is greater than the one before it in time.
abbrev pub IsIncreasing : List ℤ → Type 0
IsIncreasing [] = Unit
IsIncreasing (x ∷ earlier) = IsBelow earlier x × IsIncreasing earlier

abbrev newest : List ℤ → Option ℤ
newest [] = none
newest (x ∷ xs) = some x

-- The guard knows the newest accepted sequence, and the sequences increase.
record Follows (k : String) (xs : List ℤ) (g : AegisGuard) : Type 0 where
  known : g.ratchet_state k ≡ newest xs
  increasing : IsIncreasing xs

abbrev pub grown : Bool → Option ℤ → List ℤ → List ℤ
grown b o xs = if b then cons_opt o xs else xs

not_replay-IsBelow : (xs : List ℤ) (x : ℤ) → is_replay (newest xs) x ≡ false → IsBelow xs x
not_replay-IsBelow [] x h = tt
not_replay-IsBelow (y ∷ ys) x h = ground arith

validate-Follows :
    (k c : String) (x : ℤ) (g : AegisGuard) (xs : List ℤ)
    → Follows k xs g
    → Follows k
        (grown (is_ok (validate_ratchet_sequence c x g).0) (if str_eq k c then some x else none) xs)
        (validate_ratchet_sequence c x g).1
unfolding validate_ratchet_sequence
validate-Follows k c x g xs h = elim (Bool-cases (is_replay (g.ratchet_state c) x)) [
  | inl replay ↦ rw replay h
  | inr fresh ↦ elim (Bool-cases (str_eq k c)) [
    | inr other ↦ rw (fresh, other) (record { known = rw other h.known; increasing = h.increasing })
    | inl same ↦
        let below : is_replay (newest xs) x ≡ false =
          rw (← h.known) (rw (sym ((str_eq_iff k c).0 same)) at fresh) in
        rw (fresh, same)
          (record {
            known = rw same refl;
            increasing = (not_replay-IsBelow xs x below, h.increasing);
          })
  ]
]

apply-Follows :
    (k : String) (op : Op) (g : AegisGuard) (xs : List ℤ)
    → Follows k xs g
    → Follows k
        (if is_purge op k then [] else grown (is_ok (apply op g).0) (sequence_of op k) xs)
        (apply op g).1
unfolding apply verify_message_integrity register_key_bundle purge_ephemeral_session
apply-Follows k (validate c x) g xs h = validate-Follows k c x g xs h
apply-Follows k (verify now c none) g xs h = h
apply-Follows k (verify now c (some p)) g xs h =
    let missing = is_empty p.ciphertext_hex || is_empty p.signature_hex in
    elim (Bool-cases missing) [
      | inl lacks ↦ rw lacks h
      | inr has ↦ elim (Bool-cases (is_stale now p.timestamp_ms)) [
        | inl stale ↦ rw (has, stale) h
        | inr fresh ↦ rw (has, fresh) (validate-Follows k c p.ratchet_sequence g xs h)
      ]
    ]
apply-Follows k (register user device key) g xs h =
    elim (Bool-cases (is_empty user || is_empty key)) [
      | inl bad ↦ rw (register_key_bundle, bad) h
      | inr good ↦
          rw (register_key_bundle, good) (record { known = h.known; increasing = h.increasing })
    ]
apply-Follows k (purge c) g xs h = elim (Bool-cases (str_eq k c)) [
  | inl same ↦ rw same (record { known = rw same refl; increasing = tt })
  | inr other ↦ rw other (record { known = rw other h.known; increasing = h.increasing })
]

accepted-Follows : (k : String) (ops : List Op) → Follows k (accepted k ops) (guard_after ops)
unfolding accepted guard_after
accepted-Follows k [] = record { known = refl; increasing = tt }
accepted-Follows k (op ∷ earlier) =
    apply-Follows k op (guard_after earlier) (accepted k earlier) (accepted-Follows k earlier)

-- Whatever the calls of a new guard, the sequences that it has accepted in a conversation since it was
-- last purged strictly increase.
pub ratchet_increases : (k : String) (ops : List Op) → IsIncreasing (accepted k ops)
ratchet_increases k ops = (accepted-Follows k ops).increasing
