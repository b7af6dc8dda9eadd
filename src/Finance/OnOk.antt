-- ===== src/Finance/OnOk.antt =====
-- Postconditions of the successful results of a transaction, one rule for each way to build it.
use mathlib.Core.Path.{subst}
use merope.Prelude.{◌≡◌, refl, Bool, true, false}
use merope.Prelude.Outcome.{Result, ok, err, ◌>>=◌, ◌>>◌, fail_if}
use merope.Finance.Store.{Reply, row, no_rows, failed}
use merope.Finance.Env.{Error, statement_failed, ask, scan}
use merope.Finance.Money.{OnRow}

-- `P` holds of the result, if there is one.
pub record OnOk {A : Type 0} (P : A → Type 0) (r : Result Error A) : Type 0 where
  pub at : (a : A) → r ≡ ok a → P a

pub OnOk-ok : {A : Type 0} (P : A → Type 0) (a : A) → P a → OnOk P (ok a)
OnOk-ok {A} P a h = record { at = λ b e. subst P (injective a b e) h }
  where
    injective : (x y : A) → ◌≡◌ {A = Result Error A} (ok x) (ok y) → x ≡ y
    injective x y e = cc

pub OnOk-err : {A : Type 0} (P : A → Type 0) (e : Error) → OnOk P (err e)
OnOk-err P e = record { at = λ b h. absurd (cc) }

pub OnOk-scan :
    {A B : Type 0} (P : A → Type 0) (Q : B → Type 0) (missing : Error) (up : Bool) (r : Reply A)
    (k : A → Result Error B)
    → OnRow P r
    → ((a : A) → P a → OnOk Q (k a))
    → OnOk Q (scan missing (ask up r) >>= k)
OnOk-scan P Q missing true (row a) k h step = step a h
OnOk-scan P Q missing true no_rows k h step = OnOk-err Q missing
OnOk-scan P Q missing true failed k h step = OnOk-err Q statement_failed
OnOk-scan P Q missing false r k h step = OnOk-err Q statement_failed

-- A statement that has answered has reached the server.
pub OnOk-ask :
    {A B : Type 0} (Q : B → Type 0) (missing : Error) (up : Bool) (r : Reply A)
    (k : A → Result Error B)
    → ((a : A) → up ≡ true → OnOk Q (k a))
    → OnOk Q (scan missing (ask up r) >>= k)
OnOk-ask Q missing true (row a) k step = step a refl
OnOk-ask Q missing true no_rows k step = OnOk-err Q missing
OnOk-ask Q missing true failed k step = OnOk-err Q statement_failed
OnOk-ask Q missing false r k step = OnOk-err Q statement_failed

pub OnOk-bind :
    {A B : Type 0} (Q : B → Type 0) (r : Result Error A) (k : A → Result Error B)
    → ((a : A) → r ≡ ok a → OnOk Q (k a))
    → OnOk Q (r >>= k)
OnOk-bind Q (ok a) k step = step a refl
OnOk-bind Q (err e) k step = OnOk-err Q e

pub OnOk-guard :
    {B : Type 0} (Q : B → Type 0) (b : Bool) (e : Error) (k : Result Error B)
    → (b ≡ false → OnOk Q k)
    → OnOk Q (fail_if b e >> k)
OnOk-guard Q true e k step = OnOk-err Q e
OnOk-guard Q false e k step = step refl
