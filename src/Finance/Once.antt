-- ===== src/Finance/Once.antt =====
-- An escrow is paid out at most once, over any run of the service.
use merope.Prelude.{ℕ, String, ◌≡◌, refl, ◌≢◌, not, Option, List}
use merope.Prelude.Outcome.{Result, ok, err}
use merope.Finance.Store.{Store}
use merope.Finance.Env.{
  Error, Env, Faults, Commit, done, lost, unclear, finish, end_with, parse_finance_uuid,
}
use merope.Finance.Escrows.{release_body, refund_body, release_escrow, refund_escrow}
use merope.Finance.OnOk.{OnOk, OnOk-ok, OnOk-scan, OnOk-guard}
use merope.Finance.Settled.{IsKeyed, IsSettled, settle_settled, settle-IsSettled_self}
use merope.Finance.Settlement.{OnRow-any, run-IsSettled}
use merope.Finance.Calls.{Op, run}

-- The two ways out of the state `held`.
pub data Settling : Type 0 where
  releasing refunding : Settling

abbrev pub settle_call : Settling → Env → Faults → String → Store → Result Error (Unit {0}) × Store
settle_call releasing = release_escrow
settle_call refunding = refund_escrow

-- What a call that succeeds has written is what its body has built.
finish_ok :
    (P : Store → Type 0) (f : Faults) (s : Store) (body : Result Error Store)
    → OnOk P body
    → (finish f s body).0 ≡ ok tt
    → P (finish f s body).1
unfolding finish
finish_ok P f s (err e) k h = absurd (cc)
finish_ok P f s (ok t) k h = ended f.commit h
  where
    ended : (c : Commit) → (end_with c s t).0 ≡ ok tt → P (end_with c s t).1
    ended done h = k.at t refl
    ended lost h = absurd (cc)
    ended unclear h = absurd (cc)

-- A body that cannot succeed leaves the store alone.
finish_refused :
    (f : Faults) (s : Store) (body : Result Error Store)
    → OnOk (λ t. ⊥) body
    → ((finish f s body).0 ≢ ok tt) × ((finish f s body).1 ≡ s)
unfolding finish
finish_refused f s (err e) k = (λ h. absurd (cc), refl)
finish_refused f s (ok t) k = absurd (k.at t refl)

module _ (f : Faults) (eid : ℕ) (reference : String) (s : Store) where
  release_body-settles :
      IsKeyed s.escrows → OnOk (λ t. IsSettled eid t.escrows) (release_body f eid reference s)
  unfolding release_body
  release_body-settles h =
      OnOk-scan _ _ _ f.first _ _ (settle-IsSettled_self "released" eid s.escrows refl h) λ r k.
        OnOk-scan _ _ _ f.second _ _ (OnRow-any _) λ ws _.
          OnOk-guard (λ t. IsSettled eid t.escrows) (not f.third) _ _
            λ _. OnOk-ok (λ t. IsSettled eid t.escrows) _ k

  refund_body-settles :
      IsKeyed s.escrows → OnOk (λ t. IsSettled eid t.escrows) (refund_body f eid reference s)
  unfolding refund_body
  refund_body-settles h =
      OnOk-scan _ _ _ f.first _ _ (settle-IsSettled_self "refunded" eid s.escrows refl h) λ r k.
        OnOk-scan _ _ _ f.second _ _ (OnRow-any _) λ ws _.
          OnOk-guard (λ t. IsSettled eid t.escrows) (not f.third) _ _
            λ _. OnOk-ok (λ t. IsSettled eid t.escrows) _ k

  release_body-refuses : IsSettled eid s.escrows → OnOk (λ t. ⊥) (release_body f eid reference s)
  unfolding release_body
  release_body-refuses h =
      OnOk-scan (λ r. ⊥) _ _ f.first _ _
        (rw (settle_settled "released" eid s.escrows h.not_held) tt) λ r k. absurd k

  refund_body-refuses : IsSettled eid s.escrows → OnOk (λ t. ⊥) (refund_body f eid reference s)
  unfolding refund_body
  refund_body-refuses h =
      OnOk-scan (λ r. ⊥) _ _ f.first _ _
        (rw (settle_settled "refunded" eid s.escrows h.not_held) tt) λ r k. absurd k

module _ (env : Env) (f : Faults) (e : String) (eid : ℕ) (s : Store)
    (parsed : parse_finance_uuid env e ≡ ok eid) where
  settle_call-IsSettled :
      (k : Settling)
      → IsKeyed s.escrows
      → (settle_call k env f e s).0 ≡ ok tt
      → IsSettled eid (settle_call k env f e s).1.escrows
  unfolding release_escrow refund_escrow
  settle_call-IsSettled releasing h = rw parsed (
      finish_ok (λ t. IsSettled eid t.escrows) f s _
        (search (
          OnOk-guard {B = Store} (λ t. IsSettled eid t.escrows),
          release_body-settles f eid e s h,
        )))
  settle_call-IsSettled refunding h = rw parsed (
      finish_ok (λ t. IsSettled eid t.escrows) f s _
        (search
          (OnOk-guard {B = Store} (λ t. IsSettled eid t.escrows), refund_body-settles f eid e s h)))

  settle_call_refused :
      (k : Settling)
      → IsSettled eid s.escrows
      → ((settle_call k env f e s).0 ≢ ok tt) × ((settle_call k env f e s).1 ≡ s)
  unfolding release_escrow refund_escrow
  settle_call_refused releasing h =
      rw parsed
        (finish_refused f s _ (search (OnOk-guard (λ t. ⊥), release_body-refuses f eid e s h)))
  settle_call_refused refunding h =
      rw parsed
        (finish_refused f s _ (search (OnOk-guard (λ t. ⊥), refund_body-refuses f eid e s h)))

-- Once an escrow has been released or refunded, no later attempt to release or refund it succeeds or
-- changes the store, whatever calls of the service lie between the two.
pub settled_once :
    (env : Env) (author : String → Result Error (Option String)) (uuid_text : ℕ → String)
    (first second : Settling) (f g : Faults) (e : String) (eid : ℕ) (ops : List Op) (s : Store)
    → parse_finance_uuid env e ≡ ok eid
    → IsKeyed s.escrows
    → (settle_call first env f e s).0 ≡ ok tt
    → let t = run env author uuid_text ops (settle_call first env f e s).1 in
      ((settle_call second env g e t).0 ≢ ok tt) × ((settle_call second env g e t).1 ≡ t)
settled_once env author uuid_text first second f g e eid ops s parsed h done_ =
    settle_call_refused env g e eid _ parsed second (
      run-IsSettled eid env author uuid_text ops _
        (settle_call-IsSettled env f e eid s parsed first h done_))
