-- ===== src/Finance/Atomicity.antt =====
-- Calls of the finance service: all of their statements, or nothing.
use merope.Prelude.{ℕ, String, ◌≡◌, refl, ◌⊎◌, inl, inr, not, Bool, true, false, Option}
use merope.Prelude.Int.{ℤ}
use merope.Prelude.Outcome.{Result, ok, err}
use merope.Finance.Store.{Store, Escrow}
use merope.Finance.Env.{
  Error, commit_failed, Env, Faults, Commit, done, lost, unclear, finish, end_with,
}
use merope.Finance.OnOk.{OnOk, OnOk-ok, OnOk-ask, OnOk-guard, OnOk-bind}
use merope.Finance.Transfers.{transfer_body, transfer}
use merope.Finance.Escrows.{
  EscrowRequest, create_body, release_body, refund_body, create_escrow, release_escrow,
  refund_escrow,
}
use merope.Finance.Service
use merope.Finance.Service.{Call, refuse_if, with_read}
use merope.Finance.Calls.{Op}

-- The call succeeds, and `W` holds then, or it fails, and has written nothing unless its commit failed.
pub record IsAtomic (W : Type 0) (call : Call) : Type 0 where
  pub at :
      (s : Store)
      → (((call s).0 ≡ ok tt) × W)
        ⊎ ((e : Error) × ((call s).0 ≡ err e) × ((e ≡ commit_failed) ⊎ ((call s).1 ≡ s)))

-- The statements of a transaction with two or three of them, and its commit.
abbrev pub Two : Faults → Type 0
Two f = (f.begin ≡ true) × (f.first ≡ true) × (f.second ≡ true)

abbrev pub Three : Faults → Type 0
Three f = (f.begin ≡ true) × (f.first ≡ true) × (f.second ≡ true) × (f.third ≡ true)

finished_atomic :
    (W : Type 0) (f : Faults) (s : Store) (body : Result Error Store)
    → OnOk (λ _. W) body
    → (((finish f s body).0 ≡ ok tt) × (W × (f.commit ≡ done)))
      ⊎ ((e : Error) × ((finish f s body).0 ≡ err e)
          × ((e ≡ commit_failed) ⊎ ((finish f s body).1 ≡ s)))
unfolding finish
finished_atomic W f s (err e) k = inr (e, refl, inr refl)
finished_atomic W f s (ok new) k = ended f.commit
  where
    ended :
        (c : Commit)
        → (((end_with c s new).0 ≡ ok tt) × (W × (c ≡ done)))
          ⊎ ((e : Error) × ((end_with c s new).0 ≡ err e)
              × ((e ≡ commit_failed) ⊎ ((end_with c s new).1 ≡ s)))
    ended done = inl (refl, (k.at new refl, refl))
    ended lost = inr (commit_failed, refl, inl refl)
    ended unclear = inr (commit_failed, refl, inl refl)

not-false : (b : Bool) → not b ≡ false → b ≡ true
not-false true h = refl
not-false false h = absurd (cc)

module _ (f : Faults) (began : not f.begin ≡ false) where
  three : f.first ≡ true → f.second ≡ true → not f.third ≡ false → Three f
  three h1 h2 h3 = (not-false f.begin began, h1, h2, not-false f.third h3)

  transfer_body-Three :
      (sid rid : ℕ) (x : ℤ) (kind reference : String) (s : Store)
      → OnOk (λ _. Three f) (transfer_body f sid rid x kind reference s)
  unfolding transfer_body
  transfer_body-Three sid rid x kind reference s =
      OnOk-ask (λ _. Three f) _ f.first _ _
        λ ws h1.
          OnOk-ask (λ _. Three f) _ f.second _ _
            λ ws' h2.
              OnOk-guard (λ _. Three f) (not f.third) _ _
                λ h3. OnOk-ok (λ _. Three f) _ (three h1 h2 h3)

  create_body-Two : (id : ℕ) (e : Escrow) (s : Store) → OnOk (λ _. Two f) (create_body f id e s)
  unfolding create_body
  create_body-Two id e s =
      OnOk-ask (λ _. Two f) _ f.first _ _
        λ ws h1.
          OnOk-ask (λ _. Two f) _ f.second _ _
            λ es h2. OnOk-ok (λ _. Two f) _ (not-false f.begin began, h1, h2)

  release_body-Three :
      (eid : ℕ) (reference : String) (s : Store)
      → OnOk (λ _. Three f) (release_body f eid reference s)
  unfolding release_body
  release_body-Three eid reference s =
      OnOk-ask (λ _. Three f) _ f.first _ _
        λ r h1.
          OnOk-ask (λ _. Three f) _ f.second _ _
            λ ws h2.
              OnOk-guard (λ _. Three f) (not f.third) _ _
                λ h3. OnOk-ok (λ _. Three f) _ (three h1 h2 h3)

  refund_body-Three :
      (eid : ℕ) (reference : String) (s : Store)
      → OnOk (λ _. Three f) (refund_body f eid reference s)
  unfolding refund_body
  refund_body-Three eid reference s =
      OnOk-ask (λ _. Three f) _ f.first _ _
        λ r h1.
          OnOk-ask (λ _. Three f) _ f.second _ _
            λ ws h2.
              OnOk-guard (λ _. Three f) (not f.third) _ _
                λ h3. OnOk-ok (λ _. Three f) _ (three h1 h2 h3)

module _ (env : Env) (f : Faults) where
  transfer-IsAtomic :
      (a b : String) (x : ℤ) (kind : String) (t i : Option String)
      → IsAtomic (Three f × (f.commit ≡ done)) (transfer env f a b x kind t i)
  unfolding transfer
  transfer-IsAtomic a b x kind t i = record {
    at = λ s. finished_atomic (Three f) f s _ (
        search (OnOk-guard (λ _. Three f), OnOk-bind (λ _. Three f), transfer_body-Three f) depth
          12);
  }

  create_escrow-IsAtomic :
      (id : ℕ) (r : EscrowRequest) → IsAtomic (Two f × (f.commit ≡ done)) (create_escrow env f id r)
  unfolding create_escrow
  create_escrow-IsAtomic id r = record {
    at = λ s.
        finished_atomic (Two f) f s _
          (search (OnOk-guard (λ _. Two f), OnOk-bind (λ _. Two f), create_body-Two f) depth 14);
  }

  release_escrow-IsAtomic :
      (e : String) → IsAtomic (Three f × (f.commit ≡ done)) (release_escrow env f e)
  unfolding release_escrow
  release_escrow-IsAtomic e = record {
    at = λ s. finished_atomic (Three f) f s _ (
        search (OnOk-guard (λ _. Three f), OnOk-bind (λ _. Three f), release_body-Three f) depth
          10);
  }

  refund_escrow-IsAtomic :
      (e : String) → IsAtomic (Three f × (f.commit ≡ done)) (refund_escrow env f e)
  unfolding refund_escrow
  refund_escrow-IsAtomic e = record {
    at = λ s. finished_atomic (Three f) f s _ (
        search (OnOk-guard (λ _. Three f), OnOk-bind (λ _. Three f), refund_body-Three f) depth 10);
  }

refuse_if-IsAtomic :
    (W : Type 0) (b : Bool) (e : Error) (call : Call)
    → IsAtomic W call
    → IsAtomic W (refuse_if b e call)
refuse_if-IsAtomic W true e call k = record { at = λ s. inr (e, refl, inr refl) }
refuse_if-IsAtomic W false e call k = k

with_read-IsAtomic :
    (W : Type 0) {A : Type 0} (r : Result Error A) (call : A → Call)
    → ((a : A) → IsAtomic W (call a))
    → IsAtomic W (with_read r call)
with_read-IsAtomic W (ok a) call k = k a
with_read-IsAtomic W (err e) call k = record { at = λ s. inr (e, refl, inr refl) }

ruleset atomic_rules = (
  refuse_if-IsAtomic, with_read-IsAtomic, transfer-IsAtomic, create_escrow-IsAtomic,
  release_escrow-IsAtomic, refund_escrow-IsAtomic,
)

-- What has worked when a call succeeds: each statement of its transaction, and the commit.
abbrev pub AllWorked : Op → Type 0
AllWorked (Op.transfer_funds f a b x) = Three f × (f.commit ≡ done)
AllWorked (Op.tip_user f a b x) = Three f × (f.commit ≡ done)
AllWorked (Op.unlock_content f u p x) = Three f × (f.commit ≡ done)
AllWorked (Op.initiate_escrow f id r) = Two f × (f.commit ≡ done)
AllWorked (Op.release_escrow g f e u) = Three f × (f.commit ≡ done)
AllWorked (Op.refund_escrow g f e u) = Three f × (f.commit ≡ done)
