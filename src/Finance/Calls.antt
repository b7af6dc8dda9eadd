-- ===== src/Finance/Calls.antt =====
-- Runs of the finance service, and what carries from the repository's calls over to them.
use merope.Prelude.{ℕ, String, refl, Bool, true, false, Option, List, [], ◌∷◌}
use merope.Prelude.Int.{ℤ}
use merope.Prelude.Outcome.{Result, ok, err}
use merope.Finance.Store.{Store}
use merope.Finance.Env.{Error, Env, Faults, Commit, done, lost, unclear, finish, end_with}
use merope.Finance.Transfers.{transfer}
use merope.Finance.Escrows.{
  EscrowRequest, create_escrow, get_escrow, release_escrow as settle_release,
  refund_escrow as settle_refund,
}
use merope.Finance.Service
use merope.Finance.Service.{Call, refuse_if, with_read}
use merope.Finance.OnOk.{OnOk}

-- The calls of the service, each with what happens to it on the way.
pub data Op : Type 0 where
  transfer_funds : Faults → String → String → ℤ → Op
  tip_user : Faults → String → String → ℤ → Op
  unlock_content : Faults → String → String → ℤ → Op
  initiate_escrow : Faults → ℕ → EscrowRequest → Op
  release_escrow : Faults → Faults → String → String → Op
  refund_escrow : Faults → Faults → String → String → Op

-- `author` answers for the posts, `uuid_text` prints ids.
module _ (env : Env) (author : String → Result Error (Option String)) (uuid_text : ℕ → String) where
  unfoldable pub execute : Op → Call
  execute (Op.transfer_funds f a b x) = Service.transfer_funds env f a b x
  execute (Op.tip_user f a b x) = Service.tip_user env f a b x
  execute (Op.unlock_content f u p x) = Service.unlock_content env f author u p x
  execute (Op.initiate_escrow f id r) = Service.initiate_escrow env f id r
  execute (Op.release_escrow g f e u) = Service.release uuid_text env g f e u
  execute (Op.refund_escrow g f e u) = Service.refund uuid_text env g f e u

  -- A run of the service: each call on the store that the one before has left.
  unfoldable pub run : List Op → Store → Store
  run [] s = s
  run (op ∷ ops) s = run ops (execute op s).1

-- From a store with `Pre`, the call ends in a store that `R` relates to it.
pub record Respects (Pre : Store → Type 0) (R : Store → Store → Type 0) (call : Call) : Type 0 where
  pub at : (s : Store) → Pre s → R s (call s).1

module _ (Pre : Store → Type 0) (R : Store → Store → Type 0)
    (same : (s : Store) → Pre s → R s s) where
  -- A transaction ends in what its body has built, or is rolled back.
  pub finish-Respects :
      (f : Faults) (s : Store) (body : Result Error Store)
      → Pre s
      → OnOk (R s) body
      → R s (finish f s body).1
  unfolding finish
  finish-Respects f s (err e) h k = same s h
  finish-Respects f s (ok new) h k = ended f.commit
    where
      ended : (c : Commit) → R s (end_with c s new).1
      ended done = k.at new refl
      ended lost = same s h
      ended unclear = k.at new refl

  refuse_if-Respects :
      (b : Bool) (e : Error) (call : Call)
      → Respects Pre R call
      → Respects Pre R (refuse_if b e call)
  refuse_if-Respects true e call k = record { at = λ s h. same s h }
  refuse_if-Respects false e call k = k

  with_read-Respects :
      {A : Type 0} (r : Result Error A) (call : A → Call)
      → ((a : A) → Respects Pre R (call a))
      → Respects Pre R (with_read r call)
  with_read-Respects (ok a) call k = k a
  with_read-Respects (err e) call k = record { at = λ s h. same s h }

  ruleset call_rules = (refuse_if-Respects, with_read-Respects)

  module _ (env : Env)
      (on_transfer : (f : Faults) (a b : String) (x : ℤ) (kind : String) (t i : Option String)
        → Respects Pre R (transfer env f a b x kind t i))
      (on_create : (f : Faults) (id : ℕ) (r : EscrowRequest)
        → Respects Pre R (create_escrow env f id r))
      (on_release : (f : Faults) (e : String) → Respects Pre R (settle_release env f e))
      (on_refund : (f : Faults) (e : String) → Respects Pre R (settle_refund env f e))
      (author : String → Result Error (Option String)) (uuid_text : ℕ → String) where
    -- What every call of the repository respects, every call of the service respects.
    pub execute-Respects : (op : Op) → Respects Pre R (execute env author uuid_text op)
    unfolding execute Service.transfer_funds Service.tip_user Service.unlock_content
        Service.initiate_escrow Service.release Service.refund
    execute-Respects (Op.transfer_funds f a b x) = search (call_rules, on_transfer)
    execute-Respects (Op.tip_user f a b x) = search (call_rules, on_transfer)
    execute-Respects (Op.unlock_content f u p x) = search (call_rules, on_transfer)
    execute-Respects (Op.initiate_escrow f id r) = search (call_rules, on_create)
    execute-Respects (Op.release_escrow g f e u) = record {
      at = λ s.
          let step : Respects Pre R (with_read (get_escrow env g e s) _) =
            search (call_rules, on_release) in
          step.at s;
    }
    execute-Respects (Op.refund_escrow g f e u) = record {
      at = λ s.
          let step : Respects Pre R (with_read (get_escrow env g e s) _) =
            search (call_rules, on_refund) in
          step.at s;
    }

    -- So does a run, where `R` chains and keeps `Pre`.
    pub run-Respects :
        ((s t : Store) → R s t → Pre t)
        → ((s t u : Store) → R s t → R t u → R s u)
        → (ops : List Op) (s : Store) → Pre s
        → R s (run env author uuid_text ops s)
    unfolding run
    run-Respects keep chain [] s h = same s h
    run-Respects keep chain (op ∷ ops) s h =
        let first = (execute-Respects op).at s h in
        chain _ _ _ first (run-Respects keep chain ops _ (keep _ _ first))
