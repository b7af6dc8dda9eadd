-- ===== src/Finance/Authorization.antt =====
-- Who may settle an escrow: the checks of the finance service before the repository is called.
use merope.Prelude.{ℕ, String, ◌≡◌, refl, Bool, true, false, arith}
use merope.Prelude.Text.{str_eq_iff}
use merope.Prelude.Outcome.{Result, ok, err}
use merope.Finance.Store.{Store, Escrow}
use merope.Finance.Env.{Error, Env, Faults, only_buyer, only_seller, not_releasable, not_refundable}
use merope.Finance.Escrows.{get_escrow, release_escrow, refund_escrow}
use merope.Finance.Service.{Call, refuse_if, with_read, release, refund}

-- The call went past both checks, on the escrow that was read.
refused_or_passed :
    (r : Result Error Escrow) (b c : Escrow → Bool) (d e : Error) (call : Call) (s : Store)
    → (with_read r (λ x. refuse_if (b x) d (refuse_if (c x) e call)) s).0 ≡ ok tt
    → (x : Escrow) × (r ≡ ok x) × (b x ≡ false) × (c x ≡ false)
refused_or_passed (err e') b c d e call s h = absurd (cc)
refused_or_passed (ok x) b c d e call s h = (x, refl, first (b x) h, second (b x) (c x) h)
  where
    first : (v : Bool) → (refuse_if v d (refuse_if (c x) e call) s).0 ≡ ok tt → v ≡ false
    first true k = absurd (cc)
    first false k = refl

    second : (v w : Bool) → (refuse_if v d (refuse_if w e call) s).0 ≡ ok tt → w ≡ false
    second true w k = absurd (cc)
    second false true k = absurd (cc)
    second false false k = refl

module _ (uuid_text : ℕ → String) (env : Env) (g f : Faults) (e user_id : String) (s : Store) where
  -- A release that succeeds was asked for by the buyer of the escrow that was read, and its status
  -- was `held`.
  pub release_needs_buyer :
      (release uuid_text env g f e user_id s).0 ≡ ok tt
      → (x : Escrow) × (get_escrow env g e s ≡ ok x)
        × (uuid_text x.buyer_id ≡ user_id)
        × (x.status ≡ "held")
  unfolding release
  release_needs_buyer h =
      let (x, found, buyer, held) =
        refused_or_passed (get_escrow env g e s) _ _ only_buyer not_releasable
          (release_escrow env f e) s h in
      (
        x,
        found,
        ground (arith, str_eq_iff (uuid_text x.buyer_id) user_id),
        ground (arith, str_eq_iff x.status "held"),
      )

  -- A refund that succeeds was asked for by the seller of the escrow that was read, and its status
  -- was `held`.
  pub refund_needs_seller :
      (refund uuid_text env g f e user_id s).0 ≡ ok tt
      → (x : Escrow) × (get_escrow env g e s ≡ ok x)
        × (uuid_text x.seller_id ≡ user_id)
        × (x.status ≡ "held")
  unfolding refund
  refund_needs_seller h =
      let (x, found, seller, held) =
        refused_or_passed (get_escrow env g e s) _ _ only_seller not_refundable
          (refund_escrow env f e) s h in
      (
        x,
        found,
        ground (arith, str_eq_iff (uuid_text x.seller_id) user_id),
        ground (arith, str_eq_iff x.status "held"),
      )
