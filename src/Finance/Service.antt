-- ===== src/Finance/Service.antt =====
-- backend/internal/modules/finance/service/finance_service.go over the repository.
use merope.Prelude.{ℕ, String, Bool, true, false, not, ◌||◌, Option, none, some}
use merope.Prelude.Int.{ℤ, pos, leb_ℤ}
use merope.Prelude.Text.{str_eq, is_empty}
use merope.Prelude.Outcome.{Result, ok, err, ◌>>=◌}
use merope.Finance.Store.{Store}
use merope.Finance.Env.{
  Error, amount_not_positive, not_releasable, not_refundable, invalid_transfer,
  invalid_participants, only_buyer, only_seller, post_not_found, Faults, Env, from_option,
}
use merope.Finance.Transfers.{transfer}
use merope.Finance.Escrows.{EscrowRequest, create_escrow, get_escrow, release_escrow, refund_escrow}

abbrev pub Call : Type 0
Call = Store → Result Error (Unit {0}) × Store

-- `if bad { return err }` before a call of the repository.
abbrev pub refuse_if : Bool → Error → Call → Call
refuse_if true e call s = (err e, s)
refuse_if false e call s = call s

-- A call of the repository on what a read returned.
abbrev pub with_read : {A : Type 0} → Result Error A → (A → Call) → Call
with_read (err e) call s = (err e, s)
with_read (ok a) call s = call a s

unfoldable pub transfer_funds : Env → Faults → String → String → ℤ → Call
transfer_funds env f sender_id receiver_id amount =
    refuse_if
      (is_empty sender_id
        || is_empty receiver_id
        || str_eq sender_id receiver_id
        || leb_ℤ amount (pos 0))
      invalid_transfer (transfer env f sender_id receiver_id amount "transfer" none none)

unfoldable pub tip_user : Env → Faults → String → String → ℤ → Call
tip_user env f sender_id receiver_id amount =
    refuse_if (leb_ℤ amount (pos 0)) amount_not_positive
      (transfer env f sender_id receiver_id amount "tip" none none)

-- `author` is the answer of `contentRepo.GetSignalByID`: an error, no post, or its author.
unfoldable pub unlock_content :
    Env → Faults → (String → Result Error (Option String)) → String → String → ℤ → Call
unlock_content env f author user_id post_id amount =
    refuse_if (leb_ℤ amount (pos 0)) amount_not_positive (
      with_read (do found ← author post_id; from_option post_not_found found)
        (λ author_id. transfer env f user_id author_id amount "unlock" none (some post_id)))

unfoldable pub initiate_escrow : Env → Faults → ℕ → EscrowRequest → Call
initiate_escrow env f id request =
    refuse_if
      (is_empty request.buyer_id
        || is_empty request.seller_id
        || str_eq request.buyer_id request.seller_id)
      invalid_participants
      (refuse_if (leb_ℤ request.amount (pos 0)) amount_not_positive
        (create_escrow env f id request))

-- `uuid_text` is `util.UUIDToString`; `g` are the faults of the read.
module _ (uuid_text : ℕ → String) where
  unfoldable pub release : Env → Faults → Faults → String → String → Call
  release env g f escrow_id user_id s =
      with_read (get_escrow env g escrow_id s)
        (λ e. refuse_if (not (str_eq (uuid_text e.buyer_id) user_id)) only_buyer (
          refuse_if (not (str_eq e.status "held")) not_releasable (release_escrow env f escrow_id)))
        s

  unfoldable pub refund : Env → Faults → Faults → String → String → Call
  refund env g f escrow_id user_id s =
      with_read (get_escrow env g escrow_id s)
        (λ e.
          refuse_if (not (str_eq (uuid_text e.seller_id) user_id)) only_seller (
            refuse_if (not (str_eq e.status "held")) not_refundable
              (refund_escrow env f escrow_id)))
        s
