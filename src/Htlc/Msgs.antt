-- ===== src/Htlc/Msgs.antt =====
-- x/htlc-com/types/messages.go: the stateless checks of the messages.
use cosmos_swap.Prelude.{not, nat_eq, ◌==◌, length, Result, ok, check}
use cosmos_swap.Prelude.Int.{pos, leb_ℤ}
use cosmos_swap.Htlc.Types.{
  Error, invalid_hash_lock, invalid_time_lock, invalid_address, invalid_coins, invalid_request,
  MsgCreateHtlc, MsgClaimHtlc, MsgRefundHtlc,
}
use cosmos_swap.Htlc.Environment.{Platform}

module _ (p : Platform) where
  -- `MsgCreateHTLC.ValidateBasic`
  unfoldable pub validate_create : MsgCreateHtlc → Result Error (Unit {0})
  validate_create m = check (p.addr_empty m.sender) invalid_address (
      check (p.addr_empty m.receiver) invalid_address (
        check (not (p.bank.is_all_positive m.amount)) invalid_coins (
          check (length m.hash_lock == 0) invalid_hash_lock (
            check (not (length m.hash_lock == 32)) invalid_hash_lock
              (check (leb_ℤ m.time_lock (pos 0)) invalid_time_lock (ok tt))))))

  -- `MsgClaimHTLC.ValidateBasic`
  unfoldable pub validate_claim : MsgClaimHtlc → Result Error (Unit {0})
  validate_claim m = check (p.addr_empty m.claimer) invalid_address (
      check (m.htlc_id == 0) invalid_request
        (check (length m.preimage == 0) invalid_request (ok tt)))

  -- `MsgRefundHTLC.ValidateBasic`
  unfoldable pub validate_refund : MsgRefundHtlc → Result Error (Unit {0})
  validate_refund m =
      check (p.addr_empty m.refunder) invalid_address
        (check (m.htlc_id == 0) invalid_request (ok tt))
