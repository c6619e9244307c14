-- ===== src/Htlc/Transactions.antt =====
-- The messages as the SDK runs them: the stateless checks, then the handler of the message server,
-- and the writes are kept only if neither fails.
use cosmos_swap.Prelude.{ℕ, List, [], ◌∷◌, Result, ok, err}
use cosmos_swap.Prelude.Time.{Time}
use cosmos_swap.Htlc.{
  Error, MsgCreateHtlc, MsgClaimHtlc, MsgRefundHtlc, Platform, State, create_msg, claim_msg,
  refund_msg,
}
use cosmos_swap.Htlc.Msgs.{validate_create, validate_claim, validate_refund}
pub mod Sound
pub mod Lifecycle
pub mod Delivered
pub mod Live

pub data Msg : Type 0 where
  create : MsgCreateHtlc → Msg
  claim : MsgClaimHtlc → Msg
  refund : MsgRefundHtlc → Msg

module _ (p : Platform) where
  abbrev pub commit :
      {A : Type 0} → State p → Result Error (Unit {0}) → Result Error A × State p → State p
  commit s (err e) r = s
  commit s (ok _) (ok a, t) = t
  commit s (ok _) (err e, t) = s

  unfoldable pub deliver : Time → Msg → State p → State p
  deliver now (create m) s = commit s (validate_create p m) (create_msg p now m s)
  deliver now (claim m) s = commit s (validate_claim p m) (claim_msg p now m s)
  deliver now (refund m) s = commit s (validate_refund p m) (refund_msg p now m s)

  -- A history: messages with the block times at which they run.
  unfoldable pub run : List (Time × Msg) → State p → State p
  run [] s = s
  run ((now, m) ∷ ms) s = run ms (deliver now m s)
