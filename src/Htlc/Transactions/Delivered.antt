-- ===== src/Htlc/Transactions/Delivered.antt =====
-- A claim or a refund that succeeds has its effect when its message is delivered, if the message passes its
-- stateless checks.
use cosmos_swap.Prelude.{
  ◌<◌, ◌≡◌, ◌≢◌, refl, false, [], ◌∷◌, Bytes, length, nat_eq, ◌==◌, ok, arith,
}
use cosmos_swap.Prelude.Time.{Time}
use cosmos_swap.Htlc.{MsgClaimHtlc, MsgRefundHtlc, Platform, State, claim_msg, refund_msg}
use cosmos_swap.Htlc.Msgs.{validate_claim, validate_refund}
use cosmos_swap.Htlc.Transactions.{claim, refund, deliver}

pub nonempty-length : (bs : Bytes) → bs ≢ [] → (length bs == 0) ≡ false
nonempty-length [] h = absurd (h refl)
nonempty-length (b ∷ bs) h = ground arith

module _ (p : Platform) where
  pub deliver-claim :
      (u : State p) (now : Time) (m : MsgClaimHtlc)
      → p.addr_empty m.claimer ≡ false
      → 0 < m.htlc_id
      → m.preimage ≢ []
      → (claim_msg p now m u).0 ≡ ok tt
      → deliver p now (claim m) u ≡ (claim_msg p now m u).1
  unfolding deliver validate_claim
  deliver-claim u now m f z h e = ground (arith, nonempty-length m.preimage h)

  pub deliver-refund :
      (u : State p) (now : Time) (m : MsgRefundHtlc)
      → p.addr_empty m.refunder ≡ false
      → 0 < m.htlc_id
      → (refund_msg p now m u).0 ≡ ok tt
      → deliver p now (refund m) u ≡ (refund_msg p now m u).1
  unfolding deliver validate_refund
  deliver-refund u now m f z e = ground arith
