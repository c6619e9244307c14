-- ===== src/Htlc/Payout.antt =====
-- In a solvent state a claim or refund that the contract's terms allow is paid in full.
use cosmos_swap.Prelude.{
  ℕ, ◌+◌, ◌≤◌, ◌≡◌, ◌≢◌, false, some, Bytes, bytes_eq, bytes_beq_iff, ok, arith, inl, inr,
}
use cosmos_swap.Prelude.Time.{Time}
use cosmos_swap.Htlc.{Htlc, Platform, PlatformLaws, State, module_name, claim, refund}
use cosmos_swap.Htlc.View.{stored}
use cosmos_swap.Htlc.Handlers.{
  ClaimAllowed, RefundAllowed, claim_effect, claim_succeeds, refund_effect, refund_succeeds,
}
use cosmos_swap.Htlc.Sums.{le-total}
use cosmos_swap.Htlc.Solvency.{owed, IsSound}
use cosmos_swap.Htlc.Solvency.Settle.{lt_or_le}

module _ (p : Platform) (laws : PlatformLaws p) (s : State p) (n : ℕ) (sound : IsSound p s n)
    (id : ℕ) (h : Htlc) (found : stored p s id ≡ some h) where
  covered :
      h.claimed ≡ false
      → h.refunded ≡ false
      → (d : Bytes)
      → p.bank.amount_of h.amount d ≤ p.bank.balance s.ledger (p.bank.module_address module_name) d
  covered c r d = elim (lt_or_le id n) [
    | inr g ↦ absurd (cc (sound.fresh id g))
    | inl l ↦ ground (arith, sound.funded d, le-total (λ i. owed p (stored p s i) d) id n l)
  ]

  -- In a sound state a claim that is allowed, by a receiver that the bank accepts payments to and
  -- that is not the module itself, succeeds, and the receiver gains exactly the locked amount.
  pub claim_pays :
      (now : Time) (preimage claimer : Bytes)
      → ClaimAllowed p laws s now id preimage claimer h found
      → p.bank.blocked h.receiver ≡ false
      → h.receiver ≢ p.bank.module_address module_name
      → ((claim p now id preimage claimer s).0 ≡ ok tt)
        × ((d : Bytes)
            → p.bank.balance (claim p now id preimage claimer s).1.ledger h.receiver d
              ≡ p.bank.balance s.ledger h.receiver d + p.bank.amount_of h.amount d)
  claim_pays now preimage claimer allowed free other =
      let (k, paid) =
        laws.bank_laws.send_from_module_total s.ledger module_name h.receiver h.amount
          (sound.valid id h found) free (covered allowed.0 allowed.1) in
      let done = claim_succeeds p laws s now id preimage claimer h found allowed paid in
      let (k', _, paid', t) = claim_effect p laws s now id preimage claimer h found done in
      (
        done,
        λ d. rw t (
            ground (
              arith,
              laws.bank_laws.send_from_module_moves s.ledger module_name h.receiver h.amount k'
                  paid' h.receiver d,
              bytes_beq_iff (p.bank.module_address module_name) h.receiver,
              bytes_beq_iff h.receiver h.receiver,
            )),
      )

  -- In a sound state a refund that is allowed, to a sender that the bank accepts payments to and
  -- that is not the module itself, succeeds, and the sender gains exactly the locked amount.
  pub refund_pays :
      (now : Time) (refunder : Bytes)
      → RefundAllowed p laws s now id refunder h found
      → p.bank.blocked h.sender ≡ false
      → h.sender ≢ p.bank.module_address module_name
      → ((refund p now id refunder s).0 ≡ ok tt)
        × ((d : Bytes)
            → p.bank.balance (refund p now id refunder s).1.ledger h.sender d
              ≡ p.bank.balance s.ledger h.sender d + p.bank.amount_of h.amount d)
  refund_pays now refunder allowed free other =
      let (k, paid) =
        laws.bank_laws.send_from_module_total s.ledger module_name h.sender h.amount
          (sound.valid id h found) free (covered allowed.0 allowed.1) in
      let done = refund_succeeds p laws s now id refunder h found allowed paid in
      let (k', _, paid', t) = refund_effect p laws s now id refunder h found done in
      (
        done,
        λ d. rw t (
            ground (
              arith,
              laws.bank_laws.send_from_module_moves s.ledger module_name h.sender h.amount k' paid'
                  h.sender d,
              bytes_beq_iff (p.bank.module_address module_name) h.sender,
              bytes_beq_iff h.sender h.sender,
            )),
      )

  -- In a sound state only at the very instant of its time lock can both a claim and a refund of a
  -- contract succeed.
  pub claim_and_refund_instant :
      (now : Time) (preimage claimer refunder : Bytes)
      → (claim p now id preimage claimer s).0 ≡ ok tt
      → (refund p now id refunder s).0 ≡ ok tt
      → (now.sec ≡ h.time_lock.sec) × (now.nsec ≡ h.time_lock.nsec)
  claim_and_refund_instant now preimage claimer refunder c r = ground (
    arith,
    (claim_effect p laws s now id preimage claimer h found c).1,
    (refund_effect p laws s now id refunder h found r).1,
  )
