-- ===== src/Htlc/Transactions/Live.antt =====
-- A contract that is open can be settled at every time.
use cosmos_swap.Prelude.{
  [], ℕ, ◌+◌, ◌<◌, ◌≡◌, ◌≢◌, ◌⊎◌, refl, inl, inr, true, false, Bool-cases, some, List, Bytes,
  u64_mod, length, arith,
}
use cosmos_swap.Prelude.Time.{Time, before, after}
use cosmos_swap.Htlc.{
  Htlc, MsgClaimHtlc, MsgRefundHtlc, Platform, PlatformLaws, State, module_name, claim_msg,
  refund_msg,
}
use cosmos_swap.Htlc.View.{stored}
use cosmos_swap.Htlc.Solvency.{IsSound}
use cosmos_swap.Htlc.Payout.{claim_pays, refund_pays}
use cosmos_swap.Htlc.Transactions.{Msg, claim, refund, deliver, run}
use cosmos_swap.Htlc.Transactions.Delivered.{deliver-claim, deliver-refund}
use cosmos_swap.Htlc.Transactions.Sound.{AreOutside, run-IsSound}

before-after : (t u : Time) → after t u ≡ true → before t u ≡ false
before-after t u h = ground arith

-- After any history from a sound state that has no message of the module's own account and does not run out of
-- 64-bit ids, a contract that is open can be settled at whatever time comes: the receiver's claim with the
-- preimage, when it is delivered, pays the receiver the amount, or the sender's refund pays the sender. The
-- conditions are those of the stateless checks, that the contract's id is not 0 and neither the preimage nor
-- the two addresses are empty, and that the bank accepts payments to both, neither being the module itself.
pub open-settles :
    (p : Platform) (laws : PlatformLaws p) (ms : List (Time × Msg)) (s : State p) (n : ℕ)
    → IsSound p s n
    → AreOutside p ms
    → n + length ms < u64_mod
    → (id : ℕ) (h : Htlc) (preimage : Bytes) (now : Time) → stored p (run p ms s) id ≡ some h
    → h.claimed ≡ false
    → h.refunded ≡ false
    → p.sha256 preimage ≡ h.hash_lock
    → 0 < id
    → preimage ≢ []
    → p.addr_empty h.receiver ≡ false
    → p.addr_empty h.sender ≡ false
    → p.bank.blocked h.receiver ≡ false
    → p.bank.blocked h.sender ≡ false
    → h.receiver ≢ p.bank.module_address module_name
    → h.sender ≢ p.bank.module_address module_name
    → ((d : Bytes)
        → p.bank.balance
            (deliver p now
              (claim (record { claimer = h.receiver; htlc_id = id; preimage = preimage }))
              (run p ms s)).ledger
            h.receiver
            d
          ≡ p.bank.balance (run p ms s).ledger h.receiver d + p.bank.amount_of h.amount d)
      ⊎ ((d : Bytes)
          → p.bank.balance
              (deliver p now
                (refund (record { refunder = h.sender; htlc_id = id }))
                (run p ms s)).ledger
              h.sender
              d
            ≡ p.bank.balance (run p ms s).ledger h.sender d + p.bank.amount_of h.amount d)
unfolding claim_msg refund_msg
open-settles p laws ms s n sound outside small id h preimage now found c r image z some_text a a' b
      b' o o' =
    let (k, reached) = run-IsSound p laws ms s n sound outside small in
    let t = run p ms s in
    elim (Bool-cases (after now h.time_lock)) [
      | inr early ↦
          let (done, gains) =
            claim_pays p laws t k reached id h found now preimage h.receiver
              (c, r, image, refl, early) b o in
          let m : MsgClaimHtlc = record {
            claimer = h.receiver;
            htlc_id = id;
            preimage = preimage;
          } in
          inl (λ d. rw (deliver-claim p t now m a z some_text done) (gains d))
      | inl late ↦
          let (done, gains) =
            refund_pays p laws t k reached id h found now h.sender
              (c, r, refl, before-after now h.time_lock late) b' o' in
          let m : MsgRefundHtlc = record { refunder = h.sender; htlc_id = id } in
          inr (λ d. rw (deliver-refund p t now m a' z done) (gains d))
    ]
