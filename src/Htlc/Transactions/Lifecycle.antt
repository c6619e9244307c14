-- ===== src/Htlc/Transactions/Lifecycle.antt =====
-- The life of a contract: absent, open, then claimed or refunded, and nothing after that.
use cosmos_swap.Prelude.{
  ◌++◌, Bool-cases, nat_beq_iff, ◌||◌, ℕ, ◌+◌, ◌<◌, ◌≡◌, refl, true, false, Option, none, some,
  List, [], ◌∷◌, Bytes, u64_mod, length, ok, err, arith, Result-cases, inl, inr, nat_eq, ◌==◌,
  if◌then◌else◌,
}
use cosmos_swap.Prelude.Time.{Time}
use cosmos_swap.Htlc.{
  create_htlc, claim_htlc, refund_htlc, htlc_claimed, htlc_refunded, Htlc, MsgCreateHtlc,
  MsgClaimHtlc, MsgRefundHtlc, Platform, PlatformLaws, State, create_msg, claim_msg, refund_msg,
}
use cosmos_swap.Htlc.Msgs.{validate_create, validate_claim, validate_refund}
use cosmos_swap.Htlc.View.{stored, get_htlc-stored}
use cosmos_swap.Htlc.Handlers.{
  new_htlc, create_effect, claim_effect, refund_effect, claim-stored, refund-stored,
}
use cosmos_swap.Htlc.Solvency.{IsSound}
use cosmos_swap.Htlc.Solvency.Settle.{stored-after_settle}
use cosmos_swap.Htlc.Solvency.Create.{stored-after_create}
use cosmos_swap.Htlc.Transactions.{Msg, create, claim, refund, commit, deliver, run}
use cosmos_swap.Htlc.Transactions.Sound.{AreOutside, deliver-IsSound}

-- How one message may change what is stored under an id. The terms of a contract never change.
pub data Step : Option Htlc → Option Htlc → Type 0 where
  stay : {o : Option Htlc} → Step o o
  opened : (h : Htlc) → h.claimed ≡ false → h.refunded ≡ false → Step none (some h)
  claimed :
      (h : Htlc)
      → h.claimed ≡ false
      → h.refunded ≡ false
      → Step (some h) (some (record h { claimed = true }))
  refunded :
      (h : Htlc)
      → h.claimed ≡ false
      → h.refunded ≡ false
      → Step (some h) (some (record h { refunded = true }))

module _ (p : Platform) (laws : PlatformLaws p) (s : State p) (n : ℕ) (sound : IsSound p s n)
    (now : Time) (i : ℕ) where
  step_if :
      (j : ℕ) (o o' : Option Htlc)
      → Step o o'
      → (j ≡ i → stored p s i ≡ o)
      → Step (stored p s i) (if j == i then o' else stored p s i)
  step_if j o o' st e = elim (Bool-cases (j == i)) [
    | inl y ↦ rw y (rw (e ((nat_beq_iff j i).0 y)) st)
    | inr y ↦ rw y stay
  ]

  claim_msg-Step :
      (m : MsgClaimHtlc)
      → (claim_msg p now m s).0 ≡ ok tt
      → Step (stored p s i) (stored p (claim_msg p now m s).1 i)
  unfolding claim_msg
  claim_msg-Step m e =
      let (h, found) = claim-stored p laws s now m.htlc_id m.preimage m.claimer e in
      let (k, (open_c, open_r, _, _, _), paid, t) =
        claim_effect p laws s now m.htlc_id m.preimage m.claimer h found e in
      rw t (
        rw
          (stored-after_settle p laws s n m.htlc_id h (record h { claimed = true }) k
            (s.events ++ claim_htlc m.htlc_id m.claimer h.amount ∷ []) i)
          (step_if h.id (some h) _ (claimed h open_c open_r)
            (λ q. cc (sound.keyed m.htlc_id h found))))

  refund_msg-Step :
      (m : MsgRefundHtlc)
      → (refund_msg p now m s).0 ≡ ok tt
      → Step (stored p s i) (stored p (refund_msg p now m s).1 i)
  unfolding refund_msg
  refund_msg-Step m e =
      let (h, found) = refund-stored p laws s now m.htlc_id m.refunder e in
      let (k, (open_c, open_r, _, _), paid, t) =
        refund_effect p laws s now m.htlc_id m.refunder h found e in
      rw t (
        rw
          (stored-after_settle p laws s n m.htlc_id h (record h { refunded = true }) k
            (s.events ++ refund_htlc m.htlc_id m.refunder h.amount ∷ []) i)
          (step_if h.id (some h) _ (refunded h open_c open_r)
            (λ q. cc (sound.keyed m.htlc_id h found))))

  create_msg-Step :
      (m : MsgCreateHtlc) (id : ℕ)
      → (create_msg p now m s).0 ≡ ok id
      → Step (stored p s i) (stored p (create_msg p now m s).1 i)
  unfolding create_msg
  create_msg-Step m id e =
      let (k, _, _, _, paid, t) =
        create_effect p laws s now m.sender m.receiver m.amount m.hash_lock m.time_lock n id
          sound.counter e in
      let h = new_htlc n m.sender m.receiver m.amount m.hash_lock m.time_lock in
      rw t (
        rw
          (stored-after_create p laws s n h k
            (s.events ++ create_htlc m.sender m.receiver n m.amount m.hash_lock m.time_lock ∷ [])
            sound refl i)
          (step_if n none _ (opened h refl refl) (λ q. sound.fresh i (omega arith))))

  -- In a sound state every delivered message moves what is stored under an id along the life of a contract.
  pub deliver-Step : (m : Msg) → Step (stored p s i) (stored p (deliver p now m s) i)
  unfolding deliver
  deliver-Step (create m) = elim (Result-cases (validate_create p m)) [
    | inr (x, e) ↦ rw e stay
    | inl (_, v) ↦ elim (Result-cases (create_msg p now m s).0) [
      | inl (id, e) ↦ rw (v, e, commit) (create_msg-Step m id e)
      | inr (x, e) ↦ rw (v, e, commit) stay
    ]
  ]
  deliver-Step (claim m) = elim (Result-cases (validate_claim p m)) [
    | inr (x, e) ↦ rw e stay
    | inl (_, v) ↦ elim (Result-cases (claim_msg p now m s).0) [
      | inl (_, e) ↦ rw (v, e, commit) (claim_msg-Step m e)
      | inr (x, e) ↦ rw (v, e, commit) stay
    ]
  ]
  deliver-Step (refund m) = elim (Result-cases (validate_refund p m)) [
    | inr (x, e) ↦ rw e stay
    | inl (_, v) ↦ elim (Result-cases (refund_msg p now m s).0) [
      | inl (_, e) ↦ rw (v, e, commit) (refund_msg-Step m e)
      | inr (x, e) ↦ rw (v, e, commit) stay
    ]
  ]

-- A settled contract can take no step but to stay.
Step-settled :
    {o o' : Option Htlc} (h : Htlc)
    → Step o o'
    → o ≡ some h
    → (h.claimed || h.refunded) ≡ true
    → o' ≡ some h
Step-settled h stay e d = e
Step-settled h (opened g c r) e d = cc
Step-settled h (claimed g c r) e d = ground arith
Step-settled h (refunded g c r) e d = ground arith

module _ (p : Platform) (laws : PlatformLaws p) where
  -- Once claimed or refunded, a contract in a sound state stays as it is through every later history
  -- that has no message of the module's own account and does not run out of 64-bit ids.
  pub settled_forever :
      (ms : List (Time × Msg)) (s : State p) (n i : ℕ) (h : Htlc)
      → IsSound p s n
      → AreOutside p ms
      → n + length ms < u64_mod
      → stored p s i ≡ some h
      → (h.claimed || h.refunded) ≡ true
      → stored p (run p ms s) i ≡ some h
  unfolding run
  settled_forever [] s n i h sound outside small e d = e
  settled_forever ((now, m) ∷ ms) s n i h sound outside small e d =
      let (k, le, next) = deliver-IsSound p laws s n sound now m outside.0 (omega arith) in
      settled_forever ms (deliver p now m s) k i h next outside.1 (omega arith)
        (Step-settled h (deliver-Step p laws s n sound now i m) e d) d

  -- After any such history, claiming or refunding a contract that was claimed or refunded before it
  -- fails with the error that names how it was settled, and changes nothing.
  pub settled-not-paid_again :
      (ms : List (Time × Msg)) (s : State p) (n i : ℕ) (h : Htlc)
      → IsSound p s n
      → AreOutside p ms
      → n + length ms < u64_mod
      → stored p s i ≡ some h
      → (h.claimed || h.refunded) ≡ true
      → (now : Time) (preimage who : Bytes)
      → let settled = if h.claimed then htlc_claimed else htlc_refunded in
        (claim_msg p now (record { claimer = who; htlc_id = i; preimage = preimage }) (run p ms s)
          ≡ (err settled, run p ms s))
        × (refund_msg p now (record { refunder = who; htlc_id = i }) (run p ms s)
            ≡ (err settled, run p ms s))
  unfolding claim_msg refund_msg
  settled-not-paid_again ms s n i h sound outside small e d now preimage who =
      let e' =
        get_htlc-stored p (run p ms s) i h (settled_forever ms s n i h sound outside small e d) in
      (ground arith, ground arith)
