-- ===== src/Htlc/Transactions/Sound.antt =====
-- Every history of messages keeps the module solvent.
use cosmos_swap.Prelude.{
  ℕ, suc, ◌+◌, ◌≤◌, ◌<◌, ◌≡◌, ◌≢◌, refl, true, List, [], ◌∷◌, u64_mod, length, ok, arith,
  Result-cases, inl, inr,
}
use cosmos_swap.Prelude.Time.{Time}
use cosmos_swap.Htlc.{
  MsgCreateHtlc, MsgClaimHtlc, MsgRefundHtlc, Platform, PlatformLaws, State, module_name,
  create_msg, claim_msg, refund_msg,
}
use cosmos_swap.Htlc.Msgs.{validate_create, validate_claim, validate_refund}
use cosmos_swap.Htlc.Handlers.{
  new_htlc, create_effect, claim_effect, refund_effect, claim-stored, refund-stored,
}
use cosmos_swap.Htlc.Solvency.{IsSound}
use cosmos_swap.Htlc.Solvency.Settle.{settle-IsSound}
use cosmos_swap.Htlc.Solvency.Create.{create-IsSound}
use cosmos_swap.Htlc.Transactions.{Msg, create, claim, refund, commit, deliver, run}

module _ (p : Platform) where
  -- The module's own account, which nobody has a key for, creates no contract.
  abbrev pub IsOutside : Msg → Type 0
  IsOutside (create m) = m.sender ≢ p.bank.module_address module_name
  IsOutside _ = Unit

  abbrev pub AreOutside : List (Time × Msg) → Type 0
  AreOutside [] = Unit
  AreOutside ((now, m) ∷ ms) = IsOutside m × AreOutside ms

  module _ (laws : PlatformLaws p) (s : State p) (n : ℕ) (sound : IsSound p s n) (now : Time) where
    pub claim_msg-IsSound :
        (m : MsgClaimHtlc) → (claim_msg p now m s).0 ≡ ok tt → IsSound p (claim_msg p now m s).1 n
    unfolding claim_msg
    claim_msg-IsSound m e =
        let (h, found) = claim-stored p laws s now m.htlc_id m.preimage m.claimer e in
        let (k, (open_c, open_r, _, _, _), paid, t) =
          claim_effect p laws s now m.htlc_id m.preimage m.claimer h found e in
        rw t (
          settle-IsSound p laws s n m.htlc_id h _ k _ sound found refl h.receiver open_c open_r refl
            refl open_r paid)

    refund_msg-IsSound :
        (m : MsgRefundHtlc)
        → (refund_msg p now m s).0 ≡ ok tt
        → IsSound p (refund_msg p now m s).1 n
    unfolding refund_msg
    refund_msg-IsSound m e =
        let (h, found) = refund-stored p laws s now m.htlc_id m.refunder e in
        let (k, (open_c, open_r, _, _), paid, t) =
          refund_effect p laws s now m.htlc_id m.refunder h found e in
        rw t (
          settle-IsSound p laws s n m.htlc_id h (record h { refunded = true }) k _ sound found refl
            h.sender open_c open_r refl (ground arith) (ground arith) paid)

    pub create_msg-IsSound :
        (m : MsgCreateHtlc) (id : ℕ)
        → IsOutside (create m)
        → n + 1 < u64_mod
        → (create_msg p now m s).0 ≡ ok id
        → IsSound p (create_msg p now m s).1 (suc n)
    unfolding create_msg
    create_msg-IsSound m id outside small e =
        let (k, _, _, _, paid, t) =
          create_effect p laws s now m.sender m.receiver m.amount m.hash_lock m.time_lock n id
            sound.counter e in
        rw t (
          create-IsSound p laws s n
            (new_htlc n m.sender m.receiver m.amount m.hash_lock m.time_lock) k _ sound refl
            m.sender outside small refl refl paid)

    -- One delivered message keeps the invariant, and uses up at most one id.
    pub deliver-IsSound :
        (m : Msg)
        → IsOutside m
        → n + 1 < u64_mod
        → (k : ℕ) × (k ≤ suc n) × IsSound p (deliver p now m s) k
    unfolding deliver
    deliver-IsSound (create m) outside small = elim (Result-cases (validate_create p m)) [
      | inr (x, e) ↦ (n, omega arith, rw e sound)
      | inl (_, v) ↦ elim (Result-cases (create_msg p now m s).0) [
        | inl (id, e) ↦
            (suc n, omega arith, rw (v, e, commit) (create_msg-IsSound m id outside small e))
        | inr (x, e) ↦ (n, omega arith, rw (v, e, commit) sound)
      ]
    ]
    deliver-IsSound (claim m) outside small = elim (Result-cases (validate_claim p m)) [
      | inr (x, e) ↦ (n, omega arith, rw e sound)
      | inl (_, v) ↦ elim (Result-cases (claim_msg p now m s).0) [
        | inl (_, e) ↦ (n, omega arith, rw (v, e, commit) (claim_msg-IsSound m e))
        | inr (x, e) ↦ (n, omega arith, rw (v, e, commit) sound)
      ]
    ]
    deliver-IsSound (refund m) outside small = elim (Result-cases (validate_refund p m)) [
      | inr (x, e) ↦ (n, omega arith, rw e sound)
      | inl (_, v) ↦ elim (Result-cases (refund_msg p now m s).0) [
        | inl (_, e) ↦ (n, omega arith, rw (v, e, commit) (refund_msg-IsSound m e))
        | inr (x, e) ↦ (n, omega arith, rw (v, e, commit) sound)
      ]
    ]

  -- Any history that starts in a sound state, has no message of the module's own account, and does
  -- not run out of 64-bit ids, ends in a sound state.
  pub run-IsSound :
      (laws : PlatformLaws p) (ms : List (Time × Msg)) (s : State p) (n : ℕ)
      → IsSound p s n
      → AreOutside ms
      → n + length ms < u64_mod
      → (k : ℕ) × IsSound p (run p ms s) k
  unfolding run
  run-IsSound laws [] s n sound outside small = (n, sound)
  run-IsSound laws ((now, m) ∷ ms) s n sound outside small =
      let (k, le, next) = deliver-IsSound laws s n sound now m outside.0 (omega arith) in
      run-IsSound laws ms (deliver p now m s) k next outside.1 (omega arith)
