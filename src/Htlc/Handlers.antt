-- ===== src/Htlc/Handlers.antt =====
-- What a successful call of each handler has checked and what it has changed, and that a failed
-- call has paid nothing.
use cosmos_swap.Prelude.{
  inl, inr, Result-cases, Option-cases, ℕ, ◌≡◌, true, false, some, [], ◌∷◌, ◌++◌, Bytes, bytes_eq,
  length, ok, err, arith, bytes_beq_iff,
}
use cosmos_swap.Prelude.Int.{ℤ, ◌<ℤ◌}
use cosmos_swap.Prelude.Time.{Time, unix, after, before}
use cosmos_swap.Sdk.{Coins}
use cosmos_swap.Htlc.{
  Htlc, Error, Platform, PlatformLaws, State, module_name, get_htlc, set_htlc,
  increment_next_htlc_id, create, claim, refund, create_htlc, claim_htlc, refund_htlc,
}
use cosmos_swap.Htlc.View.{stored, next_id, get_htlc-stored}

-- The contract that `create` stores.
abbrev pub new_htlc : ℕ → Bytes → Bytes → Coins → Bytes → ℤ → Htlc
new_htlc id sender receiver amount hash_lock time_lock = record {
  id = id;
  sender = sender;
  receiver = receiver;
  amount = amount;
  hash_lock = hash_lock;
  time_lock = unix time_lock;
  claimed = false;
  refunded = false;
}

module _ (p : Platform) (laws : PlatformLaws p) (s : State p) (now : Time) where
  module _ (sender receiver : Bytes) (amount : Coins) (hash_lock : Bytes) (time_lock : ℤ) where
    -- A create that succeeds has found the hash lock 32 bytes long and the time lock later than the
    -- block, has moved the amount from the sender to the module, and has stored the new contract
    -- under the next id, advanced the counter and emitted the event.
    pub create_effect :
        (n id : ℕ)
        → next_id p s ≡ some n
        → (create p now sender receiver amount hash_lock time_lock s).0 ≡ ok id
        → (k : p.bank.Ledger) × (id ≡ n)
          × (length hash_lock ≡ 32)
          × (now.sec <ℤ time_lock)
          × (p.bank.send_to_module s.ledger sender module_name amount ≡ ok k)
          × ((create p now sender receiver amount hash_lock time_lock s).1
              ≡ record (increment_next_htlc_id p
                  (set_htlc p
                    (new_htlc n sender receiver amount hash_lock time_lock)
                    (record s { ledger = k })).1).1 {
                      ledger = k;
                      events =
                          s.events ++ create_htlc sender receiver n amount hash_lock time_lock ∷ [];
                    })
    unfolding create set_htlc increment_next_htlc_id next_id
    create_effect n id e h = ground arith

  module _ (id : ℕ) (preimage claimer : Bytes) (h : Htlc) (found : stored p s id ≡ some h) where
    -- The conditions of a claim.
    abbrev pub ClaimAllowed : Type 0
    ClaimAllowed =
        (h.claimed ≡ false)
        × (h.refunded ≡ false)
        × (p.sha256 preimage ≡ h.hash_lock)
        × (claimer ≡ h.receiver)
        × (after now h.time_lock ≡ false)

    -- A claim that succeeds was allowed, and has paid the receiver from the module, marked the
    -- contract as claimed and emitted the event; it has done nothing else.
    pub claim_effect :
        (claim p now id preimage claimer s).0 ≡ ok tt
        → (k : p.bank.Ledger) × ClaimAllowed
          × (p.bank.send_from_module s.ledger module_name h.receiver h.amount ≡ ok k)
          × ((claim p now id preimage claimer s).1
              ≡ record (set_htlc p (record h { claimed = true }) s).1 {
                ledger = k;
                events = s.events ++ claim_htlc id claimer h.amount ∷ [];
              })
    unfolding claim set_htlc
    claim_effect e =
        elim (Result-cases (p.bank.send_from_module s.ledger module_name h.receiver h.amount)) [
          | inl (k, paid) ↦ (
            k,
            ground (
              arith,
              get_htlc-stored p s id h found,
              bytes_beq_iff (p.sha256 preimage) h.hash_lock,
              laws.addr_equals_iff claimer h.receiver,
            ),
            paid,
            ground (arith, get_htlc-stored p s id h found),
          )
          | inr (x, refused) ↦ absurd (ground (arith, get_htlc-stored p s id h found))
        ]

    -- A claim that is allowed, and whose payment the bank makes, succeeds.
    pub claim_succeeds :
        {k : p.bank.Ledger}
        → ClaimAllowed
        → p.bank.send_from_module s.ledger module_name h.receiver h.amount ≡ ok k
        → (claim p now id preimage claimer s).0 ≡ ok tt
    unfolding claim set_htlc
    claim_succeeds a e = ground (
      arith,
      get_htlc-stored p s id h found,
      bytes_beq_iff (p.sha256 preimage) h.hash_lock,
      laws.addr_equals_iff claimer h.receiver,
    )

  module _ (id : ℕ) (refunder : Bytes) (h : Htlc) (found : stored p s id ≡ some h) where
    -- The conditions of a refund.
    abbrev pub RefundAllowed : Type 0
    RefundAllowed =
        (h.claimed ≡ false)
        × (h.refunded ≡ false)
        × (refunder ≡ h.sender)
        × (before now h.time_lock ≡ false)

    -- A refund that succeeds was allowed, and has paid the sender from the module, marked the
    -- contract as refunded and emitted the event; it has done nothing else.
    pub refund_effect :
        (refund p now id refunder s).0 ≡ ok tt
        → (k : p.bank.Ledger) × RefundAllowed
          × (p.bank.send_from_module s.ledger module_name h.sender h.amount ≡ ok k)
          × ((refund p now id refunder s).1
              ≡ record (set_htlc p (record h { refunded = true }) s).1 {
                ledger = k;
                events = s.events ++ refund_htlc id refunder h.amount ∷ [];
              })
    unfolding refund set_htlc
    refund_effect e =
        elim (Result-cases (p.bank.send_from_module s.ledger module_name h.sender h.amount)) [
          | inl (k, paid) ↦ (
            k,
            ground (arith, get_htlc-stored p s id h found, laws.addr_equals_iff refunder h.sender),
            paid,
            ground (arith, get_htlc-stored p s id h found),
          )
          | inr (x, refused) ↦ absurd (ground (arith, get_htlc-stored p s id h found))
        ]

    -- A refund that is allowed, and whose payment the bank makes, succeeds.
    pub refund_succeeds :
        {k : p.bank.Ledger}
        → RefundAllowed
        → p.bank.send_from_module s.ledger module_name h.sender h.amount ≡ ok k
        → (refund p now id refunder s).0 ≡ ok tt
    unfolding refund set_htlc
    refund_succeeds a e =
        ground (arith, get_htlc-stored p s id h found, laws.addr_equals_iff refunder h.sender)

  -- A successful claim or refund names a contract that is stored.
  pub claim-stored :
      (id : ℕ) (preimage claimer : Bytes)
      → (claim p now id preimage claimer s).0 ≡ ok tt
      → (h : Htlc) × (stored p s id ≡ some h)
  unfolding claim get_htlc stored
  claim-stored id preimage claimer e = elim (Option-cases (stored p s id)) [
    | inl missing ↦ absurd (ground arith)
    | inr found ↦ found
  ]

  pub refund-stored :
      (id : ℕ) (refunder : Bytes)
      → (refund p now id refunder s).0 ≡ ok tt
      → (h : Htlc) × (stored p s id ≡ some h)
  unfolding refund get_htlc stored
  refund-stored id refunder e = elim (Option-cases (stored p s id)) [
    | inl missing ↦ absurd (ground arith)
    | inr found ↦ found
  ]

  -- A claim that fails has paid nobody.
  pub claim_error-ledger :
      (id : ℕ) (preimage claimer : Bytes) {x : Error}
      → (claim p now id preimage claimer s).0 ≡ err x
      → (claim p now id preimage claimer s).1.ledger ≡ s.ledger
  unfolding claim get_htlc set_htlc
  claim_error-ledger id preimage claimer e = ground arith

  pub refund_error-ledger :
      (id : ℕ) (refunder : Bytes) {x : Error}
      → (refund p now id refunder s).0 ≡ err x
      → (refund p now id refunder s).1.ledger ≡ s.ledger
  unfolding refund get_htlc set_htlc
  refund_error-ledger id refunder e = ground arith
