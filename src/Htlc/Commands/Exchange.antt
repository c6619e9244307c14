-- ===== src/Htlc/Commands/Exchange.antt =====
-- A contract that the create command makes, and the claim command that takes it.
use cosmos_swap.Prelude.{
  ℕ, suc, List, ◌+◌, ◌++◌, sym, ◌∙◌, ◌<◌, ◌≡◌, ◌≢◌, refl, false, some, [], ◌∷◌, Bytes, length,
  u64_mod, decimal, nat_eq, ok, arith,
}
use cosmos_swap.Prelude.Int.{◌<ℤ◌}
use cosmos_swap.Prelude.Time.{Time, unix, after}
use cosmos_swap.Prelude.Strconv.{parse_uint-decimal}
use cosmos_swap.Htlc.{
  Htlc, MsgCreateHtlc, MsgClaimHtlc, Platform, PlatformLaws, State, module_name, create_htlc,
  create_msg, claim_msg, set_htlc, increment_next_htlc_id,
}
use cosmos_swap.Htlc.Msgs.{validate_create, validate_claim}
use cosmos_swap.Htlc.View.{stored, next_id, next_id-set_htlc}
use cosmos_swap.Htlc.Handlers.{new_htlc, create_effect}
use cosmos_swap.Htlc.Solvency.{IsSound}
use cosmos_swap.Htlc.Solvency.Create.{stored-after_create}
use cosmos_swap.Htlc.Payout.{claim_pays}
use cosmos_swap.Htlc.Transactions.{create, claim, commit, run, deliver, Msg}
use cosmos_swap.Htlc.Transactions.Delivered.{nonempty-length, deliver-claim}
use cosmos_swap.Htlc.Transactions.Sound.{AreOutside, run-IsSound}
use cosmos_swap.Htlc.Commands.{Client, create_htlc_cmd, claim_htlc_cmd}

module _ (p : Platform) where
  -- The message of a create command has passed the stateless checks, and its lock is the text.
  create_htlc_cmd_effect :
      (c : Client) (to coins hash_lock expiry : Bytes) (m : MsgCreateHtlc)
      → create_htlc_cmd p c (to ∷ coins ∷ hash_lock ∷ expiry ∷ []) ≡ ok m
      → (m.hash_lock ≡ hash_lock)
        × (length m.hash_lock ≡ 32)
        × (validate_create p m ≡ ok tt)
        × (p.addr_empty m.receiver ≡ false)
  unfolding create_htlc_cmd validate_create
  create_htlc_cmd_effect c to coins hash_lock expiry m e = ground arith

  -- A claim command for an id that is not 0, with a preimage that is not empty, gives its message.
  claim_htlc_cmd_gives :
      (c : Client) (n : ℕ) (preimage claimer : Bytes)
      → c.from_address ≡ ok claimer
      → p.addr_empty claimer ≡ false
      → 0 < n
      → n < u64_mod
      → preimage ≢ []
      → claim_htlc_cmd p c (decimal n ∷ preimage ∷ [])
        ≡ ok (record { claimer = claimer; htlc_id = n; preimage = preimage })
  unfolding claim_htlc_cmd validate_claim
  claim_htlc_cmd_gives c n preimage claimer f g z l h =
      ground (arith, parse_uint-decimal n l, nonempty-length preimage h)

  module _ (laws : PlatformLaws p) (s : State p) (n : ℕ) (m : MsgCreateHtlc)
      (k : p.bank.Ledger) where
    abbrev opened : Htlc
    opened = new_htlc n m.sender m.receiver m.amount m.hash_lock m.time_lock

    create_msg_succeeds :
        (now : Time)
        → next_id p s ≡ some n
        → length m.hash_lock ≡ 32
        → now.sec <ℤ m.time_lock
        → p.bank.send_to_module s.ledger m.sender module_name m.amount ≡ ok k
        → (create_msg p now m s).0 ≡ ok n
    unfolding create_msg next_id set_htlc increment_next_htlc_id
    create_msg_succeeds now e l t paid =
        ground (arith, next_id-set_htlc p laws (record s { ledger = k }) opened)

    -- Delivered, the message stores its contract under the next id.
    deliver-create :
        (now : Time)
        → IsSound p s n
        → validate_create p m ≡ ok tt
        → (create_msg p now m s).0 ≡ ok n
        → stored p (deliver p now (create m) s) n ≡ some opened
    unfolding deliver create_msg
    deliver-create now sound v e =
        let (k', _, _, _, _, t) =
          create_effect p laws s now m.sender m.receiver m.amount m.hash_lock m.time_lock n n
            sound.counter e in
        rw (v, e, commit, t)
          (ground (
            arith,
            stored-after_create p laws s n opened k'
                (s.events
                  ++ create_htlc m.sender m.receiver n m.amount m.hash_lock m.time_lock ∷ [])
                sound refl n,
          ))

    -- A create command's message, of a sender that is not the module itself, that is delivered, in a
    -- sound state, before its time lock and whose payment the bank makes, opens a contract under the next
    -- id, which is not 0. If that contract is open after any further history that has no message of the
    -- module's own account and does not run out of 64-bit ids, the claim command of its receiver, with that
    -- id and a preimage that is not empty and whose hash is the text of the lock, gives a message that is
    -- delivered until the time lock with the effect that the receiver gains the amount, if the bank accepts
    -- payments to the receiver, who is not the module itself.
    pub created-claimed :
        (creator claimer : Client) (to coins hash_lock expiry preimage : Bytes)
        (ms : List (Time × Msg)) (now later : Time)
        → IsSound p s n
        → 0 < n
        → n + suc (length ms) < u64_mod
        → create_htlc_cmd p creator (to ∷ coins ∷ hash_lock ∷ expiry ∷ []) ≡ ok m
        → m.sender ≢ p.bank.module_address module_name
        → now.sec <ℤ m.time_lock
        → p.bank.send_to_module s.ledger m.sender module_name m.amount ≡ ok k
        → AreOutside p ms
        → stored p (run p ((now, create m) ∷ ms) s) n ≡ some opened
        → claimer.from_address ≡ ok m.receiver
        → p.sha256 preimage ≡ hash_lock
        → preimage ≢ []
        → after later (unix m.time_lock) ≡ false
        → p.bank.blocked m.receiver ≡ false
        → m.receiver ≢ p.bank.module_address module_name
        → (stored p (deliver p now (create m) s) n ≡ some opened)
          × (c : MsgClaimHtlc) × (claim_htlc_cmd p claimer (decimal n ∷ preimage ∷ []) ≡ ok c)
          × ((d : Bytes)
              → p.bank.balance
                  (deliver p later (claim c) (run p ((now, create m) ∷ ms) s)).ledger
                  m.receiver
                  d
                ≡ p.bank.balance (run p ((now, create m) ∷ ms) s).ledger m.receiver d
                  + p.bank.amount_of m.amount d)
    unfolding claim_msg
    created-claimed creator claimer to coins hash_lock expiry preimage ms now later sound z small
          made outside early paid others open_after from image h until free other =
        let (is_lock, is_32, v, w) =
          create_htlc_cmd_effect creator to coins hash_lock expiry m made in
        let e = create_msg_succeeds now sound.counter is_32 early paid in
        let (j, reached) =
          run-IsSound p laws ((now, create m) ∷ ms) s n sound (outside, others) small in
        let (done, gains) =
          claim_pays p laws (run p ((now, create m) ∷ ms) s) j reached n opened open_after later
            preimage m.receiver (refl, refl, image ∙ sym is_lock, refl, until) free other in
        (
          deliver-create now sound v e,
          record { claimer = m.receiver; htlc_id = n; preimage = preimage },
          claim_htlc_cmd_gives claimer n preimage m.receiver from w z (omega arith) h,
          λ d.
              rw
                (deliver-claim p (run p ((now, create m) ∷ ms) s) later
                  (record { claimer = m.receiver; htlc_id = n; preimage = preimage }) w z h done)
                (gains d),
        )
