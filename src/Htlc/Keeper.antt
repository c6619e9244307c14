-- ===== src/Htlc/Keeper.antt =====
-- x/htlc-com/keeper/keeper.go and msg_server.go. An error leaves what was written before it; that
-- the SDK then discards the writes of the transaction is modelled where transactions are run.
use cosmos_swap.Prelude.{
  ℕ, ◌+◌, ◌%◌, true, false, not, Option, none, some, [], ◌∷◌, ◌++◌, String, Bytes, bytes_eq, nat_eq,
  ◌==◌, length, put_uint64, uint64, u64_mod, Result, ok, err, Action, pure, gets, or_raise,
  raise_if, modify, ◌>>=◌, ◌>>◌,
}
use cosmos_swap.Prelude.Int.{ℤ, leb_ℤ}
use cosmos_swap.Prelude.Time.{Time, unix, after, before}
use cosmos_swap.Sdk.{Coins}
use cosmos_swap.Htlc.Types.{
  Htlc, Error, invalid_hash_lock, invalid_time_lock, htlc_not_found, htlc_claimed, htlc_refunded,
  invalid_preimage, unauthorized_claimer, htlc_not_expired, unauthorized_refunder, htlc_expired,
  bank_error, panic, module_name, key_next_htlc_id, MsgCreateHtlc, MsgClaimHtlc, MsgRefundHtlc,
  Event, create_htlc, claim_htlc, refund_htlc,
}
use cosmos_swap.Htlc.Environment.{Platform, State}

-- Bank errors come back as they are.
abbrev pub from_bank : {A : Type 0} → Result String A → Result Error A
from_bank (ok a) = ok a
from_bank (err e) = err (bank_error e)

module _ (p : Platform) where
  abbrev pub M : Type 0 → Type 0
  M A = Action (State p) Error A

  -- A call of the bank keeper: it replaces the ledger, or fails.
  abbrev pub bank_call : (p.bank.Ledger → Result String p.bank.Ledger) → M (Unit {0})
  bank_call f s = elim (f s.ledger) [
    | ok l ↦ (ok tt, record s { ledger = l })
    | err e ↦ (err (bank_error e), s)
  ]

  abbrev pub emit_event : Event → M (Unit {0})
  emit_event e = modify (λ s. record s { events = s.events ++ e ∷ [] })

  -- `GetHTLC`: none for a missing contract; the stored bytes must decode.
  abbrev decode : Option Bytes → M (Option Htlc)
  decode none = pure none
  decode (some bz) = do h ← or_raise (p.unmarshal bz) panic; pure (some h)

  unfoldable pub get_htlc : ℕ → M (Option Htlc)
  get_htlc id = do bz ← gets (λ s. p.kv.get s.store (p.htlc_key id)); decode bz

  unfoldable pub set_htlc : Htlc → M (Unit {0})
  set_htlc h = modify (λ s. record s { store = p.kv.set s.store (p.htlc_key h.id) (p.marshal h) })

  unfoldable pub delete_htlc : ℕ → M (Unit {0})
  delete_htlc id = modify (λ s. record s { store = p.kv.delete s.store (p.htlc_key id) })

  abbrev decode_id : Option Bytes → M ℕ
  decode_id none = pure 1
  decode_id (some bz) = or_raise (uint64 bz) panic

  unfoldable pub get_next_htlc_id : M ℕ
  get_next_htlc_id = do bz ← gets (λ s. p.kv.get s.store key_next_htlc_id); decode_id bz

  unfoldable pub increment_next_htlc_id : M (Unit {0})
  unfolding get_next_htlc_id
  increment_next_htlc_id = do
    id ← get_next_htlc_id
    let bz = put_uint64 ((id + 1) % u64_mod)
    modify (λ s. record s { store = p.kv.set s.store key_next_htlc_id bz })

  -- the block time is an argument, as it is fixed within a block
  unfoldable pub create : Time → Bytes → Bytes → Coins → Bytes → ℤ → M ℕ
  create now sender receiver amount hash_lock time_lock = do
    raise_if (not (length hash_lock == 32)) invalid_hash_lock
    raise_if (leb_ℤ time_lock now.sec) invalid_time_lock
    bank_call (λ l. p.bank.send_to_module l sender module_name amount)
    id ← get_next_htlc_id
    set_htlc (record {
      id = id;
      sender = sender;
      receiver = receiver;
      amount = amount;
      hash_lock = hash_lock;
      time_lock = unix time_lock;
      claimed = false;
      refunded = false;
    })
    increment_next_htlc_id
    emit_event (create_htlc sender receiver id amount hash_lock time_lock)
    pure id

  unfoldable pub claim : Time → ℕ → Bytes → Bytes → M (Unit {0})
  claim now id preimage claimer = do
    found ← get_htlc id
    h ← or_raise found htlc_not_found
    raise_if h.claimed htlc_claimed
    raise_if h.refunded htlc_refunded
    raise_if (not (p.sha256 preimage == h.hash_lock)) invalid_preimage
    raise_if (not (p.addr_equals claimer h.receiver)) unauthorized_claimer
    raise_if (after now h.time_lock) htlc_expired
    set_htlc (record h { claimed = true })
    bank_call (λ l. p.bank.send_from_module l module_name h.receiver h.amount)
    emit_event (claim_htlc id claimer h.amount)

  unfoldable pub refund : Time → ℕ → Bytes → M (Unit {0})
  refund now id refunder = do
    found ← get_htlc id
    h ← or_raise found htlc_not_found
    raise_if h.claimed htlc_claimed
    raise_if h.refunded htlc_refunded
    raise_if (not (p.addr_equals refunder h.sender)) unauthorized_refunder
    raise_if (before now h.time_lock) htlc_not_expired
    set_htlc (record h { refunded = true })
    bank_call (λ l. p.bank.send_from_module l module_name h.sender h.amount)
    emit_event (refund_htlc id refunder h.amount)

  -- The message server.
  unfoldable pub create_msg : Time → MsgCreateHtlc → M ℕ
  unfolding create
  create_msg now m = create now m.sender m.receiver m.amount m.hash_lock m.time_lock

  unfoldable pub claim_msg : Time → MsgClaimHtlc → M (Unit {0})
  unfolding claim
  claim_msg now m = claim now m.htlc_id m.preimage m.claimer

  unfoldable pub refund_msg : Time → MsgRefundHtlc → M (Unit {0})
  unfolding refund
  refund_msg now m = refund now m.htlc_id m.refunder
