-- ===== src/Htlc/Commands.antt =====
-- x/htlc-com/client/cli/tx.go: the commands that build the messages. A command gives the message that
-- it hands to the SDK to sign and broadcast; `cobra.ExactArgs` counts its arguments.
use cosmos_swap.Prelude.{
  ℕ, not, List, [], ◌∷◌, String, Bytes, nat_eq, ◌==◌, length, if◌then◌else◌, Result, ok, err,
}
use cosmos_swap.Prelude.Int.{ℤ, leb_ℤ}
use cosmos_swap.Prelude.Strconv.{NumError, parse_uint, parse_int}
use cosmos_swap.Sdk.{Coins}
use cosmos_swap.Htlc.{Error, MsgCreateHtlc, MsgClaimHtlc, MsgRefundHtlc, Platform}
use cosmos_swap.Htlc.Msgs.{validate_create, validate_claim, validate_refund}
mod Tests
mod Exchange

-- What a command takes from outside: `client.GetClientTxContext`, of which it uses the address of the
-- flag `from`, the parsers of the SDK, and the clock.
pub record Client : Type 0 where
  pub from_address : Result String Bytes
  pub acc_from_bech32 : Bytes → Result String Bytes
  pub parse_coins : Bytes → Result String Coins
  pub now : ℤ  -- `time.Now().Unix()`

pub data Failure : Type 0 where
  usage : Failure
  external : String → Failure
  number : NumError → Failure
  lock_length past_lock empty_preimage : Failure
  invalid : Error → Failure

infixl 5 ◌>>=◌ ◌>>◌
abbrev ◌>>=◌ : {A B : Type 0} → Result Failure A → (A → Result Failure B) → Result Failure B
err e >>= f = err e
ok a >>= f = f a

abbrev ◌>>◌ : {A B : Type 0} → Result Failure A → Result Failure B → Result Failure B
m >> k = m >>= λ _. k

abbrev pure : {A : Type 0} → A → Result Failure A
pure a = ok a

abbrev fails_as : {E A : Type 0} → (E → Failure) → Result E A → Result Failure A
fails_as f (ok a) = ok a
fails_as f (err e) = err (f e)

module _ (p : Platform) (c : Client) where
  -- `CmdCreateHTLC`
  unfoldable pub create_htlc_cmd : List Bytes → Result Failure MsgCreateHtlc
  create_htlc_cmd (to ∷ coins ∷ hash_lock ∷ expiry ∷ []) = do
    from ← fails_as external c.from_address
    receiver ← fails_as external (c.acc_from_bech32 to)
    amount ← fails_as external (c.parse_coins coins)
    if not (length hash_lock == 32) then err lock_length else ok tt
    time_lock ← fails_as number (parse_int expiry)
    if leb_ℤ time_lock c.now then err past_lock else ok tt
    let msg : MsgCreateHtlc = record {
      sender = from;
      receiver = receiver;
      amount = amount;
      hash_lock = hash_lock;
      time_lock = time_lock;
    }
    fails_as invalid (validate_create p msg)
    pure msg
  create_htlc_cmd args = err usage

  -- `CmdClaimHTLC`
  unfoldable pub claim_htlc_cmd : List Bytes → Result Failure MsgClaimHtlc
  claim_htlc_cmd (number_text ∷ preimage ∷ []) = do
    from ← fails_as external c.from_address
    htlc_id ← fails_as number (parse_uint number_text)
    if length preimage == 0 then err empty_preimage else ok tt
    let msg : MsgClaimHtlc = record { claimer = from; htlc_id = htlc_id; preimage = preimage }
    fails_as invalid (validate_claim p msg)
    pure msg
  claim_htlc_cmd args = err usage

  -- `CmdRefundHTLC`
  unfoldable pub refund_htlc_cmd : List Bytes → Result Failure MsgRefundHtlc
  refund_htlc_cmd (number_text ∷ []) = do
    from ← fails_as external c.from_address
    htlc_id ← fails_as number (parse_uint number_text)
    let msg : MsgRefundHtlc = record { refunder = from; htlc_id = htlc_id }
    fails_as invalid (validate_refund p msg)
    pure msg
  refund_htlc_cmd args = err usage
