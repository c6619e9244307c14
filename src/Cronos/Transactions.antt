-- ===== src/Cronos/Transactions.antt =====
-- x/cronos/keeper/msg_server.go and x/cronos/types/messages.go: the messages that convert and transfer
-- coins. Their events are left out.
use cosmos_swap.Prelude.{ℕ, Bool, not, List, [], ◌∷◌, Bytes, Result, ok, err, raise_if, ◌>>◌}
use cosmos_swap.Cronos.Types.{Coin, Error, invalid_coins}
use cosmos_swap.Cronos.Environment.{Platform, State}
use cosmos_swap.Cronos.Keeper.{M}
use cosmos_swap.Cronos.Msgs.{check_address}
use cosmos_swap.Cronos.Ibc.{convert_vouchers_to_evm_coins, ibc_transfer_coins}
use cosmos_swap.Cronos.Hooks.{Events, Log, post_tx_processing, cronos_handlers}

pub record MsgConvertVouchers : Type 0 where
  pub address : Bytes
  pub coins : List Coin

pub record MsgTransferTokens : Type 0 where
  pub from : Bytes
  pub to : Bytes
  pub coins : List Coin

-- Given `Coins.IsValid` and `Coins.IsAllPositive`.
module _ (p : Platform) (is_valid is_all_positive : List Coin → Bool) where
  abbrev pub check_coins : List Coin → M p (Unit {0})
  check_coins coins = do
    raise_if (not (is_valid coins)) invalid_coins
    raise_if (not (is_all_positive coins)) invalid_coins

  -- `MsgConvertVouchers.ValidateBasic`
  unfoldable pub validate_convert_vouchers : MsgConvertVouchers → M p (Unit {0})
  validate_convert_vouchers msg = do
    check_address p (p.acc_from_bech32 msg.address)
    check_coins msg.coins

  -- `MsgTransferTokens.ValidateBasic`
  unfoldable pub validate_transfer_tokens : MsgTransferTokens → M p (Unit {0})
  validate_transfer_tokens msg = do
    check_address p (p.acc_from_bech32 msg.from)
    check_coins msg.coins

  -- `ConvertVouchers`
  unfoldable pub convert_vouchers_msg : MsgConvertVouchers → M p (Unit {0})
  convert_vouchers_msg msg = convert_vouchers_to_evm_coins p msg.address msg.coins

  -- `TransferTokens`, at a block time
  unfoldable pub transfer_tokens_msg : ℕ → MsgTransferTokens → M p (Unit {0})
  transfer_tokens_msg now msg = ibc_transfer_coins p now msg.from msg.to msg.coins []

  -- A transaction: a message, or a call of the EVM with the logs that it leaves.
  pub data Transaction : Type 0 where
    conversion : MsgConvertVouchers → Transaction
    transfer_tokens : ℕ → MsgTransferTokens → Transaction
    evm_call : ℕ → Events p.Address → List (Log p.Address) → Transaction

  unfoldable pub handler : Transaction → M p (Unit {0})
  handler (conversion msg) = validate_convert_vouchers msg >> convert_vouchers_msg msg
  handler (transfer_tokens now msg) = validate_transfer_tokens msg >> transfer_tokens_msg now msg
  handler (evm_call now ev logs) = post_tx_processing p ev now (cronos_handlers p ev now) logs

  abbrev pub committed : State p → Result Error (Unit {0}) × State p → State p
  committed s (ok _, t) = t
  committed s (err e, t) = s

  -- What a transaction did is kept only if it succeeds.
  unfoldable pub run_transactions : List Transaction → State p → State p
  run_transactions [] s = s
  run_transactions (tx ∷ txs) s = run_transactions txs (committed s (handler tx s))
