-- ===== src/Cronos/Ibc.antt =====
-- x/cronos/keeper/ibc.go, with OnRecvVouchers of keeper.go: vouchers of CRO in and out of the EVM, and
-- the transfer of coins over IBC. The telemetry is left out.
use cosmos_swap.Prelude.{
  ℕ, ◌+◌, ◌-◌, ◌*◌, ◌/◌, ◌%◌, ◌^◌, Bool, true, false, not, ◌&&◌, Option, none, some, List, [], ◌∷◌,
  Bytes, bytes_eq, nat_eq, ◌==◌, length, u64_mod, if◌then◌else◌, ltb, Result, ok, err, pure, raise,
  gets, raise_if, ◌>>=◌, ◌>>◌,
}
use cosmos_swap.Cronos.Types.{
  Coin, Params, Error, not_supported, invalid_channel, ibc_cro_denom_empty, ibc_cro_denom_invalid,
  empty_destination, panic, MsgTransfer, send_to_module, send_from_module, mint, burn, transfer,
}
use cosmos_swap.Cronos.Denoms.{
  ten_pow_ten, is_source_coin, is_valid_ibc_denom, is_valid_cronos_denom,
}
use cosmos_swap.Cronos.Environment.{Platform, State}
use cosmos_swap.Cronos.Keeper.{M, from_external, call, get_contract_by_denom}
use cosmos_swap.Cronos.Admin.{get_params}
use cosmos_swap.Cronos.Evm.{convert_coin_from_native_to_crc21, new_coin}

module _ (p : Platform) where
  -- The case of CRO in `ConvertVouchersToEvmCoins`. `Int.Mul` panics on more than 256 bits.
  unfoldable pub convert_cro : Params → Bytes → Coin → M p (Unit {0})
  convert_cro q acc c = do
    raise_if (length q.ibc_cro_denom == 0) ibc_cro_denom_empty
    call p (send_to_module acc c)
    raise_if (not (ltb (c.amount * ten_pow_ten) (2 ^ 256))) panic
    minted ← new_coin p p.evm_denom (c.amount * ten_pow_ten)
    call p (mint minted)
    call p (send_from_module acc minted)

  -- One coin of `ConvertVouchersToEvmCoins`.
  unfoldable pub convert_voucher : Params → Bytes → Coin → M p (Unit {0})
  convert_voucher q acc c =
      if c.denom == q.ibc_cro_denom
      then convert_cro q acc c
      else (convert_coin_from_native_to_crc21 p (p.bytes_to_address acc) c q.enable_auto_deployment
          >> pure tt)

  unfoldable pub convert_vouchers : Params → Bytes → List Coin → M p (Unit {0})
  convert_vouchers q acc [] = pure tt
  convert_vouchers q acc (c ∷ cs) = do convert_voucher q acc c; convert_vouchers q acc cs

  unfoldable pub convert_vouchers_to_evm_coins : Bytes → List Coin → M p (Unit {0})
  convert_vouchers_to_evm_coins from coins = do
    acc ← from_external p (p.acc_from_bech32 from)
    q ← get_params p
    convert_vouchers q acc coins

  -- `GetSourceChannelID`: the text after the one slash of a voucher's denomination.
  after_slash : Bytes → Option Bytes
  after_slash [] = none
  after_slash (b ∷ bs) = let rest = after_slash bs in if b == b'/' then some bs else rest

  abbrev has_slash : Option Bytes → Bool
  has_slash none = false
  has_slash (some _) = true

  abbrev channel_of_rest : Option Bytes → M p Bytes
  unfolding after_slash
  channel_of_rest none = raise ibc_cro_denom_invalid
  channel_of_rest (some hash) = do
    raise_if (has_slash (after_slash hash)) ibc_cro_denom_invalid
    elim (p.channel_of hash) [ none ↦ raise ibc_cro_denom_invalid | some channel ↦ pure channel ]

  unfoldable pub get_source_channel_id : Bytes → M p Bytes
  unfolding after_slash
  get_source_channel_id denom = channel_of_rest (after_slash denom)

  unfoldable pub source_channel : Bytes → Bytes → M p Bytes
  source_channel denom channel_id =
      if is_source_coin denom
      then (do raise_if (not (p.is_channel_id channel_id)) invalid_channel; pure channel_id)
      else get_source_channel_id denom

  abbrev pub transfer_msg : ℕ → Bytes → Bytes → Coin → Bytes → Params → MsgTransfer
  transfer_msg now sender destination coin channel q = record {
    source_channel = channel;
    token = coin;
    sender = p.acc_string sender;
    receiver = destination;
    timeout_timestamp = (now + q.ibc_timeout) % u64_mod;
  }

  -- The block time, `uint64(ctx.BlockTime().UnixNano())`, is an argument.
  unfoldable pub ibc_send_transfer : ℕ → Bytes → Bytes → Coin → Bytes → M p (Unit {0})
  ibc_send_transfer now sender destination coin channel_id = do
    channel ← source_channel coin.denom channel_id
    q ← get_params p
    call p (transfer (transfer_msg now sender destination coin channel q))

  -- Burn coins of the EVM, and give back the vouchers that they stand for.
  unfoldable pub release_vouchers : Params → Bytes → ℕ → M p Coin
  release_vouchers q acc amount = do
    burnt ← new_coin p p.evm_denom (amount - amount % ten_pow_ten)
    call p (send_to_module acc burnt)
    call p (burn burnt)
    voucher ← new_coin p q.ibc_cro_denom (amount / ten_pow_ten)
    call p (send_from_module acc voucher)
    pure voucher

  -- The case of the EVM's coin in `IbcTransferCoins`: what is a multiple of 10^10 goes back as
  -- vouchers, and the rest stays.
  unfoldable pub return_cro : ℕ → Params → Bytes → Bytes → Coin → M p (Unit {0})
  return_cro now q acc destination c =
      if c.amount - c.amount % ten_pow_ten == 0 then pure tt else (do
        voucher ← release_vouchers q acc c.amount
        ibc_send_transfer now acc destination voucher [])

  abbrev pub is_mapped : Option p.Address → Bool
  is_mapped none = false
  is_mapped (some _) = true

  abbrev pub transfer_if_mapped :
      ℕ → Bytes → Bytes → Bytes → Coin → Option p.Address → M p (Unit {0})
  transfer_if_mapped now acc destination channel_id c found = do
    raise_if (not (is_mapped found)) not_supported
    ibc_send_transfer now acc destination c channel_id

  -- The other coins in `IbcTransferCoins`.
  unfoldable pub transfer_supported : ℕ → Bytes → Bytes → Bytes → Coin → M p (Unit {0})
  transfer_supported now acc destination channel_id c = do
    raise_if (not (is_valid_ibc_denom c.denom) && not (is_valid_cronos_denom c.denom)) not_supported
    found ← gets (get_contract_by_denom p c.denom)
    transfer_if_mapped now acc destination channel_id c found

  -- One coin of `IbcTransferCoins`.
  unfoldable pub transfer_coin : ℕ → Params → Bytes → Bytes → Bytes → Coin → M p (Unit {0})
  transfer_coin now q acc destination channel_id c =
      if c.denom == p.evm_denom
      then return_cro now q acc destination c
      else transfer_supported now acc destination channel_id c

  unfoldable pub transfer_coins : ℕ → Params → Bytes → Bytes → Bytes → List Coin → M p (Unit {0})
  transfer_coins now q acc destination channel_id [] = pure tt
  transfer_coins now q acc destination channel_id (c ∷ cs) = do
    transfer_coin now q acc destination channel_id c
    transfer_coins now q acc destination channel_id cs

  unfoldable pub ibc_transfer_coins : ℕ → Bytes → Bytes → List Coin → Bytes → M p (Unit {0})
  ibc_transfer_coins now from destination coins channel_id = do
    acc ← from_external p (p.acc_from_bech32 from)
    raise_if (length destination == 0) empty_destination
    q ← get_params p
    transfer_coins now q acc destination channel_id coins

  -- `OnRecvVouchers`: a failed conversion leaves no trace.
  abbrev kept : State p → Result Error (Unit {0}) × State p → State p
  kept s (ok _, t) = t
  kept s (err e, t) = s

  unfoldable pub on_recv_vouchers : List Coin → Bytes → State p → State p
  on_recv_vouchers tokens receiver s = kept s (convert_vouchers_to_evm_coins receiver tokens s)
