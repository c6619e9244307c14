-- ===== src/Cronos/Evm.antt =====
-- x/cronos/keeper/evm.go: the conversion between coins and tokens of the EVM. The re-emission of logs
-- into a caller's state of the EVM is left out.
use cosmos_swap.Prelude.{
  ℕ, Bool, not, Option, none, some, List, [], ◌∷◌, ◌++◌, String, Bytes, bytes_eq, nat_eq,
  if◌then◌else◌, ok, err, pure, raise, gets, raise_if, ◌>>=◌, ◌>>◌,
}
use cosmos_swap.Cronos.Types.{
  Coin, not_supported, no_contract, not_mapped, call_failed, external, panic, EvmMessage,
  EvmResponse, send_to_module, send_from_module, send_coins, mint, burn, apply_message,
}
use cosmos_swap.Cronos.Denoms.{is_source_coin, is_valid_coin_denom}
use cosmos_swap.Cronos.Environment.{Platform}
use cosmos_swap.Cronos.Keeper.{
  M, call, get_contract_by_denom, get_denom_by_contract, set_auto_contract_for_denom,
}

abbrev pub default_gas_cap : ℕ
default_gas_cap = 25_000_000

module _ (p : Platform) where
  -- `ApplyMessage` of the EVM keeper.
  abbrev pub run_message : EvmMessage p.Address → M p EvmResponse
  run_message msg s = elim (p.evm_answer s.calls msg) [
    | ok r ↦ (ok r, record s { calls = s.calls ++ apply_message msg ∷ [] })
    | err e ↦ (err (external e), s)
  ]

  -- `CallEVM`, of a message without value.
  unfoldable pub call_evm : Option p.Address → Bytes → ℕ → M p (EvmMessage p.Address × EvmResponse)
  call_evm to input gas_limit = do
    nonce ← gets (λ s. p.get_nonce s.calls)
    let msg : EvmMessage p.Address = record {
      from = p.evm_module_address;
      to = to;
      nonce = nonce;
      gas_limit = gas_limit;
      input = input;
    }
    ret ← run_message msg
    pure (msg, ret)

  unfoldable pub call_module_crc21 : p.Address → String → p.Address → ℕ → M p Bytes
  call_module_crc21 contract method account amount = do
    (_, res) ← call_evm (some contract) (p.pack method account amount) default_gas_cap
    raise_if res.failed call_failed
    pure res.ret

  unfoldable pub deploy_module_crc21 : Bytes → M p p.Address
  deploy_module_crc21 denom = do
    (msg, res) ← call_evm none (p.deployment denom) default_gas_cap
    raise_if res.failed call_failed
    pure (p.create_address p.evm_module_address msg.nonce)

  -- The contract of a denomination, deployed if there is none and the parameters allow it.
  unfoldable pub contract_or_deploy : Bytes → Bool → Option p.Address → M p p.Address
  contract_or_deploy denom auto_deploy (some contract) = pure contract
  contract_or_deploy denom auto_deploy none = do
    raise_if (not auto_deploy) no_contract
    contract ← deploy_module_crc21 denom
    set_auto_contract_for_denom p denom contract
    pure contract

  -- The result is what the contract returns, which the source drops.
  -- Burn the coins of a source denomination and unlock the tokens; or lock the coins with the contract
  -- and mint the tokens.
  unfoldable pub burn_and_unlock : p.Address → Coin → p.Address → M p Bytes
  burn_and_unlock sender coin contract = do
    call p (send_to_module (p.address_bytes sender) coin)
    call p (burn coin)
    call_module_crc21 contract "transfer_from_cronos_module" sender coin.amount

  unfoldable pub lock_and_mint : p.Address → Coin → p.Address → M p Bytes
  lock_and_mint sender coin contract = do
    call p (send_coins (p.address_bytes sender) (p.address_bytes contract) coin)
    call_module_crc21 contract "mint_by_cronos_module" sender coin.amount

  unfoldable pub exchange : p.Address → Coin → p.Address → M p Bytes
  exchange sender coin contract =
      if is_source_coin coin.denom
      then burn_and_unlock sender coin contract
      else lock_and_mint sender coin contract

  unfoldable pub find_and_exchange : p.Address → Coin → Bool → M p Bytes
  find_and_exchange sender coin auto_deploy = do
    found ← gets (get_contract_by_denom p coin.denom)
    contract ← contract_or_deploy coin.denom auto_deploy found
    exchange sender coin contract

  unfoldable pub convert_coin_from_native_to_crc21 : p.Address → Coin → Bool → M p Bytes
  convert_coin_from_native_to_crc21 sender coin auto_deploy = do
    raise_if (not (is_valid_coin_denom coin.denom)) not_supported
    find_and_exchange sender coin auto_deploy

  abbrev or_not_mapped : Option Bytes → M p Bytes
  or_not_mapped none = raise not_mapped
  or_not_mapped (some denom) = pure denom

  -- `sdk.NewCoin` panics on a denomination that is none.
  abbrev pub new_coin : Bytes → ℕ → M p Coin
  new_coin denom amount = do
    raise_if (not (p.is_denom denom)) panic
    pure (record { denom = denom; amount = amount })

  unfoldable pub convert_coin_from_crc21_to_native : p.Address → p.Address → ℕ → M p (Unit {0})
  convert_coin_from_crc21_to_native contract receiver amount = do
    found ← gets (get_denom_by_contract p contract)
    denom ← or_not_mapped found
    coin ← new_coin denom amount
    if is_source_coin denom
        then (do
          call_module_crc21 contract "transfer_by_cronos_module" receiver amount
          call p (mint coin)
          call p (send_from_module (p.address_bytes receiver) coin))
        else (do
          call p (send_coins (p.address_bytes contract) (p.address_bytes receiver) coin)
          call_module_crc21 contract "burn_by_cronos_module" receiver amount
          pure tt)

  unfoldable pub convert_coins_from_native_to_crc21 : p.Address → List Coin → Bool → M p (Unit {0})
  convert_coins_from_native_to_crc21 sender [] auto_deploy = pure tt
  convert_coins_from_native_to_crc21 sender (coin ∷ coins) auto_deploy = do
    convert_coin_from_native_to_crc21 sender coin auto_deploy
    convert_coins_from_native_to_crc21 sender coins auto_deploy
