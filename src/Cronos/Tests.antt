-- ===== src/Cronos/Tests.antt =====
-- Runs of the cronos module on concrete inputs, and the theorems applied there.

use cosmos_swap.Prelude.{
  Bool, ◌≡◌, ◌≢◌, refl, true, false, some, List, [], ◌∷◌, Bytes, codes, bytes_eq, bytes_beq, nat_eq,
  ok,
}
use cosmos_swap.Prelude.Map.{lookup, insert, erase}
use cosmos_swap.Cronos.{
  Coin, Params, MsgUpdateTokenMapping, State, get_contract_by_denom, get_denom_by_contract,
  get_external_contract_by_denom, get_auto_contract_by_denom, set_external_contract_for_denom,
  update_token_mapping, can_change_token_mapping, get_params, is_valid_coin_denom,
  is_valid_gravity_denom, GenesisState, register_externals, register_external, register_auto,
  or_panic, set_params, validate_params, init_genesis, is_external, set_auto_contract_for_denom,
  transfer_coins, transfer_coin, return_cro, release_vouchers, ibc_send_transfer, source_channel,
  get_source_channel_id, has_permission, any_has_permission, register_or_update_token_mapping,
  update_foreign, is_source_coin, is_valid_cronos_denom, ibc_transfer_coins, params_key,
  is_valid_ibc_denom,
}
use cosmos_swap.Sdk.Example.Codec.{put_bytes, bytes}
use cosmos_swap.Cronos.Example.{platform, platform_laws, encode, decode}
use cosmos_swap.Cronos.Mapping.Consistent.{IsConsistent}
use cosmos_swap.Cronos.Mapping.Lookup.{set_external-lookup}
use cosmos_swap.Cronos.Mapping.Permitted.{IsPermitted, update_token_mapping-IsPermitted}
use cosmos_swap.Cronos.Mapping.History.{
  AllDeployUnused, Msg, conversion, mapping, proposal, permissions, run, run-IsConsistent,
}
use cosmos_swap.Cronos.Mapping.Bootstrap.{AreFresh, init_genesis-IsConsistent}

abbrev pub cro : Bytes
cro = codes "ibc/6B5A664BF0AF4F71B2F0BAA33141E2F1321242FBD5D19762F541EC971ACB0865"

abbrev pub params : Params
params = record {
  ibc_cro_denom = cro;
  ibc_timeout = 86400;
  cronos_admin = codes "admin";
  enable_auto_deployment = true;
  max_callback_gas = 50000;
}

abbrev pub start : State platform
start = record { store = (params_key, encode params) ∷ []; calls = [] }

start-IsConsistent : IsConsistent platform start
unfolding get_external_contract_by_denom get_auto_contract_by_denom get_denom_by_contract lookup
    bytes_beq
start-IsConsistent = record {
  external = λ d a e. cc;
  auto = λ d a e. cc;
  back = λ a d e. cc;
  apart = λ d a e. cc;
}

abbrev gravity : Bytes
gravity = codes "gravity0x0000000000000000000000000000000000000001"

abbrev register : MsgUpdateTokenMapping
register = record {
  sender = codes "admin";
  denom = gravity;
  contract = 7 ∷ [];
  symbol = codes "TKN";
  decimal = 6;
}

registered : (update_token_mapping platform register start).0 ≡ ok tt
unfolding update_token_mapping has_permission any_has_permission get_params
    register_or_update_token_mapping update_foreign set_external_contract_for_denom
    get_external_contract_by_denom get_denom_by_contract is_source_coin is_valid_cronos_denom lookup
    insert erase bytes_beq encode decode put_bytes bytes
registered = refl

gravity_nonempty : gravity ≢ []
gravity_nonempty e = cc

update_token_mapping-IsPermitted_example :
    (sender : Bytes) × (platform.acc_from_bech32 register.sender ≡ ok sender)
    × IsPermitted platform start sender (can_change_token_mapping platform)
update_token_mapping-IsPermitted_example =
    update_token_mapping-IsPermitted platform start register registered

set_done : (set_external_contract_for_denom platform gravity 7 start).0 ≡ ok tt
unfolding set_external_contract_for_denom get_denom_by_contract lookup bytes_beq
    get_external_contract_by_denom
set_done = refl

abbrev mapped : State platform
mapped = (set_external_contract_for_denom platform gravity 7 start).1

set_external-lookup_example :
    (get_contract_by_denom platform gravity mapped ≡ some 7)
    × (get_denom_by_contract platform 7 mapped ≡ some gravity)
    × ((e : Bytes)
        → gravity ≢ e
        → get_contract_by_denom platform e mapped ≡ get_contract_by_denom platform e start)
set_external-lookup_example =
    set_external-lookup platform platform_laws start gravity 7 gravity_nonempty set_done

updated :
    get_contract_by_denom platform gravity (update_token_mapping platform register start).1 ≡ some 7
unfolding update_token_mapping has_permission any_has_permission get_params
    register_or_update_token_mapping update_foreign set_external_contract_for_denom
    get_external_contract_by_denom get_auto_contract_by_denom get_contract_by_denom
    get_denom_by_contract is_source_coin is_valid_cronos_denom lookup insert erase bytes_beq encode
    decode put_bytes bytes
updated = refl

pub start_params : get_params platform start ≡ (ok params, start)
unfolding get_params lookup bytes_beq encode decode put_bytes bytes
start_params = refl

pub unlisted : is_valid_coin_denom platform.evm_denom ≡ false
unfolding is_valid_coin_denom is_valid_ibc_denom is_valid_cronos_denom is_valid_gravity_denom
unlisted = refl

pub other_denom : platform.evm_denom ≢ params.ibc_cro_denom
other_denom e = cc

abbrev coins : List Coin
coins = record { denom = codes "basecro"; amount = 20_000_000_003 } ∷ []

transferred : (ibc_transfer_coins platform 1 (codes "alice") (codes "bob") coins [] start).0 ≡ ok tt
unfolding ibc_transfer_coins transfer_coins transfer_coin return_cro release_vouchers
    ibc_send_transfer source_channel get_source_channel_id get_params lookup bytes_beq encode decode
    put_bytes bytes is_source_coin is_valid_cronos_denom
transferred = refl

-- The denomination has no contract: one is deployed, at the address 100.
abbrev history : List Msg
history =
    conversion
      (record { address = codes "bob"; coins = record { denom = gravity; amount = 5 } ∷ [] })
    ∷ mapping register
    ∷ proposal (record { denom = gravity; contract = []; symbol = []; decimal = 0 })
    ∷ permissions (record { from = codes "admin"; address = codes "bob"; permissions = 1 })
    ∷ []

abbrev accepts : List Coin → Bool
accepts cs = true

unused : AllDeployUnused platform accepts accepts history start
unfolding get_denom_by_contract lookup bytes_beq
unused = (λ acc q e h. (refl, tt), (tt, (tt, (tt, tt))))

run-IsConsistent_example : IsConsistent platform (run platform accepts accepts history start)
run-IsConsistent_example =
    run-IsConsistent platform platform_laws accepts accepts history start unused start-IsConsistent

abbrev genesis : GenesisState
genesis = record {
  params = params;
  external_contracts = record { denom = gravity; contract = 7 ∷ [] } ∷ [];
  auto_contracts = record { denom = cro; contract = 8 ∷ [] } ∷ [];
}

abbrev empty : State platform
empty = record { store = []; calls = [] }

empty-IsConsistent : IsConsistent platform empty
unfolding get_external_contract_by_denom get_auto_contract_by_denom get_denom_by_contract lookup
empty-IsConsistent = record {
  external = λ d a e. cc;
  auto = λ d a e. cc;
  back = λ a d e. cc;
  apart = λ d a e. cc;
}

genesis_fresh :
    AreFresh platform platform_laws genesis.auto_contracts
      (register_externals platform genesis.external_contracts
        (or_panic platform (set_params platform genesis.params) empty).1).1
unfolding register_externals register_external or_panic set_params validate_params
    set_external_contract_for_denom get_external_contract_by_denom get_auto_contract_by_denom
    get_contract_by_denom get_denom_by_contract is_external is_valid_ibc_denom
    is_valid_gravity_denom lookup insert bytes_beq encode put_bytes register_auto
    set_auto_contract_for_denom
genesis_fresh = (refl, refl, tt)

init_genesis-IsConsistent_example : IsConsistent platform (init_genesis platform genesis empty).1
init_genesis-IsConsistent_example =
    init_genesis-IsConsistent platform platform_laws genesis empty empty-IsConsistent genesis_fresh
