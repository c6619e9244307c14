-- ===== src/Cronos/Mapping/Tests.antt =====
-- The exported genesis at a state with a source coin's contract.
use cosmos_swap.Prelude.{◌≡◌, refl, true, false, [], ◌∷◌, Bytes, codes, some, bytes_beq, ok, err}
use cosmos_swap.Prelude.Map.{lookup, insert}
use cosmos_swap.Sdk.Example.Memory.{under}
use cosmos_swap.Sdk.Example.Codec.{put_bytes, bytes}
use cosmos_swap.Cronos.{
  Params, State, panic, params_key, GenesisState, is_external, init_genesis, export_genesis,
  get_external_contracts, get_auto_contracts, token_mappings, get_params,
  set_external_contract_for_denom, get_external_contract_by_denom, get_denom_by_contract,
  is_valid_ibc_denom, is_valid_gravity_denom,
}
use cosmos_swap.Cronos.Example.{platform, platform_laws, encode, decode}
use cosmos_swap.Cronos.Mapping.Exported.{mapping, export_genesis_refused}

abbrev params : Params
params = record {
  ibc_cro_denom = codes "ibc/6B5A664BF0AF4F71B2F0BAA33141E2F1321242FBD5D19762F541EC971ACB0865";
  ibc_timeout = 86400;
  cronos_admin = codes "admin";
  enable_auto_deployment = true;
  max_callback_gas = 50000;
}

abbrev start : State platform
start = record { store = (params_key, encode params) ∷ []; calls = [] }

abbrev source_coin : Bytes
source_coin = codes "cronos0x0000000000000000000000000000000000000007"

abbrev mapped : State platform
mapped = (set_external_contract_for_denom platform source_coin 7 start).1

abbrev exported : GenesisState
exported = record {
  params = params;
  external_contracts = mapping platform platform_laws source_coin 7 ∷ [];
  auto_contracts = [];
}

exports : (export_genesis platform mapped).0 ≡ ok exported
unfolding export_genesis get_params get_external_contracts get_auto_contracts token_mappings under
    set_external_contract_for_denom get_external_contract_by_denom get_denom_by_contract lookup
    insert bytes_beq encode decode put_bytes bytes
exports = refl

found : get_external_contract_by_denom platform source_coin mapped ≡ some 7
unfolding set_external_contract_for_denom get_external_contract_by_denom get_denom_by_contract
    lookup insert bytes_beq
found = refl

not_external : is_external source_coin ≡ false
unfolding is_external is_valid_ibc_denom is_valid_gravity_denom
not_external = refl

export_genesis_refused_example : (init_genesis platform exported start).0 ≡ err panic
export_genesis_refused_example =
    export_genesis_refused platform platform_laws mapped start exported source_coin 7 exports found
      not_external
