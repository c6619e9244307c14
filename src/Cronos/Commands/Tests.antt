-- ===== src/Cronos/Commands/Tests.antt =====
-- Runs of the commands on concrete arguments, and the theorem about them applied there.
use cosmos_swap.Prelude.{◌≡◌, ◌≢◌, refl, true, [], ◌∷◌, Bytes, codes, bytes_beq, ok, err}
use cosmos_swap.Prelude.Strconv.{parse_uint, parse_bool}
use cosmos_swap.Cronos.{
  State, MsgUpdateTokenMapping, TokenMappingChangeProposal, external, is_valid_coin_denom,
  is_valid_ibc_denom, is_valid_gravity_denom, is_valid_cronos_denom, is_source_coin,
  handle_proposal, register_or_update_token_mapping, validate_token_mapping, validate_permissions,
}
use cosmos_swap.Cronos.Example.{platform}
use cosmos_swap.Cronos.Commands.{
  Client, dummy_identity, turn_bridge_cmd, validate_turn_bridge, update_permissions_cmd,
  token_mapping_change_cmd, update_token_mapping_cmd,
}
use cosmos_swap.Cronos.Commands.Agreement.{HexLaws, handle_proposal-message}

abbrev client : Client
client = record {
  set_from = λ text. ok tt;
  from_address = λ set. ok (codes "alice");
  string_flag = λ name. ok (codes "TOK");
  uint_flag = λ name. ok 4294967302;
  parse_coins = λ text. ok [];
  is_valid = λ coins. true;
  is_all_positive = λ coins. true;
  read_file = λ path. err "no such file";
  decrypt = λ blob. err dummy_identity;
  submit_proposal = λ content deposit from. ok tt;
}

abbrev start : State platform
start = record { store = []; calls = [] }

abbrev source_coin : Bytes
source_coin = codes "cronos0x0000000000000000000000000000000000000007"

abbrev contract : Bytes
contract = 7 ∷ []

bridge_on :
    (turn_bridge_cmd platform client (codes "T" ∷ []) start).0
    ≡ ok (record { sender = codes "alice"; enable = true })
unfolding turn_bridge_cmd validate_turn_bridge parse_bool bytes_beq
bridge_on = refl

permissions_refused :
    (update_permissions_cmd platform client (codes "bob" ∷ codes "3x" ∷ []) start).0
    ≡ err (external "invalid syntax")
unfolding update_permissions_cmd validate_permissions parse_uint
permissions_refused = refl

-- The decimals wrap at 32 bits.
abbrev message : MsgUpdateTokenMapping
message = record {
  sender = codes "alice";
  denom = source_coin;
  contract = contract;
  symbol = codes "TOK";
  decimal = 6;
}

abbrev content : TokenMappingChangeProposal
content = record { denom = source_coin; contract = contract; symbol = codes "TOK"; decimal = 6 }

proposed_content :
    (token_mapping_change_cmd platform client (source_coin ∷ contract ∷ []) start).0 ≡ ok content
unfolding token_mapping_change_cmd is_valid_coin_denom is_source_coin is_valid_ibc_denom
    is_valid_gravity_denom is_valid_cronos_denom
proposed_content = refl

sent_message :
    (update_token_mapping_cmd platform client (source_coin ∷ contract ∷ []) start).0 ≡ ok message
unfolding update_token_mapping_cmd validate_token_mapping is_valid_coin_denom is_source_coin
    is_valid_ibc_denom is_valid_gravity_denom is_valid_cronos_denom
sent_message = refl

hex_laws : HexLaws platform
hex_laws = record {
  hex_to_address-address_hex = λ a. refl;
  is_hex_address-address_hex = λ a. refl;
  is_hex_address-nil = refl;
}

handle_proposal-message_example :
    (message.contract ≢ [])
    × (handle_proposal platform content start
        ≡ register_or_update_token_mapping platform message start)
handle_proposal-message_example =
    handle_proposal-message platform hex_laws client source_coin contract start content message
      start proposed_content sent_message
