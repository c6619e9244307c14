-- ===== src/Cronos/Commands.antt =====
-- x/cronos/client/cli/tx.go: the commands that build the messages and the proposal; and the messages
-- of x/cronos/types/messages.go that only commands make here. A command gives what it hands to the SDK
-- to sign and broadcast. It runs in the keeper's monad for the sake of the stateless checks, and
-- neither reads nor writes the chain's state. `cobra.ExactArgs` counts the arguments.
use cosmos_swap.Prelude.{
  ℕ, ◌%◌, ◌^◌, Bool, not, Option, none, some, List, [], ◌∷◌, String, Bytes, if◌then◌else◌, Result,
  ok, err, pure, raise, raise_if, ◌>>=◌, ◌>>◌,
}
use cosmos_swap.Prelude.Strconv.{NumError, syntax_error, range_error, parse_uint, parse_bool}
use cosmos_swap.Cronos.{
  Coin, Platform, M, MsgUpdateTokenMapping, MsgUpdatePermissions, MsgStoreBlockList,
  MsgConvertVouchers, MsgTransferTokens, TokenMappingChangeProposal, external, from_external,
  is_valid_coin_denom, is_source_coin, check_address, validate_token_mapping, validate_permissions,
  validate_convert_vouchers, validate_transfer_tokens,
}
mod Agreement
mod Tests

pub record MsgTurnBridge : Type 0 where
  pub sender : Bytes
  pub enable : Bool

-- `age.Decrypt` with the identity that refuses every stanza fails with that refusal, or before it.
pub data AgeError : Type 0 where
  dummy_identity : AgeError
  malformed : String → AgeError

-- What the commands take from outside: the flags by name, the address of `client.GetClientTxContext`
-- for a flag `from` that the command has set or not, the parsers of the SDK and of age, the bank's
-- tests of coins, the files, and `govtypes.NewMsgSubmitProposal`.
pub record Client : Type 0 where
  pub set_from : Bytes → Result String (Unit {0})
  pub from_address : Option Bytes → Result String Bytes
  pub string_flag : String → Result String Bytes
  pub uint_flag : String → Result String ℕ
  pub parse_coins : Bytes → Result String (List Coin)
  pub is_valid : List Coin → Bool
  pub is_all_positive : List Coin → Bool
  pub read_file : Bytes → Result String Bytes
  pub decrypt : Bytes → Result AgeError Bytes
  pub submit_proposal : TokenMappingChangeProposal → List Coin → Bytes → Result String (Unit {0})

module _ (p : Platform) where
  abbrev from_number : {A : Type 0} → Result NumError A → M p A
  from_number (ok a) = pure a
  from_number (err syntax_error) = raise (external "invalid syntax")
  from_number (err range_error) = raise (external "value out of range")

  -- `MsgTurnBridge.ValidateBasic`
  unfoldable pub validate_turn_bridge : MsgTurnBridge → M p (Unit {0})
  validate_turn_bridge msg = check_address p (p.acc_from_bech32 msg.sender)

  abbrev check_blob : Result AgeError Bytes → M p (Unit {0})
  check_blob (ok bz) = pure tt
  check_blob (err dummy_identity) = pure tt
  check_blob (err (malformed e)) = raise (external e)

  -- `NewTokenMappingChangeProposal`
  abbrev pub new_proposal : Bytes → Bytes → ℕ → Option p.Address → TokenMappingChangeProposal
  new_proposal denom symbol decimal none = record {
    denom = denom;
    contract = [];
    symbol = symbol;
    decimal = decimal;
  }
  new_proposal denom symbol decimal (some address) = record {
    denom = denom;
    contract = p.address_hex address;
    symbol = symbol;
    decimal = decimal;
  }

  abbrev pub contract_of : Bytes → Option p.Address
  contract_of [] = none
  contract_of (b ∷ bs) = some (p.hex_to_address (b ∷ bs))

  module _ (c : Client) where
    -- `MsgStoreBlockList.ValidateBasic`
    unfoldable pub validate_store_block_list : MsgStoreBlockList → M p (Unit {0})
    validate_store_block_list msg = do
      check_address p (p.acc_from_bech32 msg.from)
      check_blob (c.decrypt msg.blob)

    -- `clientCtx.GetFromAddress().String()`
    abbrev pub sender : Option Bytes → M p Bytes
    sender set = do address ← from_external p (c.from_address set); pure (p.acc_string address)

    -- The symbol and the decimals, which only a source coin has; `uint32(decimal)` wraps.
    abbrev pub symbol_and_decimal : Bytes → M p (Bytes × ℕ)
    symbol_and_decimal denom =
        if is_source_coin denom
        then (do
          symbol ← from_external p (c.string_flag "symbol")
          decimal ← from_external p (c.uint_flag "decimals")
          pure (symbol, decimal % 2 ^ 32))
        else pure ([], 0)

    -- `CmdConvertTokens`
    unfoldable pub convert_tokens_cmd : List Bytes → M p MsgConvertVouchers
    convert_tokens_cmd (from ∷ amount ∷ []) = do
      from_external p (c.set_from from)
      coins ← from_external p (c.parse_coins amount)
      address ← sender (some from)
      let msg : MsgConvertVouchers = record { address = address; coins = coins }
      validate_convert_vouchers p c.is_valid c.is_all_positive msg
      pure msg
    convert_tokens_cmd args = raise (external "wrong number of arguments")

    -- `CmdSendToCryptoOrg`
    unfoldable pub send_to_crypto_org_cmd : List Bytes → M p MsgTransferTokens
    send_to_crypto_org_cmd (from ∷ to ∷ amount ∷ []) = do
      from_external p (c.set_from from)
      coins ← from_external p (c.parse_coins amount)
      address ← sender (some from)
      let msg : MsgTransferTokens = record { from = address; to = to; coins = coins }
      validate_transfer_tokens p c.is_valid c.is_all_positive msg
      pure msg
    send_to_crypto_org_cmd args = raise (external "wrong number of arguments")

    -- `NewSubmitTokenMappingChangeProposalTxCmd`
    unfoldable pub token_mapping_change_cmd : List Bytes → M p TokenMappingChangeProposal
    token_mapping_change_cmd (denom ∷ contract ∷ []) = do
      from ← from_external p (c.from_address none)
      from_external p (c.string_flag "title")
      from_external p (c.string_flag "description")
      raise_if (not (is_valid_coin_denom denom)) (external "invalid coin denom")
      (symbol, decimal) ← symbol_and_decimal denom
      let content = new_proposal denom symbol decimal (contract_of contract)
      amount ← from_external p (c.string_flag "deposit")
      deposit ← from_external p (c.parse_coins amount)
      from_external p (c.submit_proposal content deposit from)
      pure content
    token_mapping_change_cmd args = raise (external "wrong number of arguments")

    -- `CmdUpdateTokenMapping`
    unfoldable pub update_token_mapping_cmd : List Bytes → M p MsgUpdateTokenMapping
    update_token_mapping_cmd (denom ∷ contract ∷ []) = do
      from ← sender none
      raise_if (not (is_valid_coin_denom denom)) (external "invalid coin denom")
      (symbol, decimal) ← symbol_and_decimal denom
      let msg : MsgUpdateTokenMapping = record {
        sender = from;
        denom = denom;
        contract = contract;
        symbol = symbol;
        decimal = decimal;
      }
      validate_token_mapping p msg
      pure msg
    update_token_mapping_cmd args = raise (external "wrong number of arguments")

    -- `CmdTurnBridge`
    unfoldable pub turn_bridge_cmd : List Bytes → M p MsgTurnBridge
    turn_bridge_cmd (text ∷ []) = do
      from ← sender none
      enable ← from_number (parse_bool text)
      let msg : MsgTurnBridge = record { sender = from; enable = enable }
      validate_turn_bridge msg
      pure msg
    turn_bridge_cmd args = raise (external "wrong number of arguments")

    -- `CmdUpdatePermissions`
    unfoldable pub update_permissions_cmd : List Bytes → M p MsgUpdatePermissions
    update_permissions_cmd (address ∷ text ∷ []) = do
      from ← sender none
      permissions ← from_number (parse_uint text)
      let msg : MsgUpdatePermissions = record {
        from = from;
        address = address;
        permissions = permissions;
      }
      validate_permissions p msg
      pure msg
    update_permissions_cmd args = raise (external "wrong number of arguments")

    -- `CmdStoreBlockList`
    unfoldable pub store_block_list_cmd : List Bytes → M p MsgStoreBlockList
    store_block_list_cmd (path ∷ []) = do
      from ← sender none
      blob ← from_external p (c.read_file path)
      let msg : MsgStoreBlockList = record { from = from; blob = blob }
      validate_store_block_list msg
      pure msg
    store_block_list_cmd args = raise (external "wrong number of arguments")
