-- ===== src/Cronos/Msgs.antt =====
-- x/cronos/types/messages.go: the stateless checks of the messages that change the store; and the
-- handler of governance proposals, x/cronos/proposal_handler.go.
use cosmos_swap.Prelude.{ℕ, not, [], Bytes, String, Result, ok, err, raise, raise_if, pure, ◌>>◌}
use cosmos_swap.Cronos.Types.{
  MsgUpdateTokenMapping, MsgUpdatePermissions, MsgUpdateParams, invalid_request, invalid_address,
}
use cosmos_swap.Cronos.Denoms.{is_valid_coin_denom}
use cosmos_swap.Cronos.Environment.{Platform}
use cosmos_swap.Cronos.Keeper.{M, from_external, register_or_update_token_mapping}
use cosmos_swap.Cronos.Admin.{validate_params}

-- `TokenMappingChangeProposal`, less its title and description
pub record TokenMappingChangeProposal : Type 0 where
  pub denom : Bytes
  pub contract : Bytes
  pub symbol : Bytes
  pub decimal : ℕ

module _ (p : Platform) where
  abbrev pub check_address : Result String Bytes → M p (Unit {0})
  check_address (ok a) = pure tt
  check_address (err e) = raise invalid_address

  -- `MsgUpdateTokenMapping.ValidateBasic`
  unfoldable pub validate_token_mapping : MsgUpdateTokenMapping → M p (Unit {0})
  validate_token_mapping msg = do
    check_address (p.acc_from_bech32 msg.sender)
    raise_if (not (is_valid_coin_denom msg.denom)) invalid_request
    raise_if (not (p.is_hex_address msg.contract)) invalid_request

  -- `MsgUpdateParams.ValidateBasic`
  unfoldable pub validate_update_params : MsgUpdateParams → M p (Unit {0})
  validate_update_params msg = do
    from_external p (p.acc_from_bech32 msg.authority)
    validate_params p msg.params

  -- `MsgUpdatePermissions.ValidateBasic`
  unfoldable pub validate_permissions : MsgUpdatePermissions → M p (Unit {0})
  validate_permissions msg = do
    check_address (p.acc_from_bech32 msg.from)
    check_address (p.acc_from_bech32 msg.address)

  -- A proposal has no sender.
  abbrev pub proposed : TokenMappingChangeProposal → MsgUpdateTokenMapping
  proposed c = record {
    sender = [];
    denom = c.denom;
    contract = c.contract;
    symbol = c.symbol;
    decimal = c.decimal;
  }

  -- `NewTokenMappingChangeProposalHandler`
  unfoldable pub handle_proposal : TokenMappingChangeProposal → M p (Unit {0})
  handle_proposal c = do
    raise_if (not (is_valid_coin_denom c.denom)) invalid_request
    register_or_update_token_mapping p (proposed c)
