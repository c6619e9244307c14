-- ===== src/Cronos/Queries.antt =====
-- x/cronos/keeper/grpc_query.go: the queries of the mapping, the permissions and the block list. A query
-- reads the state; ReplayBlock, which runs messages of the EVM again, is left out.
use Prim.Native.Nat.{bit_and}
use cosmos_swap.Prelude.{
  Bool, true, Option, none, some, Bytes, bytes_eq, nat_eq, ◌==◌, if◌then◌else◌, raise, pure, gets,
  ◌>>=◌,
}
use cosmos_swap.Cronos.Types.{Params, not_found, block_list_key}
use cosmos_swap.Cronos.Environment.{Platform}
use cosmos_swap.Cronos.Keeper.{
  M, from_external, get_external_contract_by_denom, get_auto_contract_by_denom,
  get_denom_by_contract,
}
use cosmos_swap.Cronos.Admin.{get_params, get_permissions}

pub record ContractByDenomResponse (Address : Type 0) : Type 0 where
  pub contract : Option Address  -- the empty text for none
  pub auto_contract : Option Address

pub record PermissionsResponse : Type 0 where
  pub can_change_token_mapping : Bool
  pub can_turn_bridge : Bool

module _ (p : Platform) where
  abbrev pub found_response :
      Option p.Address → Option p.Address → M p (ContractByDenomResponse p.Address)
  found_response none none = raise not_found
  found_response (some a) found = pure (record { contract = some a; auto_contract = found })
  found_response none (some a) = pure (record { contract = none; auto_contract = some a })

  -- `ContractByDenom`; the text of an address is never empty.
  unfoldable pub contract_by_denom : Bytes → M p (ContractByDenomResponse p.Address)
  contract_by_denom denom = do
    external ← gets (get_external_contract_by_denom p denom)
    auto ← gets (get_auto_contract_by_denom p denom)
    found_response external auto

  abbrev pub denom_response : Option Bytes → M p Bytes
  denom_response none = raise not_found
  denom_response (some denom) = pure denom

  -- `DenomByContract`, of the text of an address
  unfoldable pub denom_by_contract : Bytes → M p Bytes
  denom_by_contract contract = do
    found ← gets (get_denom_by_contract p (p.hex_to_address contract))
    denom_response found

  -- `Params`, of a request that is not nil
  unfoldable pub params_query : M p Params
  params_query = get_params p

  -- `Permissions`
  unfoldable pub permissions_query : Bytes → M p PermissionsResponse
  permissions_query address = do
    acc ← from_external p (p.acc_from_bech32 address)
    q ← get_params p
    if q.cronos_admin == p.acc_string acc
        then pure (record { can_change_token_mapping = true; can_turn_bridge = true })
        else (do
          held ← get_permissions p acc
          pure (record {
            can_change_token_mapping = bit_and held 1 == 1;
            can_turn_bridge = bit_and held 2 == 2;
          }))

  -- `BlockList`; nil for none
  unfoldable pub block_list_query : M p (Option Bytes)
  block_list_query = gets (λ s. p.kv.get s.store block_list_key)
