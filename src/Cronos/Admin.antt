-- ===== src/Cronos/Admin.antt =====
-- x/cronos/keeper/params.go, permissions.go and msg_server.go: the parameters, the permissions, and
-- the messages that change them or the token mapping.
use Prim.Native.Nat.{bit_and}
use cosmos_swap.Prelude.{
  ℕ, Bool, true, false, not, Option, none, some, List, [], ◌∷◌, String, Bytes, bytes_eq, nat_eq,
  ◌==◌, length, put_uint64, uint64, if◌then◌else◌, Result, ok, err, pure, raise, gets, or_raise,
  raise_if, ◌>>=◌, ◌>>◌,
}
use cosmos_swap.Cronos.Types.{
  Params, MsgUpdateTokenMapping, MsgUpdatePermissions, MsgStoreBlockList, MsgUpdateParams,
  unauthorized, invalid_signer, invalid_ibc_denom, panic, params_key, permissions_key,
  block_list_key,
}
use cosmos_swap.Cronos.Denoms.{is_valid_ibc_denom}
use cosmos_swap.Cronos.Environment.{Platform}
use cosmos_swap.Cronos.Keeper.{M, from_external, write, nonempty, register_or_update_token_mapping}

module _ (p : Platform) where
  abbrev pub no_params : Params
  no_params = record {
    ibc_cro_denom = [];
    ibc_timeout = 0;
    cronos_admin = [];
    enable_auto_deployment = false;
    max_callback_gas = 0;
  }

  abbrev decode_params : Option Bytes → M p Params
  decode_params none = pure no_params
  decode_params (some bz) = or_raise (p.unmarshal bz) panic

  unfoldable pub get_params : M p Params
  get_params = do bz ← gets (λ s. p.kv.get s.store params_key); decode_params bz

  -- `Params.Validate`
  unfoldable pub validate_params : Params → M p (Unit {0})
  validate_params q = do
    raise_if (not (is_valid_ibc_denom q.ibc_cro_denom)) invalid_ibc_denom
    if length q.cronos_admin == 0
        then pure tt
        else (do from_external p (p.acc_from_bech32 q.cronos_admin); pure tt)

  unfoldable pub set_params : Params → M p (Unit {0})
  set_params q = do validate_params q; write p params_key (p.marshal q)

  abbrev pub can_change_token_mapping : ℕ
  can_change_token_mapping = 1

  unfoldable pub set_permissions : Bytes → ℕ → M p (Unit {0})
  set_permissions address permissions = write p (permissions_key address) (put_uint64 permissions)

  -- `sdk.BigEndianToUint64`: no bytes are 0, and fewer than eight panic
  abbrev decode_permissions : Option Bytes → M p ℕ
  decode_permissions none = pure 0
  decode_permissions (some bz) = or_raise (uint64 bz) panic

  unfoldable pub get_permissions : Bytes → M p ℕ
  get_permissions address = do
    bz ← gets (λ s. nonempty p (p.kv.get s.store (permissions_key address)))
    decode_permissions bz

  unfoldable pub any_has_permission : Bytes → ℕ → List Bytes → M p Bool
  any_has_permission admin check [] = pure false
  any_has_permission admin check (account ∷ accounts) =
      let rest = any_has_permission admin check accounts in
      if admin == p.acc_string account then pure true else (do
        permission ← get_permissions account
        if bit_and permission check == check then pure true else rest)

  unfoldable pub has_permission : List Bytes → ℕ → M p Bool
  has_permission accounts check =
      if check == 0
      then pure true
      else (do q ← get_params; any_has_permission q.cronos_admin check accounts)

  -- The message server. `GetSigners` panics on a sender that is no address.
  abbrev pub signer : Result String Bytes → M p Bytes
  signer (ok a) = pure a
  signer (err e) = raise panic

  unfoldable pub update_token_mapping : MsgUpdateTokenMapping → M p (Unit {0})
  update_token_mapping msg = do
    sender ← signer (p.acc_from_bech32 msg.sender)
    allowed ← has_permission (sender ∷ []) can_change_token_mapping
    raise_if (not allowed) unauthorized
    register_or_update_token_mapping p msg

  unfoldable pub update_params : MsgUpdateParams → M p (Unit {0})
  update_params msg = do
    raise_if (not (msg.authority == p.authority)) invalid_signer
    set_params msg.params

  unfoldable pub update_permissions : MsgUpdatePermissions → M p (Unit {0})
  update_permissions msg = do
    q ← get_params
    raise_if (not (q.cronos_admin == msg.from)) unauthorized
    acc ← from_external p (p.acc_from_bech32 msg.address)
    set_permissions acc msg.permissions

  unfoldable pub store_block_list : MsgStoreBlockList → M p (Unit {0})
  store_block_list msg = do
    q ← get_params
    raise_if (not (q.cronos_admin == msg.from)) unauthorized
    write p block_list_key msg.blob
