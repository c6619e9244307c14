-- ===== src/Cronos/Keeper.antt =====
-- x/cronos/keeper/keeper.go: the token mapping.

use cosmos_swap.Prelude.{
  Bool, true, false, not, Option, none, some, [], ◌∷◌, ◌++◌, String, Bytes, bytes_eq, nat_eq, ◌==◌,
  if◌then◌else◌, Result, ok, err, Action, pure, raise, gets, raise_if, modify, ◌>>=◌, ◌>>◌,
}
use cosmos_swap.Cronos.Types.{
  MsgUpdateTokenMapping, Error, already_registered, invalid_address, external, Metadata, Call,
  set_metadata, external_contract_key, auto_contract_key, denom_key,
}
use cosmos_swap.Cronos.Denoms.{is_source_coin, get_contract_address_from_denom}
use cosmos_swap.Cronos.Environment.{Platform, State}

module _ (p : Platform) where
  abbrev pub M : Type 0 → Type 0
  M A = Action (State p) Error A

  abbrev pub from_external : {A : Type 0} → Result String A → M A
  from_external (ok a) = pure a
  from_external (err e) = raise (external e)

  abbrev pub from_result : {A : Type 0} → Result Error A → M A
  from_result (ok a) = pure a
  from_result (err e) = raise e

  -- A call of another module, which is noted if it is answered.
  abbrev pub call : Call p.Address → M (Unit {0})
  call c s = elim (p.answer s.calls c) [
    | ok _ ↦ (ok tt, record s { calls = s.calls ++ c ∷ [] })
    | err e ↦ (err (external e), s)
  ]

  abbrev pub write : Bytes → Bytes → M (Unit {0})
  write k v = modify (λ s. record s { store = p.kv.set s.store k v })

  abbrev pub remove : Bytes → M (Unit {0})
  remove k = modify (λ s. record s { store = p.kv.delete s.store k })

  -- An entry of the store, where an empty value counts as none.
  abbrev pub nonempty : Option Bytes → Option Bytes
  nonempty none = none
  nonempty (some []) = none
  nonempty (some (b ∷ bs)) = some (b ∷ bs)

  abbrev pub address_of : Option Bytes → Option p.Address
  address_of none = none
  address_of (some bz) = some (p.bytes_to_address bz)

  abbrev pub first_found : {A : Type 0} → Option A → Option A → Option A
  first_found none y = y
  first_found (some x) y = some x

  -- The getters only read the state.
  unfoldable pub get_external_contract_by_denom : Bytes → State p → Option p.Address
  get_external_contract_by_denom denom s =
      address_of (nonempty (p.kv.get s.store (external_contract_key denom)))

  unfoldable pub get_auto_contract_by_denom : Bytes → State p → Option p.Address
  get_auto_contract_by_denom denom s =
      address_of (nonempty (p.kv.get s.store (auto_contract_key denom)))

  unfoldable pub get_contract_by_denom : Bytes → State p → Option p.Address
  get_contract_by_denom denom s =
      first_found (get_external_contract_by_denom denom s) (get_auto_contract_by_denom denom s)

  unfoldable pub get_denom_by_contract : p.Address → State p → Option Bytes
  get_denom_by_contract contract s =
      nonempty (p.kv.get s.store (denom_key (p.address_bytes contract)))

  abbrev pub is_found : {A : Type 0} → Option A → Bool
  is_found none = false
  is_found (some _) = true

  -- remove the reverse entry of the contract that a denomination had
  abbrev pub forget : Option p.Address → M (Unit {0})
  forget none = pure tt
  forget (some existing) = remove (denom_key (p.address_bytes existing))

  unfoldable pub set_external_contract_for_denom : Bytes → p.Address → M (Unit {0})
  set_external_contract_for_denom denom address = do
    registered ← gets (get_denom_by_contract address)
    raise_if (is_found registered) already_registered
    existing ← gets (get_external_contract_by_denom denom)
    forget existing
    write (external_contract_key denom) (p.address_bytes address)
    write (denom_key (p.address_bytes address)) denom

  abbrev delete_found : Bytes → Option p.Address → M Bool
  delete_found denom none = pure false
  delete_found denom (some contract) = do
    remove (external_contract_key denom)
    remove (denom_key (p.address_bytes contract))
    pure true

  unfoldable pub delete_external_contract_for_denom : Bytes → M Bool
  delete_external_contract_for_denom denom = do
    contract ← gets (get_external_contract_by_denom denom)
    delete_found denom contract

  unfoldable pub set_auto_contract_for_denom : Bytes → p.Address → M (Unit {0})
  set_auto_contract_for_denom denom address = do
    write (auto_contract_key denom) (p.address_bytes address)
    write (denom_key (p.address_bytes address)) denom

  -- The metadata that a source coin is registered with.
  abbrev pub metadata_of : Bytes → Option Metadata → Metadata
  metadata_of denom none = record {
    base = denom;
    name = denom;
    symbol = [];
    display = [];
    denom_units = [];
  }
  metadata_of denom (some m) = m

  abbrev pub updated_metadata : MsgUpdateTokenMapping → Metadata → Metadata
  updated_metadata msg m = record m {
    symbol = msg.symbol;
    display = p.to_lower msg.symbol;
    denom_units =
        if msg.decimal == 0
        then (m.base, 0) ∷ []
        else (m.base, 0) ∷ (p.to_lower msg.symbol, msg.decimal) ∷ [];
  }

  unfoldable pub register_source : MsgUpdateTokenMapping → M (Unit {0})
  register_source msg = do
    from_result (get_contract_address_from_denom p.is_hex_address msg.denom)
    existing ← gets (λ s. p.get_metadata s.calls msg.denom)
    call (set_metadata (updated_metadata msg (metadata_of msg.denom existing)))
    set_external_contract_for_denom msg.denom (p.hex_to_address msg.contract)

  unfoldable pub update_foreign : MsgUpdateTokenMapping → Bytes → M (Unit {0})
  update_foreign msg [] = do delete_external_contract_for_denom msg.denom; pure tt
  update_foreign msg (b ∷ bs) = do
    raise_if (not (p.is_hex_address msg.contract)) invalid_address
    set_external_contract_for_denom msg.denom (p.hex_to_address msg.contract)

  unfoldable pub register_or_update_token_mapping : MsgUpdateTokenMapping → M (Unit {0})
  register_or_update_token_mapping msg =
      if is_source_coin msg.denom then register_source msg else update_foreign msg msg.contract
