-- ===== src/Cronos/Genesis.antt =====
-- x/cronos/genesis.go: InitGenesis and ExportGenesis, with the getters of all mappings of
-- x/cronos/keeper/keeper.go. What InitGenesis refuses, it refuses by a panic.
use cosmos_swap.Prelude.{
  Bool, not, ◌||◌, List, [], ◌∷◌, Bytes, Result, ok, err, raise_if, pure, gets, ◌>>=◌, ◌>>◌,
}
use cosmos_swap.Cronos.Types.{Params, Error, panic}
use cosmos_swap.Cronos.Denoms.{is_valid_ibc_denom, is_valid_gravity_denom}
use cosmos_swap.Cronos.Environment.{Platform, State}
use cosmos_swap.Cronos.Keeper.{M, set_external_contract_for_denom, set_auto_contract_for_denom}
use cosmos_swap.Cronos.Admin.{set_params, get_params}

pub record TokenMapping : Type 0 where
  pub denom : Bytes
  pub contract : Bytes

pub record GenesisState : Type 0 where
  pub params : Params
  pub external_contracts : List TokenMapping
  pub auto_contracts : List TokenMapping

-- Only external tokens can be bootstrapped.
unfoldable pub is_external : Bytes → Bool
is_external denom = is_valid_ibc_denom denom || is_valid_gravity_denom denom

module _ (p : Platform) where
  abbrev pub panicking : {A : Type 0} → Result Error A → Result Error A
  panicking (ok a) = ok a
  panicking (err e) = err panic

  unfoldable pub or_panic : {A : Type 0} → M p A → M p A
  or_panic m s = (panicking (m s).0, (m s).1)

  unfoldable pub register_external : TokenMapping → M p (Unit {0})
  register_external m = do
    raise_if (not (is_external m.denom)) panic
    raise_if (not (p.is_hex_address m.contract)) panic
    or_panic (set_external_contract_for_denom p m.denom (p.hex_to_address m.contract))

  unfoldable pub register_externals : List TokenMapping → M p (Unit {0})
  register_externals [] = pure tt
  register_externals (m ∷ ms) = do register_external m; register_externals ms

  unfoldable pub register_auto : TokenMapping → M p (Unit {0})
  register_auto m = do
    raise_if (not (is_external m.denom)) panic
    raise_if (not (p.is_hex_address m.contract)) panic
    set_auto_contract_for_denom p m.denom (p.hex_to_address m.contract)

  unfoldable pub register_autos : List TokenMapping → M p (Unit {0})
  register_autos [] = pure tt
  register_autos (m ∷ ms) = do register_auto m; register_autos ms

  unfoldable pub init_genesis : GenesisState → M p (Unit {0})
  init_genesis g = do
    or_panic (set_params p g.params)
    register_externals g.external_contracts
    register_autos g.auto_contracts

  -- The key less the prefix, which is one byte
  abbrev pub unprefixed : Bytes → Bytes
  unprefixed [] = []
  unprefixed (b ∷ key) = key

  unfoldable pub token_mappings : List (Bytes × Bytes) → List TokenMapping
  token_mappings [] = []
  token_mappings ((key, value) ∷ entries) =
      record { denom = unprefixed key; contract = p.address_hex (p.bytes_to_address value) }
      ∷ token_mappings entries

  unfoldable pub get_external_contracts : State p → List TokenMapping
  get_external_contracts s = token_mappings (p.kv.iterate s.store (1 ∷ []))

  unfoldable pub get_auto_contracts : State p → List TokenMapping
  get_auto_contracts s = token_mappings (p.kv.iterate s.store (2 ∷ []))

  unfoldable pub export_genesis : M p GenesisState
  export_genesis = do
    q ← get_params p
    external ← gets get_external_contracts
    auto ← gets get_auto_contracts
    pure (record { params = q; external_contracts = external; auto_contracts = auto })
