-- ===== src/Cronos/Types.antt =====
-- x/cronos/types: parameters, messages and store keys, and the calls that the keeper makes of the
-- other modules. Texts are bytes, as the keeper uses them as keys.
use cosmos_swap.Prelude.{ℕ, Bool, Option, List, [], ◌∷◌, String, Bytes, nat_eq, ◌==◌, if◌then◌else◌}

-- A coin of valid coins, whose amount is not negative.
pub record Coin : Type 0 where
  pub denom : Bytes
  pub amount : ℕ

-- `sdk.NewCoins` of one coin drops it if its amount is zero.
abbrev pub new_coins : Coin → List Coin
new_coins coin = if coin.amount == 0 then [] else coin ∷ []

pub record Params : Type 0 where
  pub ibc_cro_denom : Bytes
  pub ibc_timeout : ℕ  -- uint64
  pub cronos_admin : Bytes
  pub enable_auto_deployment : Bool
  pub max_callback_gas : ℕ  -- uint64

pub record MsgUpdateTokenMapping : Type 0 where
  pub sender : Bytes
  pub denom : Bytes
  pub contract : Bytes
  pub symbol : Bytes
  pub decimal : ℕ  -- uint32

pub record MsgUpdatePermissions : Type 0 where
  pub from : Bytes
  pub address : Bytes
  pub permissions : ℕ  -- uint64

pub record MsgStoreBlockList : Type 0 where
  pub from : Bytes
  pub blob : Bytes

pub record MsgUpdateParams : Type 0 where
  pub authority : Bytes
  pub params : Params

-- The errors that the module tells apart; `external` is an error of another module.
pub data Error : Type 0 where
  already_registered unauthorized invalid_signer invalid_address invalid_ibc_denom : Error
  invalid_contract ibc_cro_denom_empty ibc_cro_denom_invalid empty_destination : Error
  not_supported no_contract not_mapped call_failed invalid_channel : Error
  invalid_request not_connected not_transferable not_authenticated not_decoded invalid_amount
        invalid_coins not_found :
      Error
  external : String → Error
  panic : Error

-- The bank's metadata of a denomination: its units with their exponents.
pub record Metadata : Type 0 where
  pub base : Bytes
  pub name : Bytes
  pub symbol : Bytes
  pub display : Bytes
  pub denom_units : List (Bytes × ℕ)

-- `core.Message`, less the fields that are always zero or nil; `to` is none for a deployment.
pub record EvmMessage (Address : Type 0) : Type 0 where
  pub from : Address
  pub to : Option Address
  pub nonce : ℕ
  pub gas_limit : ℕ
  pub input : Bytes  -- `Data`

pub record EvmResponse : Type 0 where
  pub failed : Bool
  pub ret : Bytes

-- `ibctransfertypes.MsgTransfer`
pub record MsgTransfer : Type 0 where
  pub source_channel : Bytes
  pub token : Coin
  pub sender : Bytes
  pub receiver : Bytes
  pub timeout_timestamp : ℕ

-- What the keeper has the bank, the EVM and the transfer module do. The bank takes `sdk.NewCoins`
-- of one coin, and the module account is always that of the module.
pub data Call (Address : Type 0) : Type 0 where
  send_to_module send_from_module : Bytes → Coin → Call Address
  send_coins : Bytes → Bytes → Coin → Call Address
  mint burn : Coin → Call Address
  set_metadata : Metadata → Call Address
  apply_message : EvmMessage Address → Call Address
  transfer : MsgTransfer → Call Address

-- The keys of the store.
abbrev pub external_contract_key : Bytes → Bytes
external_contract_key denom = 1 ∷ denom

abbrev pub auto_contract_key : Bytes → Bytes
auto_contract_key denom = 2 ∷ denom

abbrev pub denom_key : Bytes → Bytes
denom_key contract = 3 ∷ contract

abbrev pub params_key : Bytes
params_key = 4 ∷ []

abbrev pub permissions_key : Bytes → Bytes
permissions_key address = 5 ∷ address

abbrev pub block_list_key : Bytes
block_list_key = 6 ∷ []
