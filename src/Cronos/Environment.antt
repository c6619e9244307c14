-- ===== src/Cronos/Environment.antt =====
-- What the cronos keeper takes from outside: the store of the SDK, addresses and their texts, the
-- codec of the parameters, the ABI of the embedded contract, and the other modules, which answer a
-- call by what was called before it.
use cosmos_swap.Prelude.{ℕ, ◌≡◌, ◌≢◌, Bool, Option, some, List, [], String, Bytes, Result}
use cosmos_swap.Sdk.{KvStore, KvLaws}
use cosmos_swap.Cronos.Types.{Params, Metadata, EvmMessage, EvmResponse, Call}

pub record Platform : Type 1 where
  pub kv : KvStore
  -- `common.Address`, `Address.Bytes`, `BytesToAddress`, `HexToAddress`, `Address.Hex`, `IsHexAddress`
  pub Address : Type 0
  pub address_bytes : Address → Bytes
  pub bytes_to_address : Bytes → Address
  pub hex_to_address : Bytes → Address
  pub address_hex : Address → Bytes
  pub is_hex_address : Bytes → Bool
  -- `sdk.AccAddressFromBech32` and `AccAddress.String`
  pub acc_from_bech32 : Bytes → Result String Bytes
  pub acc_string : Bytes → Bytes
  pub to_lower : Bytes → Bytes  -- `strings.ToLower`
  -- `MustMarshal`, and `MustUnmarshal`, which panics (`none`) on bytes that do not decode
  pub marshal : Params → Bytes
  pub unmarshal : Bytes → Option Params
  pub is_denom : Bytes → Bool  -- `sdk.ValidateDenom`
  pub is_channel_id : Bytes → Bool  -- `channeltypes.IsValidChannelID`
  -- `transferTypes.ParseHexHash`, then the transfer keeper's `GetDenom`: the channel of its first hop
  pub channel_of : Bytes → Option Bytes
  pub authority : Bytes
  pub evm_denom : Bytes  -- of the parameters of the EVM
  pub evm_module_address : Address
  pub create_address : Address → ℕ → Address  -- `crypto.CreateAddress`
  -- the packed call of a method of ModuleCRC21 with an account and an amount, and the code with the
  -- packed arguments of its constructor
  pub pack : String → Address → ℕ → Bytes
  pub deployment : Bytes → Bytes
  -- what the other modules answer after the calls so far
  pub answer : List (Call Address) → Call Address → Result String (Unit {0})
  pub evm_answer : List (Call Address) → EvmMessage Address → Result String EvmResponse
  pub get_nonce : List (Call Address) → ℕ
  pub get_metadata : List (Call Address) → Bytes → Option Metadata

pub record PlatformLaws (p : Platform) : Type 0 where
  pub kv_laws : KvLaws p.kv
  pub bytes_to_address-address_bytes : (a : p.Address) → p.bytes_to_address (p.address_bytes a) ≡ a
  pub address_bytes_nonempty : (a : p.Address) → p.address_bytes a ≢ []
  pub unmarshal-marshal : (q : Params) → p.unmarshal (p.marshal q) ≡ some q

pub record State (p : Platform) : Type 0 where
  pub store : p.kv.Store
  pub calls : List (Call p.Address)  -- that were answered, the last one last
