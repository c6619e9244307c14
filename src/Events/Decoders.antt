-- ===== src/Events/Decoders.antt =====
-- x/cronos/events/decoders.go: the values that attributes decode to. The parsers of other packages are
-- parameters.
use cosmos_swap.Prelude.{
  ℕ, Bool, true, false, Option, none, some, List, [], ◌∷◌, Bytes, String, has_prefix, if◌then◌else◌,
  Result, ok, err,
}
use cosmos_swap.Prelude.Int.{ℤ}
use cosmos_swap.Events.{ValueDecoder}

pub record CosmosCoin : Type 0 where
  pub amount : ℤ
  pub denom : Bytes

pub record CosmosDenom : Type 0 where
  pub base : Bytes
  pub trace : List (Bytes × Bytes)  -- ports and channels

pub record CosmosToken : Type 0 where
  pub amount : ℤ
  pub denom : CosmosDenom

-- `transfertypes.Token`, whose amount is a text
pub record Token : Type 0 where
  pub amount : Bytes
  pub base : Bytes
  pub trace : List (Bytes × Bytes)

-- `transfertypes.FungibleTokenPacketData`
pub record FungibleTokenPacketData : Type 0 where
  pub denom : Bytes
  pub amount : Bytes
  pub sender : Bytes
  pub receiver : Bytes

pub record PacketData : Type 0 where
  pub receiver : Bytes
  pub sender : Bytes
  pub amount : List CosmosCoin

-- The Go values that a decoder gives
pub data Value : Type 0 where
  address : Bytes → Value
  text : Bytes → Value
  coins : List CosmosCoin → Value
  tokens : List CosmosToken → Value
  number : ℤ → Value
  uint64 : ℕ → Value
  packet : PacketData → Value

pub record Parsers : Type 0 where
  pub trim_space : Bytes → Bytes
  -- `bech32.DecodeAndConvert`, the bytes; `sdk.VerifyAddressFormat`
  pub decode_bech32 : Bytes → Result String Bytes
  pub verify_address_format : Bytes → Result String (Unit {0})
  pub bytes_to_address : Bytes → Bytes
  pub parse_coins : Bytes → Result String (List CosmosCoin)  -- `sdk.ParseCoinsNormalized`
  pub set_string : Bytes → Option ℤ  -- of `big.Int`, in base 10
  pub parse_uint : Bytes → Result String ℕ  -- in base 10, of 64 bits
  pub unmarshal_tokens : Bytes → Result String (List Token)
  pub decode_hex : Bytes → Result String Bytes
  pub unmarshal_packet : Bytes → Result String FungibleTokenPacketData
  -- `common.IsHexAddress`, `HexToAddress`, and the text of an address
  pub is_hex_address : Bytes → Bool
  pub hex_to_address : Bytes → Bytes
  pub address_string : Bytes → Bytes
  pub validator_prefix : Bytes
  pub account_prefix : Bytes
  pub val_address : Bytes → Result String Bytes
  pub acc_address : Bytes → Result String Bytes

-- `ReturnStringAsIs`
unfoldable pub return_string_as_is : ValueDecoder Value
return_string_as_is value indexed = ok (text value ∷ [])

module _ (p : Parsers) where
  abbrev verified : Bytes → Result String (Unit {0}) → Result String Bytes
  verified bz (ok _) = ok bz
  verified bz (err e) = err e

  abbrev verified_bytes : Result String Bytes → Result String Bytes
  verified_bytes (ok bz) = verified bz (p.verify_address_format bz)
  verified_bytes (err e) = err e

  unfoldable pub is_blank : Bytes → Bool
  is_blank [] = true
  is_blank (c ∷ cs) = false

  -- `AccAddressFromBech32`
  unfoldable pub acc_address_from_bech32 : Bytes → Result String Bytes
  acc_address_from_bech32 addr =
      if is_blank (p.trim_space addr)
      then err "empty address string is not allowed"
      else verified_bytes (p.decode_bech32 addr)

  abbrev address_or_text : Bytes → Result String Bytes → Result String (List Value)
  address_or_text value (ok acc) = ok (address (p.bytes_to_address acc) ∷ [])
  address_or_text value (err _) = ok (text value ∷ [])

  unfoldable pub convert_acc_address_from_bech32 : ValueDecoder Value
  convert_acc_address_from_bech32 value indexed =
      address_or_text value (acc_address_from_bech32 value)

  abbrev one_number : Option ℤ → Result String (List Value)
  one_number none = err "failed to parse amount"
  one_number (some n) = ok (number n ∷ [])

  abbrev coins_or_number : Bytes → Result String (List CosmosCoin) → Result String (List Value)
  coins_or_number value (ok cs) = ok (coins cs ∷ [])
  coins_or_number value (err _) = one_number (p.set_string value)

  -- `ConvertAmount`
  unfoldable pub convert_amount : ValueDecoder Value
  convert_amount value indexed = coins_or_number value (p.parse_coins value)

  abbrev one_uint : Result String ℕ → Result String (List Value)
  one_uint (ok n) = ok (uint64 n ∷ [])
  one_uint (err e) = err e

  -- `ConvertUint64`
  unfoldable pub convert_uint64 : ValueDecoder Value
  convert_uint64 value indexed = one_uint (p.parse_uint value)

  abbrev with_token :
      Token → Option ℤ → Result String (List CosmosToken) → Result String (List CosmosToken)
  with_token token none rest = err "invalid amount"
  with_token token (some n) (err e) = err e
  with_token token (some n) (ok ts) =
      ok (record { amount = n; denom = record { base = token.base; trace = token.trace } } ∷ ts)

  -- `sdkTokensToEvmTokens`
  unfoldable pub sdk_tokens_to_evm_tokens : List Token → Result String (List CosmosToken)
  sdk_tokens_to_evm_tokens [] = ok []
  sdk_tokens_to_evm_tokens (token ∷ ts) =
      with_token token (p.set_string token.amount) (sdk_tokens_to_evm_tokens ts)

  abbrev one_tokens : Result String (List CosmosToken) → Result String (List Value)
  one_tokens (ok ts) = ok (tokens ts ∷ [])
  one_tokens (err e) = err e

  abbrev of_tokens : Result String (List Token) → Result String (List Value)
  of_tokens (ok ts) = one_tokens (sdk_tokens_to_evm_tokens ts)
  of_tokens (err e) = err e

  -- `ConvertTokens`
  unfoldable pub convert_tokens : ValueDecoder Value
  convert_tokens value indexed = of_tokens (p.unmarshal_tokens value)

  -- `addr, _ = ...`, where an error leaves no bytes
  abbrev or_nil : Result String Bytes → Bytes
  or_nil (ok bz) = bz
  or_nil (err _) = []

  -- `convertAddress`
  unfoldable pub convert_address : Bytes → Result String Bytes
  convert_address addr =
      if p.is_hex_address addr
      then ok (p.bytes_to_address (p.hex_to_address addr))
      else if has_prefix addr p.validator_prefix
      then ok (p.bytes_to_address (or_nil (p.val_address addr)))
      else if has_prefix addr p.account_prefix
      then ok (p.bytes_to_address (or_nil (p.acc_address addr)))
      else err "expected a valid hex or bech32 address"

  abbrev packet_of : FungibleTokenPacketData → Bytes → Option ℤ → Result String (List Value)
  packet_of d receiver none = err "invalid amount"
  packet_of d receiver (some n) = ok (
      packet (record {
        receiver = receiver;
        sender = d.sender;
        amount = record { amount = n; denom = d.denom } ∷ [];
      })
      ∷ [])

  abbrev packet_values :
      FungibleTokenPacketData → Bool → Result String Bytes → Result String (List Value)
  packet_values d indexed (err e) = err e
  packet_values d true (ok receiver) = ok (text d.sender ∷ text (p.address_string receiver) ∷ [])
  packet_values d false (ok receiver) = packet_of d receiver (p.set_string d.amount)

  abbrev of_packet : Bool → Result String FungibleTokenPacketData → Result String (List Value)
  of_packet indexed (err e) = err e
  of_packet indexed (ok d) = packet_values d indexed (convert_address d.receiver)

  abbrev of_hex : Bool → Result String Bytes → Result String (List Value)
  of_hex indexed (err e) = err e
  of_hex indexed (ok bz) = of_packet indexed (p.unmarshal_packet bz)

  -- `ConvertPacketData`
  unfoldable pub convert_packet_data : ValueDecoder Value
  convert_packet_data value indexed = of_hex indexed (p.decode_hex value)
