-- ===== src/Cronos/Denoms.antt =====
-- x/cronos/types/types.go: the formats of the denominations.
use cosmos_swap.Prelude.{
  has_prefix, ℕ, zero, suc, Bool, ◌&&◌, ◌||◌, [], ◌∷◌, Bytes, codes, nat_eq, ◌==◌, length,
  if◌then◌else◌, Result, ok, err,
}
use cosmos_swap.Cronos.Types.{Error, invalid_contract}

-- `TenPowTen`
abbrev pub ten_pow_ten : ℕ
ten_pow_ten = 10_000_000_000

-- `denom[n:]`
abbrev pub drop : ℕ → Bytes → Bytes
drop zero s = s
drop (suc n) [] = []
drop (suc n) (b ∷ bs) = drop n bs

abbrev pub ibc_denom_prefix : Bytes
ibc_denom_prefix = codes "ibc/"

abbrev pub gravity_denom_prefix : Bytes
gravity_denom_prefix = codes "gravity0x"

abbrev pub cronos_denom_prefix : Bytes
cronos_denom_prefix = codes "cronos0x"

unfoldable pub is_valid_ibc_denom : Bytes → Bool
is_valid_ibc_denom denom = length denom == 68 && has_prefix denom ibc_denom_prefix

unfoldable pub is_valid_gravity_denom : Bytes → Bool
is_valid_gravity_denom denom = length denom == 49 && has_prefix denom gravity_denom_prefix

unfoldable pub is_valid_cronos_denom : Bytes → Bool
is_valid_cronos_denom denom = length denom == 48 && has_prefix denom cronos_denom_prefix

unfoldable pub is_source_coin : Bytes → Bool
unfolding is_valid_cronos_denom
is_source_coin denom = is_valid_cronos_denom denom

unfoldable pub is_valid_coin_denom : Bytes → Bool
unfolding is_valid_ibc_denom is_valid_gravity_denom is_valid_cronos_denom
is_valid_coin_denom denom =
    is_valid_ibc_denom denom || is_valid_gravity_denom denom || is_valid_cronos_denom denom

-- `GetContractAddressFromDenom`, given `common.IsHexAddress`
unfoldable pub get_contract_address_from_denom : (Bytes → Bool) → Bytes → Result Error Bytes
get_contract_address_from_denom is_hex_address denom =
    let address =
      if has_prefix denom gravity_denom_prefix
      then drop 7 denom
      else if has_prefix denom cronos_denom_prefix
      then drop 6 denom
      else [] in
    if is_hex_address address then ok address else err invalid_contract
