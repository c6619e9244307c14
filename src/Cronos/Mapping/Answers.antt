-- ===== src/Cronos/Mapping/Answers.antt =====
-- The queries of the token mapping agree with each other.
use cosmos_swap.Prelude.{◌≡◌, ◌⊎◌, some, Bytes, ok, arith}
use cosmos_swap.Cronos.{
  Platform, State, ContractByDenomResponse, contract_by_denom, denom_by_contract,
  get_denom_by_contract,
}
use cosmos_swap.Cronos.Mapping.Consistent.{IsConsistent}

module _ (p : Platform) (s : State p) (ok_s : IsConsistent p s) where
  answered :
      (denom : Bytes) (a : p.Address) (r : ContractByDenomResponse p.Address)
      → (contract_by_denom p denom s).0 ≡ ok r
      → (r.contract ≡ some a) ⊎ (r.auto_contract ≡ some a)
      → get_denom_by_contract p a s ≡ some denom
  unfolding contract_by_denom
  answered denom a r e h = ground (arith, e, h, ok_s.external denom a, ok_s.auto denom a)

  -- In a consistent state a contract that ContractByDenom answers for a denomination, the external or the
  -- automatic one, is a contract for which DenomByContract answers that denomination.
  pub contract_by_denom-denom_by_contract :
      (denom contract : Bytes) (r : ContractByDenomResponse p.Address)
      → (contract_by_denom p denom s).0 ≡ ok r
      → (r.contract ≡ some (p.hex_to_address contract))
        ⊎ (r.auto_contract ≡ some (p.hex_to_address contract))
      → (denom_by_contract p contract s).0 ≡ ok denom
  unfolding contract_by_denom denom_by_contract
  contract_by_denom-denom_by_contract denom contract r e h =
      let a = p.hex_to_address contract in
      let known : get_denom_by_contract p a s ≡ some denom = answered denom a r e h in
      ground (arith, known)
