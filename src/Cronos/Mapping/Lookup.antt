-- ===== src/Cronos/Mapping/Lookup.antt =====
-- What is registered is found, in both directions.
use cosmos_swap.Prelude.{◌≡◌, ◌≢◌, some, [], Bytes, bytes_eq, bytes_beq_iff, ok, arith}
use cosmos_swap.Cronos.{
  Platform, PlatformLaws, State, get_auto_contract_by_denom, get_contract_by_denom,
  get_denom_by_contract, set_external_contract_for_denom, delete_external_contract_for_denom,
}
use cosmos_swap.Cronos.Mapping.Reads.{same_address}
use cosmos_swap.Cronos.Mapping.Setters.{
  set_external-external, set_external-auto, set_external-denom, delete_external-external,
  delete_external-auto,
}

module _ (p : Platform) (laws : PlatformLaws p) (s : State p) (d : Bytes) where
  -- After a contract is registered for a denomination that is not empty, each is found by the other,
  -- and the contract of every other denomination is as before.
  pub set_external-lookup :
      (a : p.Address)
      → d ≢ []
      → (set_external_contract_for_denom p d a s).0 ≡ ok tt
      → (get_contract_by_denom p d (set_external_contract_for_denom p d a s).1 ≡ some a)
        × (get_denom_by_contract p a (set_external_contract_for_denom p d a s).1 ≡ some d)
        × ((e : Bytes)
            → d ≢ e
            → get_contract_by_denom p e (set_external_contract_for_denom p d a s).1
              ≡ get_contract_by_denom p e s)
  unfolding get_contract_by_denom
  set_external-lookup a h done = (
    ground (arith, set_external-external p laws s d a done d, bytes_beq_iff d d),
    ground (arith, set_external-denom p laws s d a done h a, same_address p laws a a),
    λ e n. ground (
      arith,
      set_external-external p laws s d a done e,
      set_external-auto p laws s d a done e,
      bytes_beq_iff d e,
    ),
  )

  -- After the external contract of a denomination is deleted, the denomination falls back to its
  -- automatically deployed contract, and every other one keeps its contract.
  pub delete_external-lookup :
      (get_contract_by_denom p d (delete_external_contract_for_denom p d s).1
        ≡ get_auto_contract_by_denom p d s)
      × ((e : Bytes)
          → d ≢ e
          → get_contract_by_denom p e (delete_external_contract_for_denom p d s).1
            ≡ get_contract_by_denom p e s)
  unfolding get_contract_by_denom
  delete_external-lookup = (
    ground (
      arith,
      delete_external-external p laws s d d,
      delete_external-auto p laws s d d,
      bytes_beq_iff d d,
    ),
    λ e n. ground (
      arith,
      delete_external-external p laws s d e,
      delete_external-auto p laws s d e,
      bytes_beq_iff d e,
    ),
  )
