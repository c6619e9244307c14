-- ===== src/Cronos/Mapping/Migrated.antt =====
-- The migration to version 2 stores the parameters, with gas for callbacks, and keeps the token mapping.
use cosmos_swap.Prelude.{◌≡◌, refl, ◌<◌, true, ◌==◌, bytes_eq, bytes_beq, [], ok, arith}
use cosmos_swap.Cronos.{
  Platform, PlatformLaws, State, Params, params_key, write, get_params, validate_params, migrate,
  with_callback_gas,
}
use cosmos_swap.Cronos.Mapping.Messages.{Preserves, Preserves-bind, Preserves-read}
use cosmos_swap.Cronos.Mapping.Writes.{write-Preserves}

module _ (p : Platform) (laws : PlatformLaws p) where
  -- A migration that succeeds leaves the legacy parameters, with a limit for callbacks that is not zero.
  pub get_params-migrate :
      (q : Params) (s : State p)
      → (migrate p q s).0 ≡ ok tt
      → ((get_params p (migrate p q s).1).0 ≡ ok (with_callback_gas q))
        × (0 < (with_callback_gas q).max_callback_gas)
  unfolding migrate get_params bytes_beq
  get_params-migrate q s e =
      let bz = p.marshal (with_callback_gas q) in
      let kept = laws.kv_laws.get-set (validate_params p q s).1.store params_key bz params_key in
      let same : (params_key == params_key) ≡ true = refl in
      let back = laws.unmarshal-marshal (with_callback_gas q) in
      (ground (arith, e, kept, same, back), ground arith)

  -- A migration keeps a consistent token mapping consistent, whether it succeeds or not.
  pub migrate-Preserves : (q : Params) → Preserves p laws (migrate p q)
  unfolding migrate validate_params
  migrate-Preserves q =
      Preserves-bind p laws (validate_params p q)
        (λ _. write p params_key (p.marshal (with_callback_gas q)))
        (Preserves-read p laws (validate_params p q) (λ s. ground arith))
        (λ _. write-Preserves p laws 4 [] (p.marshal (with_callback_gas q)) (refl, refl, refl))
