-- ===== src/Relayer/Config/Environment.antt =====
-- Which environments give a configuration.
use text.Mathlib.TextEquality.{eq_iff}
use cosmos_swap.Prelude.{
  ◌≡◌, ◌≢◌, ◌⊎◌, ◌↔◌, refl, inl, inr, Bool, true, false, Bool-cases, String, string_eq, ◌==◌,
  Result, ok, err, arith, check,
}
use cosmos_swap.Relayer.Config.{
  Config, ChainConfig, validate_config, get_env_or_default, config_of_env, validated,
  get_config_from_env, has_no_key,
}

-- A key or a mnemonic
abbrev Either : String → String → Type 0
Either key mnemonic = (key ≢ "") ⊎ (mnemonic ≢ "")

-- What a configuration needs.
unfoldable pub IsComplete : Config → Type 0
IsComplete c =
    (c.cronos.chain_id ≢ "")
    × ((c.cronos.rpc_endpoint ≢ "")
        × ((c.ethereum.chain_id ≢ "")
            × ((c.ethereum.rpc_endpoint ≢ "")
                × (Either c.cronos.private_key c.cronos.mnemonic
                    × (Either c.ethereum.private_key c.ethereum.mnemonic
                        × ((c.cronos_contracts.escrow_factory ≢ "")
                            × (c.ethereum_contracts.escrow_factory ≢ "")))))))

-- The variables that an environment must set, as they have no default.
unfoldable pub IsSufficient : (String → String) → Type 0
IsSufficient env =
    (env "BRIDGE_CRONOS_RPC_ENDPOINT" ≢ "")
    × (env "BRIDGE_ETHEREUM_RPC_ENDPOINT" ≢ "")
    × Either (env "BRIDGE_CRONOS_PRIVATE_KEY") (env "BRIDGE_CRONOS_MNEMONIC")
    × Either (env "BRIDGE_ETHEREUM_PRIVATE_KEY") (env "BRIDGE_ETHEREUM_MNEMONIC")
    × (env "BRIDGE_CRONOS_ESCROW_FACTORY" ≢ "")
    × (env "BRIDGE_ETHEREUM_ESCROW_FACTORY" ≢ "")

nonempty : (s : String) → ((s == "") ≡ false) ↔ (s ≢ "")
nonempty s = (λ h e. ground (arith, h, eq_iff s "", e), λ h. ground (arith, h, eq_iff s ""))

has_key : (c : ChainConfig) → (has_no_key c ≡ false) ↔ ((c.private_key ≢ "") ⊎ (c.mnemonic ≢ ""))
has_key c = (
  λ h. elim (Bool-cases (c.private_key == "")) [
    | inl y ↦ inr (λ e. ground (arith, h, y, eq_iff c.mnemonic "", e))
    | inr n ↦ inl ((nonempty c.private_key).0 n)
  ],
  λ h. elim h [
    | inl k ↦ ground (arith, (nonempty c.private_key).1 k)
    | inr k ↦ ground (arith, (nonempty c.mnemonic).1 k)
  ],
)

-- A check and what follows it pass together.
check-both :
    {P Q : Type 0} (c : Bool) (e : String) (rest : Result String (Unit {0}))
    → ((c ≡ false) ↔ P)
    → ((rest ≡ ok tt) ↔ Q)
    → ((check c e rest ≡ ok tt) ↔ (P × Q))
check-both true e rest p q = (λ h. absurd (ground arith), λ h. absurd (ground (arith, p.1 h.0)))
check-both false e rest p q = (λ h. (p.0 refl, q.0 h), λ h. q.1 h.1)

check-last :
    {P : Type 0} (c : Bool) (e : String) → ((c ≡ false) ↔ P) → ((check c e (ok tt) ≡ ok tt) ↔ P)
check-last true e p = (λ h. absurd (ground arith), λ h. absurd (ground (arith, p.1 h)))
check-last false e p = (λ h. p.0 refl, λ h. refl)

-- The validation accepts exactly the configurations that have what the relayer needs.
pub validate_config-IsComplete : (c : Config) → (validate_config c ≡ ok tt) ↔ IsComplete c
unfolding validate_config IsComplete
validate_config-IsComplete c =
    check-both (c.cronos.chain_id == "") _ _ (nonempty c.cronos.chain_id) (
      check-both (c.cronos.rpc_endpoint == "") _ _ (nonempty c.cronos.rpc_endpoint) (
        check-both (c.ethereum.chain_id == "") _ _ (nonempty c.ethereum.chain_id) (
          check-both (c.ethereum.rpc_endpoint == "") _ _ (nonempty c.ethereum.rpc_endpoint) (
            check-both (has_no_key c.cronos) _ _ (has_key c.cronos) (
              check-both (has_no_key c.ethereum) _ _ (has_key c.ethereum) (
                check-both (c.cronos_contracts.escrow_factory == "") _ _
                  (nonempty c.cronos_contracts.escrow_factory)
                  (check-last (c.ethereum_contracts.escrow_factory == "") _
                    (nonempty c.ethereum_contracts.escrow_factory))))))))

-- A variable without default counts as what it holds, and one with a default is never empty.
plain : (env : String → String) (key : String) → get_env_or_default env key "" ≡ env key
unfolding get_env_or_default
plain env key = ground (arith, eq_iff (env key) "")

defaulted : (env : String → String) (key d : String) → d ≢ "" → get_env_or_default env key d ≢ ""
unfolding get_env_or_default
defaulted env key d h e = ground (arith, h, e, eq_iff (env key) "")

complete-IsSufficient : (env : String → String) → IsComplete (config_of_env env) → IsSufficient env
unfolding IsComplete IsSufficient config_of_env
complete-IsSufficient env (_, (a, (_, (b, (k, (l, (f, g))))))) = (
  rw (plain env "BRIDGE_CRONOS_RPC_ENDPOINT") at a,
  rw (plain env "BRIDGE_ETHEREUM_RPC_ENDPOINT") at b,
  rw (plain env "BRIDGE_CRONOS_PRIVATE_KEY", plain env "BRIDGE_CRONOS_MNEMONIC") at k,
  rw (plain env "BRIDGE_ETHEREUM_PRIVATE_KEY", plain env "BRIDGE_ETHEREUM_MNEMONIC") at l,
  rw (plain env "BRIDGE_CRONOS_ESCROW_FACTORY") at f,
  rw (plain env "BRIDGE_ETHEREUM_ESCROW_FACTORY") at g,
)

sufficient-IsComplete : (env : String → String) → IsSufficient env → IsComplete (config_of_env env)
unfolding IsComplete IsSufficient config_of_env
sufficient-IsComplete env (a, b, k, l, f, g) = (
  defaulted env "BRIDGE_CRONOS_CHAIN_ID" "cronos_777-1" (λ e. cc),
  (
    rw (plain env "BRIDGE_CRONOS_RPC_ENDPOINT") a,
    (
      defaulted env "BRIDGE_ETHEREUM_CHAIN_ID" "1" (λ e. cc),
      (
        rw (plain env "BRIDGE_ETHEREUM_RPC_ENDPOINT") b,
        (
          rw (plain env "BRIDGE_CRONOS_PRIVATE_KEY", plain env "BRIDGE_CRONOS_MNEMONIC") k,
          (
            rw (plain env "BRIDGE_ETHEREUM_PRIVATE_KEY", plain env "BRIDGE_ETHEREUM_MNEMONIC") l,
            (
              rw (plain env "BRIDGE_CRONOS_ESCROW_FACTORY") f,
              rw (plain env "BRIDGE_ETHEREUM_ESCROW_FACTORY") g,
            ),
          ),
        ),
      ),
    ),
  ),
)

validated-ok : (c : Config) (r : Result String (Unit {0})) → (validated c r ≡ ok c) ↔ (r ≡ ok tt)
validated-ok c (ok u) = (λ h. refl, λ h. refl)
validated-ok c (err e) = (λ h. absurd (ground (arith, h)), λ h. absurd (ground (arith, h)))

-- An environment gives the configuration that its variables and the defaults spell exactly if it sets the
-- endpoints of both chains, a key or a mnemonic for each, and both factories.
pub get_config_from_env-IsSufficient :
    (env : String → String) → (get_config_from_env env ≡ ok (config_of_env env)) ↔ IsSufficient env
unfolding get_config_from_env
get_config_from_env-IsSufficient env =
    let c = config_of_env env in
    let valid = validated-ok c (validate_config c) in
    let complete = validate_config-IsComplete c in
    (
      λ h. complete-IsSufficient env (complete.0 (valid.0 h)),
      λ h. valid.1 (complete.1 (sufficient-IsComplete env h)),
    )
