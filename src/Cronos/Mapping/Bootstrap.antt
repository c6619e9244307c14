-- ===== src/Cronos/Mapping/Bootstrap.antt =====
-- The token mapping that a genesis state sets up.
use cosmos_swap.Prelude.{
  ◌≡◌, ◌≢◌, refl, inl, inr, true, not, none, List, [], ◌∷◌, Bytes, arith, Bool-cases, Result-cases,
  pure, ◌>>=◌, ◌>>◌,
}
use cosmos_swap.Cronos.{
  Platform, PlatformLaws, State, M, panic, TokenMapping, GenesisState, is_external, or_panic,
  register_external, register_externals, register_auto, register_autos, init_genesis,
  set_external_contract_for_denom, set_params, get_contract_by_denom, get_denom_by_contract,
  is_valid_coin_denom,
}
use cosmos_swap.Cronos.Mapping.Consistent.{IsConsistent, set_auto-IsConsistent}
use cosmos_swap.Cronos.Mapping.Messages.{
  Preserves, Preserves-bind, Preserves-raise_if, Preserves-read, Preserves-set,
}
use cosmos_swap.Cronos.Mapping.Conversions.{is_valid_coin_denom-nonempty}
use cosmos_swap.Cronos.Mapping.Writes.{set_params-Preserves}

is_external-nonempty : (d : Bytes) → is_external d ≡ true → d ≢ []
unfolding is_external is_valid_coin_denom
is_external-nonempty d h = is_valid_coin_denom-nonempty d (ground arith)

module _ (p : Platform) (laws : PlatformLaws p) where
  or_panic-Preserves :
      {A : Type 0} (m : M p A) → Preserves p laws m → Preserves p laws (or_panic p m)
  unfolding or_panic Preserves
  or_panic-Preserves m k = k

  register_external-Preserves : (m : TokenMapping) → Preserves p laws (register_external p m)
  unfolding register_external Preserves
  register_external-Preserves m s k = elim (Bool-cases (is_external m.denom)) [
    | inr f ↦ rw f k
    | inl t ↦
        let set =
          or_panic p (set_external_contract_for_denom p m.denom (p.hex_to_address m.contract)) in
        rw t (
          Preserves-raise_if p laws (not (p.is_hex_address m.contract)) panic set
            (or_panic-Preserves
              (set_external_contract_for_denom p m.denom (p.hex_to_address m.contract))
              (Preserves-set p laws m.denom (p.hex_to_address m.contract)
                (is_external-nonempty m.denom t)))
            s k)
  ]

  register_externals-Preserves :
      (ms : List TokenMapping) → Preserves p laws (register_externals p ms)
  unfolding register_externals
  register_externals-Preserves [] = Preserves-read p laws (pure tt) (λ s. refl)
  register_externals-Preserves (m ∷ ms) =
      Preserves-bind p laws (register_external p m) (λ _. register_externals p ms)
        (register_external-Preserves m) (λ _. register_externals-Preserves ms)

  -- Each mapping, when its turn comes, is of a denomination without a contract and of a contract
  -- without a denomination.
  abbrev pub AreFresh : List TokenMapping → State p → Type 0
  AreFresh [] s = Unit
  AreFresh (m ∷ ms) s =
      (get_contract_by_denom p m.denom s ≡ none)
      × (get_denom_by_contract p (p.hex_to_address m.contract) s ≡ none)
      × AreFresh ms (register_auto p m s).1

  register_auto-IsConsistent :
      (m : TokenMapping) (s : State p)
      → get_contract_by_denom p m.denom s ≡ none
      → get_denom_by_contract p (p.hex_to_address m.contract) s ≡ none
      → IsConsistent p s
      → IsConsistent p (register_auto p m s).1
  unfolding register_auto
  register_auto-IsConsistent m s a b k = elim (Bool-cases (is_external m.denom)) [
    | inr f ↦ rw f k
    | inl t ↦ elim (Bool-cases (p.is_hex_address m.contract)) [
      | inr f ↦ rw (t, f) k
      | inl u ↦
          rw (t, u)
            (set_auto-IsConsistent p laws s k m.denom (p.hex_to_address m.contract)
              (is_external-nonempty m.denom t) a b)
    ]
  ]

  register_autos-IsConsistent :
      (ms : List TokenMapping) (s : State p)
      → AreFresh ms s
      → IsConsistent p s
      → IsConsistent p (register_autos p ms s).1
  unfolding register_autos
  register_autos-IsConsistent [] s f k = k
  register_autos-IsConsistent (m ∷ ms) s f k =
      let l = register_auto-IsConsistent m s f.0 f.1 k in
      elim (Result-cases (register_auto p m s).0) [
        | inl (_, y) ↦
            rw (y, ◌>>◌, ◌>>=◌) (register_autos-IsConsistent ms (register_auto p m s).1 f.2 l)
        | inr (x, y) ↦ rw (y, ◌>>◌, ◌>>=◌) l
      ]

  -- A genesis sets up a consistent mapping from a consistent one, whether it panics or not, if each
  -- automatic mapping, when its turn comes, is of a denomination without a contract and of a contract
  -- without a denomination.
  pub init_genesis-IsConsistent :
      (g : GenesisState) (s : State p)
      → IsConsistent p s
      → AreFresh g.auto_contracts
          (register_externals p g.external_contracts (or_panic p (set_params p g.params) s).1).1
      → IsConsistent p (init_genesis p g s).1
  unfolding init_genesis Preserves
  init_genesis-IsConsistent g s k f =
      let s1 = (or_panic p (set_params p g.params) s).1 in
      let k1 =
        or_panic-Preserves (set_params p g.params) (set_params-Preserves p laws g.params) s k in
      let k2 = register_externals-Preserves g.external_contracts s1 k1 in
      elim (Result-cases (or_panic p (set_params p g.params) s).0) [
        | inr (x, y) ↦ rw (y, ◌>>◌, ◌>>=◌) k1
        | inl (_, y) ↦ elim (Result-cases (register_externals p g.external_contracts s1).0) [
          | inr (x, z) ↦ rw (y, ◌>>◌, ◌>>=◌, z) k2
          | inl (_, z) ↦
              rw (y, ◌>>◌, ◌>>=◌, z)
                (register_autos-IsConsistent g.auto_contracts
                  (register_externals p g.external_contracts s1).1 f k2)
        ]
      ]
