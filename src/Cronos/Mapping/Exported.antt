-- ===== src/Cronos/Mapping/Exported.antt =====
-- What ExportGenesis puts into the genesis state, and whether InitGenesis takes it.
use mathlib.Core.Path.{subst, sym}
use mathlib.Core.List.{Memᴰ}
use mathlib.Core.List.Memᴰ.{head, tail}
use cosmos_swap.Prelude.{
  ℕ, has_prefix, ◌≡◌, refl, ap, inl, inr, true, false, Option, none, some, List, [], ◌∷◌, Bytes, ok,
  err, arith, Result-cases, ◌>>=◌, ◌>>◌,
}
use cosmos_swap.Cronos.{
  address_of, nonempty, Platform, PlatformLaws, State, M, Error, panic, TokenMapping, GenesisState,
  is_external, or_panic, register_external, register_externals, init_genesis, export_genesis,
  get_external_contracts, get_auto_contracts, token_mappings, unprefixed, set_params, get_params,
  get_external_contract_by_denom, get_auto_contract_by_denom,
}

module _ (p : Platform) (laws : PlatformLaws p) where
  abbrev pub mapping : Bytes → p.Address → TokenMapping
  mapping denom a = record { denom = denom; contract = p.address_hex a }

  mem-token_mappings :
      (key value : Bytes) (entries : List (Bytes × Bytes))
      → Memᴰ (key, value) entries
      → Memᴰ (mapping (unprefixed p key) (p.bytes_to_address value)) (token_mappings p entries)
  unfolding token_mappings
  mem-token_mappings key value [] d = elim d [ ]
  mem-token_mappings key value ((k, v) ∷ entries) (head e) = head cc
  mem-token_mappings key value ((k, v) ∷ entries) (tail m) =
      tail (mem-token_mappings key value entries m)

  read :
      (o : Option Bytes) (a : p.Address)
      → address_of p (nonempty p o) ≡ some a
      → (v : Bytes) × (o ≡ some v) × (p.bytes_to_address v ≡ a)
  read none a e = cc
  read (some []) a e = cc
  read (some (b ∷ bs)) a e = (b ∷ bs, refl, cc)

  iterated :
      (s : State p) (b : ℕ) (denom : Bytes) (a : p.Address)
      → address_of p (nonempty p (p.kv.get s.store (b ∷ denom))) ≡ some a
      → Memᴰ (mapping denom a) (token_mappings p (p.kv.iterate s.store (b ∷ [])))
  iterated s b denom a e =
      let r = read (p.kv.get s.store (b ∷ denom)) a e in
      let here : has_prefix (b ∷ denom) (b ∷ []) ≡ true = ground arith in
      let d = laws.kv_laws.iterate-get s.store (b ∷ []) (b ∷ denom) r.0 r.1 here in
      subst (λ x. Memᴰ (mapping denom x) (token_mappings p (p.kv.iterate s.store (b ∷ [])))) r.2
        (mem-token_mappings (b ∷ denom) r.0 (p.kv.iterate s.store (b ∷ [])) d)

  exported :
      (s : State p) (g : GenesisState)
      → (export_genesis p s).0 ≡ ok g
      → (g.external_contracts ≡ get_external_contracts p s)
        × (g.auto_contracts ≡ get_auto_contracts p s)
  unfolding export_genesis get_params
  exported s g e = (ground (arith, e), ground (arith, e))

  -- The genesis state that is exported has every contract that the getters find, external and automatic.
  pub export_genesis_complete :
      (s : State p) (g : GenesisState) (denom : Bytes) (a : p.Address)
      → (export_genesis p s).0 ≡ ok g
      → (get_external_contract_by_denom p denom s ≡ some a
          → Memᴰ (mapping denom a) g.external_contracts)
        × (get_auto_contract_by_denom p denom s ≡ some a → Memᴰ (mapping denom a) g.auto_contracts)
  unfolding get_external_contracts get_auto_contracts get_external_contract_by_denom
      get_auto_contract_by_denom
  export_genesis_complete s g denom a e =
      let x = exported s g e in
      (
        λ f. subst (λ ms. Memᴰ (mapping denom a) ms) (sym x.0) (iterated s 1 denom a f),
        λ f. subst (λ ms. Memᴰ (mapping denom a) ms) (sym x.1) (iterated s 2 denom a f),
      )

  or_panic_panics :
      {A : Type 0} (m : M p A) (s : State p) (x : Error) → (or_panic p m s).0 ≡ err x → x ≡ panic
  unfolding or_panic
  or_panic_panics m s x e = ground arith

  register_external_panics :
      (n : TokenMapping) (s : State p) (x : Error) → (register_external p n s).0 ≡ err x → x ≡ panic
  unfolding register_external or_panic
  register_external_panics n s x e = ground arith

  register_external_refused :
      (n : TokenMapping) (s : State p)
      → is_external n.denom ≡ false
      → (register_external p n s).0 ≡ err panic
  unfolding register_external
  register_external_refused n s h = ground arith

  register_externals_refused :
      (ms : List TokenMapping) (m : TokenMapping) (s : State p)
      → Memᴰ m ms
      → is_external m.denom ≡ false
      → (register_externals p ms s).0 ≡ err panic
  unfolding register_externals
  register_externals_refused [] m s d h = elim d [ ]
  register_externals_refused (n ∷ ms) m s (head e) h =
      let f : is_external n.denom ≡ false = cc in
      let y = register_external_refused n s f in rw (y, ◌>>◌, ◌>>=◌) refl
  register_externals_refused (n ∷ ms) m s (tail d) h =
      elim (Result-cases (register_external p n s).0) [
        | inl (_, y) ↦
            rw (y, ◌>>◌, ◌>>=◌) (register_externals_refused ms m (register_external p n s).1 d h)
        | inr (x, y) ↦ rw (y, ◌>>◌, ◌>>=◌) (ap err (register_external_panics n s x y))
      ]

  -- The genesis state that is exported from a state with an external contract for a denomination that is
  -- neither of IBC nor of the gravity bridge, such as a source coin's, is refused by InitGenesis.
  pub export_genesis_refused :
      (s t : State p) (g : GenesisState) (denom : Bytes) (a : p.Address)
      → (export_genesis p s).0 ≡ ok g
      → get_external_contract_by_denom p denom s ≡ some a
      → is_external denom ≡ false
      → (init_genesis p g t).0 ≡ err panic
  unfolding init_genesis
  export_genesis_refused s t g denom a e found h =
      let d = (export_genesis_complete s g denom a e).0 found in
      elim (Result-cases (or_panic p (set_params p g.params) t).0) [
        | inl (_, y) ↦
            let z =
              register_externals_refused g.external_contracts (mapping denom a)
                (or_panic p (set_params p g.params) t).1 d h in
            rw (y, ◌>>◌, ◌>>=◌, z) refl
        | inr (x, y) ↦ rw (y, ◌>>◌, ◌>>=◌) (ap err (or_panic_panics (set_params p g.params) t x y))
      ]
