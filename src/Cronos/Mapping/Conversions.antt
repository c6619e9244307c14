-- ===== src/Cronos/Mapping/Conversions.antt =====
-- A conversion of coins to tokens keeps the token mapping consistent, also when it deploys a contract.
use mathlib.Core.Path.{subst}
use cosmos_swap.Prelude.{
  ℕ, ◌≡◌, ◌≢◌, refl, sym, ◌∙◌, ◌⊎◌, inl, inr, Bool, true, Option, none, some, [], ◌∷◌, ◌++◌, Bytes,
  String, nat_eq, ok, err, arith, Option-cases, Bool-cases, Result-cases, raise_if, pure, gets,
  ◌>>=◌, ◌>>◌,
}
use cosmos_swap.Cronos.{
  Platform, PlatformLaws, State, Error, Coin, EvmMessage, EvmResponse, call, run_message,
  apply_message, call_evm, call_module_crc21, call_failed, deploy_module_crc21, contract_or_deploy,
  burn_and_unlock, lock_and_mint, exchange, find_and_exchange, convert_coin_from_native_to_crc21,
  get_contract_by_denom, get_denom_by_contract, set_auto_contract_for_denom,
  get_external_contract_by_denom, get_auto_contract_by_denom, is_source_coin, is_valid_coin_denom,
  is_valid_ibc_denom, is_valid_gravity_denom, is_valid_cronos_denom, send_to_module, burn,
  send_coins, default_gas_cap,
}
use cosmos_swap.Cronos.Mapping.Consistent.{IsConsistent, set_auto-IsConsistent}
use cosmos_swap.Cronos.Mapping.Messages.{
  Preserves, IsConsistent-bind, Preserves-bind, Preserves-call, Preserves-raise_if, Preserves-read,
  with_calls,
}

pub is_valid_coin_denom-nonempty : (d : Bytes) → is_valid_coin_denom d ≡ true → d ≢ []
unfolding is_valid_coin_denom is_valid_ibc_denom is_valid_gravity_denom is_valid_cronos_denom
is_valid_coin_denom-nonempty [] h e = ground arith
is_valid_coin_denom-nonempty (b ∷ bs) h e = cc

module _ (p : Platform) (laws : PlatformLaws p) where
  run_message-Preserves : (msg : EvmMessage p.Address) → Preserves p laws (run_message p msg)
  unfolding Preserves
  run_message-Preserves msg s k = elim (Result-cases (p.evm_answer s.calls msg)) [
    | inl (r, y) ↦ rw (y, run_message) (with_calls p laws s (s.calls ++ apply_message msg ∷ []) k)
    | inr (x, y) ↦ rw (y, run_message) k
  ]

  abbrev message : Option p.Address → Bytes → ℕ → ℕ → EvmMessage p.Address
  message to input gas n = record {
    from = p.evm_module_address;
    to = to;
    nonce = n;
    gas_limit = gas;
    input = input;
  }

  call_evm-Preserves :
      (to : Option p.Address) (input : Bytes) (gas : ℕ) → Preserves p laws (call_evm p to input gas)
  unfolding call_evm
  call_evm-Preserves to input gas =
      let run = λ (n : ℕ). run_message p (message to input gas n) in
      let back =
        λ (n : ℕ) (r : EvmResponse). pure {S = State p} {E = Error} (message to input gas n, r) in
      Preserves-bind p laws (gets (λ s. p.get_nonce s.calls)) (λ n. run n >>= back n)
        (Preserves-read p laws (gets (λ s. p.get_nonce s.calls)) (λ s. refl))
        (λ n.
          Preserves-bind p laws (run n) (back n) (run_message-Preserves (message to input gas n))
            (λ r. Preserves-read p laws (back n r) (λ s. refl)))

  call_module_crc21-Preserves :
      (contract : p.Address) (method : String) (account : p.Address) (amount : ℕ)
      → Preserves p laws (call_module_crc21 p contract method account amount)
  unfolding call_module_crc21
  call_module_crc21-Preserves contract method account amount =
      let input = p.pack method account amount in
      Preserves-bind p laws (call_evm p (some contract) input default_gas_cap)
        (λ r. raise_if r.1.failed call_failed >> pure r.1.ret)
        (call_evm-Preserves (some contract) input default_gas_cap)
        (λ r.
          Preserves-raise_if p laws r.1.failed call_failed (pure r.1.ret)
            (Preserves-read p laws (pure r.1.ret) (λ s. refl)))

  exchange-Preserves :
      (sender : p.Address) (coin : Coin) (contract : p.Address)
      → Preserves p laws (exchange p sender coin contract)
  unfolding exchange burn_and_unlock lock_and_mint
  exchange-Preserves sender coin contract = elim (Bool-cases (is_source_coin coin.denom)) [
    | inl y ↦
        let unlock =
          call_module_crc21 p contract "transfer_from_cronos_module" sender coin.amount in
        rw y (
          Preserves-bind p laws (call p (send_to_module (p.address_bytes sender) coin))
            (λ _. call p (burn coin) >> unlock)
            (Preserves-call p laws (send_to_module (p.address_bytes sender) coin))
            (λ _.
              Preserves-bind p laws (call p (burn coin)) (λ _. unlock)
                (Preserves-call p laws (burn coin))
                (λ _.
                  call_module_crc21-Preserves contract "transfer_from_cronos_module" sender
                    coin.amount)))
    | inr n ↦
        let lock = send_coins (p.address_bytes sender) (p.address_bytes contract) coin in
        rw n (
          Preserves-bind p laws (call p lock)
            (λ _. call_module_crc21 p contract "mint_by_cronos_module" sender coin.amount)
            (Preserves-call p laws lock)
            (λ _. call_module_crc21-Preserves contract "mint_by_cronos_module" sender coin.amount))
  ]

  -- A deployment leaves the store alone, and its contract has the address that the nonce gives.
  deploy_module_crc21-lem :
      (d : Bytes) (s : State p)
      → ((deploy_module_crc21 p d s).1.store ≡ s.store)
        × ((a : p.Address)
            → (deploy_module_crc21 p d s).0 ≡ ok a
            → a ≡ p.create_address p.evm_module_address (p.get_nonce s.calls))
  unfolding deploy_module_crc21 call_evm
  deploy_module_crc21-lem d s = (ground arith, λ a e. ground arith)

  same_lookups :
      (d : Bytes) (a : p.Address) (s : State p) (t : State p)
      → t.store ≡ s.store
      → (get_contract_by_denom p d t ≡ get_contract_by_denom p d s)
        × (get_denom_by_contract p a t ≡ get_denom_by_contract p a s)
  unfolding get_contract_by_denom get_external_contract_by_denom get_auto_contract_by_denom
      get_denom_by_contract
  same_lookups d a s t e = (rw e refl, rw e refl)

  same_store : (s t : State p) → t.store ≡ s.store → IsConsistent p s → IsConsistent p t
  same_store s t e k =
      subst (λ st. IsConsistent p (record { store = st; calls = t.calls })) (sym e)
        (with_calls p laws s t.calls k)

  contract_or_deploy-IsConsistent :
      (d : Bytes) (auto : Bool) (s : State p)
      → d ≢ []
      → get_denom_by_contract p (p.create_address p.evm_module_address (p.get_nonce s.calls)) s
        ≡ none
      → IsConsistent p s
      → IsConsistent p (contract_or_deploy p d auto (get_contract_by_denom p d s) s).1
  unfolding contract_or_deploy set_auto_contract_for_denom
  contract_or_deploy-IsConsistent d auto s h fresh k =
      elim (Option-cases (get_contract_by_denom p d s)) [
        | inr (a, y) ↦ rw (y, contract_or_deploy) k
        | inl n ↦ elim (Bool-cases auto) [
          | inr f ↦ rw (n, f, contract_or_deploy) k
          | inl t ↦ deployed n t (Result-cases (deploy_module_crc21 p d s).0)
        ]
      ]
    where
      stored : (deploy_module_crc21 p d s).1.store ≡ s.store
      stored = (deploy_module_crc21-lem d s).0

      left : IsConsistent p (deploy_module_crc21 p d s).1
      left = same_store s (deploy_module_crc21 p d s).1 stored k

      deployed :
          get_contract_by_denom p d s ≡ none
          → auto ≡ true
          → ((a : p.Address) × ((deploy_module_crc21 p d s).0 ≡ ok a))
            ⊎ ((x : Error) × ((deploy_module_crc21 p d s).0 ≡ err x))
          → IsConsistent p (contract_or_deploy p d auto (get_contract_by_denom p d s) s).1
      deployed n t (inr (x, y)) = rw (n, t, contract_or_deploy, y, ◌>>=◌) left
      deployed n t (inl (a, y)) =
          let s1 = (deploy_module_crc21 p d s).1 in
          let found = same_lookups d a s s1 stored in
          rw (n, t, contract_or_deploy, y, ◌>>=◌)
            (set_auto-IsConsistent p laws s1 left d a h (found.0 ∙ n)
              (found.1 ∙ rw ((deploy_module_crc21-lem d s).1 a y) fresh))

  -- A conversion of a coin to tokens keeps the mapping consistent, whether it succeeds or fails, if the
  -- address that the next deployment gets is not registered.
  pub convert_coin-IsConsistent :
      (sender : p.Address) (coin : Coin) (auto : Bool) (s : State p)
      → get_denom_by_contract p (p.create_address p.evm_module_address (p.get_nonce s.calls)) s
        ≡ none
      → IsConsistent p s
      → IsConsistent p (convert_coin_from_native_to_crc21 p sender coin auto s).1
  unfolding convert_coin_from_native_to_crc21 find_and_exchange
  convert_coin-IsConsistent sender coin auto s fresh k =
      elim (Bool-cases (is_valid_coin_denom coin.denom)) [
        | inr f ↦ rw f k
        | inl t ↦ rw t (
            IsConsistent-bind p laws
              (contract_or_deploy p coin.denom auto (get_contract_by_denom p coin.denom s))
              (exchange p sender coin) s
              (contract_or_deploy-IsConsistent coin.denom auto s
                (is_valid_coin_denom-nonempty coin.denom t) fresh k)
              (exchange-Preserves sender coin))
      ]
