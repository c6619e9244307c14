-- ===== src/Cronos/Backing/Convert.antt =====
-- The conversions and transfers of coins keep the coins of the EVM backed.
use cosmos_swap.Prelude.{
  ℕ, ◌≡◌, ◌≢◌, refl, Bool, false, not, none, some, [], ◌∷◌, Bytes, bytes_eq, bytes_beq_iff, nat_eq,
  String, Option, arith, raise_if, pure, gets, ◌>>=◌, ◌>>◌,
}
use cosmos_swap.Cronos.{
  Coin, burn, send_to_module, Platform, M, call, get_contract_by_denom, send_coins, EvmMessage,
  EvmResponse, default_gas_cap, call_failed, not_supported, no_contract, burn_and_unlock,
  lock_and_mint, exchange, find_and_exchange, run_message, apply_message, call_evm,
  call_module_crc21, deploy_module_crc21, contract_or_deploy, is_source_coin, is_valid_coin_denom,
  convert_coin_from_native_to_crc21, set_auto_contract_for_denom,
}
use cosmos_swap.Cronos.Backing.{
  created, destroyed, total-append, IsEven, Keeps, Keeps-bind, Keeps-pure, Keeps-gets,
  Keeps-raise_if, Keeps-if, Keeps-call,
}

module _ (p : Platform) (cro : Bytes) where
  run_message-Keeps : (msg : EvmMessage p.Address) → Keeps p cro (run_message p msg)
  unfolding Keeps IsEven created destroyed
  run_message-Keeps msg s a e = ground (
    arith,
    total-append p cro (created p cro) s.calls (apply_message msg ∷ []),
    total-append p cro (destroyed p cro) s.calls (apply_message msg ∷ []),
  )

  abbrev message : Option p.Address → Bytes → ℕ → ℕ → EvmMessage p.Address
  message to input gas n = record {
    from = p.evm_module_address;
    to = to;
    nonce = n;
    gas_limit = gas;
    input = input;
  }

  call_evm-Keeps :
      (to : Option p.Address) (input : Bytes) (gas : ℕ) → Keeps p cro (call_evm p to input gas)
  unfolding call_evm
  call_evm-Keeps to input gas =
      Keeps-bind p cro (gets (λ s. p.get_nonce s.calls))
        (λ n. run_message p (message to input gas n) >>= λ r. pure (message to input gas n, r))
        (Keeps-gets p cro (λ s. p.get_nonce s.calls))
        (λ n.
          Keeps-bind p cro (run_message p (message to input gas n))
            (λ r. pure (message to input gas n, r)) (run_message-Keeps (message to input gas n))
            (λ r. Keeps-pure p cro (message to input gas n, r)))

  call_module_crc21-Keeps :
      (contract : p.Address) (method : String) (account : p.Address) (amount : ℕ)
      → Keeps p cro (call_module_crc21 p contract method account amount)
  unfolding call_module_crc21
  call_module_crc21-Keeps contract method account amount =
      let input = p.pack method account amount in
      Keeps-bind p cro (call_evm p (some contract) input default_gas_cap)
        (λ r. raise_if r.1.failed call_failed >> pure r.1.ret)
        (call_evm-Keeps (some contract) input default_gas_cap)
        (λ r.
          Keeps-raise_if p cro r.1.failed call_failed (pure r.1.ret)
            (λ _. Keeps-pure p cro r.1.ret))

  deploy_module_crc21-Keeps : (denom : Bytes) → Keeps p cro (deploy_module_crc21 p denom)
  unfolding deploy_module_crc21
  deploy_module_crc21-Keeps denom =
      let address = λ (r : EvmMessage p.Address × EvmResponse).
        p.create_address p.evm_module_address r.0.nonce in
      Keeps-bind p cro (call_evm p none (p.deployment denom) default_gas_cap)
        (λ r. raise_if r.1.failed call_failed >> pure (address r))
        (call_evm-Keeps none (p.deployment denom) default_gas_cap)
        (λ r.
          Keeps-raise_if p cro r.1.failed call_failed (pure (address r))
            (λ _. Keeps-pure p cro (address r)))

  set_auto-Keeps :
      (denom : Bytes) (a : p.Address) → Keeps p cro (set_auto_contract_for_denom p denom a)
  unfolding set_auto_contract_for_denom Keeps IsEven
  set_auto-Keeps denom a s x e = omega arith

  contract_or_deploy-Keeps :
      (denom : Bytes) (auto : Bool) (o : Option p.Address)
      → Keeps p cro (contract_or_deploy p denom auto o)
  unfolding contract_or_deploy
  contract_or_deploy-Keeps denom auto (some a) = Keeps-pure p cro a
  contract_or_deploy-Keeps denom auto none =
      let store : p.Address → M p p.Address =
        λ a. set_auto_contract_for_denom p denom a >> pure a in
      Keeps-raise_if p cro (not auto) no_contract (deploy_module_crc21 p denom >>= store) (λ _.
        Keeps-bind p cro (deploy_module_crc21 p denom) store (deploy_module_crc21-Keeps denom) (λ a.
          Keeps-bind p cro (set_auto_contract_for_denom p denom a) (λ _. pure a)
            (set_auto-Keeps denom a) (λ _. Keeps-pure p cro a)))

  module _ (sender : p.Address) (coin : Coin) (foreign : coin.denom ≢ cro) where
    burn_and_unlock-Keeps :
        coin.denom ≢ p.evm_denom
        → (contract : p.Address) → Keeps p cro (burn_and_unlock p sender coin contract)
    unfolding burn_and_unlock created destroyed
    burn_and_unlock-Keeps other contract =
        let unlock =
          call_module_crc21 p contract "transfer_from_cronos_module" sender coin.amount in
        let take = send_to_module (p.address_bytes sender) coin in
        Keeps-bind p cro (call p take) (λ _. call p (burn coin) >> unlock)
          (Keeps-call p cro take (ground (arith, bytes_beq_iff coin.denom cro)))
          (λ _.
            Keeps-bind p cro (call p (burn coin)) (λ _. unlock)
              (Keeps-call p cro (burn coin) (ground (arith, bytes_beq_iff coin.denom p.evm_denom)))
              (λ _.
                call_module_crc21-Keeps contract "transfer_from_cronos_module" sender coin.amount))

    lock_and_mint-Keeps :
        (contract : p.Address) → Keeps p cro (lock_and_mint p sender coin contract)
    unfolding lock_and_mint created destroyed
    lock_and_mint-Keeps contract =
        let lock = send_coins (p.address_bytes sender) (p.address_bytes contract) coin in
        Keeps-bind p cro (call p lock)
          (λ _. call_module_crc21 p contract "mint_by_cronos_module" sender coin.amount)
          (Keeps-call p cro lock refl)
          (λ _. call_module_crc21-Keeps contract "mint_by_cronos_module" sender coin.amount)

    -- A coin that is no voucher of CRO moves no coins of the EVM.
    pub convert_coin-Keeps :
        (auto : Bool)
        → is_valid_coin_denom p.evm_denom ≡ false
        → Keeps p cro (convert_coin_from_native_to_crc21 p sender coin auto)
    unfolding convert_coin_from_native_to_crc21 find_and_exchange exchange
    convert_coin-Keeps auto unlisted =
        Keeps-raise_if p cro (not (is_valid_coin_denom coin.denom)) not_supported
          (find_and_exchange p sender coin auto)
          (λ valid.
            Keeps-bind p cro (gets (get_contract_by_denom p coin.denom))
              (λ found. contract_or_deploy p coin.denom auto found >>= exchange p sender coin)
              (Keeps-gets p cro (get_contract_by_denom p coin.denom))
              (λ found.
                Keeps-bind p cro (contract_or_deploy p coin.denom auto found)
                  (exchange p sender coin) (contract_or_deploy-Keeps coin.denom auto found)
                  (λ contract.
                    Keeps-if p cro (is_source_coin coin.denom)
                      (burn_and_unlock p sender coin contract)
                      (lock_and_mint p sender coin contract)
                      (burn_and_unlock-Keeps (λ e. ground (arith, valid, unlisted)) contract)
                      (lock_and_mint-Keeps contract))))
