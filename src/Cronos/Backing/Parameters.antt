-- ===== src/Cronos/Backing/Parameters.antt =====
-- A conversion of vouchers leaves the parameters of the module as they are.
use cosmos_swap.Prelude.{
  ◌≡◌, refl, ap, ◌∙◌, inl, inr, Bool, true, false, not, Option, none, some, List, [], ◌∷◌, Bytes,
  bytes_eq, bytes_beq, nat_eq, ◌==◌, ok, arith, Result-cases, Bool-cases, pure, gets, raise_if,
  ◌>>=◌, ◌>>◌,
}
use cosmos_swap.Cronos.{
  Platform, PlatformLaws, State, Error, M, Params, Coin, params_key, get_params,
  set_auto_contract_for_denom, call_evm, deploy_module_crc21, contract_or_deploy, exchange,
  burn_and_unlock, lock_and_mint, call_module_crc21, find_and_exchange,
  convert_coin_from_native_to_crc21, convert_cro, convert_voucher, convert_vouchers,
  convert_vouchers_to_evm_coins, get_contract_by_denom, is_valid_coin_denom, not_supported,
  no_contract, from_external, auto_contract_key, denom_key,
}
use cosmos_swap.Cronos.Logs.{
  LeavesStore, LeavesStore-gets, LeavesStore-pure, from_external-LeavesStore,
  get_params-LeavesStore,
}

module _ (p : Platform) (laws : PlatformLaws p) where
  unfoldable pub KeepsParams : {A : Type 0} → M p A → Type 0
  KeepsParams m = (s : State p) → p.kv.get (m s).1.store params_key ≡ p.kv.get s.store params_key

  KeepsParams-bind :
      {A B : Type 0} (m : M p A) (f : A → M p B)
      → KeepsParams m
      → ((a : A) → KeepsParams (f a))
      → KeepsParams (m >>= f)
  unfolding KeepsParams
  KeepsParams-bind m f k l s = elim (Result-cases (m s).0) [
    | inl (a, y) ↦ rw (y, ◌>>=◌) (l a (m s).1 ∙ k s)
    | inr (x, y) ↦ rw (y, ◌>>=◌) (k s)
  ]

  pub of_LeavesStore : {A : Type 0} (m : M p A) → LeavesStore p m → KeepsParams m
  unfolding KeepsParams LeavesStore
  of_LeavesStore m l s = ap (λ st. p.kv.get st params_key) (l s)

  KeepsParams-raise_if :
      {A : Type 0} (c : Bool) (x : Error) (m : M p A)
      → KeepsParams m
      → KeepsParams (raise_if c x >> m)
  unfolding KeepsParams
  KeepsParams-raise_if true x m k s = refl
  KeepsParams-raise_if false x m k s = k s

  set_auto-KeepsParams :
      (denom : Bytes) (a : p.Address) → KeepsParams (set_auto_contract_for_denom p denom a)
  unfolding KeepsParams set_auto_contract_for_denom bytes_beq
  set_auto-KeepsParams denom a s = ground (
    arith,
    laws.kv_laws.get-set s.store (auto_contract_key denom) (p.address_bytes a) params_key,
    laws.kv_laws.get-set (p.kv.set s.store (auto_contract_key denom) (p.address_bytes a))
        (denom_key (p.address_bytes a)) denom params_key,
  )

  deploy-LeavesStore : (denom : Bytes) → LeavesStore p (deploy_module_crc21 p denom)
  unfolding LeavesStore deploy_module_crc21 call_evm
  deploy-LeavesStore denom s = ground arith

  exchange-LeavesStore :
      (sender : p.Address) (c : Coin) (contract : p.Address)
      → LeavesStore p (exchange p sender c contract)
  unfolding LeavesStore exchange burn_and_unlock lock_and_mint call_module_crc21 call_evm
  exchange-LeavesStore sender c contract s = ground arith

  convert_cro-LeavesStore :
      (q : Params) (acc : Bytes) (c : Coin) → LeavesStore p (convert_cro p q acc c)
  unfolding LeavesStore convert_cro
  convert_cro-LeavesStore q acc c s = ground arith

  contract_or_deploy-KeepsParams :
      (denom : Bytes) (auto : Bool) (o : Option p.Address)
      → KeepsParams (contract_or_deploy p denom auto o)
  unfolding contract_or_deploy KeepsParams
  contract_or_deploy-KeepsParams denom auto (some a) = λ s. refl
  contract_or_deploy-KeepsParams denom auto none =
      let store : p.Address → M p p.Address =
        λ a. set_auto_contract_for_denom p denom a >> pure a in
      KeepsParams-raise_if (not auto) no_contract (deploy_module_crc21 p denom >>= store) (
        KeepsParams-bind (deploy_module_crc21 p denom) store
          (of_LeavesStore (deploy_module_crc21 p denom) (deploy-LeavesStore denom))
          (λ a.
            KeepsParams-bind (set_auto_contract_for_denom p denom a) (λ _. pure a)
              (set_auto-KeepsParams denom a) (λ _ s. refl)))

  convert_coin-KeepsParams :
      (sender : p.Address) (c : Coin) (auto : Bool)
      → KeepsParams (convert_coin_from_native_to_crc21 p sender c auto)
  unfolding convert_coin_from_native_to_crc21 find_and_exchange
  convert_coin-KeepsParams sender c auto =
      KeepsParams-raise_if (not (is_valid_coin_denom c.denom)) not_supported
        (find_and_exchange p sender c auto)
        (KeepsParams-bind (gets (get_contract_by_denom p c.denom))
          (λ found. contract_or_deploy p c.denom auto found >>= exchange p sender c)
          (of_LeavesStore (gets (get_contract_by_denom p c.denom))
            (LeavesStore-gets p (get_contract_by_denom p c.denom)))
          (λ found.
            KeepsParams-bind (contract_or_deploy p c.denom auto found) (exchange p sender c)
              (contract_or_deploy-KeepsParams c.denom auto found)
              (λ a. of_LeavesStore (exchange p sender c a) (exchange-LeavesStore sender c a))))

  convert_voucher-KeepsParams :
      (q : Params) (acc : Bytes) (c : Coin) → KeepsParams (convert_voucher p q acc c)
  unfolding convert_voucher
  convert_voucher-KeepsParams q acc c = elim (Bool-cases (c.denom == q.ibc_cro_denom)) [
    | inl y ↦ rw y (of_LeavesStore (convert_cro p q acc c) (convert_cro-LeavesStore q acc c))
    | inr n ↦
        let a = p.bytes_to_address acc in
        let auto = q.enable_auto_deployment in
        rw n (
          KeepsParams-bind (convert_coin_from_native_to_crc21 p a c auto) (λ _. pure tt)
            (convert_coin-KeepsParams a c auto)
            (λ _. of_LeavesStore (pure tt) (LeavesStore-pure p tt)))
  ]

  convert_vouchers-KeepsParams :
      (q : Params) (acc : Bytes) (cs : List Coin) → KeepsParams (convert_vouchers p q acc cs)
  unfolding convert_vouchers
  convert_vouchers-KeepsParams q acc [] = of_LeavesStore (pure tt) (LeavesStore-pure p tt)
  convert_vouchers-KeepsParams q acc (c ∷ cs) =
      KeepsParams-bind (convert_voucher p q acc c) (λ _. convert_vouchers p q acc cs)
        (convert_voucher-KeepsParams q acc c) (λ _. convert_vouchers-KeepsParams q acc cs)

  pub convert_vouchers_to_evm_coins-KeepsParams :
      (from : Bytes) (cs : List Coin) → KeepsParams (convert_vouchers_to_evm_coins p from cs)
  unfolding convert_vouchers_to_evm_coins
  convert_vouchers_to_evm_coins-KeepsParams from cs =
      let each = λ (acc : Bytes) (q : Params). convert_vouchers p q acc cs in
      KeepsParams-bind (from_external p (p.acc_from_bech32 from)) (λ acc. get_params p >>= each acc)
        (of_LeavesStore (from_external p (p.acc_from_bech32 from))
          (from_external-LeavesStore p (p.acc_from_bech32 from)))
        (λ acc.
          KeepsParams-bind (get_params p) (each acc)
            (of_LeavesStore (get_params p) (get_params-LeavesStore p))
            (λ q. convert_vouchers-KeepsParams q acc cs))

  params_of :
      (s t : State p)
      → p.kv.get t.store params_key ≡ p.kv.get s.store params_key
      → get_params p t ≡ ((get_params p s).0, t)
  unfolding get_params
  params_of s t e = ground (arith, e)

  -- The same entry of the store gives the same parameters.
  pub params_stay :
      (q : Params) (s t : State p)
      → p.kv.get t.store params_key ≡ p.kv.get s.store params_key
      → get_params p s ≡ (ok q, s)
      → get_params p t ≡ (ok q, t)
  params_stay q s t e h = let r = params_of s t e in rw h at r
