-- ===== src/Cronos/Backing/Histories.antt =====
-- Histories of conversions, transfers and calls of the EVM keep the coins of the EVM backed.
use cosmos_swap.Prelude.{
  ℕ, ◌≡◌, ◌≢◌, ap, inl, inr, Bool, false, List, [], ◌∷◌, ok, arith, Result-cases, ◌>>=◌, ◌>>◌,
}
use cosmos_swap.Cronos.{
  Events, Log, post_tx_processing, cronos_handlers, Platform, PlatformLaws, State, M, Params, Coin,
  params_key, get_params, Transaction, conversion, transfer_tokens, evm_call, MsgConvertVouchers,
  MsgTransferTokens, validate_convert_vouchers, validate_transfer_tokens, convert_vouchers_msg,
  transfer_tokens_msg, handler, committed, run_transactions, is_valid_coin_denom, is_source_coin,
  convert_vouchers_to_evm_coins, ibc_transfer_coins,
}
use cosmos_swap.Cronos.Backing.{IsEven, IsEven-trans}
use cosmos_swap.Cronos.Backing.Vouchers.{
  convert_vouchers_to_evm_coins-IsEven, ibc_transfer_coins-IsEven,
}
use cosmos_swap.Cronos.Backing.Parameters.{
  KeepsParams, convert_vouchers_to_evm_coins-KeepsParams, params_stay,
}
use cosmos_swap.Cronos.Logs.{ibc_transfer_coins-LeavesStore, LeavesStore}
use cosmos_swap.Cronos.Logs.Store.{post_tx_processing-store}
use cosmos_swap.Cronos.Logs.Even.{post_tx_processing-IsEven}

module _ (p : Platform) (laws : PlatformLaws p) (is_valid is_all_positive : List Coin → Bool)
    (q : Params) (other : p.evm_denom ≢ q.ibc_cro_denom)
    (unlisted : is_valid_coin_denom p.evm_denom ≡ false)
    (foreign : is_source_coin q.ibc_cro_denom ≡ false) where
  -- Even, and the parameters are the same.
  abbrev Good : State p → State p → Type 0
  Good s t = IsEven p q.ibc_cro_denom s t × (get_params p t ≡ (ok q, t))

  Good-refl : (s : State p) → get_params p s ≡ (ok q, s) → Good s s
  unfolding IsEven
  Good-refl s h = (omega arith, h)

  -- The stateless checks of a message change nothing, and what follows runs only after they pass.
  checks-Good :
      (m n : M p (Unit {0})) (s : State p)
      → get_params p s ≡ (ok q, s)
      → (m s).1 ≡ s
      → Good s (committed p is_valid is_all_positive s (n s))
      → Good s (committed p is_valid is_all_positive s ((m >> n) s))
  checks-Good m n s h e k = elim (Result-cases (m s).0) [
    | inl (u, y) ↦ rw (y, ◌>>=◌, e) k
    | inr (x, y) ↦ rw (y, ◌>>=◌) (Good-refl s h)
  ]

  committed-Good :
      (m : M p (Unit {0})) (s : State p)
      → get_params p s ≡ (ok q, s)
      → ((m s).0 ≡ ok tt → Good s (m s).1)
      → Good s (committed p is_valid is_all_positive s (m s))
  committed-Good m s h k = elim (Result-cases (m s).0) [
    | inl (u, y) ↦ rw y (k y)
    | inr (x, y) ↦ rw y (Good-refl s h)
  ]

  convert-Good :
      (msg : MsgConvertVouchers) (s : State p)
      → get_params p s ≡ (ok q, s)
      → (convert_vouchers_msg p is_valid is_all_positive msg s).0 ≡ ok tt
      → Good s (convert_vouchers_msg p is_valid is_all_positive msg s).1
  unfolding convert_vouchers_msg KeepsParams
  convert-Good msg s h done =
      let t = (convert_vouchers_to_evm_coins p msg.address msg.coins s).1 in
      (
        convert_vouchers_to_evm_coins-IsEven p q other s h msg.address msg.coins unlisted done,
        params_stay p laws q s t
            (convert_vouchers_to_evm_coins-KeepsParams p laws msg.address msg.coins s) h,
      )

  transfer-Good :
      (now : ℕ) (msg : MsgTransferTokens) (s : State p)
      → get_params p s ≡ (ok q, s)
      → (transfer_tokens_msg p is_valid is_all_positive now msg s).0 ≡ ok tt
      → Good s (transfer_tokens_msg p is_valid is_all_positive now msg s).1
  unfolding transfer_tokens_msg LeavesStore
  transfer-Good now msg s h done =
      let t = (ibc_transfer_coins p now msg.from msg.to msg.coins [] s).1 in
      (
        ibc_transfer_coins-IsEven p q other s h msg.from msg.coins now msg.to [] done,
        params_stay p laws q s t
            (ap (λ st. p.kv.get st params_key)
              (ibc_transfer_coins-LeavesStore p now msg.from msg.to [] msg.coins s))
            h,
      )

  evm-Good :
      (now : ℕ) (ev : Events p.Address) (logs : List (Log p.Address)) (s : State p)
      → get_params p s ≡ (ok q, s)
      → (post_tx_processing p ev now (cronos_handlers p ev now) logs s).0 ≡ ok tt
      → Good s (post_tx_processing p ev now (cronos_handlers p ev now) logs s).1
  evm-Good now ev logs s h done =
      let t = (post_tx_processing p ev now (cronos_handlers p ev now) logs s).1 in
      (
        post_tx_processing-IsEven p ev now q other unlisted foreign logs s h done,
        params_stay p laws q s t
            (ap (λ st. p.kv.get st params_key) (post_tx_processing-store p ev now logs s)) h,
      )

  convert-reads :
      (msg : MsgConvertVouchers) (s : State p)
      → (validate_convert_vouchers p is_valid is_all_positive msg s).1 ≡ s
  unfolding validate_convert_vouchers
  convert-reads msg s = ground arith

  transfer-reads :
      (msg : MsgTransferTokens) (s : State p)
      → (validate_transfer_tokens p is_valid is_all_positive msg s).1 ≡ s
  unfolding validate_transfer_tokens
  transfer-reads msg s = ground arith

  handler-Good :
      (tx : Transaction p is_valid is_all_positive) (s : State p)
      → get_params p s ≡ (ok q, s)
      → Good s (committed p is_valid is_all_positive s (handler p is_valid is_all_positive tx s))
  unfolding handler
  handler-Good (conversion msg) s h =
      let run = convert_vouchers_msg p is_valid is_all_positive msg in
      checks-Good (validate_convert_vouchers p is_valid is_all_positive msg) run s h
        (convert-reads msg s) (committed-Good run s h (convert-Good msg s h))
  handler-Good (transfer_tokens now msg) s h =
      let run = transfer_tokens_msg p is_valid is_all_positive now msg in
      checks-Good (validate_transfer_tokens p is_valid is_all_positive msg) run s h
        (transfer-reads msg s) (committed-Good run s h (transfer-Good now msg s h))
  handler-Good (evm_call now ev logs) s h =
      committed-Good (post_tx_processing p ev now (cronos_handlers p ev now) logs) s h
        (evm-Good now ev logs s h)

  -- Every history of messages that convert or transfer coins, and of logs of the EVM, each with no trace if it
  -- fails, creates and destroys coins of the EVM and vouchers of CRO at the rate of 10^10 to one, if the
  -- EVM's coin is neither the voucher of CRO nor of a denomination that the module converts, and the voucher
  -- of CRO is no source coin.
  pub run_transactions-IsEven :
      (txs : List (Transaction p is_valid is_all_positive)) (s : State p)
      → get_params p s ≡ (ok q, s)
      → IsEven p q.ibc_cro_denom s (run_transactions p is_valid is_all_positive txs s)
  unfolding run_transactions
  run_transactions-IsEven [] s h = (Good-refl s h).0
  run_transactions-IsEven (tx ∷ txs) s h =
      let t = committed p is_valid is_all_positive s (handler p is_valid is_all_positive tx s) in
      let good = handler-Good tx s h in
      IsEven-trans p q.ibc_cro_denom s t (run_transactions p is_valid is_all_positive txs t) good.0
        (run_transactions-IsEven txs t good.1)
