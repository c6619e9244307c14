-- ===== src/Cronos/Logs/Store.antt =====
-- The hook leaves the store of the cronos module alone.
use cosmos_swap.Prelude.{ℕ, ◌≡◌, refl, List, arith, raise}
use cosmos_swap.Cronos.{
  Platform, State, Events, Log, Coin, fund_sender, post_tx_processing, cronos_handlers, send_coins,
  Error,
}
use cosmos_swap.Cronos.Logs.{
  LeavesStore, LeavesStore-bind, LeavesStore-pure, LeavesStore-gets, LeavesStore-raise_if,
  LeavesStore-call, ibc_transfer_coins-LeavesStore,
}
use cosmos_swap.Cronos.Logs.Rules.{Rules, hook}

module _ (p : Platform) (ev : Events p.Address) (now : ℕ) where
  pub fund_sender-LeavesStore :
      (a b : p.Address) (c : Coin) → LeavesStore p (fund_sender p ev now a b c)
  unfolding fund_sender LeavesStore
  fund_sender-LeavesStore a b c s = ground arith

  raise-LeavesStore : (A : Type 0) (x : Error) → LeavesStore p {A = A} (raise x)
  unfolding LeavesStore
  raise-LeavesStore A x s = refl

  rules : Rules p ev now (λ A m. LeavesStore p {A = A} m)
  rules = record {
    pure_rule = λ A a. LeavesStore-pure p a;
    raise_rule = raise-LeavesStore;
    gets_rule = λ A f. LeavesStore-gets p f;
    check_rule = λ A c x m k. LeavesStore-raise_if p c x m k;
    bind_rule = λ A B m f k l. LeavesStore-bind p m f k l;
    send_rule = λ a b c. LeavesStore-call p (send_coins a b c);
    fund_rule = fund_sender-LeavesStore;
    transfer_rule = ibc_transfer_coins-LeavesStore p now;
  }

  -- The processing of a transaction's logs never changes the store of the cronos module: not the token
  -- mapping, not the parameters, not the permissions, whether it succeeds or fails.
  pub post_tx_processing-store :
      (logs : List (Log p.Address)) (s : State p)
      → (post_tx_processing p ev now (cronos_handlers p ev now) logs s).1.store ≡ s.store
  unfolding LeavesStore
  post_tx_processing-store logs = hook p ev now (λ A m. LeavesStore p {A = A} m) rules logs
