-- ===== src/Cronos/Logs/Even.antt =====
-- The handlers of logs keep the coins of the EVM backed by vouchers of CRO.
use cosmos_swap.Prelude.{
  ℕ, ◌≡◌, ◌≢◌, refl, inl, inr, Bool, true, false, List, bytes_eq, bytes_beq_iff, arith, pure, raise,
  gets, raise_if, ◌>>=◌, ◌>>◌, ok, Result-cases, Bool-cases,
}
use cosmos_swap.Cronos.{
  Platform, State, M, Events, Log, Coin, Params, call, fund_sender, post_tx_processing,
  cronos_handlers, send_coins, send_from_module, mint, Error, get_params, is_source_coin,
  is_valid_coin_denom,
}
use cosmos_swap.Cronos.Backing.{
  created, destroyed, IsEven, IsEven-trans, Keeps, Keeps-bind, Keeps-pure, Keeps-gets, Keeps-call,
}
use cosmos_swap.Cronos.Backing.Vouchers.{ibc_transfer_coins-IsEven}
use cosmos_swap.Cronos.Logs.{
  LeavesStore, LeavesStore-bind, LeavesStore-pure, LeavesStore-gets, LeavesStore-call,
  ibc_transfer_coins-LeavesStore,
}
use cosmos_swap.Cronos.Logs.Rules.{Rules, hook}
use cosmos_swap.Cronos.Logs.Store.{fund_sender-LeavesStore}

module _ (p : Platform) (ev : Events p.Address) (now : ℕ) (q : Params) where
  -- Under the parameters `q`, the action keeps the coins of the EVM backed if it succeeds, and leaves
  -- the store alone.
  unfoldable KeepsUnder : (A : Type 0) → M p A → Type 0
  KeepsUnder A m =
      LeavesStore p m
      × ((s : State p) (a : A)
          → get_params p s ≡ (ok q, s)
          → (m s).0 ≡ ok a
          → IsEven p q.ibc_cro_denom s (m s).1)

  params_of : (s t : State p) → t.store ≡ s.store → get_params p t ≡ ((get_params p s).0, t)
  unfolding get_params
  params_of s t e = ground (arith, e)

  params_stay :
      (s t : State p) → t.store ≡ s.store → get_params p s ≡ (ok q, s) → get_params p t ≡ (ok q, t)
  params_stay s t e h = let r = params_of s t e in rw h at r

  of_Keeps : (A : Type 0) (m : M p A) → LeavesStore p m → Keeps p q.ibc_cro_denom m → KeepsUnder A m
  unfolding KeepsUnder Keeps
  of_Keeps A m l k = (l, λ s a h e. k s a e)

  KeepsUnder-bind :
      (A B : Type 0) (m : M p A) (f : A → M p B)
      → KeepsUnder A m
      → ((a : A) → KeepsUnder B (f a))
      → KeepsUnder B (m >>= f)
  unfolding KeepsUnder LeavesStore
  KeepsUnder-bind A B m f k l = (
    LeavesStore-bind p m f k.0 (λ a. (l a).0),
    λ s b h e. elim (Result-cases (m s).0) [
      | inl (a, y) ↦
          rw (y, ◌>>=◌)
            (IsEven-trans p q.ibc_cro_denom s (m s).1 (f a (m s).1).1 (k.1 s a h y)
              ((l a).1 (m s).1 b (params_stay s (m s).1 (k.0 s) h) (rw (y, ◌>>=◌) at e)))
      | inr (x, y) ↦ absurd (ground (arith, y))
    ],
  )

  KeepsUnder-raise : (A : Type 0) (x : Error) → KeepsUnder A (raise x)
  unfolding KeepsUnder LeavesStore
  KeepsUnder-raise A x = (λ s. refl, λ s a h e. absurd (ground arith))

  KeepsUnder-check :
      (A : Type 0) (c : Bool) (x : Error) (m : M p A)
      → KeepsUnder A m
      → KeepsUnder A (raise_if c x >> m)
  KeepsUnder-check A true x m k = KeepsUnder-raise A x
  KeepsUnder-check A false x m k = k

  module _ (other : p.evm_denom ≢ q.ibc_cro_denom)
      (unlisted : is_valid_coin_denom p.evm_denom ≡ false)
      (foreign : is_source_coin q.ibc_cro_denom ≡ false) where
    evm_denom_unsourced : is_source_coin p.evm_denom ≡ false
    unfolding is_source_coin is_valid_coin_denom
    evm_denom_unsourced = ground (arith, unlisted)

    fund_sender-Keeps :
        (a b : p.Address) (c : Coin) → Keeps p q.ibc_cro_denom (fund_sender p ev now a b c)
    unfolding fund_sender created destroyed
    fund_sender-Keeps a b c = elim (Bool-cases (is_source_coin c.denom)) [
      | inl y ↦
          let give = send_from_module (p.address_bytes b) c in
          rw y (
            Keeps-bind p q.ibc_cro_denom (call p (mint c)) (λ _. call p give)
              (Keeps-call p q.ibc_cro_denom (mint c)
                (ground (arith, y, evm_denom_unsourced, bytes_beq_iff c.denom p.evm_denom)))
              (λ _.
                Keeps-call p q.ibc_cro_denom give
                  (ground (arith, y, bytes_beq_iff c.denom q.ibc_cro_denom))))
      | inr n ↦
          rw n (
            Keeps-call p q.ibc_cro_denom (send_coins (p.address_bytes a) (p.address_bytes b) c)
              refl)
    ]

    even_rules : Rules p ev now KeepsUnder
    unfolding KeepsUnder created destroyed
    even_rules = record {
      pure_rule =
          λ A a. of_Keeps A (pure a) (LeavesStore-pure p a) (Keeps-pure p q.ibc_cro_denom a);
      raise_rule = KeepsUnder-raise;
      gets_rule =
          λ A f. of_Keeps A (gets f) (LeavesStore-gets p f) (Keeps-gets p q.ibc_cro_denom f);
      check_rule = KeepsUnder-check;
      bind_rule = KeepsUnder-bind;
      send_rule = λ a b c.
          of_Keeps (Unit {0}) (call p (send_coins a b c)) (LeavesStore-call p (send_coins a b c))
            (Keeps-call p q.ibc_cro_denom (send_coins a b c) refl);
      fund_rule = λ a b c.
          of_Keeps (Unit {0}) (fund_sender p ev now a b c) (fund_sender-LeavesStore p ev now a b c)
            (fund_sender-Keeps a b c);
      transfer_rule = λ from to channel cs. (
        ibc_transfer_coins-LeavesStore p now from to channel cs,
        λ s a h e. ibc_transfer_coins-IsEven p q other s h from cs now to channel e,
      );
    }

    -- The processing of a transaction's logs, if it succeeds, creates and destroys coins of the EVM and
    -- vouchers of CRO at the rate of 10^10 to one, if the EVM's coin is neither the voucher of CRO nor of a
    -- denomination that the module converts, and the voucher of CRO is no source coin.
    pub post_tx_processing-IsEven :
        (logs : List (Log p.Address)) (s : State p)
        → get_params p s ≡ (ok q, s)
        → (post_tx_processing p ev now (cronos_handlers p ev now) logs s).0 ≡ ok tt
        → IsEven p q.ibc_cro_denom s
            (post_tx_processing p ev now (cronos_handlers p ev now) logs s).1
    unfolding KeepsUnder
    post_tx_processing-IsEven logs s h e = (hook p ev now KeepsUnder even_rules logs).1 s tt h e
