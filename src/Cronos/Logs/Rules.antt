-- ===== src/Cronos/Logs/Rules.antt =====
-- Rules by which a property of actions holds of each handler of logs, and of the hook that runs them.
use cosmos_swap.Prelude.{
  ℕ, Bool, Option, none, some, List, [], ◌∷◌, Bytes, pure, raise, gets, raise_if, ◌>>=◌, ◌>>◌, not,
  ◌&&◌, set_bytes,
}
use cosmos_swap.Cronos.{
  Platform, State, M, Error, Events, Log, Coin, call, new_coin, send_coins, send_to_account,
  send_to_ibc, send_to_ibc_v1, send_to_ibc_v2, send_to_ibc_on, send_cro_to_ibc, fund_sender,
  fund_and_transfer, connected_denom, not_connected, not_transferable, channel_id, new_coins,
  post_tx_processing, cronos_handlers, get_denom_by_contract, ibc_transfer_coins,
  is_valid_ibc_denom, is_valid_cronos_denom, panic,
}
use cosmos_swap.Cronos.Logs.Handlers.{cronos_hook-all}

-- The property holds of the simple actions, of those of a handler that touch the bank, and of one
-- action after the other.
pub record Rules (p : Platform) (ev : Events p.Address) (now : ℕ)
    (P : (A : Type 0) → M p A → Type 0) : Type 1 where
  pub pure_rule : (A : Type 0) (a : A) → P A (pure a)
  pub raise_rule : (A : Type 0) (x : Error) → P A (raise x)
  pub gets_rule : (A : Type 0) (f : State p → A) → P A (gets f)
  pub check_rule : (A : Type 0) (c : Bool) (x : Error) (m : M p A) → P A m → P A (raise_if c x >> m)
  pub bind_rule :
      (A B : Type 0) (m : M p A) (f : A → M p B) → P A m → ((a : A) → P B (f a)) → P B (m >>= f)
  pub send_rule : (a b : Bytes) (c : Coin) → P (Unit {0}) (call p (send_coins a b c))
  pub fund_rule : (a b : p.Address) (c : Coin) → P (Unit {0}) (fund_sender p ev now a b c)
  pub transfer_rule :
      (from to channel : Bytes) (cs : List Coin)
      → P (Unit {0}) (ibc_transfer_coins p now from to cs channel)

module _ (p : Platform) (ev : Events p.Address) (now : ℕ) (P : (A : Type 0) → M p A → Type 0)
    (r : Rules p ev now P) where
  connected_rule : (o : Option Bytes) → P Bytes (connected_denom p ev now o)
  connected_rule none = r.raise_rule Bytes not_connected
  connected_rule (some d) = r.pure_rule Bytes d

  new_coin_rule : (d : Bytes) (n : ℕ) → P Coin (new_coin p d n)
  new_coin_rule d n =
      let c : Coin = record { denom = d; amount = n } in
      r.check_rule Coin (not (p.is_denom d)) panic (pure c) (r.pure_rule Coin c)

  -- The denomination that a contract is connected to, and a coin of it.
  with_denom :
      (a : p.Address) (f : Bytes → M p (Unit {0}))
      → ((d : Bytes) → P (Unit {0}) (f d))
      → P (Unit {0}) (gets (get_denom_by_contract p a) >>= λ o. connected_denom p ev now o >>= f)
  with_denom a f k =
      r.bind_rule (Option Bytes) (Unit {0}) (gets (get_denom_by_contract p a))
        (λ o. connected_denom p ev now o >>= f)
        (r.gets_rule (Option Bytes) (get_denom_by_contract p a))
        (λ o. r.bind_rule Bytes (Unit {0}) (connected_denom p ev now o) f (connected_rule o) k)

  with_coin :
      (d : Bytes) (n : ℕ) (f : Coin → M p (Unit {0}))
      → ((c : Coin) → P (Unit {0}) (f c))
      → P (Unit {0}) (new_coin p d n >>= f)
  with_coin d n f k = r.bind_rule Coin (Unit {0}) (new_coin p d n) f (new_coin_rule d n) k

  account :
      (a : p.Address) (o : Option (p.Address × ℕ)) → P (Unit {0}) (send_to_account p ev now a o)
  unfolding send_to_account
  account a none = r.pure_rule (Unit {0}) tt
  account a (some (b, n)) =
      let send = λ (c : Coin). call p (send_coins (p.address_bytes a) (p.address_bytes b) c) in
      with_denom a (λ d. new_coin p d n >>= send)
        (λ d. with_coin d n send (λ c. r.send_rule (p.address_bytes a) (p.address_bytes b) c))

  after_funding :
      (a b : p.Address) (to channel : Bytes) (c : Coin)
      → P (Unit {0}) (fund_and_transfer p ev now a b to c channel)
  unfolding fund_and_transfer
  after_funding a b to channel c =
      let sender = p.acc_string (p.address_bytes b) in
      r.bind_rule (Unit {0}) (Unit {0}) (fund_sender p ev now a b c)
        (λ _. ibc_transfer_coins p now sender to (new_coins c) channel) (r.fund_rule a b c)
        (λ _. r.transfer_rule sender to channel (new_coins c))

  to_ibc :
      (a b : p.Address) (to : Bytes) (n : ℕ) (id : Option ℕ)
      → P (Unit {0}) (send_to_ibc p ev now a b to n id)
  unfolding send_to_ibc
  to_ibc a b to n id =
      let send = λ (c : Coin). fund_and_transfer p ev now a b to c (channel_id p ev now id) in
      let bad = λ (d : Bytes). not (is_valid_ibc_denom d) && not (is_valid_cronos_denom d) in
      with_denom a (λ d. raise_if (bad d) not_transferable >> (new_coin p d n >>= send))
        (λ d.
          r.check_rule (Unit {0}) (bad d) not_transferable (new_coin p d n >>= send)
            (with_coin d n send (after_funding a b to (channel_id p ev now id))))

  ibc_v1 :
      (a : p.Address) (o : Option (p.Address × Bytes × ℕ))
      → P (Unit {0}) (send_to_ibc_v1 p ev now a o)
  unfolding send_to_ibc_v1
  ibc_v1 a none = r.pure_rule (Unit {0}) tt
  ibc_v1 a (some (b, to, n)) = to_ibc a b to n none

  ibc_on :
      (a : p.Address) (sender channel : Bytes) (o : Option (Bytes × ℕ))
      → P (Unit {0}) (send_to_ibc_on p ev now a sender channel o)
  ibc_on a sender channel none = r.pure_rule (Unit {0}) tt
  ibc_on a sender channel (some (to, n)) =
      to_ibc a (p.bytes_to_address sender) to n (some (set_bytes channel))

  ibc_v2 :
      (a : p.Address) (topics : List Bytes) (input : Bytes)
      → P (Unit {0}) (send_to_ibc_v2 p ev now a topics input)
  unfolding send_to_ibc_v2
  ibc_v2 a [] input = r.pure_rule (Unit {0}) tt
  ibc_v2 a (x ∷ []) input = r.pure_rule (Unit {0}) tt
  ibc_v2 a (x ∷ y ∷ []) input = r.pure_rule (Unit {0}) tt
  ibc_v2 a (x ∷ y ∷ z ∷ []) input = ibc_on a y z (ev.unpack_send_to_ibc_v2 input)
  ibc_v2 a (x ∷ y ∷ z ∷ w ∷ ts) input = r.pure_rule (Unit {0}) tt

  cro :
      (a : p.Address) (o : Option (p.Address × Bytes × ℕ))
      → P (Unit {0}) (send_cro_to_ibc p ev now a o)
  unfolding send_cro_to_ibc
  cro a none = r.pure_rule (Unit {0}) tt
  cro a (some (b, to, n)) =
      let sender = p.acc_string (p.address_bytes b) in
      let move = λ (c : Coin). call p (send_coins (p.address_bytes a) (p.address_bytes b) c) in
      let send = λ (c : Coin). ibc_transfer_coins p now sender to (new_coins c) [] in
      with_coin p.evm_denom n (λ c. move c >> send c)
        (λ c.
          r.bind_rule (Unit {0}) (Unit {0}) (move c) (λ _. send c)
            (r.send_rule (p.address_bytes a) (p.address_bytes b) c)
            (λ _. r.transfer_rule sender to [] (new_coins c)))

  -- What the rules hold of, the processing of any logs satisfies.
  pub hook :
      (logs : List (Log p.Address))
      → P (Unit {0}) (post_tx_processing p ev now (cronos_handlers p ev now) logs)
  hook =
      cronos_hook-all p ev now (P (Unit {0})) (r.pure_rule (Unit {0}) tt)
        (λ m n k l. r.bind_rule (Unit {0}) (Unit {0}) m (λ _. n) k (λ _. l)) account ibc_v1 ibc_v2
        cro
