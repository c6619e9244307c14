-- ===== src/Cronos/Hooks.antt =====
-- x/cronos/keeper/evm_hooks.go and evmhandlers/: the logs of a transaction that the cronos module turns
-- into calls of the bank and transfers over IBC. The function that adds a log to the receipt, which every
-- handler ignores, is left out, and so are the lines written to the logger.
use cosmos_swap.Prelude.{
  ℕ, not, ◌&&◌, Option, none, some, List, [], ◌∷◌, ◌++◌, Bytes, codes, bytes_eq, nat_eq,
  if◌then◌else◌, decimal, set_bytes, pure, raise, gets, raise_if, ◌>>=◌, ◌>>◌,
}
use cosmos_swap.Prelude.Map.{lookup, insert}
use cosmos_swap.Cronos.Types.{
  Coin, new_coins, not_connected, not_transferable, send_from_module, send_coins, mint,
}
use cosmos_swap.Cronos.Denoms.{is_source_coin, is_valid_ibc_denom, is_valid_cronos_denom}
use cosmos_swap.Cronos.Environment.{Platform}
use cosmos_swap.Cronos.Keeper.{M, call, get_denom_by_contract}
use cosmos_swap.Cronos.Evm.{new_coin}
use cosmos_swap.Cronos.Ibc.{ibc_transfer_coins}

-- The topics that the events hash to, and the decoding of their data by go-ethereum's ABI.
pub record Events (Address : Type 0) : Type 0 where
  pub send_to_account_id : Bytes
  pub send_to_ibc_id : Bytes
  pub send_to_ibc_v2_id : Bytes
  pub send_cro_to_ibc_id : Bytes
  pub unpack_send_to_account : Bytes → Option (Address × ℕ)
  pub unpack_send_to_ibc : Bytes → Option (Address × Bytes × ℕ)
  pub unpack_send_to_ibc_v2 : Bytes → Option (Bytes × ℕ)
  pub unpack_send_cro_to_ibc : Bytes → Option (Address × Bytes × ℕ)

-- `ethtypes.Log`, as far as the hook reads it
pub record Log (Address : Type 0) : Type 0 where
  pub address : Address
  pub topics : List Bytes
  pub log_data : Bytes  -- `Data`

module _ (p : Platform) (ev : Events p.Address) (now : ℕ) where
  -- `types.EvmLogHandler`
  pub record EvmLogHandler : Type 0 where
    pub event_id : Bytes
    pub handle : p.Address → List Bytes → Bytes → M p (Unit {0})

  abbrev pub connected_denom : Option Bytes → M p Bytes
  connected_denom none = raise not_connected
  connected_denom (some denom) = pure denom

  unfoldable pub send_to_account : p.Address → Option (p.Address × ℕ) → M p (Unit {0})
  send_to_account contract none = pure tt
  send_to_account contract (some (recipient, amount)) = do
    found ← gets (get_denom_by_contract p contract)
    denom ← connected_denom found
    coin ← new_coin p denom amount
    call p (send_coins (p.address_bytes contract) (p.address_bytes recipient) coin)

  -- The coins are minted for the sender, or come from the contract.
  unfoldable pub fund_sender : p.Address → p.Address → Coin → M p (Unit {0})
  fund_sender contract sender coin =
      if is_source_coin coin.denom
      then (do call p (mint coin); call p (send_from_module (p.address_bytes sender) coin))
      else call p (send_coins (p.address_bytes contract) (p.address_bytes sender) coin)

  abbrev pub channel_id : Option ℕ → Bytes
  channel_id none = []
  channel_id (some id) = codes "channel-" ++ decimal id

  unfoldable pub fund_and_transfer : p.Address → p.Address → Bytes → Coin → Bytes → M p (Unit {0})
  fund_and_transfer contract sender recipient coin channel = do
    fund_sender contract sender coin
    ibc_transfer_coins p now (p.acc_string (p.address_bytes sender)) recipient (new_coins coin)
        channel

  -- `SendToIbcHandler.handle`
  unfoldable pub send_to_ibc : p.Address → p.Address → Bytes → ℕ → Option ℕ → M p (Unit {0})
  send_to_ibc contract sender recipient amount id = do
    found ← gets (get_denom_by_contract p contract)
    denom ← connected_denom found
    raise_if (not (is_valid_ibc_denom denom) && not (is_valid_cronos_denom denom)) not_transferable
    coin ← new_coin p denom amount
    fund_and_transfer contract sender recipient coin (channel_id id)

  unfoldable pub send_to_ibc_v1 : p.Address → Option (p.Address × Bytes × ℕ) → M p (Unit {0})
  send_to_ibc_v1 contract none = pure tt
  send_to_ibc_v1 contract (some (sender, recipient, amount)) =
      send_to_ibc contract sender recipient amount none

  abbrev pub send_to_ibc_on : p.Address → Bytes → Bytes → Option (Bytes × ℕ) → M p (Unit {0})
  send_to_ibc_on contract sender channel none = pure tt
  send_to_ibc_on contract sender channel (some (recipient, amount)) =
      send_to_ibc contract (p.bytes_to_address sender) recipient amount (some (set_bytes channel))

  unfoldable pub send_to_ibc_v2 : p.Address → List Bytes → Bytes → M p (Unit {0})
  send_to_ibc_v2 contract (id ∷ sender ∷ channel ∷ []) input =
      send_to_ibc_on contract sender channel (ev.unpack_send_to_ibc_v2 input)
  send_to_ibc_v2 contract _ input = pure tt

  unfoldable pub send_cro_to_ibc : p.Address → Option (p.Address × Bytes × ℕ) → M p (Unit {0})
  send_cro_to_ibc contract none = pure tt
  send_cro_to_ibc contract (some (sender, recipient, amount)) = do
    coin ← new_coin p p.evm_denom amount
    call p (send_coins (p.address_bytes contract) (p.address_bytes sender) coin)
    ibc_transfer_coins p now (p.acc_string (p.address_bytes sender)) recipient (new_coins coin) []

  abbrev pub send_to_account_handler : EvmLogHandler
  send_to_account_handler = record {
    event_id = ev.send_to_account_id;
    handle = λ contract topics input. send_to_account contract (ev.unpack_send_to_account input);
  }

  abbrev pub send_to_ibc_handler : EvmLogHandler
  send_to_ibc_handler = record {
    event_id = ev.send_to_ibc_id;
    handle = λ contract topics input. send_to_ibc_v1 contract (ev.unpack_send_to_ibc input);
  }

  abbrev pub send_to_ibc_v2_handler : EvmLogHandler
  send_to_ibc_v2_handler = record { event_id = ev.send_to_ibc_v2_id; handle = send_to_ibc_v2 }

  abbrev pub send_cro_to_ibc_handler : EvmLogHandler
  send_cro_to_ibc_handler = record {
    event_id = ev.send_cro_to_ibc_id;
    handle = λ contract topics input. send_cro_to_ibc contract (ev.unpack_send_cro_to_ibc input);
  }

  -- `NewLogProcessEvmHook`
  unfoldable pub register_handlers :
      List (Bytes × EvmLogHandler) → List EvmLogHandler → List (Bytes × EvmLogHandler)
  register_handlers registered [] = registered
  register_handlers registered (h ∷ hs) = register_handlers (insert h.event_id h registered) hs

  abbrev pub run_handler : Option EvmLogHandler → Log p.Address → List Bytes → M p (Unit {0})
  run_handler none log topics = pure tt
  run_handler (some h) log topics = h.handle log.address topics log.log_data

  -- One log of `PostTxProcessing`: a log without topics, or of another event, is skipped.
  unfoldable pub process_log :
      List (Bytes × EvmLogHandler) → Log p.Address → List Bytes → M p (Unit {0})
  process_log registered log [] = pure tt
  process_log registered log (topic ∷ topics) =
      run_handler (lookup topic registered) log (topic ∷ topics)

  unfoldable pub post_tx_processing :
      List (Bytes × EvmLogHandler) → List (Log p.Address) → M p (Unit {0})
  post_tx_processing registered [] = pure tt
  post_tx_processing registered (log ∷ logs) = do
    process_log registered log log.topics
    post_tx_processing registered logs

  -- The hook with the handlers of this package.
  abbrev pub cronos_handlers : List (Bytes × EvmLogHandler)
  cronos_handlers = register_handlers [] (
      send_to_account_handler ∷ send_to_ibc_handler ∷ send_to_ibc_v2_handler
      ∷ send_cro_to_ibc_handler ∷ [])
