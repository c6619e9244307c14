-- ===== src/Relayer/Orders.antt =====
-- relayer/pkg/order_manager/manager.go: what the manager does to one order, and the transactions
-- that it sends through the two chain clients.
use cosmos_swap.Prelude.{
  ℕ, ◌+◌, Bool, true, false, not, ◌&&◌, Option, none, some, List, [], ◌∷◌, ◌++◌, String, string_eq,
  ◌==◌, if◌then◌else◌, Result, ok, err, Action, pure, raise, raise_if, ◌>>=◌, ◌>>◌,
}
use cosmos_swap.Prelude.Int.{ℤ}
use cosmos_swap.Prelude.Time.{Time, after, to_int64}
use cosmos_swap.Relayer.Errors.{joined, prefixed}
use cosmos_swap.Relayer.Types.{
  Order, OrderType, OrderStatus, cronos_to_ethereum, ethereum_to_cronos, active, matched, completed,
  cancelled, expired, failed, PartialFillParams,
}
pub mod Effects

-- A transaction sent through a client, with the arguments of the client's method. The label of an
-- escrow is `dest_` and the order's id; the id stands for it.
pub data Call : Type 0 where
  -- `ethereum_client.CreateDestinationEscrow(resolver, timelock)`
  create_on_ethereum : String → ℤ → Call
  -- `cronos_client.CreateDestinationEscrow(factory, taker, maker, secret hash, timelock,
  -- source chain, source escrow, amount, id)`
  create_on_cronos :
      String → String → String → String → ℕ → String → String → Option ℤ → String → Call
  -- `cronos_client.PartialWithdrawFromEscrow(escrow, secret, amount)`
  partial_withdraw_on_cronos : String → String → Option ℤ → Call
  -- `cronos_client.WithdrawFromEscrow(escrow, secret)`
  withdraw_on_cronos : String → String → Call
  -- `ethereum_client.WithdrawFromEscrow(resolver, escrow, secret)`
  withdraw_on_ethereum : String → String → String → Call

-- The contract addresses of the configuration that the manager reads.
pub record Contracts : Type 0 where
  pub resolver : String  -- config.Contracts.Ethereum.Resolver
  pub escrow_factory : String  -- config.Contracts.Cronos.EscrowFactory

-- The transaction hash, or the error, that a client returns for a call.
abbrev pub Replies : Type 0
Replies = Call → Result String String

-- A method that sends transactions: the state is the list of those sent, the last one last.
abbrev pub Sends : Type 0 → Type 0
Sends A = Action (List Call) String A

abbrev pub send : Replies → Call → Sends String
send reply c log = (reply c, log ++ c ∷ [])

-- `fmt.Errorf` with a prefix and `%w`, of an error if there is one
abbrev wrapped : {A : Type 0} → String → Sends A → Sends A
wrapped prefix m log = prefixed prefix (m log)

module _ (contracts : Contracts) (reply : Replies) where
  handle_cronos_to_ethereum : Order → Sends Order
  handle_cronos_to_ethereum o = do
    tx ←
        wrapped "failed to create destination escrow: "
          (send reply (create_on_ethereum contracts.resolver (to_int64 o.timelock)))
    pure (record o { dest_tx_hash = tx; status = active })

  handle_ethereum_to_cronos : Order → Sends Order
  handle_ethereum_to_cronos o = do
    tx ← wrapped "failed to create destination escrow: " (
        send reply (
          create_on_cronos contracts.escrow_factory o.taker o.maker o.secret_hash o.timelock
            o.source_chain o.source_escrow_addr o.destination_asset.amount o.id))
    pure (record o { dest_tx_hash = tx; status = active })

  dispatch_type : OrderType → Order → Sends Order
  unfolding handle_cronos_to_ethereum handle_ethereum_to_cronos
  dispatch_type cronos_to_ethereum o = handle_cronos_to_ethereum o
  dispatch_type ethereum_to_cronos o = handle_ethereum_to_cronos o
  dispatch_type (OrderType.other t) o = raise (joined "unknown order type: " t)

  -- `handleNewOrder`: the order as it is left, or the error.
  unfoldable pub handle_new_order : Order → Sends Order
  unfolding dispatch_type
  handle_new_order o = dispatch_type o.type o

  abbrev pub withdraw_from_cronos : Option PartialFillParams → Order → Call
  withdraw_from_cronos none o = withdraw_on_cronos o.source_escrow_addr o.secret
  withdraw_from_cronos (some f) o =
      if f.allow_partial_fill
      then partial_withdraw_on_cronos o.source_escrow_addr o.secret f.filled_amount
      else withdraw_on_cronos o.source_escrow_addr o.secret

  abbrev pub withdrawal : OrderType → Order → Call
  withdrawal cronos_to_ethereum o = withdraw_from_cronos o.partial_fill o
  withdrawal _ o = withdraw_on_ethereum contracts.resolver o.source_escrow_addr o.secret

  -- `executeSwap`
  unfoldable pub execute_swap : Order → Sends Order
  execute_swap o = do
    raise_if (o.secret == "") (joined "secret not available for order " o.id)
    tx ← wrapped "failed to withdraw from source escrow: " (send reply (withdrawal o.type o))
    pure (record o { source_tx_hash = tx; status = completed })

  dispatch_status : OrderStatus → Order → Sends Order
  unfolding execute_swap
  dispatch_status matched o = execute_swap o
  -- `checkForMatches` does nothing yet
  dispatch_status active o = pure o
  dispatch_status _ o = pure o

  -- `handleOrderUpdate`
  unfoldable pub handle_order_update : Order → Sends Order
  unfolding dispatch_status
  handle_order_update o = dispatch_status o.status o

  -- The body of `processNewOrders`: what becomes of the order, and the calls.
  abbrev note_failure : Order → Result String Order × List Call → Order × List Call
  note_failure o (ok o', log) = (o', log)
  note_failure o (err e, log) = (record o { status = failed; last_error = e }, log)

  unfoldable pub process_new : Order → List Call → Order × List Call
  unfolding handle_new_order
  process_new o log = note_failure o (handle_new_order o log)

  -- The body of `processOrderUpdates`, up to the removal.
  abbrev note_retry : Order → Result String Order × List Call → Order × List Call
  note_retry o (ok o', log) = (o', log)
  note_retry o (err e, log) = (record o { retry_count = o.retry_count + 1; last_error = e }, log)

  unfoldable pub process_update : Time → Order → List Call → Order × List Call
  unfolding handle_order_update
  process_update now o log =
      let (o', log') = note_retry o (handle_order_update o log) in
      (record o' { updated_at = now }, log')

-- The statuses that `processOrderUpdates` removes.
abbrev pub is_removed : OrderStatus → Bool
is_removed completed = true
is_removed cancelled = true
is_removed expired = true
is_removed _ = false

-- `checkOrderTimeouts`, on one order.
unfoldable pub expire : Time → Order → Order
expire now o = if after now o.expires_at then record o { status = expired } else o

abbrev is_active : OrderStatus → Bool
is_active active = true
is_active _ = false

-- `canExecuteOrder` of the service
unfoldable pub can_execute : Order → Bool
can_execute o = not (o.source_escrow_addr == "") && not (o.dest_escrow_addr == "")

-- `matchOrders` of the service, on one order.
unfoldable pub match_order : Order → Order
unfolding can_execute
match_order o =
    if is_active o.status then (if can_execute o then record o { status = matched } else o) else o
