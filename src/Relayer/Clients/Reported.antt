-- ===== src/Relayer/Clients/Reported.antt =====
-- The orders that the client of Ethereum reports.
use cosmos_swap.Prelude.{
  ℕ, nat_eq, ◌==◌, ◌≡◌, refl, inl, inr, Bool-cases, List, [], ◌∷◌, String, string_eq, Result, ok,
  err, arith, ok-injective, sym,
}
use cosmos_swap.Prelude.Time.{Time, to_int64}
use cosmos_swap.Relayer.Types.{Order, OrderStatus}
use cosmos_swap.Relayer.Service.{EthereumOrder, to_status, convert_ethereum}
use cosmos_swap.Relayer.Clients.Ethereum.{
  Node, Log, Transaction, EscrowCreated, EscrowInfo, status_name, with_info, with_event,
  parse_escrow_created_event, add_parsed, parse_logs, parsed, get_escrow_orders,
}

-- The status is none of those that the order manager knows.
unfoldable pub IsUnknown : Order → Type 0
IsUnknown o = (s : String) × (o.status ≡ OrderStatus.other s)

unfoldable pub AllUnknown : Time → List EthereumOrder → Type 0
AllUnknown now [] = Unit
AllUnknown now (o ∷ os) = IsUnknown (convert_ethereum now o) × AllUnknown now os

name-unknown : (n : ℕ) → to_status (status_name n) ≡ OrderStatus.other (status_name n)
unfolding to_status status_name
name-unknown n = elim (Bool-cases (n == 0)) [
  | inl y ↦ rw y refl
  | inr y ↦ elim (Bool-cases (n == 1)) [
    | inl z ↦ rw (y, z) refl
    | inr z ↦ elim (Bool-cases (n == 2)) [ inl w ↦ rw (y, z, w) refl | inr w ↦ rw (y, z, w) refl ]
  ]
]

module _ (node : Node) (now : Time) (sent : List Transaction) where
  -- The result of parsing a log, if it is no error, converts to an order of unknown status.
  abbrev OnOk : Result String EthereumOrder → Type 0
  OnOk (ok o) = IsUnknown (convert_ethereum now o)
  OnOk (err e) = Unit

  info-OnOk :
      (log : Log) (event : EscrowCreated) (r : Result String EscrowInfo)
      → OnOk (with_info node log event r)
  unfolding convert_ethereum IsUnknown
  info-OnOk log event (ok info) = (status_name info.status, name-unknown info.status)
  info-OnOk log event (err e) = tt

  event-OnOk : (log : Log) (r : Result String EscrowCreated) → OnOk (with_event node sent log r)
  event-OnOk log (ok event) = info-OnOk log event (node.escrow_info sent event.escrow)
  event-OnOk log (err e) = tt

  add-AllUnknown :
      (r : Result String EthereumOrder) (os : List EthereumOrder)
      → OnOk r
      → AllUnknown now os
      → AllUnknown now (add_parsed node r os)
  unfolding AllUnknown
  add-AllUnknown (ok o) os h k = (h, k)
  add-AllUnknown (err e) os h k = k

  parse_logs-AllUnknown : (logs : List Log) → AllUnknown now (parse_logs node sent logs)
  unfolding parse_logs parse_escrow_created_event AllUnknown
  parse_logs-AllUnknown [] = tt
  parse_logs-AllUnknown (log ∷ logs) =
      add-AllUnknown (parse_escrow_created_event node sent log) (parse_logs node sent logs)
        (event-OnOk log (node.unpack_escrow_created log.log_data)) (parse_logs-AllUnknown logs)

  parsed-AllUnknown :
      (r : Result String (List Log)) (os : List EthereumOrder)
      → parsed node sent r ≡ ok os
      → AllUnknown now os
  parsed-AllUnknown (ok logs) os e = rw (sym (ok-injective e)) (parse_logs-AllUnknown logs)
  parsed-AllUnknown (err x) os e = absurd (ground (arith, e))

  -- Whatever the escrows' states are, the orders that the client of Ethereum reports convert to orders whose
  -- status is none of those that the order manager knows.
  pub get_escrow_orders-AllUnknown :
      (factory : String) (from_block : ℕ) (os : List EthereumOrder)
      → get_escrow_orders node sent factory from_block ≡ ok os
      → AllUnknown now os
  unfolding get_escrow_orders
  get_escrow_orders-AllUnknown factory from_block os e =
      parsed-AllUnknown (node.filter_logs sent factory (to_int64 from_block)) os e
