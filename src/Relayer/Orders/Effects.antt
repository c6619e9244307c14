-- ===== src/Relayer/Orders/Effects.antt =====
-- What the handlers do to an order and what they send.
use cosmos_swap.Prelude.{
  ◌≡◌, ◌≢◌, ◌⊎◌, inl, inr, refl, Bool, true, false, Option, none, some, List, [], ◌∷◌, ◌++◌, String,
  string_eq, ok, arith, Result-cases,
}
use mathlib.Core.List.{append-nil}
use text.Mathlib.TextEquality.{eq_iff}
use cosmos_swap.Prelude.Time.{Time, to_int64}
use cosmos_swap.Relayer.Types.{
  Order, OrderType, OrderStatus, cronos_to_ethereum, ethereum_to_cronos, active, matched, completed,
  failed,
}
use cosmos_swap.Relayer.Orders.{
  Call, create_on_ethereum, create_on_cronos, Contracts, Replies, process_new, process_update,
  withdrawal,
}

abbrev pub is_create : Call → Bool
is_create (create_on_ethereum _ _) = true
is_create (create_on_cronos _ _ _ _ _ _ _ _ _) = true
is_create _ = false

abbrev pub cronos_creation : Contracts → Order → Call
cronos_creation c o =
    create_on_cronos c.escrow_factory o.taker o.maker o.secret_hash o.timelock o.source_chain
      o.source_escrow_addr o.destination_asset.amount o.id

-- The call that a new order asks for: an escrow on the chain that it goes to.
abbrev pub creation : Contracts → OrderType → Order → Option Call
creation c cronos_to_ethereum o = some (create_on_ethereum c.resolver (to_int64 o.timelock))
creation c ethereum_to_cronos o = some (cronos_creation c o)
creation c (OrderType.other t) o = none

abbrev pub calls_of : Option Call → List Call
calls_of none = []
calls_of (some call) = call ∷ []

OrderStatus-cases : (s : OrderStatus) → (s ≡ matched) ⊎ (s ≢ matched)
OrderStatus-cases matched = inl refl
OrderStatus-cases _ = inr (λ e. cc)

module _ (c : Contracts) (reply : Replies) (o : Order) (log : List Call) where
  pub process_new-id : (process_new c reply o log).0.id ≡ o.id
  unfolding process_new
  process_new-id = ground arith

  pub process_update-id : (now : Time) → (process_update c reply now o log).0.id ≡ o.id
  unfolding process_update
  process_update-id now = ground arith

  -- A new order sends exactly the creation of its escrow on the other chain, and nothing if its
  -- type is unknown.
  pub process_new_sends : (process_new c reply o log).1 ≡ log ++ calls_of (creation c o.type o)
  unfolding process_new
  process_new_sends = ground (arith, append-nil log)

  -- Either that call was answered by a transaction, and the order is as before but active and with
  -- the transaction's hash; or the order has failed.
  pub process_new_outcome :
      ((call : Call) × (tx : String) × (creation c o.type o ≡ some call)
        × (reply call ≡ ok tx)
        × ((process_new c reply o log).0 ≡ record o { dest_tx_hash = tx; status = active }))
      ⊎ ((process_new c reply o log).0.status ≡ failed)
  unfolding process_new
  process_new_outcome = outcome o.type refl
    where
      outcome :
          (t : OrderType)
          → o.type ≡ t
          → ((call : Call) × (tx : String) × (creation c o.type o ≡ some call)
              × (reply call ≡ ok tx)
              × ((process_new c reply o log).0 ≡ record o { dest_tx_hash = tx; status = active }))
            ⊎ ((process_new c reply o log).0.status ≡ failed)
      outcome cronos_to_ethereum e =
          elim (Result-cases (reply (create_on_ethereum c.resolver (to_int64 o.timelock)))) [
            | inl (tx, y) ↦ inl (_, tx, ground arith, y, ground arith)
            | inr (x, y) ↦ inr (ground arith)
          ]
      outcome ethereum_to_cronos e = elim (Result-cases (reply (cronos_creation c o))) [
        | inl (tx, y) ↦ inl (_, tx, ground arith, y, ground arith)
        | inr (x, y) ↦ inr (ground arith)
      ]
      outcome (OrderType.other t) e = inr (ground arith)

  -- An update sends at most the withdrawal of the source escrow, and only for a matched order whose
  -- secret is known.
  pub process_update_sends :
      (now : Time)
      → ((process_update c reply now o log).1 ≡ log)
        ⊎ ((o.status ≡ matched)
            × (o.secret ≢ "")
            × ((process_update c reply now o log).1 ≡ log ++ withdrawal c reply o.type o ∷ []))
  unfolding process_update
  process_update_sends now = ground (arith, eq_iff o.secret "")

  -- An order that an update completes was matched, its secret was known, and the withdrawal of its
  -- source escrow was answered by the transaction that the order now holds.
  pub process_update_completes :
      (now : Time)
      → (process_update c reply now o log).0.status ≡ completed
      → (o.status ≡ completed)
        ⊎ ((tx : String) × (o.status ≡ matched)
            × (o.secret ≢ "")
            × (reply (withdrawal c reply o.type o) ≡ ok tx)
            × ((process_update c reply now o log).0.source_tx_hash ≡ tx))
  unfolding process_update
  process_update_completes now e = elim (Result-cases (reply (withdrawal c reply o.type o))) [
    | inl (tx, y) ↦ elim (OrderStatus-cases o.status) [
      | inl m ↦
          inr (tx, m, ground (arith, eq_iff o.secret ""), y, ground (arith, eq_iff o.secret ""))
      | inr n ↦ inl (ground arith)
    ]
    | inr (x, y) ↦ inl (ground arith)
  ]
