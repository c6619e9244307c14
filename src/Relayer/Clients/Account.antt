-- ===== src/Relayer/Clients/Account.antt =====
-- Broadcasts of the client of Cronos, and the orders that it reports.
use cosmos_swap.Prelude.{
  none, ℕ, nat_eq, ◌≡◌, ◌⊎◌, refl, inl, inr, Bool-cases, List, [], ◌∷◌, String, string_eq, Result,
  ok, err, arith, Result-cases, ◌==◌,
}
use cosmos_swap.Prelude.Int.{pos, ltb_ℤ}
use cosmos_swap.Relayer.Service.{CronosOrder}
use cosmos_swap.Relayer.Clients.Cronos.{
  Node, Client, ExecuteMsg, Transaction, EscrowEntry, broadcast_tx, broadcast_signed,
  update_account_info, transaction_of, query_contract, get_escrow_details, add_details, orders_of,
  get_escrow_orders, escrow_list, M, CreateEscrowParams, CreateDestEscrowParams, create_source,
  create_destination, withdraw_from_escrow, partial_withdraw_from_escrow, cancel_escrow,
  execute_contract,
}

module _ (n : Node) where
  -- Nothing comes of an action but an error, and the node's transactions are as before.
  unfoldable pub SendsNothing : M n String → Type 0
  SendsNothing m = (c : Client) → (e : String) × ((m c).0 ≡ err e) × ((m c).1.sent ≡ c.sent)

  module _ (no_key : (tx : Transaction) → (e : String) × (n.sign none tx ≡ err e)) where
    broadcast_signed-SendsNothing : (tx : Transaction) → SendsNothing (broadcast_signed n tx)
    unfolding broadcast_signed SendsNothing
    broadcast_signed-SendsNothing tx c =
        let (e, y) = no_key tx in (e, ground (arith, y), ground (arith, y))

    broadcast_tx-SendsNothing : (msg : ExecuteMsg) → SendsNothing (broadcast_tx n msg)
    unfolding broadcast_tx update_account_info SendsNothing
    broadcast_tx-SendsNothing msg c = elim (Result-cases (n.account c.sent)) [
      | inr (x, y) ↦ (x, ground (arith, y), ground (arith, y))
      | inl (a, y) ↦ elim (Result-cases n.gas_price) [
        | inr (x, z) ↦ (x, ground (arith, y, z), ground (arith, y, z))
        | inl (price, z) ↦
            let d : Client = record c { account_number = a.0; sequence = a.1 } in
            let tx = transaction_of n msg price d in
            elim (Bool-cases (ltb_ℤ tx.fee.1 (pos 0))) [
              | inl w ↦ ("panic", ground (arith, y, z, w), ground (arith, y, z, w))
              | inr w ↦
                  let run : broadcast_tx n msg c ≡ broadcast_signed n tx d =
                    ground (arith, y, z, w) in
                  rw run (broadcast_signed-SendsNothing tx d)
            ]
      ]
    ]

    -- Signing without a private key being an error or a panic, none of the client's transactions is ever
    -- sent, whatever the node answers: each of the five methods fails.
    pub transactions-SendsNothing :
        (factory address secret amount : String) (source : CreateEscrowParams)
        (destination : CreateDestEscrowParams)
        → SendsNothing (create_source n factory source)
          × SendsNothing (create_destination n factory destination)
          × SendsNothing (withdraw_from_escrow n address secret)
          × SendsNothing (partial_withdraw_from_escrow n address secret amount)
          × SendsNothing (cancel_escrow n address)
    unfolding create_source create_destination withdraw_from_escrow partial_withdraw_from_escrow
        cancel_escrow execute_contract
    transactions-SendsNothing factory address secret amount source destination = (
      broadcast_tx-SendsNothing _,
      broadcast_tx-SendsNothing _,
      broadcast_tx-SendsNothing _,
      broadcast_tx-SendsNothing _,
      broadcast_tx-SendsNothing _,
    )

  -- The orders are one and the same, but for their ids.
  unfoldable pub AllLike : CronosOrder → List CronosOrder → Type 0
  AllLike o [] = Unit
  AllLike o (x ∷ xs) = (x ≡ record o { id = x.id }) × AllLike o xs

  AllLike-head :
      (entry : EscrowEntry) (c : Client) (o : CronosOrder) (d : Client) (xs : List CronosOrder)
      → get_escrow_details n entry.address c ≡ (ok o, d)
      → AllLike o xs
      → AllLike o (add_details n entry (get_escrow_details n entry.address c) xs)
  unfolding AllLike
  AllLike-head entry c o d xs e k = rw e (refl, k)

  orders_of-AllLike :
      (entries : List EscrowEntry) (c : Client) (o : CronosOrder) (d : Client)
      → get_escrow_details n "" c ≡ (ok o, d)
      → AllLike o (orders_of n entries c)
  unfolding orders_of AllLike get_escrow_details query_contract
  orders_of-AllLike [] c o d e = tt
  orders_of-AllLike (entry ∷ entries) c o d e = elim (Bool-cases (entry.escrow_type == "Source")) [
    | inl y ↦
        rw y
          (AllLike-head entry c o d (orders_of n entries c) e (orders_of-AllLike entries c o d e))
    | inr y ↦ rw y (orders_of-AllLike entries c o d e)
  ]

  -- Without details there are no orders.
  orders_of-none :
      (entries : List EscrowEntry) (c d : Client) (x : String)
      → get_escrow_details n "" c ≡ (err x, d)
      → orders_of n entries c ≡ []
  unfolding orders_of get_escrow_details query_contract
  orders_of-none [] c d x e = refl
  orders_of-none (entry ∷ entries) c d x e = elim (Bool-cases (entry.escrow_type == "Source")) [
    | inl y ↦ rw (y, e) (orders_of-none entries c d x e)
    | inr y ↦ rw y (orders_of-none entries c d x e)
  ]

  orders_of-same :
      (entries : List EscrowEntry) (c d : Client) (r : Result String CronosOrder)
      → get_escrow_details n "" c ≡ (r, d)
      → (orders_of n entries c ≡ []) ⊎ ((o : CronosOrder) × AllLike o (orders_of n entries c))
  orders_of-same entries c d (ok o) e = inr (o, orders_of-AllLike entries c o d e)
  orders_of-same entries c d (err x) e = inl (orders_of-none entries c d x e)

  -- All orders that the client of Cronos reports at a time are one and the same, but for their ids: what it
  -- asks for an escrow's details does not say which escrow.
  pub get_escrow_orders-AllLike :
      (factory start_after : String) (limit : ℕ) (c : Client) (os : List CronosOrder)
      → (get_escrow_orders n factory start_after limit c).0 ≡ ok os
      → (os ≡ []) ⊎ ((o : CronosOrder) × AllLike o os)
  unfolding get_escrow_orders query_contract
  get_escrow_orders-AllLike factory start_after limit c os e =
      elim (Result-cases
        (n.abci_query c.sent "store/wasm/key" (n.marshal_query (escrow_list start_after limit)))) [
          | inr (x, y) ↦ absurd (ground (arith, e, y))
          | inl (bz, y) ↦ elim (Result-cases (n.unmarshal_list bz)) [
            | inr (x, z) ↦ absurd (ground (arith, e, y, z))
            | inl (entries, z) ↦
                let same : orders_of n entries c ≡ os = ground (arith, e, y, z) in
                let d = get_escrow_details n "" c in
                rw same at (orders_of-same entries c d.1 d.0 refl)
          ]
        ]
