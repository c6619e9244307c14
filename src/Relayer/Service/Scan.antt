-- ===== src/Relayer/Service/Scan.antt =====
-- The scans of the chains.
use cosmos_swap.Prelude.{
  ◌≡◌, ◌∙◌, ap, refl, List, [], ◌∷◌, ◌++◌, String, Result, ok, arith, Result-cases, inl, inr,
}
use cosmos_swap.Prelude.Int.{ℤ, ◌≤ℤ◌, ◌<ℤ◌}
use cosmos_swap.Prelude.Time.{Time, to_int64}
use cosmos_swap.Relayer.Orders.{Call, create_on_ethereum, Contracts, Replies, process_new}
use cosmos_swap.Relayer.Orders.Effects.{process_new_sends}
use cosmos_swap.Relayer.Manager.{Manager, new_order, add_order, step}
use cosmos_swap.Relayer.Manager.Duplicates.{handled, step-handled}
use cosmos_swap.Relayer.Service.{Service, CronosOrder, scan_cronos, convert_cronos}

module _ (d : ℤ) (now : Time) (latest : Result String ℤ) (orders : Result String (List CronosOrder))
    (s t : Service) where
  -- A scan that succeeds has learnt a block, and the last block seen never moves backwards.
  pub scan_cronos-block :
      scan_cronos d now latest orders s ≡ ok t
      → (b : ℤ) × (latest ≡ ok b)
        × (b ≤ℤ t.last_cronos_block)
        × (s.last_cronos_block ≤ℤ t.last_cronos_block)
  unfolding scan_cronos
  scan_cronos-block e = elim (Result-cases latest) [
    | inl (b, y) ↦ (b, y, ground arith, ground arith)
    | inr (x, y) ↦ absurd (ground arith)
  ]

module _ (c : Contracts) (d : ℤ) (x : CronosOrder) where
  -- The escrow that an order of Cronos asks for on Ethereum.
  abbrev pub escrow_call : Call
  escrow_call = create_on_ethereum c.resolver (to_int64 x.timelock)

  convert-sends :
      (r : Replies) (now : Time) (log : List Call)
      → (process_new c r (convert_cronos d now x) log).1 ≡ log ++ escrow_call ∷ []
  unfolding convert_cronos
  convert-sends r now log = process_new_sends c r (convert_cronos d now x) log

  scan_one :
      (now : Time) (b : ℤ) (s : Service)
      → s.last_cronos_block <ℤ b
      → scan_cronos d now (ok b) (ok (x ∷ [])) s
        ≡ ok (record s {
          manager = add_order (convert_cronos d now x) s.manager;
          last_cronos_block = b;
        })
  unfolding scan_cronos
  scan_one now b s l = ground arith

  -- Scanned at two successive new blocks, with no other new order waiting and a turn of
  -- `processNewOrders` after each scan, one order of Cronos has its escrow created twice.
  pub rescan_creates_twice :
      (t1 t2 : Time) (b1 b2 : ℤ) (r1 r2 : Replies) (s : Service)
      → s.manager.new_orders ≡ []
      → s.last_cronos_block <ℤ b1
      → b1 <ℤ b2
      → (s1 : Service) × (m1 : Manager) × (s2 : Service) × (m2 : Manager) × (scan_cronos d t1
            (ok b1)
            (ok (x ∷ []))
            s
          ≡ ok s1)
        × (step c (new_order r1) s1.manager ≡ ok m1)
        × (scan_cronos d t2 (ok b2) (ok (x ∷ [])) (record s1 { manager = m1 }) ≡ ok s2)
        × (step c (new_order r2) s2.manager ≡ ok m2)
        × (m2.sent ≡ (s.manager.sent ++ escrow_call ∷ []) ++ escrow_call ∷ [])
  rescan_creates_twice t1 t2 b1 b2 r1 r2 s e l1 l2 =
      let o1 = convert_cronos d t1 x in
      let o2 = convert_cronos d t2 x in
      let s1 : Service = record s { manager = add_order o1 s.manager; last_cronos_block = b1 } in
      let m1 = handled c r1 o1 s.manager in
      let s2 : Service = record s { manager = add_order o2 m1; last_cronos_block = b2 } in
      (
        s1,
        m1,
        s2,
        handled c r2 o2 m1,
        scan_one t1 b1 s l1,
        step-handled c r1 o1 s.manager e,
        scan_one t2 b2 (record s1 { manager = m1 }) l2,
        step-handled c r2 o2 m1 refl,
        convert-sends r2 t2 m1.sent
            ∙ ap (λ l. l ++ escrow_call ∷ []) (convert-sends r1 t1 s.manager.sent),
      )
