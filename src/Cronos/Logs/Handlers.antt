-- ===== src/Cronos/Logs/Handlers.antt =====
-- The handlers of logs, and the hook that runs them, leave the store alone.
use cosmos_swap.Prelude.{
  ℕ, ◌≡◌, refl, Option, none, some, List, [], ◌∷◌, Bytes, bytes_eq, ◌==◌, arith, Bool-cases, inl,
  inr, pure, ◌>>◌,
}
use cosmos_swap.Prelude.Map.{lookup, insert, lookup-insert}
use cosmos_swap.Cronos.{
  Platform, M, Events, Log, EvmLogHandler, send_to_account, send_to_ibc_v1, send_to_ibc_v2,
  send_cro_to_ibc, register_handlers, run_handler, process_log, post_tx_processing, cronos_handlers,
  send_to_account_handler, send_to_ibc_handler, send_to_ibc_v2_handler, send_cro_to_ibc_handler,
}

module _ (p : Platform) (ev : Events p.Address) (now : ℕ) where
  -- Every handler of a list, or of a table, satisfies a predicate on what it does.
  unfoldable pub AllHandlers : (M p (Unit {0}) → Type 0) → List (EvmLogHandler p ev now) → Type 0
  AllHandlers P [] = Unit
  AllHandlers P (h ∷ hs) =
      ((a : p.Address) (topics : List Bytes) (input : Bytes) → P (h.handle a topics input))
      × AllHandlers P hs

  unfoldable pub InTable :
      (M p (Unit {0}) → Type 0) → List (Bytes × EvmLogHandler p ev now) → Type 0
  InTable P t =
      (topic : Bytes) (h : EvmLogHandler p ev now)
      → lookup topic t ≡ some h
      → (a : p.Address) (topics : List Bytes) (input : Bytes) → P (h.handle a topics input)

  register_handlers-InTable :
      (P : M p (Unit {0}) → Type 0) (hs : List (EvmLogHandler p ev now))
      (t : List (Bytes × EvmLogHandler p ev now))
      → AllHandlers P hs
      → InTable P t
      → InTable P (register_handlers p ev now t hs)
  unfolding AllHandlers InTable register_handlers
  register_handlers-InTable P [] t k l = l
  register_handlers-InTable P (h ∷ hs) t (k, ks) l =
      register_handlers-InTable P hs (insert h.event_id h t) ks (λ topic g e.
        elim (Bool-cases (h.event_id == topic)) [
          | inl y ↦
              let same : g ≡ h = ground (arith, e, y, lookup-insert h.event_id topic h t) in
              rw same k
          | inr n ↦ l topic g (ground (arith, e, n, lookup-insert h.event_id topic h t))
        ])

  module _ (P : M p (Unit {0}) → Type 0) (nothing : P (pure tt))
      (both : (m n : M p (Unit {0})) → P m → P n → P (m >> n)) where
    run_handler-all :
        (t : List (Bytes × EvmLogHandler p ev now))
        → InTable P t
        → (log : Log p.Address) (topic : Bytes) (topics : List Bytes)
          (found : Option (EvmLogHandler p ev now))
        → lookup topic t ≡ found
        → P (run_handler p ev now found log topics)
    unfolding InTable
    run_handler-all t k log topic topics none e = nothing
    run_handler-all t k log topic topics (some h) e = k topic h e log.address topics log.log_data

    process_log-all :
        (t : List (Bytes × EvmLogHandler p ev now))
        → InTable P t
        → (log : Log p.Address) (topics : List Bytes) → P (process_log p ev now t log topics)
    unfolding process_log
    process_log-all t k log [] = nothing
    process_log-all t k log (topic ∷ topics) =
        run_handler-all t k log topic (topic ∷ topics) (lookup topic t) refl

    hook-all :
        (t : List (Bytes × EvmLogHandler p ev now))
        → InTable P t
        → (logs : List (Log p.Address)) → P (post_tx_processing p ev now t logs)
    unfolding post_tx_processing
    hook-all t k [] = nothing
    hook-all t k (log ∷ logs) =
        both (process_log p ev now t log log.topics) (post_tx_processing p ev now t logs)
          (process_log-all t k log log.topics) (hook-all t k logs)

    -- What each of the four handlers satisfies, and doing nothing, and one after the other, the
    -- processing of any logs satisfies.
    pub cronos_hook-all :
        ((a : p.Address) (o : Option (p.Address × ℕ)) → P (send_to_account p ev now a o))
        → ((a : p.Address) (o : Option (p.Address × Bytes × ℕ)) → P (send_to_ibc_v1 p ev now a o))
        → ((a : p.Address) (topics : List Bytes) (input : Bytes)
            → P (send_to_ibc_v2 p ev now a topics input))
        → ((a : p.Address) (o : Option (p.Address × Bytes × ℕ)) → P (send_cro_to_ibc p ev now a o))
        → (logs : List (Log p.Address))
        → P (post_tx_processing p ev now (cronos_handlers p ev now) logs)
    unfolding AllHandlers InTable lookup
    cronos_hook-all k l m n logs =
        hook-all (cronos_handlers p ev now)
          (register_handlers-InTable P
            (send_to_account_handler p ev now
              ∷ send_to_ibc_handler p ev now
              ∷ send_to_ibc_v2_handler p ev now
              ∷ send_cro_to_ibc_handler p ev now
              ∷ [])
            []
            (
              (λ a topics input. k a (ev.unpack_send_to_account input)),
              (
                (λ a topics input. l a (ev.unpack_send_to_ibc input)),
                (m, ((λ a topics input. n a (ev.unpack_send_cro_to_ibc input)), tt)),
              ),
            )
            (λ topic h e. absurd (ground arith)))
          logs
