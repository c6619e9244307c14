-- ===== src/Cronos/Logs/Callbacks.antt =====
-- The callbacks on packets call only the contract that sent the packet.
use cosmos_swap.Prelude.{
  ℕ, ◌≡◌, refl, inl, inr, ◌⊎◌, Bool, true, Option, some, [], ◌∷◌, ◌++◌, Bytes, bytes_eq,
  bytes_beq_iff, ◌==◌, arith, ok, Result-cases, Bool-cases, reads-then, sym, ap, ◌∙◌, pure, ◌>>=◌,
  ◌>>◌,
}
use cosmos_swap.Cronos.{
  Platform, PlatformLaws, State, EvmMessage, apply_message, on_packet_result, get_params, call_evm,
}

module _ (p : Platform) (pack_result : Bytes → ℕ → Bool → Bytes)
    (is_success : Bytes → Option Bool) where
  -- Nothing was called, or one message to the address.
  unfoldable pub CallsOnly : p.Address → State p → State p → Type 0
  CallsOnly a s t =
      (t.calls ≡ s.calls)
      ⊎ ((m : EvmMessage p.Address) × (m.to ≡ some a) × (t.calls ≡ s.calls ++ apply_message m ∷ []))

  call_evm-CallsOnly :
      (a : p.Address) (input : Bytes) (gas : ℕ) (s : State p)
      → CallsOnly a s ((call_evm p (some a) input gas >> pure tt) s).1
  unfolding CallsOnly call_evm
  call_evm-CallsOnly a input gas s =
      let m : EvmMessage p.Address = record {
        from = p.evm_module_address;
        to = some a;
        nonce = p.get_nonce s.calls;
        gas_limit = gas;
        input = input;
      } in
      elim (Result-cases (p.evm_answer s.calls m)) [
        | inl (r, y) ↦ inr (m, refl, ground (arith, y))
        | inr (x, y) ↦ inl (ground (arith, y))
      ]

  get_params-reads : (s : State p) → (get_params p s).1 ≡ s
  unfolding get_params
  get_params-reads s = ground arith

  with_params-CallsOnly :
      (a : p.Address) (input : Bytes) (s : State p)
      → CallsOnly a s
          ((get_params p >>= λ q. call_evm p (some a) input q.max_callback_gas >> pure tt) s).1
  unfolding CallsOnly
  with_params-CallsOnly a input s =
      reads-then (CallsOnly a s) (get_params p)
        (λ q. call_evm p (some a) input q.max_callback_gas >> pure tt) s (get_params-reads s)
        (inl refl) (λ q. call_evm-CallsOnly a input q.max_callback_gas s)

  module _ (laws : PlatformLaws p) where
    address_bytes-injective :
        (a b : p.Address) → (p.address_bytes a == p.address_bytes b) ≡ true → a ≡ b
    address_bytes-injective a b e =
        sym (laws.bytes_to_address-address_bytes a)
        ∙ (ap p.bytes_to_address ((bytes_beq_iff (p.address_bytes a) (p.address_bytes b)).0 e)
            ∙ laws.bytes_to_address-address_bytes b)

    -- A callback about a packet calls nothing, or sends one message, to the contract that it names, and
    -- then that contract is the sender of the packet.
    pub on_packet_result-CallsOnly :
        (channel : Bytes) (sequence : ℕ) (acknowledged : Bool) (contract packet_sender : Bytes)
        (s : State p)
        → ((on_packet_result p pack_result is_success channel sequence acknowledged contract
              packet_sender s).1.calls
            ≡ s.calls)
          ⊎ ((b : Bytes) × (p.acc_from_bech32 packet_sender ≡ ok b)
              × (p.bytes_to_address b ≡ p.hex_to_address contract)
              × CallsOnly
                  (p.hex_to_address contract)
                  s
                  (on_packet_result p pack_result is_success channel sequence acknowledged contract
                    packet_sender s).1)
    unfolding on_packet_result CallsOnly
    on_packet_result-CallsOnly channel sequence acknowledged contract packet_sender s =
        elim (Result-cases (p.acc_from_bech32 packet_sender)) [
          | inr (x, y) ↦ inl (rw y refl)
          | inl (b, y) ↦
              let a = p.bytes_to_address b in
              elim (Bool-cases (p.address_bytes a == p.address_bytes (p.hex_to_address contract))) [
                | inr n ↦ inl (rw (y, n) refl)
                | inl e ↦
                    let same = address_bytes-injective a (p.hex_to_address contract) e in
                    inr (
                      b,
                      y,
                      same,
                      rw (y, e, same)
                          (with_params-CallsOnly (p.hex_to_address contract)
                            (pack_result channel sequence acknowledged) s),
                    )
              ]
        ]
