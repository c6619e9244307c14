-- ===== src/Cronos/Callbacks.antt =====
-- x/cronos/keeper/keeper.go: the callbacks by which a contract learns what became of the packets that it
-- sent. Those of the receipt and of the sending do nothing.
use cosmos_swap.Prelude.{
  ℕ, Bool, false, not, Option, some, Bytes, bytes_eq, ◌==◌, or_raise, raise_if, pure, ◌>>=◌, ◌>>◌,
}
use cosmos_swap.Cronos.Types.{not_authenticated, not_decoded}
use cosmos_swap.Cronos.Environment.{Platform}
use cosmos_swap.Cronos.Keeper.{M, from_external}
use cosmos_swap.Cronos.Admin.{get_params}
use cosmos_swap.Cronos.Evm.{call_evm}

-- What the callbacks read of a packet, and what the precompiles' package and the codec do.
module _ (p : Platform) (pack_result : Bytes → ℕ → Bool → Bytes)
    (is_success : Bytes → Option Bool) where
  -- `OnPacketResultCallback` packs arguments of fixed types, which does not fail.
  unfoldable pub on_packet_result : Bytes → ℕ → Bool → Bytes → Bytes → M p (Unit {0})
  on_packet_result channel sequence acknowledged contract packet_sender = do
    sender ← from_external p (p.acc_from_bech32 packet_sender)
    let address = p.bytes_to_address sender
    raise_if (not (p.address_bytes address == p.address_bytes (p.hex_to_address contract)))
        not_authenticated
    q ← get_params p
    call_evm p (some address) (pack_result channel sequence acknowledged) q.max_callback_gas
    pure tt

  unfoldable pub on_acknowledgement_callback : Bytes → ℕ → Bytes → Bytes → Bytes → M p (Unit {0})
  on_acknowledgement_callback channel sequence acknowledgement contract packet_sender = do
    success ← or_raise (is_success acknowledgement) not_decoded
    on_packet_result channel sequence success contract packet_sender

  unfoldable pub on_timeout_callback : Bytes → ℕ → Bytes → Bytes → M p (Unit {0})
  on_timeout_callback channel sequence = on_packet_result channel sequence false
