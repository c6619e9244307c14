-- ===== src/Cronos/Logs/Tests.antt =====
-- Runs of the hook, the middleware and the callbacks on concrete inputs, and the theorems applied there.
use cosmos_swap.Prelude.{
  ℕ, ◌≡◌, ◌⊎◌, refl, Bool, true, false, Option, none, some, List, [], ◌∷◌, Bytes, codes, bytes_beq,
  ok, Result, String,
}
use cosmos_swap.Prelude.Int.{pos}
use cosmos_swap.Prelude.Map.{lookup, insert}
use cosmos_swap.Sdk.Example.Codec.{put_bytes, bytes}
use cosmos_swap.Cronos.{
  Coin, Transaction, conversion, transfer_tokens, evm_call, run_transactions, Events, Log, Packet,
  PacketData, Transfer, Error, ack_result, ack_error, invalid_amount, post_tx_processing,
  cronos_handlers, register_handlers, process_log, get_params, is_source_coin, send_to_account,
  send_cro_to_ibc, ibc_transfer_coins, transfer_coins, transfer_coin, return_cro, release_vouchers,
  ibc_send_transfer, source_channel, get_source_channel_id, is_valid_cronos_denom, on_packet_result,
  on_recv_packet, on_acknowledgement_packet, on_timeout_packet,
}
use cosmos_swap.Cronos.Example.{platform, platform_laws, encode, decode}
use cosmos_swap.Cronos.Tests.{cro, params, start, start_params, unlisted, other_denom}
use cosmos_swap.Cronos.Backing.{IsEven}
use cosmos_swap.Cronos.Backing.Packets.{Converts, packets-Converts}
use cosmos_swap.Cronos.Backing.Histories.{run_transactions-IsEven}
use cosmos_swap.Cronos.Logs.Store.{post_tx_processing-store}
use cosmos_swap.Cronos.Logs.Even.{post_tx_processing-IsEven}
use cosmos_swap.Cronos.Logs.Callbacks.{CallsOnly, on_packet_result-CallsOnly}

abbrev events : Events platform.Address
events = record {
  send_to_account_id = 1 ∷ [];
  send_to_ibc_id = 2 ∷ [];
  send_to_ibc_v2_id = 3 ∷ [];
  send_cro_to_ibc_id = 4 ∷ [];
  unpack_send_to_account = λ b. none;
  unpack_send_to_ibc = λ b. none;
  unpack_send_to_ibc_v2 = λ b. none;
  unpack_send_cro_to_ibc = λ b. some (3, codes "bob", 20_000_000_003);
}

-- A log without topics, one that does not decode, and one that sends coins of the EVM.
abbrev logs : List (Log platform.Address)
logs =
    record { address = 5; topics = []; log_data = [] }
    ∷ record { address = 5; topics = (1 ∷ []) ∷ []; log_data = [] }
    ∷ record { address = 5; topics = (4 ∷ []) ∷ []; log_data = [] }
    ∷ []

post_tx_processing-store_example :
    (post_tx_processing platform events 1 (cronos_handlers platform events 1) logs start).1.store
    ≡ start.store
post_tx_processing-store_example = post_tx_processing-store platform events 1 logs start

processed :
    (post_tx_processing platform events 1 (cronos_handlers platform events 1) logs start).0 ≡ ok tt
unfolding post_tx_processing process_log register_handlers insert lookup bytes_beq send_cro_to_ibc
    send_to_account ibc_transfer_coins transfer_coins transfer_coin return_cro release_vouchers
    ibc_send_transfer source_channel get_source_channel_id get_params encode decode put_bytes bytes
    is_source_coin is_valid_cronos_denom
processed = refl

foreign : is_source_coin params.ibc_cro_denom ≡ false
unfolding is_source_coin is_valid_cronos_denom
foreign = refl

post_tx_processing-IsEven_example :
    IsEven platform cro start
      (post_tx_processing platform events 1 (cronos_handlers platform events 1) logs start).1
post_tx_processing-IsEven_example =
    post_tx_processing-IsEven platform events 1 params other_denom unlisted foreign logs start
      start_params processed

abbrev packet : Packet
packet = record {
  source_port = codes "transfer";
  source_channel = codes "channel-0";
  destination_port = codes "transfer";
  destination_channel = codes "channel-1";
  packet_data = [];
}

abbrev packet_data : PacketData
packet_data = record {
  denom = record { base = codes "basecro"; trace = [] };
  amount = codes "5";
  sender = codes "alice";
  receiver = codes "bob";
}

abbrev transfers : Transfer platform
transfers = record {
  app_on_recv_packet = λ q s. (ack_result (1 ∷ []), s);
  app_on_acknowledgement_packet = λ q bz s. (ok tt, s);
  app_on_timeout_packet = λ q s. (ok tt, s);
  unmarshal_packet_data = λ bz. some packet_data;
  unmarshal_acknowledgement = λ bz. some (ack_error invalid_amount);
  ibc_denom = λ d. cro;
  parse_amount = λ bz. some (pos 5);
}

packets-Converts_example :
    Converts platform transfers
      ((res : Bytes) × (ack_result (1 ∷ []) ≡ ack_result res))
      packet_data
      cro
      (codes "bob")
      start
      (on_recv_packet platform transfers packet start).1
    × Converts platform transfers
        ((◌≡◌ {A = Result String (Unit {0})} (ok tt) (ok tt))
          × (x : Error) × (some (ack_error invalid_amount) ≡ some (ack_error x)))
        packet_data
        cro
        (codes "alice")
        start
        (on_acknowledgement_packet platform transfers packet [] start).1
    × Converts platform transfers
        (◌≡◌ {A = Result String (Unit {0})} (ok tt) (ok tt))
        packet_data
        cro
        (codes "alice")
        start
        (on_timeout_packet platform transfers packet start).1
packets-Converts_example = packets-Converts platform transfers packet packet_data [] start refl

abbrev pack_result : Bytes → ℕ → Bool → Bytes
pack_result channel sequence acknowledged = channel

abbrev success : Bytes → Option Bool
success bz = some true

-- The contract 3 sent the packet.
on_packet_result-CallsOnly_example :
    ((on_packet_result platform pack_result success
        (codes "channel-0")
        1
        true
        (3 ∷ [])
        (3 ∷ [])
        start).1.calls
      ≡ start.calls)
    ⊎ ((b : Bytes) × (platform.acc_from_bech32 (3 ∷ []) ≡ ok b)
        × (platform.bytes_to_address b ≡ platform.hex_to_address (3 ∷ []))
        × CallsOnly platform pack_result success
            (platform.hex_to_address (3 ∷ []))
            start
            (on_packet_result platform pack_result success
              (codes "channel-0")
              1
              true
              (3 ∷ [])
              (3 ∷ [])
              start).1)
on_packet_result-CallsOnly_example =
    on_packet_result-CallsOnly platform pack_result success platform_laws (codes "channel-0") 1 true
      (3 ∷ []) (3 ∷ []) start

abbrev valid : List Coin → Bool
valid cs = true

-- Vouchers come in, go out again, and a call of the EVM leaves logs.
abbrev transactions : List (Transaction platform valid valid)
transactions =
    conversion (record { address = codes "alice"; coins = record { denom = cro; amount = 5 } ∷ [] })
    ∷ transfer_tokens 1 (record {
      from = codes "alice";
      to = codes "bob";
      coins = record { denom = codes "basecro"; amount = 20_000_000_003 } ∷ [];
    })
    ∷ evm_call 2 events logs
    ∷ []

run_transactions-IsEven_example :
    IsEven platform cro start (run_transactions platform valid valid transactions start)
run_transactions-IsEven_example =
    run_transactions-IsEven platform platform_laws valid valid params other_denom unlisted foreign
      transactions start start_params
