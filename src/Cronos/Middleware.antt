-- ===== src/Cronos/Middleware.antt =====
-- x/cronos/middleware/conversion_middleware.go: vouchers that arrive, or come back, are converted. The
-- callbacks for channels, which only call the application below, are left out.
use cosmos_swap.Prelude.{
  Bool, false, ◌||◌, Option, List, [], ◌∷◌, Bytes, ◌&&◌, bytes_eq, ◌==◌, if◌then◌else◌, String,
  Result, ok, err, raise, pure, gets, or_raise, ◌>>=◌,
}
use cosmos_swap.Prelude.Int.{ℤ, pos, negsuc}
use cosmos_swap.Cronos.Types.{Coin, new_coins, Error, external, invalid_amount, not_decoded, panic}
use cosmos_swap.Cronos.Environment.{Platform, State}
use cosmos_swap.Cronos.Keeper.{M, get_contract_by_denom, is_found}
use cosmos_swap.Cronos.Admin.{get_params}
use cosmos_swap.Cronos.Evm.{new_coin}
use cosmos_swap.Cronos.Ibc.{on_recv_vouchers}

-- `channeltypes.Packet`, as far as the middleware reads it
pub record Packet : Type 0 where
  pub source_port : Bytes
  pub source_channel : Bytes
  pub destination_port : Bytes
  pub destination_channel : Bytes
  pub packet_data : Bytes

-- `transferTypes.Denom`: a base denomination and the hops (port, channel) that it came over
pub record Denom : Type 0 where
  pub base : Bytes
  pub trace : List (Bytes × Bytes)

-- `transferTypes.InternalTransferRepresentation`
pub record PacketData : Type 0 where
  pub denom : Denom
  pub amount : Bytes
  pub sender : Bytes
  pub receiver : Bytes

-- `channeltypes.Acknowledgement`
pub data Acknowledgement : Type 0 where
  ack_result : Bytes → Acknowledgement
  ack_error : Error → Acknowledgement

-- The application below, and what the middleware calls of ibc-go and of `sdkmath`.
pub record Transfer (p : Platform) : Type 0 where
  pub app_on_recv_packet : Packet → State p → Acknowledgement × State p
  pub app_on_acknowledgement_packet : Packet → Bytes → State p → Result String (Unit {0}) × State p
  pub app_on_timeout_packet : Packet → State p → Result String (Unit {0}) × State p
  pub unmarshal_packet_data : Bytes → Option PacketData
  pub unmarshal_acknowledgement : Bytes → Option Acknowledgement
  pub ibc_denom : Denom → Bytes  -- `Denom.IBCDenom`
  pub parse_amount : Bytes → Option ℤ  -- `sdkmath.NewIntFromString`

-- `Denom.HasPrefix`
abbrev pub denom_has_prefix : List (Bytes × Bytes) → Bytes → Bytes → Bool
denom_has_prefix [] port channel = false
denom_has_prefix ((a, b) ∷ hops) port channel = a == port && b == channel

abbrev pub tail : List (Bytes × Bytes) → List (Bytes × Bytes)
tail [] = []
tail (hop ∷ hops) = hops

-- The denomination that a packet's token has on this chain: it came from here, or gets one more hop.
unfoldable pub received_denom : Packet → Denom → Denom
received_denom packet denom =
    if denom_has_prefix denom.trace packet.source_port packet.source_channel
    then record denom { trace = tail denom.trace }
    else record denom {
      trace = (packet.destination_port, packet.destination_channel) ∷ denom.trace;
    }

module _ (p : Platform) (t : Transfer p) where
  abbrev pub can_be_converted : Bytes → M p Bool
  can_be_converted denom = do
    q ← get_params p
    found ← gets (get_contract_by_denom p denom)
    pure (denom == q.ibc_cro_denom || is_found p found)

  -- `sdk.NewCoin` panics on a negative amount.
  abbrev pub amount_coin : Bytes → ℤ → M p Coin
  amount_coin denom (negsuc n) = raise panic
  amount_coin denom (pos n) = new_coin p denom n

  abbrev pub receive : Coin → Bytes → M p (Unit {0})
  receive coin account s = (ok tt, on_recv_vouchers p (new_coins coin) account s)

  -- `convertVouchers`; its `isSender` chooses the account.
  unfoldable pub convert_packet : PacketData → Bytes → Bytes → M p (Unit {0})
  convert_packet d denom account = do
    amount ← or_raise (t.parse_amount d.amount) invalid_amount
    coin ← amount_coin denom amount
    receive coin account

  unfoldable pub convert_if : Bool → PacketData → Bytes → Bytes → M p (Unit {0})
  convert_if convertible d denom account =
      if convertible then convert_packet d denom account else pure tt

  unfoldable pub convert_received : Packet → PacketData → M p (Unit {0})
  convert_received packet d = do
    let denom = t.ibc_denom (received_denom packet d.denom)
    convertible ← can_be_converted denom
    convert_if convertible d denom d.receiver

  unfoldable pub convert_refund : PacketData → M p (Unit {0})
  convert_refund d = do
    let denom = t.ibc_denom d.denom
    convertible ← can_be_converted denom
    convert_if convertible d denom d.sender

  -- An error of the conversion becomes the acknowledgement; a panic is none.
  abbrev pub acknowledged :
      Acknowledgement → Result Error (Unit {0}) × State p → Result Error Acknowledgement × State p
  acknowledged ack (ok _, s) = (ok ack, s)
  acknowledged ack (err panic, s) = (err panic, s)
  acknowledged ack (err e, s) = (ok (ack_error e), s)

  abbrev pub after_receipt : Packet → Acknowledgement → M p Acknowledgement
  after_receipt packet (ack_error e) s = (ok (ack_error e), s)
  after_receipt packet (ack_result bz) s = acknowledged (ack_result bz) (
      (or_raise (t.unmarshal_packet_data packet.packet_data) not_decoded
          >>= convert_received packet)
        s)

  unfoldable pub on_recv_packet : Packet → M p Acknowledgement
  on_recv_packet packet s =
      let (ack, r) = t.app_on_recv_packet packet s in after_receipt packet ack r

  unfoldable pub refund_packet : Packet → M p (Unit {0})
  refund_packet packet =
      or_raise (t.unmarshal_packet_data packet.packet_data) not_decoded >>= convert_refund

  -- Only an error acknowledgement gives a refund.
  abbrev pub refund_of : Packet → Acknowledgement → M p (Unit {0})
  refund_of packet (ack_result bz) = pure tt
  refund_of packet (ack_error e) = refund_packet packet

  abbrev pub after_app :
      Result String (Unit {0}) × State p → M p (Unit {0}) → Result Error (Unit {0}) × State p
  after_app (ok _, s) m = m s
  after_app (err e, s) m = (err (external e), s)

  unfoldable pub on_acknowledgement_packet : Packet → Bytes → M p (Unit {0})
  on_acknowledgement_packet packet bz s =
      after_app (t.app_on_acknowledgement_packet packet bz s)
        (or_raise (t.unmarshal_acknowledgement bz) not_decoded >>= refund_of packet)

  unfoldable pub on_timeout_packet : Packet → M p (Unit {0})
  on_timeout_packet packet s = after_app (t.app_on_timeout_packet packet s) (refund_packet packet)
