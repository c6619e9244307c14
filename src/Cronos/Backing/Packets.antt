-- ===== src/Cronos/Backing/Packets.antt =====
-- The middleware after the application below it: for whom it converts what a packet brought or gave
-- back, and that the coins of the EVM stay backed.
use cosmos_swap.Prelude.{
  ℕ, String, ◌≡◌, ◌≢◌, refl, inl, inr, ◌⊎◌, true, false, Option, none, some, List, Bytes, bytes_eq,
  arith, Result, ok, err, Result-cases, or_raise, ◌>>=◌, Bool-cases, reads-gives, Option-cases,
  bytes_beq_iff,
}
use cosmos_swap.Prelude.Int.{ℤ, pos, negsuc}
use cosmos_swap.Cronos.{
  received_denom, amount_coin, receive, new_coins, invalid_amount, can_be_converted, Platform,
  State, M, Error, Coin, Params, Packet, PacketData, Acknowledgement, ack_result, ack_error,
  Transfer, convert_packet, convert_if, convert_received, convert_refund, acknowledged,
  after_receipt, on_recv_packet, refund_packet, refund_of, after_app, on_acknowledgement_packet,
  get_contract_by_denom, on_timeout_packet, on_recv_vouchers, get_params, not_decoded,
  convert_vouchers_to_evm_coins, is_valid_coin_denom,
}
use cosmos_swap.Cronos.Backing.{IsEven}
use cosmos_swap.Cronos.Backing.Vouchers.{convert_vouchers_to_evm_coins-IsEven}

module _ (p : Platform) (t : Transfer p) where
  -- A denomination that vouchers are converted of: the parameters' voucher of CRO, or one with a contract
  unfoldable pub IsConvertible : Bytes → State p → Type 0
  IsConvertible denom s =
      (q : Params) × (get_params p s ≡ (ok q, s))
      × ((denom ≡ q.ibc_cro_denom) ⊎ ((c : p.Address) × (get_contract_by_denom p denom s ≡ some c)))

  -- From one state to the other nothing happens, or, where it is allowed, one conversion for an account, of
  -- the packet's amount of a denomination that is converted.
  unfoldable pub Converts : Type 0 → PacketData → Bytes → Bytes → State p → State p → Type 0
  Converts Allowed d denom account s r =
      (r ≡ s)
      ⊎ (Allowed
          × IsConvertible denom s
          × (n : ℕ) × (t.parse_amount d.amount ≡ some (pos n))
          × (r ≡ on_recv_vouchers p (new_coins (record { denom = denom; amount = n })) account s))

  amount-Converts :
      (Allowed : Type 0) (d : PacketData) (denom account : Bytes) (s : State p) (o : Option ℤ)
      → Allowed
      → IsConvertible denom s
      → t.parse_amount d.amount ≡ o
      → Converts Allowed d denom account s
          ((or_raise o invalid_amount >>= λ n.
              amount_coin p t denom n >>= λ c. receive p t c account)
            s).1
  unfolding Converts
  amount-Converts Allowed d denom account s none w c h = inl refl
  amount-Converts Allowed d denom account s (some (negsuc n)) w c h = inl refl
  amount-Converts Allowed d denom account s (some (pos n)) w c h =
      elim (Bool-cases (p.is_denom denom)) [
        | inl y ↦ inr (w, c, n, h, rw y refl)
        | inr y ↦ inl (rw y refl)
      ]

  get_params-reads : (s : State p) → (get_params p s).1 ≡ s
  unfolding get_params
  get_params-reads s = ground arith

  can_be_converted-state : (denom : Bytes) (s : State p) → (can_be_converted p t denom s).1 ≡ s
  unfolding get_params
  can_be_converted-state denom s = ground arith

  can_be_converted-IsConvertible :
      (denom : Bytes) (s : State p)
      → (can_be_converted p t denom s).0 ≡ ok true
      → IsConvertible denom s
  unfolding IsConvertible
  can_be_converted-IsConvertible denom s e = elim (Result-cases (get_params p s).0) [
    | inr (x, y) ↦ absurd (ground (arith, e, y))
    | inl (q, y) ↦
        let found = get_contract_by_denom p denom s in
        let here : get_params p s ≡ (ok q, s) = ground (arith, y, get_params-reads s) in
        elim (Option-cases found) [
          | inl z ↦
              (q, here, inl (ground (arith, e, y, z, here, bytes_beq_iff denom q.ibc_cro_denom)))
          | inr (c, z) ↦ (q, here, inr (c, z))
        ]
  ]

  -- A check that only reads, then a conversion if it says so.
  checked-Converts :
      (Allowed : Type 0) (d : PacketData) (denom account : Bytes) (s : State p)
      → Allowed
      → Converts Allowed d denom account s
          ((can_be_converted p t denom >>= λ c. convert_if p t c d denom account) s).1
  unfolding Converts convert_if convert_packet
  checked-Converts Allowed d denom account s w =
      reads-gives (Converts Allowed d denom account s) (can_be_converted p t denom)
        (λ c. convert_if p t c d denom account) s (can_be_converted-state denom s) (inl refl)
        (λ c y. elim (Bool-cases c) [
          | inr z ↦ inl (rw z refl)
          | inl z ↦ rw z (
              amount-Converts Allowed d denom account s (t.parse_amount d.amount) w
                (can_be_converted-IsConvertible denom s (rw z at y)) refl)
        ])

  acknowledged-state :
      (ack : Acknowledgement) (r : Result Error (Unit {0}) × State p)
      → (acknowledged p t ack r).1 ≡ r.1
  acknowledged-state ack (ok u, s) = refl
  acknowledged-state ack (err e, s) = ground arith

  receipt-Converts :
      (packet : Packet) (d : PacketData) (ack : Acknowledgement) (s : State p)
      → t.unmarshal_packet_data packet.packet_data ≡ some d
      → Converts
          ((bz : Bytes) × (ack ≡ ack_result bz))
          d
          (t.ibc_denom (received_denom packet d.denom))
          d.receiver
          s
          (after_receipt p t packet ack s).1
  unfolding Converts convert_received
  receipt-Converts packet d (ack_error x) s e = inl refl
  receipt-Converts packet d (ack_result bz) s e =
      let run =
        or_raise (t.unmarshal_packet_data packet.packet_data) not_decoded
        >>= convert_received p t packet in
      rw (acknowledged-state (ack_result bz) (run s), e)
        (checked-Converts _ d (t.ibc_denom (received_denom packet d.denom)) d.receiver s (bz, refl))

  refund_packet-Converts :
      (Allowed : Type 0) (packet : Packet) (d : PacketData) (s : State p)
      → t.unmarshal_packet_data packet.packet_data ≡ some d
      → Allowed
      → Converts Allowed d (t.ibc_denom d.denom) d.sender s (refund_packet p t packet s).1
  unfolding refund_packet convert_refund
  refund_packet-Converts Allowed packet d s e w =
      rw e (checked-Converts _ d (t.ibc_denom d.denom) d.sender s w)

  refund_of-Converts :
      (Allowed : Type 0) (packet : Packet) (d : PacketData) (o : Option Acknowledgement)
      (s : State p)
      → t.unmarshal_packet_data packet.packet_data ≡ some d
      → ((x : Error) → o ≡ some (ack_error x) → Allowed)
      → Converts Allowed d
          (t.ibc_denom d.denom)
          d.sender
          s
          ((or_raise o not_decoded >>= refund_of p t packet) s).1
  unfolding Converts
  refund_of-Converts Allowed packet d none s e w = inl refl
  refund_of-Converts Allowed packet d (some (ack_result bz)) s e w = inl refl
  refund_of-Converts Allowed packet d (some (ack_error x)) s e w =
      refund_packet-Converts Allowed packet d s e (w x refl)

  after_app-Converts :
      (Allowed : Type 0) (d : PacketData) (denom account : Bytes)
      (r : Result String (Unit {0}) × State p) (m : M p (Unit {0}))
      → ((s : State p) → r.0 ≡ ok tt → Converts Allowed d denom account s (m s).1)
      → Converts Allowed d denom account r.1 (after_app p t r m).1
  unfolding Converts
  after_app-Converts Allowed d denom account (ok u, s) m k = k s refl
  after_app-Converts Allowed d denom account (err e, s) m k = inl refl

  -- Of a packet whose data decodes, the middleware does nothing after the application below, or makes one
  -- conversion: of the packet's amount, if its denomination on this chain is the voucher of CRO or has a
  -- contract; for the receiver of a packet that arrived and was accepted, and for the sender of one that
  -- was acknowledged with an error or timed out, if the application below succeeded.
  pub packets-Converts :
      (packet : Packet) (d : PacketData) (bz : Bytes) (s : State p)
      → t.unmarshal_packet_data packet.packet_data ≡ some d
      → Converts
          ((res : Bytes) × ((t.app_on_recv_packet packet s).0 ≡ ack_result res))
          d
          (t.ibc_denom (received_denom packet d.denom))
          d.receiver
          (t.app_on_recv_packet packet s).1
          (on_recv_packet p t packet s).1
        × Converts
            (((t.app_on_acknowledgement_packet packet bz s).0 ≡ ok tt)
              × (x : Error) × (t.unmarshal_acknowledgement bz ≡ some (ack_error x)))
            d
            (t.ibc_denom d.denom)
            d.sender
            (t.app_on_acknowledgement_packet packet bz s).1
            (on_acknowledgement_packet p t packet bz s).1
        × Converts
            ((t.app_on_timeout_packet packet s).0 ≡ ok tt)
            d
            (t.ibc_denom d.denom)
            d.sender
            (t.app_on_timeout_packet packet s).1
            (on_timeout_packet p t packet s).1
  unfolding on_recv_packet on_acknowledgement_packet on_timeout_packet
  packets-Converts packet d bz s e = (
    receipt-Converts packet d (t.app_on_recv_packet packet s).0 (t.app_on_recv_packet packet s).1 e,
    after_app-Converts _ d (t.ibc_denom d.denom) d.sender
        (t.app_on_acknowledgement_packet packet bz s)
        (or_raise (t.unmarshal_acknowledgement bz) not_decoded >>= refund_of p t packet)
        (λ r o.
          refund_of-Converts _ packet d (t.unmarshal_acknowledgement bz) r e (λ x y. (o, x, y))),
    after_app-Converts _ d (t.ibc_denom d.denom) d.sender (t.app_on_timeout_packet packet s)
        (refund_packet p t packet) (λ r o. refund_packet-Converts _ packet d r e o),
  )

  module _ (q : Params) (other : p.evm_denom ≢ q.ibc_cro_denom)
      (unlisted : is_valid_coin_denom p.evm_denom ≡ false) where
    on_recv_vouchers-IsEven :
        (cs : List Coin) (account : Bytes) (s : State p)
        → get_params p s ≡ (ok q, s)
        → IsEven p q.ibc_cro_denom s (on_recv_vouchers p cs account s)
    unfolding on_recv_vouchers IsEven
    on_recv_vouchers-IsEven cs account s h =
        elim (Result-cases (convert_vouchers_to_evm_coins p account cs s).0) [
          | inl (u, y) ↦
              rw y (convert_vouchers_to_evm_coins-IsEven p q other s h account cs unlisted y)
          | inr (x, y) ↦ rw y (omega arith)
        ]

    -- A conversion that fails leaves no trace, and one that succeeds creates and destroys coins of the EVM
    -- and vouchers of CRO at the rate of 10^10 to one.
    pub Converts-IsEven :
        (Allowed : Type 0) (d : PacketData) (denom account : Bytes) (s r : State p)
        → get_params p s ≡ (ok q, s)
        → Converts Allowed d denom account s r
        → IsEven p q.ibc_cro_denom s r
    unfolding Converts IsEven
    Converts-IsEven Allowed d denom account s r h (inl e) = ground (arith, e)
    Converts-IsEven Allowed d denom account s r h (inr (w, c, n, a, e)) =
        rw e
          (on_recv_vouchers-IsEven (new_coins (record { denom = denom; amount = n })) account s h)
