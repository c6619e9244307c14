-- ===== src/Events/Tables.antt =====
-- The tables of x/cronos/events/events.go: which decoder an attribute of a relayer's event has, and which
-- attributes are copied under a second name.
use cosmos_swap.Prelude.{
  ℕ, ◌≡◌, ◌≢◌, sym, ◌⊎◌, inl, inr, true, false, some, List, [], ◌∷◌, Bytes, bytes_eq, ◌==◌, codes,
  ok, arith, length, Option-cases, Bool-cases, bytes_beq_iff, if◌then◌else◌,
}
use cosmos_swap.Prelude.Map.{lookup}
use cosmos_swap.Events.{ValueDecoder, get_decoder}
use cosmos_swap.Events.Decoders.{
  Parsers, Value, return_string_as_is, convert_acc_address_from_bech32, convert_amount,
  convert_uint64, convert_packet_data,
}
use cosmos_swap.Events.Aligned.{IsSingle, decoders-IsSingle}

-- The names of attributes that ibc-go and the SDK spell
pub record AttributeKeys : Type 0 where
  pub data_hex : Bytes
  pub amount : Bytes
  pub recipient : Bytes
  pub spender : Bytes
  pub receiver : Bytes
  pub sender : Bytes
  pub minter : Bytes
  pub burner : Bytes
  pub sequence : Bytes
  pub src_port : Bytes
  pub src_channel : Bytes
  pub dst_port : Bytes
  pub dst_channel : Bytes
  pub connection_id : Bytes
  pub denom : Bytes
  pub refund_receiver : Bytes
  pub refund_tokens : Bytes

-- The names that x/cronos/events/types/types.go spells
abbrev pub src_port_info : Bytes
src_port_info = codes "packet_src_port_info"

abbrev pub src_channel_info : Bytes
src_channel_info = codes "packet_src_channel_info"

module _ (p : Parsers) (k : AttributeKeys) where
  -- `RelayerValueDecoders`, but for the entry of packets
  abbrev other_decoders : List (Bytes × ValueDecoder Value)
  other_decoders =
      (k.amount, convert_amount p)
      ∷ (k.recipient, convert_acc_address_from_bech32 p)
      ∷ (k.spender, convert_acc_address_from_bech32 p)
      ∷ (k.receiver, convert_acc_address_from_bech32 p)
      ∷ (k.sender, convert_acc_address_from_bech32 p)
      ∷ (k.minter, convert_acc_address_from_bech32 p)
      ∷ (k.burner, convert_acc_address_from_bech32 p)
      ∷ (k.sequence, convert_uint64 p)
      ∷ (k.src_port, return_string_as_is)
      ∷ (src_port_info, return_string_as_is)
      ∷ (k.src_channel, return_string_as_is)
      ∷ (src_channel_info, return_string_as_is)
      ∷ (k.dst_port, return_string_as_is)
      ∷ (k.dst_channel, return_string_as_is)
      ∷ (k.connection_id, return_string_as_is)
      ∷ (k.denom, return_string_as_is)
      ∷ (k.refund_receiver, convert_acc_address_from_bech32 p)
      ∷ (k.refund_tokens, return_string_as_is)
      ∷ []

  -- `RelayerValueDecoders`
  abbrev pub relayer_value_decoders : List (Bytes × ValueDecoder Value)
  relayer_value_decoders = (k.data_hex, convert_packet_data p) ∷ other_decoders

  -- `replaceAttrs`
  abbrev pub replace_attrs : List (Bytes × Bytes)
  replace_attrs = (src_port_info, k.src_port) ∷ (src_channel_info, k.src_channel) ∷ []

  -- The values for an indexed argument: a packet's are its sender and its receiver.
  abbrev pub indexed_values : Bytes → ℕ
  indexed_values name = if k.data_hex == name then 2 else 1

  abbrev AreSingle : List (Bytes × ValueDecoder Value) → Type 0
  AreSingle [] = Unit
  AreSingle ((name, d) ∷ ds) = IsSingle d true × AreSingle ds

  lookup-AreSingle :
      (ds : List (Bytes × ValueDecoder Value)) (name : Bytes) (d : ValueDecoder Value)
      → AreSingle ds
      → lookup name ds ≡ some d
      → IsSingle d true
  unfolding lookup
  lookup-AreSingle [] name d a e = cc
  lookup-AreSingle ((key, f) ∷ ds) name d a e = elim (Bool-cases (key == name)) [
    | inl y ↦ let same : f ≡ d = ground (arith, e, y) in rw same at a.0
    | inr y ↦ lookup-AreSingle ds name d a.1 (ground (arith, e, y))
  ]

  others-AreSingle : AreSingle other_decoders
  others-AreSingle =
      let (as_is, acc, amt, num, toks, _, _) = decoders-IsSingle p true in
      (
        amt,
        (
          acc,
          (
            acc,
            (
              acc,
              (
                acc,
                (
                  acc,
                  (
                    acc,
                    (
                      num,
                      (
                        as_is,
                        (
                          as_is,
                          (as_is, (as_is, (as_is, (as_is, (as_is, (as_is, (acc, (as_is, tt)))))))),
                        ),
                      ),
                    ),
                  ),
                ),
              ),
            ),
          ),
        ),
      )

  -- A decoder that is not the first entry's stands in the others, under the name or the empty one.
  get_decoder-other :
      (key name : Bytes) (f d : ValueDecoder Value) (ds : List (Bytes × ValueDecoder Value))
      → (key == name) ≡ false
      → (◌==◌ {T = Bytes} key []) ≡ false
      → get_decoder ((key, f) ∷ ds) name ≡ some d
      → (lookup name ds ≡ some d) ⊎ (lookup [] ds ≡ some d)
  unfolding get_decoder lookup
  get_decoder-other key name f d ds n m e = elim (Option-cases (lookup name ds)) [
    | inl none_here ↦ inr (ground (arith, e, n, m, none_here))
    | inr (g, here) ↦ inl (ground (arith, e, n, m, here))
  ]

  get_decoder-first :
      (key name : Bytes) (f d : ValueDecoder Value) (ds : List (Bytes × ValueDecoder Value))
      → (key == name) ≡ true
      → get_decoder ((key, f) ∷ ds) name ≡ some d
      → f ≡ d
  unfolding get_decoder lookup
  get_decoder-first key name f d ds y e = ground (arith, e, y)

  -- How many values the table's decoder of an indexed argument gives.
  pub relayer_value_decoders-indexed :
      k.data_hex ≢ []
      → (name : Bytes) (d : ValueDecoder Value) → get_decoder relayer_value_decoders name ≡ some d
      → (value : Bytes) (vs : List Value) → d value true ≡ ok vs
      → length vs ≡ indexed_values name
  relayer_value_decoders-indexed named name d e value vs h =
      elim (Bool-cases (k.data_hex == name)) [
        | inl y ↦
            let same =
              get_decoder-first k.data_hex name (convert_packet_data p) d other_decoders y e in
            let two = (decoders-IsSingle p true).6 value vs (rw (sym same) at h) in rw y two
        | inr y ↦
            let m : (◌==◌ {T = Bytes} k.data_hex []) ≡ false =
              ground (arith, named, bytes_beq_iff k.data_hex []) in
            rw y
              (elim (get_decoder-other k.data_hex name (convert_packet_data p) d other_decoders y m
                e) [
                  | inl here ↦
                      lookup-AreSingle other_decoders name d others-AreSingle here value vs h
                  | inr default ↦
                      lookup-AreSingle other_decoders [] d others-AreSingle default value vs h
                ])
      ]
