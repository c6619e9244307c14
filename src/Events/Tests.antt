-- ===== src/Events/Tests.antt =====
-- An event of the relayer with an indexed packet.
use cosmos_swap.Prelude.{
  ◌≡◌, refl, suc, ◌+◌, leb, ◌&&◌, if◌then◌else◌, true, some, List, [], ◌∷◌, Bytes, bytes_eq,
  bytes_beq, String, Result, ok, err, arith, codes, length, none,
}
use cosmos_swap.Prelude.Map.{lookup, insert}
use cosmos_swap.Events.{
  Log, EventDescriptor, get_decoder, values_of, make_filter, attributes_of, replaced,
  to_under_score, convert_event, Event, relayer_convert_event,
}
use cosmos_swap.Events.Decoders.{
  Parsers, Value, text, return_string_as_is, convert_packet_data, convert_address,
}
use cosmos_swap.Events.Aligned.{value_count}
use cosmos_swap.Events.Tables.{AttributeKeys, relayer_value_decoders, replace_attrs, indexed_values}
use cosmos_swap.Events.Topics.{relayer_convert_event-topics}

abbrev with_topic : Value → Result String (List Bytes) → Result String (List Bytes)
with_topic v (err e) = err e
with_topic (text t) (ok ts) = ok (t ∷ ts)
with_topic v (ok ts) = err "unsupported indexed type"

unfoldable topics_of : List Value → Result String (List Bytes)
topics_of [] = ok []
topics_of (v ∷ vs) = with_topic v (topics_of vs)

length-with_topic :
    (v : Value) (r : Result String (List Bytes)) (ts : List Bytes)
    → with_topic v r ≡ ok ts
    → (us : List Bytes) × (r ≡ ok us) × (length ts ≡ suc (length us))
length-with_topic v (err x) ts e = ground (arith, e)
length-with_topic (text t) (ok us) ts e = (us, refl, ground (arith, e))
length-with_topic v (ok us) ts e = ground (arith, e)

length-topics_of :
    (vs : List Value) (ts : List Bytes) → topics_of vs ≡ ok ts → length ts ≡ length vs
unfolding topics_of
length-topics_of [] ts e = ground (arith, e)
length-topics_of (v ∷ vs) ts e =
    let t = length-with_topic v (topics_of vs) ts e in
    let n = length-topics_of vs t.0 t.1 in ground (arith, t.2, n)

abbrev lower : Bytes → Bytes
lower [] = []
lower (c ∷ cs) = let rest = lower cs in if leb 65 c && leb c 90 then (c + 32) ∷ rest else c ∷ rest

abbrev parsers : Parsers
parsers = record {
  trim_space = λ s. s;
  decode_bech32 = λ s. err "not bech32";
  verify_address_format = λ bz. ok tt;
  bytes_to_address = λ bz. bz;
  parse_coins = λ s. err "no coins";
  set_string = λ s. none;
  parse_uint = λ s. ok 1;
  unmarshal_tokens = λ bz. err "no tokens";
  decode_hex = λ s. ok s;
  unmarshal_packet = λ bz. ok (record {
    denom = codes "basecro";
    amount = codes "5";
    sender = codes "alice";
    receiver = bz;
  });
  is_hex_address = λ s. true;
  hex_to_address = λ s. s;
  address_string = λ bz. bz;
  validator_prefix = codes "crcvaloper";
  account_prefix = codes "crc";
  val_address = λ s. err "not an address";
  acc_address = λ s. err "not an address";
}

abbrev keys : AttributeKeys
keys = record {
  data_hex = codes "packet_data_hex";
  amount = codes "amount";
  recipient = codes "recipient";
  spender = codes "spender";
  receiver = codes "receiver";
  sender = codes "sender";
  minter = codes "minter";
  burner = codes "burner";
  sequence = codes "packet_sequence";
  src_port = codes "packet_src_port";
  src_channel = codes "packet_src_channel";
  dst_port = codes "packet_dst_port";
  dst_channel = codes "packet_dst_channel";
  connection_id = codes "connection_id";
  denom = codes "denom";
  refund_receiver = codes "refund_receiver";
  refund_tokens = codes "refund_tokens";
}

abbrev descriptor : EventDescriptor Value
descriptor = record {
  id = text (codes "WriteAcknowledgement");
  indexed = codes "packet_src_port" ∷ codes "packet_data_hex" ∷ [];
  non_indexed = codes "connection_id" ∷ [];
  pack_values = λ vs. ok [];
}

abbrev event : Event
event = record {
  type_of = codes "write_acknowledgement";
  attributes =
      (codes "packet_src_port", codes "transfer")
      ∷ (codes "packet_data_hex", codes "bob")
      ∷ (codes "connection_id", codes "connection-0")
      ∷ [];
}

abbrev log : Log
log = record {
  topics = codes "WriteAcknowledgement" ∷ codes "transfer" ∷ codes "alice" ∷ codes "bob" ∷ [];
  data_bytes = [];
}

converts :
    relayer_convert_event lower topics_of
      ((event.type_of, descriptor) ∷ [])
      (relayer_value_decoders parsers keys)
      (replace_attrs parsers keys)
      event
    ≡ ok (some log)
unfolding relayer_convert_event convert_event topics_of replaced attributes_of to_under_score
    make_filter values_of get_decoder return_string_as_is convert_packet_data convert_address lookup
    insert bytes_beq
converts = refl

relayer_convert_event-topics_example :
    (desc : EventDescriptor Value) × (lookup event.type_of ((event.type_of, descriptor) ∷ [])
      ≡ some desc)
    × (length log.topics ≡ suc (value_count (indexed_values parsers keys) desc.indexed))
relayer_convert_event-topics_example =
    relayer_convert_event-topics parsers keys topics_of length-topics_of lower
      ((event.type_of, descriptor) ∷ []) event log (λ e. cc) converts
