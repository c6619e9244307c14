-- ===== src/Events/Topics.antt =====
-- The topics of a log that an event converts to.
use cosmos_swap.Prelude.{
  bytes_eq, ap, ◌∙◌, ℕ, ◌≢◌, Option-cases, ◌≡◌, refl, inl, inr, suc, true, false, some, List, [],
  ◌∷◌, Bytes, String, Result, ok, err, arith, length, Result-cases,
}
use cosmos_swap.Events.{
  Log, ValueDecoder, EventDescriptor, ConversionError, get_decoder, filtered, make_filter,
  attributes_of, replaced, convert_event, Event, relayer_convert_event,
}
use cosmos_swap.Prelude.Map.{lookup}
use cosmos_swap.Events.Decoders
use cosmos_swap.Events.Decoders.{Parsers}
use cosmos_swap.Events.Tables.{
  AttributeKeys, relayer_value_decoders, replace_attrs, indexed_values,
  relayer_value_decoders-indexed,
}
use cosmos_swap.Events.Aligned.{value_count, length-make_filter}

module _ {Value : Type 0} (make_topics : List Value → Result String (List Bytes))
    (one_each : (vs : List Value) (ts : List Bytes)
      → make_topics vs ≡ ok ts
      → length ts ≡ length vs) where
  filtered-topics :
      (desc : EventDescriptor Value) (a b : Result ConversionError (List Value)) (log : Log)
      → filtered make_topics desc a b ≡ ok log
      → (vs : List Value) × (a ≡ ok vs) × (length log.topics ≡ suc (length vs))
  filtered-topics desc (err x) b log e = ground (arith, e)
  filtered-topics desc (ok vs) b log e = (
    vs,
    refl,
    elim (Result-cases (make_topics (desc.id ∷ vs))) [
      | inr (x, y) ↦ ground (arith, e, y)
      | inl (ts, y) ↦ elim (Result-cases b) [
        | inr (x, z) ↦ ground (arith, e, y, z)
        | inl (ws, z) ↦ elim (Result-cases (desc.pack_values ws)) [
          | inr (x, u) ↦ ground (arith, e, y, z, u)
          | inl (bz, u) ↦ let n = one_each (desc.id ∷ vs) ts y in ground (arith, e, y, z, u, n)
        ]
      ]
    ],
  )

  length-convert_event :
      (to_lower : Bytes → Bytes) (desc : EventDescriptor Value) (event : List (Bytes × Bytes))
      (decoders : List (Bytes × ValueDecoder Value)) (replace : List (Bytes × Bytes))
      (values_for : Bytes → ℕ)
      → ((name : Bytes) (d : ValueDecoder Value)
          → get_decoder decoders name ≡ some d
          → (value : Bytes) (vs : List Value) → d value true ≡ ok vs
          → length vs ≡ values_for name)
      → (log : Log) → convert_event to_lower make_topics desc event decoders replace ≡ ok log
      → length log.topics ≡ suc (value_count values_for desc.indexed)
  unfolding convert_event
  length-convert_event to_lower desc event decoders replace values_for counted log e =
      let attrs = replaced (attributes_of to_lower [] event) replace in
      let t =
        filtered-topics desc (make_filter decoders attrs true desc.indexed)
          (make_filter decoders attrs false desc.non_indexed) log e in
      let n = length-make_filter decoders attrs true values_for counted desc.indexed t.0 t.1 in
      ground (arith, t.2, n)

module _ (p : Parsers) (k : AttributeKeys)
    (make_topics : List Decoders.Value → Result String (List Bytes))
    (one_each : (vs : List Decoders.Value) (ts : List Bytes)
      → make_topics vs ≡ ok ts
      → length ts ≡ length vs) where
  -- A log that an event of the relayer converts to has the topic of its descriptor, two for an indexed
  -- argument that is a packet's data, and one for each other indexed argument, if each value makes one topic
  -- and the name of the packet's data is not empty.
  pub relayer_convert_event-topics :
      (to_lower : Bytes → Bytes) (descriptors : List (Bytes × EventDescriptor Decoders.Value))
      (event : Event) (log : Log)
      → k.data_hex ≢ []
      → relayer_convert_event to_lower make_topics descriptors
          (relayer_value_decoders p k)
          (replace_attrs p k)
          event
        ≡ ok (some log)
      → (desc : EventDescriptor Decoders.Value) × (lookup event.type_of descriptors ≡ some desc)
        × (length log.topics ≡ suc (value_count (indexed_values p k) desc.indexed))
  unfolding relayer_convert_event
  relayer_convert_event-topics to_lower descriptors event log named e =
      elim (Option-cases (lookup event.type_of descriptors)) [
        | inl none_here ↦ absurd (ground (arith, e, none_here))
        | inr (desc, here) ↦
            let run =
              convert_event to_lower make_topics desc event.attributes (relayer_value_decoders p k)
                (replace_attrs p k) in
            elim (Result-cases run) [
              | inr (x, y) ↦ absurd (ground (arith, e, here, y))
              | inl (l, y) ↦
                  let same : l ≡ log = ground (arith, e, here, y) in
                  (
                    desc,
                    here,
                    length-convert_event make_topics one_each to_lower desc event.attributes
                        (relayer_value_decoders p k) (replace_attrs p k) (indexed_values p k)
                        (relayer_value_decoders-indexed p k named) log (y ∙ ap (λ z. ok z) same),
                  )
            ]
      ]
