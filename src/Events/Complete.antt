-- ===== src/Events/Complete.antt =====
-- When the values of an event convert, and what the attributes of an event are.
use cosmos_swap.Prelude.{
  ◌≡◌, ◌↔◌, refl, inl, inr, Bool, true, false, String, Option, none, some, List, [], ◌∷◌, ◌++◌,
  Bytes, bytes_eq, ◌==◌, Result, ok, err, arith, Result-cases,
}
use cosmos_swap.Prelude.Map.{lookup, insert, lookup-insert}
use cosmos_swap.Events.{
  Log, ValueDecoder, EventDescriptor, ConversionError, values_of, joined, filtered, make_filter,
  convert_event, some_log, converted, relayer_convert_event, Event, replaced, attributes_of,
  to_under_score,
}

abbrev IsOk : {A : Type 0} → Result ConversionError A → Type 0
IsOk {A} r = (a : A) × (r ≡ ok a)

IsOk-joined :
    {Value : Type 0} (a b : Result ConversionError (List Value))
    → IsOk (joined a b) ↔ (IsOk a × IsOk b)
IsOk-joined (err e) b = (λ h. absurd (cc h.1), λ h. absurd (cc h.0.1))
IsOk-joined (ok vs) (err e) = (λ h. absurd (cc h.1), λ h. absurd (cc h.1.1))
IsOk-joined (ok vs) (ok ws) = (λ h. ((vs, refl), (ws, refl)), λ h. (vs ++ ws, refl))

IsOk-filtered :
    {Value : Type 0} (make_topics : List Value → Result String (List Bytes))
    (desc : EventDescriptor Value) (a b : Result ConversionError (List Value)) (log : Log)
    → filtered make_topics desc a b ≡ ok log
    → IsOk a × IsOk b
IsOk-filtered make_topics desc (err e) b log h = absurd (cc h)
IsOk-filtered make_topics desc (ok vs) (ok ws) log h = ((vs, refl), (ws, refl))
IsOk-filtered make_topics desc (ok vs) (err e) log h =
    elim (Result-cases (make_topics (desc.id ∷ vs))) [
      | inl (ts, y) ↦ ground (arith, h, y)
      | inr (x, y) ↦ ground (arith, h, y)
    ]

module _ {Value : Type 0} (decoders : List (Bytes × ValueDecoder Value))
    (attrs : List (Bytes × Bytes)) (indexed : Bool) where
  -- Each name has an attribute with a decoder that decodes it.
  abbrev pub AllConvert : List Bytes → Type 0
  AllConvert [] = Unit
  AllConvert (name ∷ names) =
      ((vs : List Value) × (values_of decoders attrs indexed name ≡ ok vs)) × AllConvert names

  -- The values are found if and only if each name has an attribute with a decoder that decodes it.
  pub make_filter-AllConvert :
      (names : List Bytes)
      → ((vs : List Value) × (make_filter decoders attrs indexed names ≡ ok vs)) ↔ AllConvert names
  unfolding make_filter
  make_filter-AllConvert [] = (λ _. tt, λ _. ([], refl))
  make_filter-AllConvert (name ∷ names) =
      let rest = make_filter-AllConvert names in
      let both =
        IsOk-joined (values_of decoders attrs indexed name)
          (make_filter decoders attrs indexed names) in
      (λ h. let x = both.0 h in (x.0, rest.0 x.1), λ h. both.1 (h.0, rest.1 h.1))

-- The attribute that comes last under a name is the one that is kept.
pub lookup-attributes_of :
    (to_lower : Bytes → Bytes) (attrs event : List (Bytes × Bytes)) (key value : Bytes)
    → lookup
        (to_under_score to_lower key)
        (attributes_of to_lower attrs (event ++ (key, value) ∷ []))
      ≡ some value
unfolding attributes_of
lookup-attributes_of to_lower attrs [] key value =
    let same : (to_under_score to_lower key == to_under_score to_lower key) ≡ true =
      (bytes_eq.same_iff (to_under_score to_lower key) (to_under_score to_lower key)).1 refl in
    ground (
      arith,
      same,
      lookup-insert (to_under_score to_lower key) (to_under_score to_lower key) value attrs,
    )
lookup-attributes_of to_lower attrs ((k, v) ∷ event) key value =
    lookup-attributes_of to_lower (insert (to_under_score to_lower k) v attrs) event key value

-- A conversion that succeeds has converted each attribute that the event's arguments name, indexed or not.
pub convert_event-AllConvert :
    {Value : Type 0} (to_lower : Bytes → Bytes)
    (make_topics : List Value → Result String (List Bytes)) (desc : EventDescriptor Value)
    (event : List (Bytes × Bytes)) (decoders : List (Bytes × ValueDecoder Value))
    (replace : List (Bytes × Bytes)) (log : Log)
    → convert_event to_lower make_topics desc event decoders replace ≡ ok log
    → let attrs = replaced (attributes_of to_lower [] event) replace in
      AllConvert decoders attrs true desc.indexed × AllConvert decoders attrs false desc.non_indexed
unfolding convert_event
convert_event-AllConvert to_lower make_topics desc event decoders replace log e =
    let attrs = replaced (attributes_of to_lower [] event) replace in
    let values =
      IsOk-filtered make_topics desc (make_filter decoders attrs true desc.indexed)
        (make_filter decoders attrs false desc.non_indexed) log e in
    (
      (make_filter-AllConvert decoders attrs true desc.indexed).0 values.0,
      (make_filter-AllConvert decoders attrs false desc.non_indexed).0 values.1,
    )

some_log_lem :
    (r : Result ConversionError Log) (log : Log) → some_log r ≡ ok (some log) → r ≡ ok log
some_log_lem (ok l) log e = ground (arith, e)
some_log_lem (err x) log e = absurd (cc e)

converted-some :
    {Value : Type 0} (to_lower : Bytes → Bytes)
    (make_topics : List Value → Result String (List Bytes)) (found : Option (EventDescriptor Value))
    (event : Event) (decoders : List (Bytes × ValueDecoder Value)) (replace : List (Bytes × Bytes))
    (log : Log)
    → converted to_lower make_topics found event decoders replace ≡ ok (some log)
    → (desc : EventDescriptor Value) × (found ≡ some desc)
      × (convert_event to_lower make_topics desc event.attributes decoders replace ≡ ok log)
converted-some to_lower make_topics none event decoders replace log e = ground (arith, e)
converted-some to_lower make_topics (some desc) event decoders replace log e =
    let r = convert_event to_lower make_topics desc event.attributes decoders replace in
    (desc, refl, some_log_lem r log e)

-- A log that the conversion of an event gives is that of the descriptor of the event's type.
pub relayer_convert_event_described :
    {Value : Type 0} (to_lower : Bytes → Bytes)
    (make_topics : List Value → Result String (List Bytes))
    (descriptors : List (Bytes × EventDescriptor Value))
    (decoders : List (Bytes × ValueDecoder Value)) (replace : List (Bytes × Bytes)) (event : Event)
    (log : Log)
    → relayer_convert_event to_lower make_topics descriptors decoders replace event ≡ ok (some log)
    → (desc : EventDescriptor Value) × (lookup event.type_of descriptors ≡ some desc)
      × (convert_event to_lower make_topics desc event.attributes decoders replace ≡ ok log)
unfolding relayer_convert_event
relayer_convert_event_described to_lower make_topics descriptors decoders replace event log e =
    converted-some to_lower make_topics (lookup event.type_of descriptors) event decoders replace
      log e
