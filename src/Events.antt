-- ===== src/Events.antt =====
-- x/cronos/events/event.go and events.go: how a native event
-- becomes a log of the EVM. The ABI's packing and topics, and the decoders' values, are parameters;
-- texts are valid UTF-8.
pub mod Complete
pub mod Decoders
pub mod Aligned
pub mod Tables
pub mod Topics
mod Tests
use cosmos_swap.Prelude.{
  ◌≡◌, refl, Bool, true, false, not, Option, none, some, List, [], ◌∷◌, ◌++◌, String, Bytes,
  bytes_eq, ◌==◌, leb, ◌&&◌, ltb, length, if◌then◌else◌, Result, ok, err, arith,
}
use cosmos_swap.Prelude.Map.{lookup, insert}

pub data ConversionError : Type 0 where
  attribute_not_found no_decoder : Bytes → ConversionError
  not_decoded no_topics not_packed : String → ConversionError

pub record Argument : Type 0 where
  pub name : Bytes
  pub indexed : Bool

pub record Log : Type 0 where
  pub topics : List Bytes
  pub data_bytes : Bytes  -- `Data`

abbrev underscored : Bytes → Bytes
underscored [] = []
underscored (c ∷ cs) =
    let rest = underscored cs in if leb 65 c && leb c 90 then 95 ∷ c ∷ rest else c ∷ rest

abbrev is_same : Bool → Bool → Bool
is_same true b = b
is_same false b = not b

abbrev or_error :
    {A : Type 0} → (String → ConversionError) → Result String A → Result ConversionError A
or_error wrap (ok a) = ok a
or_error wrap (err e) = err (wrap e)

-- `string` of a map that may lack the key
abbrev or_empty : Option Bytes → Bytes
or_empty none = []
or_empty (some v) = v

module _ (to_lower : Bytes → Bytes) where
  -- `toUnderScore`
  unfoldable pub to_under_score : Bytes → Bytes
  to_under_score [] = to_lower []
  to_under_score (c ∷ cs) = to_lower (c ∷ underscored cs)

  unfoldable pub arguments_of : List Argument → Bool → List Bytes
  arguments_of [] indexed = []
  arguments_of (a ∷ args) indexed =
      let rest = arguments_of args indexed in
      if is_same a.indexed indexed then to_under_score a.name ∷ rest else rest

  -- `getArguments`; none if it panics
  unfoldable pub get_arguments : List Argument → Bool → Option (List Bytes)
  get_arguments args indexed =
      let names = arguments_of args indexed in
      if indexed && ltb 3 (length names) then none else some names

  -- The attributes by their names; a later one with the same name replaces an earlier one.
  unfoldable pub attributes_of : List (Bytes × Bytes) → List (Bytes × Bytes) → List (Bytes × Bytes)
  attributes_of attrs [] = attrs
  attributes_of attrs ((key, value) ∷ event) =
      attributes_of (insert (to_under_score key) value attrs) event

-- `for k, v := range replaceAttrs`, in some order
unfoldable pub replaced : List (Bytes × Bytes) → List (Bytes × Bytes) → List (Bytes × Bytes)
replaced attrs [] = attrs
replaced attrs ((k, v) ∷ replace) = replaced (insert k (or_empty (lookup v attrs)) attrs) replace

abbrev pub ValueDecoder : Type 0 → Type 0
ValueDecoder Value = Bytes → Bool → Result String (List Value)

module _ {Value : Type 0} where
  abbrev or_default :
      Option (ValueDecoder Value) → Option (ValueDecoder Value) → Option (ValueDecoder Value)
  or_default none d = d
  or_default (some f) d = some f

  -- `GetDecoder`
  unfoldable pub get_decoder :
      List (Bytes × ValueDecoder Value) → Bytes → Option (ValueDecoder Value)
  get_decoder decoders name = or_default (lookup name decoders) (lookup [] decoders)

  -- The body of the loop of `makeFilter`
  unfoldable pub values_of :
      List (Bytes × ValueDecoder Value)
      → List (Bytes × Bytes)
      → Bool
      → Bytes
      → Result ConversionError (List Value)
  values_of decoders attrs indexed name = elim (lookup name attrs) [
    | none ↦ err (attribute_not_found name)
    | some value ↦ elim (get_decoder decoders name) [
      | none ↦ err (no_decoder name)
      | some decode ↦ or_error not_decoded (decode value indexed)
    ]
  ]

  abbrev pub joined :
      Result ConversionError (List Value)
      → Result ConversionError (List Value)
      → Result ConversionError (List Value)
  joined (err e) rest = err e
  joined (ok vs) (err e) = err e
  joined (ok vs) (ok ws) = ok (vs ++ ws)

  -- `makeFilter`
  unfoldable pub make_filter :
      List (Bytes × ValueDecoder Value)
      → List (Bytes × Bytes)
      → Bool
      → List Bytes
      → Result ConversionError (List Value)
  make_filter decoders attrs indexed [] = ok []
  make_filter decoders attrs indexed (name ∷ names) =
      joined (values_of decoders attrs indexed name) (make_filter decoders attrs indexed names)

pub record EventDescriptor (Value : Type 0) : Type 0 where
  pub id : Value
  pub indexed : List Bytes
  pub non_indexed : List Bytes
  pub pack_values : List Value → Result String Bytes

abbrev packed : List Bytes → Result String Bytes → Result ConversionError Log
packed topics (ok bz) = ok (record { topics = topics; data_bytes = bz })
packed topics (err e) = err (not_packed e)

module _ {Value : Type 0} where
  abbrev pub logged :
      EventDescriptor Value
      → Result String (List Bytes)
      → Result ConversionError (List Value)
      → Result ConversionError Log
  logged desc (err e) values = err (no_topics e)
  logged desc (ok topics) (err e) = err e
  logged desc (ok topics) (ok values) = packed topics (desc.pack_values values)

  abbrev pub filtered :
      (List Value → Result String (List Bytes))
      → EventDescriptor Value
      → Result ConversionError (List Value)
      → Result ConversionError (List Value)
      → Result ConversionError Log
  filtered make_topics desc (err e) values = err e
  filtered make_topics desc (ok query) values = logged desc (make_topics (desc.id ∷ query)) values

  -- `ConvertEvent`, given `strings.ToLower` and the topics that `abi.MakeTopics` makes of one query
  unfoldable pub convert_event :
      (Bytes → Bytes)
      → (List Value → Result String (List Bytes))
      → EventDescriptor Value
      → List (Bytes × Bytes)
      → List (Bytes × ValueDecoder Value)
      → List (Bytes × Bytes)
      → Result ConversionError Log
  convert_event to_lower make_topics desc event decoders replace =
      let attrs = replaced (attributes_of to_lower [] event) replace in
      filtered make_topics desc (make_filter decoders attrs true desc.indexed)
        (make_filter decoders attrs false desc.non_indexed)

-- The native event's type and attributes
pub record Event : Type 0 where
  pub type_of : Bytes
  pub attributes : List (Bytes × Bytes)

pub record AbiEvent (Value : Type 0) : Type 0 where
  pub name : Bytes
  pub id : Value
  pub inputs : List Argument
  pub pack_values : List Value → Result String Bytes

abbrev pub some_log : Result ConversionError Log → Result ConversionError (Option Log)
some_log (ok log) = ok (some log)
some_log (err e) = err e

module _ {Value : Type 0} (to_lower : Bytes → Bytes) where
  abbrev described :
      AbiEvent Value → List Bytes → Option (List Bytes) → Option (EventDescriptor Value)
  described event non_indexed none = none
  described event non_indexed (some names) = some (record {
    id = event.id;
    indexed = names;
    non_indexed = non_indexed;
    pack_values = event.pack_values;
  })

  abbrev with_descriptor :
      Bytes
      → Option (EventDescriptor Value)
      → Option (List (Bytes × EventDescriptor Value))
      → Option (List (Bytes × EventDescriptor Value))
  with_descriptor event_type (some desc) (some descs) = some (insert event_type desc descs)
  with_descriptor event_type _ _ = none

  -- `NewEventDescriptors`, of the ABI's events in some order, the last one first; none if it panics
  unfoldable pub new_event_descriptors :
      List (AbiEvent Value) → Option (List (Bytes × EventDescriptor Value))
  new_event_descriptors [] = some []
  new_event_descriptors (event ∷ events) =
      with_descriptor (to_under_score to_lower event.name)
        (described event (arguments_of to_lower event.inputs false)
          (get_arguments to_lower event.inputs true))
        (new_event_descriptors events)

  abbrev pub converted :
      (List Value → Result String (List Bytes))
      → Option (EventDescriptor Value)
      → Event
      → List (Bytes × ValueDecoder Value)
      → List (Bytes × Bytes)
      → Result ConversionError (Option Log)
  converted make_topics none event decoders replace = ok none
  converted make_topics (some desc) event decoders replace =
      some_log (convert_event to_lower make_topics desc event.attributes decoders replace)

  -- `RelayerConvertEvent`, with its decoders and its replacements, which are named by other modules
  unfoldable pub relayer_convert_event :
      (List Value → Result String (List Bytes))
      → List (Bytes × EventDescriptor Value)
      → List (Bytes × ValueDecoder Value)
      → List (Bytes × Bytes)
      → Event
      → Result ConversionError (Option Log)
  relayer_convert_event make_topics descriptors decoders replace event =
      converted make_topics (lookup event.type_of descriptors) event decoders replace

  -- `IcaConvertEvent`
  unfoldable pub ica_convert_event :
      (List Value → Result String (List Bytes))
      → List (Bytes × EventDescriptor Value)
      → List (Bytes × ValueDecoder Value)
      → Event
      → Result ConversionError (Option Log)
  ica_convert_event make_topics descriptors decoders event =
      converted make_topics (lookup event.type_of descriptors) event decoders []
