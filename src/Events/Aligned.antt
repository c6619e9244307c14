-- ===== src/Events/Aligned.antt =====
-- The values that an event's attributes decode to line up with the arguments that they are for.
use cosmos_swap.Prelude.{
  ℕ, ◌+◌, ◌≡◌, inl, inr, Bool, true, false, some, List, [], ◌∷◌, ◌++◌, Bytes, bytes_eq, ok, arith,
  length, length-append, Option-cases, Result-cases,
}
use cosmos_swap.Prelude.Map.{lookup}
use cosmos_swap.Events.{ValueDecoder, get_decoder, values_of, make_filter}
use cosmos_swap.Events.Decoders.{
  Parsers, Token, CosmosToken, Value, return_string_as_is, convert_acc_address_from_bech32,
  convert_amount, convert_uint64, convert_tokens, convert_packet_data, sdk_tokens_to_evm_tokens,
}

-- What a decoder gives, it gives for one argument.
abbrev pub IsSingle : {Value : Type 0} → ValueDecoder Value → Bool → Type 0
IsSingle {Value} decode indexed =
    (value : Bytes) (vs : List Value) → decode value indexed ≡ ok vs → length vs ≡ 1

-- Every decoder gives one value for an attribute, but for that of packets where it is indexed, whose sender and
-- receiver are two.
pub decoders-IsSingle :
    (p : Parsers) (indexed : Bool)
    → IsSingle return_string_as_is indexed
      × IsSingle (convert_acc_address_from_bech32 p) indexed
      × IsSingle (convert_amount p) indexed
      × IsSingle (convert_uint64 p) indexed
      × IsSingle (convert_tokens p) indexed
      × IsSingle (convert_packet_data p) false
      × ((value : Bytes) (vs : List Value)
          → convert_packet_data p value true ≡ ok vs
          → length vs ≡ 2)
unfolding return_string_as_is convert_acc_address_from_bech32 convert_amount convert_uint64
    convert_tokens convert_packet_data
decoders-IsSingle p indexed = (
  (λ value vs e. ground (arith, e)),
  (λ value vs e. ground (arith, e)),
  (λ value vs e. ground (arith, e)),
  (λ value vs e. ground (arith, e)),
  (λ value vs e. ground (arith, e)),
  (λ value vs e. ground (arith, e)),
  (λ value vs e. ground (arith, e)),
)

abbrev pub value_count : (Bytes → ℕ) → List Bytes → ℕ
value_count values_for [] = 0
value_count values_for (name ∷ names) = values_for name + value_count values_for names

module _ {Value : Type 0} (decoders : List (Bytes × ValueDecoder Value))
    (attrs : List (Bytes × Bytes)) (indexed : Bool) (values_for : Bytes → ℕ)
    (counted : (name : Bytes) (d : ValueDecoder Value)
      → get_decoder decoders name ≡ some d
      → (value : Bytes) (vs : List Value) → d value indexed ≡ ok vs
      → length vs ≡ values_for name) where
  length-values_of :
      (name : Bytes) (vs : List Value)
      → values_of decoders attrs indexed name ≡ ok vs
      → length vs ≡ values_for name
  unfolding values_of
  length-values_of name vs e = elim (Option-cases (lookup name attrs)) [
    | inl n ↦ ground (arith, e, n)
    | inr (value, y) ↦ elim (Option-cases (get_decoder decoders name)) [
      | inl n ↦ ground (arith, e, y, n)
      | inr (d, z) ↦ elim (Result-cases (d value indexed)) [
        | inr (x, u) ↦ ground (arith, e, y, z, u)
        | inl (ws, u) ↦
            let one = counted name d z value ws u in
            let same : ws ≡ vs = ground (arith, e, y, z, u) in ground (arith, one, same)
      ]
    ]
  ]

  -- The values for the arguments are as many as the decoders give for each.
  pub length-make_filter :
      (names : List Bytes) (vs : List Value)
      → make_filter decoders attrs indexed names ≡ ok vs
      → length vs ≡ value_count values_for names
  unfolding make_filter
  length-make_filter [] vs e = ground (arith, e)
  length-make_filter (name ∷ names) vs e =
      elim (Result-cases (values_of decoders attrs indexed name)) [
        | inr (x, y) ↦ ground (arith, e, y)
        | inl (us, y) ↦ elim (Result-cases (make_filter decoders attrs indexed names)) [
          | inr (x, z) ↦ ground (arith, e, y, z)
          | inl (ws, z) ↦
              let here = length-values_of name us y in
              let there = length-make_filter names ws z in
              let all : us ++ ws ≡ vs = ground (arith, e, y, z) in
              ground (arith, here, there, all, length-append us ws)
        ]
      ]

-- The tokens that are converted are as many as those that are given.
pub length-sdk_tokens_to_evm_tokens :
    (p : Parsers) (ts : List Token) (us : List CosmosToken)
    → sdk_tokens_to_evm_tokens p ts ≡ ok us
    → length us ≡ length ts
unfolding sdk_tokens_to_evm_tokens
length-sdk_tokens_to_evm_tokens p [] us e = ground (arith, e)
length-sdk_tokens_to_evm_tokens p (t ∷ ts) us e = elim (Option-cases (p.set_string t.amount)) [
  | inl n ↦ ground (arith, e, n)
  | inr (a, y) ↦ elim (Result-cases (sdk_tokens_to_evm_tokens p ts)) [
    | inr (x, z) ↦ ground (arith, e, y, z)
    | inl (ws, z) ↦
        let rest = length-sdk_tokens_to_evm_tokens p ts ws z in ground (arith, e, y, z, rest)
  ]
]
