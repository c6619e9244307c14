-- ===== src/Cronos/Example.antt =====
-- A platform on which the hypotheses of the cronos theorems hold. Only the examples use it.
use cosmos_swap.Prelude.{
  ℕ, zero, suc, ◌≡◌, refl, Bool, true, false, Option, none, some, [], ◌∷◌, ◌++◌, String, Bytes,
  codes, arith, length, Result, ok, err,
}
use mathlib.Core.List.{append-nil}
use cosmos_swap.Sdk.Example.Memory.{memory, memory_laws}
use cosmos_swap.Sdk.Example.Codec.{Parser, ◌>>=◌, pure, number, put_bytes, bytes, bytes-put_bytes}
use cosmos_swap.Cronos.{Params, Platform, PlatformLaws}

abbrev flag : Bool → ℕ
flag true = 1
flag false = 0

abbrev of_flag : ℕ → Bool
of_flag zero = false
of_flag (suc n) = true

unfoldable pub encode : Params → Bytes
unfolding put_bytes
encode q =
    q.ibc_timeout ∷ flag q.enable_auto_deployment ∷ q.max_callback_gas ∷ put_bytes q.ibc_cro_denom
    ++ put_bytes q.cronos_admin

decode_all : Parser Params
unfolding bytes
decode_all = do
  timeout ← number
  auto ← number
  gas ← number
  denom ← bytes
  admin ← bytes
  pure (record {
    ibc_cro_denom = denom;
    ibc_timeout = timeout;
    cronos_admin = admin;
    enable_auto_deployment = of_flag auto;
    max_callback_gas = gas;
  })

abbrev result : Option (Params × Bytes) → Option Params
result none = none
result (some (q, r)) = some q

unfoldable pub decode : Bytes → Option Params
unfolding decode_all
decode bz = result (decode_all bz)

decode-encode : (q : Params) → decode (encode q) ≡ some q
unfolding decode encode decode_all
decode-encode q = ground (
  arith,
  bytes-put_bytes q.ibc_cro_denom (put_bytes q.cronos_admin),
  bytes-put_bytes q.cronos_admin [],
  append-nil (put_bytes q.cronos_admin),
)

abbrev first_byte : Bytes → ℕ
first_byte [] = 0
first_byte (b ∷ bs) = b

abbrev is_some : Bytes → Bool
is_some [] = false
is_some (b ∷ bs) = true

abbrev account : Bytes → Result String Bytes
account [] = err "empty address string is not allowed"
account (b ∷ bs) = ok (b ∷ bs)

abbrev pub platform : Platform
platform = record {
  kv = memory;
  Address = ℕ;
  address_bytes = λ a. a ∷ [];
  bytes_to_address = first_byte;
  hex_to_address = first_byte;
  address_hex = λ a. a ∷ [];
  is_hex_address = is_some;
  acc_from_bech32 = account;
  acc_string = λ a. a;
  to_lower = λ s. s;
  marshal = encode;
  unmarshal = decode;
  is_denom = is_some;
  is_channel_id = is_some;
  channel_of = λ h. some (codes "channel-0");
  authority = codes "gov";
  evm_denom = codes "basecro";
  evm_module_address = 9;
  create_address = λ a n. 100;
  pack = λ method a n. n ∷ [];
  deployment = λ d. d;
  answer = λ cs c. ok tt;
  evm_answer = λ cs m. ok (record { failed = false; ret = [] });
  get_nonce = length;
  get_metadata = λ cs d. none;
}

pub platform_laws : PlatformLaws platform
platform_laws = record {
  kv_laws = memory_laws;
  bytes_to_address-address_bytes = λ a. refl;
  address_bytes_nonempty = λ a e. cc;
  unmarshal-marshal = decode-encode;
}
