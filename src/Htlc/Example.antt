-- ===== src/Htlc/Example.antt =====
-- A platform on which the hypotheses of the htlc theorems hold. Only the examples use it.
use cosmos_swap.Prelude.{
  ℕ, zero, suc, ◌≡◌, Bool, true, false, Option, none, some, [], ◌∷◌, ◌++◌, Bytes, codes, bytes_beq,
  bytes_beq_iff, arith, length, ◌≢◌, ◌↔◌,
}
use mathlib.Core.List.{append-nil}
use cosmos_swap.Prelude.Int.{pos_part, neg_part, sub_ℕ}
use cosmos_swap.Sdk.Example.Memory.{memory, memory_laws}
use cosmos_swap.Sdk.Example.Ledger.{simple_bank, simple_bank_laws}
use cosmos_swap.Sdk.Example.Codec.{
  Parser, ◌>>=◌, pure, number, put_bytes, bytes, bytes-put_bytes, sub_parts, put_all, coins,
  coins-put_all,
}
use cosmos_swap.Htlc.{Htlc, Platform, PlatformLaws, key_next_htlc_id}

abbrev flag : Bool → ℕ
flag true = 1
flag false = 0

abbrev of_flag : ℕ → Bool
of_flag zero = false
of_flag (suc n) = true

unfoldable pub encode : Htlc → Bytes
unfolding put_bytes put_all
encode h =
    h.id
      ∷ flag h.claimed
      ∷ flag h.refunded
      ∷ pos_part h.time_lock.sec
      ∷ neg_part h.time_lock.sec
      ∷ h.time_lock.nsec
      ∷ put_bytes h.sender
    ++ (put_bytes h.receiver ++ (put_bytes h.hash_lock ++ put_all h.amount))

decode_all : Parser Htlc
unfolding bytes coins
decode_all = do
  id ← number
  c ← number
  r ← number
  a ← number
  b ← number
  n ← number
  sender ← bytes
  receiver ← bytes
  lock ← bytes
  amount ← coins
  pure (record {
    id = id;
    sender = sender;
    receiver = receiver;
    amount = amount;
    hash_lock = lock;
    time_lock = record { sec = sub_ℕ a b; nsec = n };
    claimed = of_flag c;
    refunded = of_flag r;
  })

abbrev result : Option (Htlc × Bytes) → Option Htlc
result none = none
result (some (h, r)) = some h

unfoldable pub decode : Bytes → Option Htlc
unfolding decode_all
decode bz = result (decode_all bz)

decode-encode : (h : Htlc) → decode (encode h) ≡ some h
unfolding decode_all decode encode
decode-encode h = ground (
  arith,
  bytes-put_bytes h.sender (put_bytes h.receiver ++ (put_bytes h.hash_lock ++ put_all h.amount)),
  bytes-put_bytes h.receiver (put_bytes h.hash_lock ++ put_all h.amount),
  bytes-put_bytes h.hash_lock (put_all h.amount),
  coins-put_all h.amount [],
  append-nil (put_all h.amount),
  sub_parts h.time_lock.sec,
)

-- The prefix of `KeyPrefixHTLC`, and the id.
abbrev key : ℕ → Bytes
key i = codes "htlc/" ++ i ∷ []

key_injective : (i j : ℕ) → key i ≡ key j → i ≡ j
key_injective i j e = cc

key-ne-next : (i : ℕ) → key i ≢ key_next_htlc_id
key-ne-next i e = cc

unfoldable pub is_empty : Bytes → Bool
is_empty [] = true
is_empty (x ∷ xs) = false

is_empty_iff : (a : Bytes) → (is_empty a ≡ true) ↔ (a ≡ [])
unfolding is_empty
is_empty_iff [] = ground arith
is_empty_iff (x ∷ xs) = ground arith

-- The "hash" of a preimage is 32 bytes long and starts with the preimage's length.
abbrev pub toy_hash : Bytes → Bytes
toy_hash x = length x ∷ codes "0123456789012345678901234567890"

abbrev pub platform : Platform
platform = record {
  kv = memory;
  bank = simple_bank;
  htlc_key = key;
  marshal = encode;
  unmarshal = decode;
  sha256 = toy_hash;
  addr_equals = bytes_beq;
  addr_empty = is_empty;
}

pub platform_laws : PlatformLaws platform
platform_laws = record {
  kv_laws = memory_laws;
  bank_laws = simple_bank_laws;
  unmarshal-marshal = decode-encode;
  htlc_key_injective = key_injective;
  htlc_key-ne-next = key-ne-next;
  addr_equals_iff = bytes_beq_iff;
  addr_empty_iff = is_empty_iff;
}
