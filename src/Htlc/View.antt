-- ===== src/Htlc/View.antt =====
-- What a state of the htlc module holds, read through the codec: the contract under an id and the
-- next id; and how the keeper's writes change it.
use cosmos_swap.Prelude.{
  ℕ, ◌+◌, ◌%◌, ◌≡◌, Option, none, some, Bytes, bytes_eq, nat_eq, ◌==◌, if◌then◌else◌, put_uint64,
  uint64, u64_mod, uint64-put_uint64, ok, arith, bytes_beq_iff,
}
use cosmos_swap.Htlc.{
  Htlc, Platform, PlatformLaws, State, key_next_htlc_id, get_htlc, set_htlc, get_next_htlc_id,
  increment_next_htlc_id,
}

module _ (p : Platform) where
  abbrev pub decoded : Option Bytes → Option Htlc
  decoded none = none
  decoded (some bz) = p.unmarshal bz

  -- The contract stored under an id, if one is and it decodes.
  unfoldable pub stored : State p → ℕ → Option Htlc
  stored s i = decoded (p.kv.get s.store (p.htlc_key i))

  abbrev pub decoded_id : Option Bytes → Option ℕ
  decoded_id none = some 1
  decoded_id (some bz) = uint64 bz

  -- The id that the next contract gets, if the counter decodes.
  unfoldable pub next_id : State p → Option ℕ
  next_id s = decoded_id (p.kv.get s.store key_next_htlc_id)

  pub get_htlc-stored :
      (s : State p) (i : ℕ) (h : Htlc) → stored s i ≡ some h → get_htlc p i s ≡ (ok (some h), s)
  unfolding stored get_htlc
  get_htlc-stored s i h e = ground arith

  pub get_next_htlc_id-next_id :
      (s : State p) (n : ℕ) → next_id s ≡ some n → get_next_htlc_id p s ≡ (ok n, s)
  unfolding next_id get_next_htlc_id
  get_next_htlc_id-next_id s n e = ground arith

  module _ (laws : PlatformLaws p) where
    key_beq : (i j : ℕ) → (p.htlc_key i == p.htlc_key j) ≡ (i == j)
    key_beq i j =
        ground (arith, bytes_beq_iff (p.htlc_key i) (p.htlc_key j), laws.htlc_key_injective i j)

    pub stored-set_htlc :
        (s : State p) (h : Htlc) (j : ℕ)
        → stored (set_htlc p h s).1 j ≡ (if h.id == j then some h else stored s j)
    unfolding stored set_htlc
    stored-set_htlc s h j = ground (
      arith,
      laws.kv_laws.get-set s.store (p.htlc_key h.id) (p.marshal h) (p.htlc_key j),
      key_beq h.id j,
      laws.unmarshal-marshal h,
    )

    pub next_id-set_htlc : (s : State p) (h : Htlc) → next_id (set_htlc p h s).1 ≡ next_id s
    unfolding next_id set_htlc
    next_id-set_htlc s h = ground (
      arith,
      laws.kv_laws.get-set s.store (p.htlc_key h.id) (p.marshal h) key_next_htlc_id,
      bytes_beq_iff (p.htlc_key h.id) key_next_htlc_id,
      laws.htlc_key-ne-next h.id,
    )

    pub stored-increment :
        (s : State p) (n j : ℕ)
        → next_id s ≡ some n
        → stored (increment_next_htlc_id p s).1 j ≡ stored s j
    unfolding increment_next_htlc_id stored next_id
    stored-increment s n j e = ground (
      arith,
      laws.kv_laws.get-set s.store key_next_htlc_id (put_uint64 ((n + 1) % u64_mod)) (p.htlc_key j),
      bytes_beq_iff key_next_htlc_id (p.htlc_key j),
      laws.htlc_key-ne-next j,
    )

    pub next_id-increment :
        (s : State p) (n : ℕ)
        → next_id s ≡ some n
        → next_id (increment_next_htlc_id p s).1 ≡ some ((n + 1) % u64_mod)
    unfolding increment_next_htlc_id next_id
    next_id-increment s n e = ground (
      arith,
      laws.kv_laws.get-set s.store key_next_htlc_id (put_uint64 ((n + 1) % u64_mod))
          key_next_htlc_id,
      bytes_beq_iff key_next_htlc_id key_next_htlc_id,
      uint64-put_uint64 ((n + 1) % u64_mod),
    )
