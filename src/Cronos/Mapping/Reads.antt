-- ===== src/Cronos/Mapping/Reads.antt =====
-- The entries of the token mapping in the store of x/cronos.
use cosmos_swap.Prelude.{
  ℕ, ◌≡◌, ◌≢◌, ◌↔◌, refl, sym, ap, ◌∙◌, Bool, true, false, ◌&&◌, Option, none, some, [], ◌∷◌, Bytes,
  bytes_eq, bytes_beq, bytes_beq_iff, nat_eq, nat_beq, ◌==◌, if◌then◌else◌, arith,
}
use cosmos_swap.Cronos.{
  Platform, PlatformLaws, State, denom_key, nonempty, address_of, get_external_contract_by_denom,
  get_auto_contract_by_denom, get_denom_by_contract,
}

module _ (p : Platform) (laws : PlatformLaws p) where
  -- Stores that differ in one entry, under any of the keys of the mapping.
  unfoldable pub read : p.kv.Store → ℕ → Bytes → Option Bytes
  read st tag x = nonempty p (p.kv.get st (tag ∷ x))

  pub read-set :
      (st : p.kv.Store) (t : ℕ) (x v : Bytes) (u : ℕ) (y : Bytes)
      → read (p.kv.set st (t ∷ x) v) u y
        ≡ (if nat_beq t u && (x == y) then nonempty p (some v) else read st u y)
  unfolding read bytes_beq
  read-set st t x v u y = ground (arith, laws.kv_laws.get-set st (t ∷ x) v (u ∷ y))

  pub read-delete :
      (st : p.kv.Store) (t : ℕ) (x : Bytes) (u : ℕ) (y : Bytes)
      → read (p.kv.delete st (t ∷ x)) u y ≡ (if nat_beq t u && (x == y) then none else read st u y)
  unfolding read bytes_beq
  read-delete st t x u y = ground (arith, laws.kv_laws.get-delete st (t ∷ x) (u ∷ y))

  pub same_address : (a b : p.Address) → ((p.address_bytes a == p.address_bytes b) ≡ true) ↔ (a ≡ b)
  same_address a b = (
    λ e.
        sym (laws.bytes_to_address-address_bytes a)
        ∙ (ap p.bytes_to_address ((bytes_beq_iff (p.address_bytes a) (p.address_bytes b)).0 e)
            ∙ laws.bytes_to_address-address_bytes b),
    λ e. (bytes_beq_iff (p.address_bytes a) (p.address_bytes b)).1 (ap p.address_bytes e),
  )

  pub nonempty_denom : (d : Bytes) → d ≢ [] → nonempty p (some d) ≡ some d
  nonempty_denom [] h = absurd (h refl)
  nonempty_denom (b ∷ bs) h = refl

  pub nonempty_bytes :
      (a : p.Address) → nonempty p (some (p.address_bytes a)) ≡ some (p.address_bytes a)
  nonempty_bytes a = nonempty_denom (p.address_bytes a) (laws.address_bytes_nonempty a)

  -- Does this contract lose its entry when a denomination that has `existing` gets another?
  abbrev pub is_old : Option p.Address → p.Address → Bool
  is_old none b = false
  is_old (some x) b = p.address_bytes x == p.address_bytes b

  unfoldable pub forgotten : Option p.Address → p.kv.Store → p.kv.Store
  forgotten none st = st
  forgotten (some x) st = p.kv.delete st (denom_key (p.address_bytes x))

  pub forgotten-read :
      (o : Option p.Address) (st : p.kv.Store) (u : ℕ) (y : Bytes)
      → nat_beq 3 u ≡ false
      → read (forgotten o st) u y ≡ read st u y
  unfolding forgotten
  forgotten-read none st u y h = refl
  forgotten-read (some x) st u y h = ground (arith, read-delete st 3 (p.address_bytes x) u y)

  pub forgotten-denom :
      (o : Option p.Address) (st : p.kv.Store) (b : p.Address)
      → read (forgotten o st) 3 (p.address_bytes b)
        ≡ (if is_old o b then none else read st 3 (p.address_bytes b))
  unfolding forgotten
  forgotten-denom none st b = refl
  forgotten-denom (some x) st b = read-delete st 3 (p.address_bytes x) 3 (p.address_bytes b)

  pub external-read :
      (e : Bytes) (s : State p)
      → get_external_contract_by_denom p e s ≡ address_of p (read s.store 1 e)
  unfolding get_external_contract_by_denom read
  external-read e s = refl

  pub auto-read :
      (e : Bytes) (s : State p) → get_auto_contract_by_denom p e s ≡ address_of p (read s.store 2 e)
  unfolding get_auto_contract_by_denom read
  auto-read e s = refl

  pub denom-read :
      (b : p.Address) (s : State p)
      → get_denom_by_contract p b s ≡ read s.store 3 (p.address_bytes b)
  unfolding get_denom_by_contract read
  denom-read b s = refl

  pub address_of-bytes :
      (a : p.Address) → address_of p (nonempty p (some (p.address_bytes a))) ≡ some a
  address_of-bytes a = rw (nonempty_bytes a) (ap some (laws.bytes_to_address-address_bytes a))
