-- ===== src/Cronos/Backing.antt =====
-- Coins of the EVM that stand for vouchers of CRO, at 10^10 to one: what the calls of the module mint
-- and burn against what they take into the module's account and give back.
use cosmos_swap.Prelude.{
  ℕ, ◌+◌, ◌*◌, ◌≡◌, ◌≢◌, refl, inl, inr, Bool, true, false, not, none, some, List, [], ◌∷◌, ◌++◌,
  Bytes, bytes_eq, bytes_beq_iff, ◌==◌, if◌then◌else◌, String, Result, ok, err, arith, Result-cases,
  Bool-cases, raise_if, pure, gets, ◌>>=◌, ◌>>◌,
}
use cosmos_swap.Cronos.{
  Coin, Call, mint, burn, send_to_module, send_from_module, ten_pow_ten, Platform, State, Error, M,
  call, from_external,
}
pub mod Convert
pub mod Vouchers
pub mod Packets
pub mod Parameters
pub mod Histories

module _ (p : Platform) (cro : Bytes) where
  worth : Coin → Bytes → ℕ
  worth c denom = if c.denom == denom then c.amount else 0

  -- The coins of the EVM that a call creates, and those that the vouchers it gives back stand for.
  unfoldable pub created : Call p.Address → ℕ
  unfolding worth
  created (mint c) = worth c p.evm_denom
  created (send_from_module acc c) = worth c cro * ten_pow_ten
  created _ = 0

  -- The coins of the EVM that a call destroys, and those that the vouchers it takes in stand for.
  unfoldable pub destroyed : Call p.Address → ℕ
  unfolding worth
  destroyed (burn c) = worth c p.evm_denom
  destroyed (send_to_module acc c) = worth c cro * ten_pow_ten
  destroyed _ = 0

  abbrev pub total : (Call p.Address → ℕ) → List (Call p.Address) → ℕ
  total f [] = 0
  total f (c ∷ cs) = f c + total f cs

  pub total-append :
      (f : Call p.Address → ℕ) (cs ds : List (Call p.Address))
      → total f (cs ++ ds) ≡ total f cs + total f ds
  total-append f [] ds = omega arith
  total-append f (c ∷ cs) ds = omega (arith, total-append f cs ds)

  -- Between the two states, what was created equals what was destroyed.
  unfoldable pub IsEven : State p → State p → Type 0
  IsEven s t =
      total created t.calls + total destroyed s.calls
      ≡ total destroyed t.calls + total created s.calls

  unfoldable pub Keeps : {A : Type 0} → M p A → Type 0
  unfolding IsEven
  Keeps {A} m = (s : State p) (a : A) → (m s).0 ≡ ok a → IsEven s (m s).1

  pub IsEven-trans : (s t u : State p) → IsEven s t → IsEven t u → IsEven s u
  unfolding IsEven
  IsEven-trans s t u h k = omega (arith, h, k)

  pub Keeps-bind :
      {A B : Type 0} (m : M p A) (f : A → M p B)
      → Keeps m
      → ((a : A) → Keeps (f a))
      → Keeps (m >>= f)
  unfolding Keeps IsEven
  Keeps-bind m f k l s b e = elim (Result-cases (m s).0) [
    | inl (a, y) ↦
        rw (y, ◌>>=◌)
          (IsEven-trans s (m s).1 (f a (m s).1).1 (k s a y) (l a (m s).1 b (rw (y, ◌>>=◌) at e)))
    | inr (x, y) ↦ absurd (ground (arith, y))
  ]

  pub Keeps-pure : {A : Type 0} (a : A) → Keeps (pure a)
  unfolding Keeps IsEven
  Keeps-pure a s b e = omega arith

  pub Keeps-gets : {A : Type 0} (f : State p → A) → Keeps (gets f)
  unfolding Keeps IsEven
  Keeps-gets f s b e = omega arith

  pub Keeps-from_external : {A : Type 0} (r : Result String A) → Keeps (from_external p r)
  unfolding Keeps IsEven
  Keeps-from_external (ok a) s b e = omega arith
  Keeps-from_external (err x) s b e = absurd (ground arith)

  -- A check fails, or what follows may rely on it.
  pub Keeps-raise_if :
      {A : Type 0} (c : Bool) (x : Error) (m : M p A)
      → (c ≡ false → Keeps m)
      → Keeps (raise_if c x >> m)
  unfolding Keeps IsEven
  Keeps-raise_if true x m k s b e = absurd (ground arith)
  Keeps-raise_if false x m k s b e = k refl s b e

  pub Keeps-if :
      {A : Type 0} (c : Bool) (m n : M p A) → Keeps m → Keeps n → Keeps (if c then m else n)
  Keeps-if true m n k l = k
  Keeps-if false m n k l = l

  pub Keeps-call : (c : Call p.Address) → created c ≡ destroyed c → Keeps (call p c)
  unfolding Keeps IsEven
  Keeps-call c h s b e =
      ground (arith, total-append created s.calls (c ∷ []), total-append destroyed s.calls (c ∷ []))
