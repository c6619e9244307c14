-- ===== src/Precompiles/Relayer/Caller.antt =====
-- A contract sends messages of IBC in its own name only.
use cosmos_swap.Prelude.{
  ◌≡◌, refl, inl, inr, Bool, true, false, Option, none, some, List, [], ◌∷◌, String, Bytes,
  bytes_eq, bytes_beq_iff, ◌==◌, if◌then◌else◌, Result, ok, err, arith, Result-cases, Bool-cases,
  ok-injective, ap,
}
use cosmos_swap.Precompiles.Input.{method_id}
use cosmos_swap.Precompiles.Relayer.{
  Platform, Method, Error, exec, exec_input, run_method, run_input, run, act, authenticate,
  is_known, not_authenticated,
}

module _ (p : Platform) where
  -- A message whose one signer is the caller was executed, and its result is that of the run.
  unfoldable pub Executes : Bytes → p.State → Bytes → p.State → Type 0
  Executes caller s out t =
      (m : Method) × (msg : p.Msg) × (signer : Bytes) × (p.signers msg ≡ ok (signer ∷ []))
      × (p.bytes_to_address signer ≡ caller)
      × (p.action m msg s ≡ ok (out, t))

  act-ok :
      (r : Result String (Bytes × p.State)) (out : Bytes) (t : p.State)
      → act p r ≡ ok (out, t)
      → r ≡ ok (out, t)
  act-ok (ok x) out t e = ap ok (ok-injective e)
  act-ok (err x) out t e = absurd (ground (arith, e))

  authenticated :
      (signer caller : Bytes) (r : Result Error (Bytes × p.State)) (out : Bytes) (t : p.State)
      → (if p.bytes_to_address signer == caller then r else err not_authenticated) ≡ ok (out, t)
      → (p.bytes_to_address signer ≡ caller) × (r ≡ ok (out, t))
  authenticated signer caller r out t e = elim (Bool-cases (p.bytes_to_address signer == caller)) [
    | inl y ↦ ((bytes_beq_iff (p.bytes_to_address signer) caller).0 y, rw y at e)
    | inr n ↦ absurd (ground (arith, e, n))
  ]

  authenticate-Executes :
      (caller out : Bytes) (m : Method) (msg : p.Msg) (s t : p.State) (l : List Bytes)
      → p.signers msg ≡ ok l
      → authenticate p caller l (act p (p.action m msg s)) ≡ ok (out, t)
      → Executes caller s out t
  unfolding Executes
  authenticate-Executes caller out m msg s t [] h e = absurd (ground (arith, e))
  authenticate-Executes caller out m msg s t (a ∷ b ∷ l) h e = absurd (ground (arith, e))
  authenticate-Executes caller out m msg s t (a ∷ []) h e =
      let run = act p (p.action m msg s) in
      let checked = authenticated a caller run out t e in
      (m, msg, a, h, checked.0, act-ok (p.action m msg s) out t checked.1)

  exec-Executes :
      (caller out : Bytes) (m : Method) (o : Option p.Msg) (s t : p.State)
      → exec p caller m o s ≡ ok (out, t)
      → Executes caller s out t
  unfolding exec
  exec-Executes caller out m none s t e = absurd (ground (arith, e))
  exec-Executes caller out m (some msg) s t e = elim (Result-cases (p.signers msg)) [
    | inl (l, y) ↦ authenticate-Executes caller out m msg s t l y (rw y at e)
    | inr (x, y) ↦ absurd (ground (arith, e, y))
  ]

  exec_input-Executes :
      (caller out : Bytes) (m : Method) (o : Option Bytes) (s t : p.State)
      → exec_input p caller m o s ≡ ok (out, t)
      → Executes caller s out t
  exec_input-Executes caller out m none s t e = absurd (ground (arith, e))
  exec_input-Executes caller out m (some input) s t e = elim (Bool-cases (is_known m)) [
    | inl y ↦ exec-Executes caller out m (p.unmarshal m input) s t (rw y at e)
    | inr n ↦ absurd (ground (arith, e, n))
  ]

  run_method-Executes :
      (caller out args : Bytes) (o : Option Method) (s t : p.State)
      → run_method p caller args o s ≡ ok (out, t)
      → Executes caller s out t
  run_method-Executes caller out args none s t e = absurd (ground (arith, e))
  run_method-Executes caller out args (some m) s t e =
      exec_input-Executes caller out m (p.unpack_input m args) s t e

  run_input-Executes :
      (caller out : Bytes) (o : Option (Bytes × Bytes)) (s t : p.State)
      → run_input p caller o s ≡ ok (out, t)
      → Executes caller s out t
  run_input-Executes caller out none s t e = absurd (ground (arith, e))
  run_input-Executes caller out (some (id, args)) s t e =
      run_method-Executes caller out args (p.method_by_id id) s t e

  -- A call that succeeds is not readonly, and it executed one message, whose only signer is the calling
  -- contract.
  pub run-Executes :
      (readonly : Bool) (caller input out : Bytes) (s t : p.State)
      → run p readonly caller input s ≡ ok (out, t)
      → (readonly ≡ false) × Executes caller s out t
  unfolding run
  run-Executes true caller input out s t e = absurd (ground (arith, e))
  run-Executes false caller input out s t e =
      (refl, run_input-Executes caller out (method_id input) s t e)
