-- ===== src/Precompiles/Ica/Owner.antt =====
-- A contract acts on interchain accounts of its own only.
use cosmos_swap.Prelude.{
  ℕ, ◌%◌, u64_mod, ◌≡◌, ◌⊎◌, inl, inr, refl, Bool, true, false, Option, none, some, String, Bytes,
  if◌then◌else◌, Result, ok, err,
}
use cosmos_swap.Precompiles.Input.{method_id}
use cosmos_swap.Precompiles.Ica.{
  Platform, Method, Error, register_account, query_account, submit_msgs, other, registered,
  answered, with_port, with_channel, sent, memo, run_register, run_query, run_submit, run_method,
  run_input, run, not_readonly,
}

module _ (p : Platform) where
  -- Nothing changed, or one account was registered, or one transaction sent, for the owner.
  unfoldable pub ActsFor : Bytes → Bytes → p.State → p.State → Type 0
  ActsFor owner note s t =
      (t ≡ s)
      ⊎ (((connection : Bytes) × (version : Bytes) × (ordering : ℕ) × (p.register owner connection
                version ordering s
              ≡ ok t))
          ⊎ ((connection : Bytes) × (timeout : ℕ) × (msgs : Bytes) × (seq : ℕ) × (p.send_tx owner
                  connection timeout msgs note s
                ≡ ok (seq, t))))

  -- The state of a result that is no error.
  abbrev OnOk : (p.State → Type 0) → Result Error (Bytes × p.State) → Type 0
  OnOk P (ok (out, t)) = P t
  OnOk P (err e) = Unit

  registered-OnOk :
      (P : p.State → Type 0) (r : Result String p.State)
      → ((t : p.State) → r ≡ ok t → P t)
      → OnOk P (registered p r)
  registered-OnOk P (ok t) h = h t refl
  registered-OnOk P (err e) h = tt

  answered-OnOk :
      (P : p.State → Type 0) (s : p.State) (r : Result String Bytes) → P s → OnOk P (answered p s r)
  answered-OnOk P s (ok a) h = h
  answered-OnOk P s (err e) h = tt

  with_channel-OnOk :
      (P : p.State → Type 0) (seq : ℕ) (s : p.State) (o : Option Bytes)
      → P s
      → OnOk P (with_channel p seq s o)
  with_channel-OnOk P seq s none h = tt
  with_channel-OnOk P seq s (some c) h = h

  with_port-OnOk :
      (P : p.State → Type 0) (seq : ℕ) (connection : Bytes) (s : p.State) (r : Result String Bytes)
      → P s
      → OnOk P (with_port p seq connection s r)
  with_port-OnOk P seq connection s (ok port) h =
      with_channel-OnOk P seq s (p.active_channel connection port s) h
  with_port-OnOk P seq connection s (err e) h = tt

  sent-OnOk :
      (P : p.State → Type 0) (owner connection : Bytes) (r : Result String (ℕ × p.State))
      → ((seq : ℕ) (t : p.State) → r ≡ ok (seq, t) → P t)
      → OnOk P (sent p owner connection r)
  sent-OnOk P owner connection (ok (seq, t)) h =
      with_port-OnOk P seq connection t (p.port_id owner) (h seq t refl)
  sent-OnOk P owner connection (err e) h = tt

  if-OnOk :
      (P : p.State → Type 0) (c : Bool) (x : Error) (r : Result Error (Bytes × p.State))
      → OnOk P r
      → OnOk P (if c then err x else r)
  if-OnOk P true x r h = tt
  if-OnOk P false x r h = h

  module _ (caller : Bytes) (s : p.State) where
    abbrev Own : p.State → Type 0
    Own = ActsFor (p.acc_string caller) (memo p caller) s

    run_register-Own : (o : Option (Bytes × Bytes × ℕ)) → OnOk Own (run_register p caller o s)
    unfolding run_register ActsFor
    run_register-Own none = tt
    run_register-Own (some (c, v, n)) =
        registered-OnOk Own (p.register (p.acc_string caller) c v n s)
          (λ t e. inr (inl (c, v, n, e)))

    run_query-Own : (o : Option (Bytes × Bytes)) → OnOk Own (run_query p o s)
    unfolding run_query ActsFor
    run_query-Own none = tt
    run_query-Own (some (c, a)) =
        answered-OnOk Own s (p.interchain_account (p.acc_string a) c s) (inl refl)

    run_submit-Own : (o : Option (Bytes × Bytes × ℕ)) → OnOk Own (run_submit p caller o s)
    unfolding run_submit ActsFor
    run_submit-Own none = tt
    run_submit-Own (some (c, msgs, n)) =
        sent-OnOk Own (p.acc_string caller) c
          (p.send_tx (p.acc_string caller) c (n % u64_mod) msgs (memo p caller) s)
          (λ seq t e. inr (inr (c, n % u64_mod, msgs, seq, e)))

    run_method-Own :
        (readonly : Bool) (args : Bytes) (o : Option Method)
        → OnOk Own (run_method p readonly caller args o s)
    run_method-Own readonly args none = tt
    run_method-Own readonly args (some register_account) =
        if-OnOk Own readonly not_readonly (run_register p caller (p.unpack_register args) s)
          (run_register-Own (p.unpack_register args))
    run_method-Own readonly args (some query_account) = run_query-Own (p.unpack_query args)
    run_method-Own readonly args (some submit_msgs) =
        if-OnOk Own readonly not_readonly (run_submit p caller (p.unpack_submit args) s)
          (run_submit-Own (p.unpack_submit args))
    run_method-Own readonly args (some other) = tt

    run_input-Own :
        (readonly : Bool) (o : Option (Bytes × Bytes)) → OnOk Own (run_input p readonly caller o s)
    run_input-Own readonly none = tt
    run_input-Own readonly (some (id, args)) = run_method-Own readonly args (p.method_by_id id)

    -- A call that succeeds changes nothing, or registers one account or sends one transaction, and its owner
    -- is the calling contract, which the memo of the transaction names as the one to call back.
    pub run-ActsFor :
        (readonly : Bool) (input out : Bytes) (t : p.State)
        → run p readonly caller input s ≡ ok (out, t)
        → ActsFor (p.acc_string caller) (memo p caller) s t
    unfolding run
    run-ActsFor readonly input out t e =
        let h = run_input-Own readonly (method_id input) in rw e at h
