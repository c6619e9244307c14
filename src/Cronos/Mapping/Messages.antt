-- ===== src/Cronos/Mapping/Messages.antt =====
-- The messages keep the token mapping consistent, and only a permitted sender changes it.

use cosmos_swap.Prelude.{
  ℕ, ◌≡◌, ◌≢◌, refl, inl, inr, Bool, true, false, not, Option, List, [], ◌∷◌, ◌++◌, Bytes, bytes_eq,
  nat_eq, String, Result, ok, err, arith, Bool-cases, Result-cases, raise_if, pure, gets, ◌>>=◌,
  ◌>>◌,
}
use cosmos_swap.Cronos.{
  Platform, PlatformLaws, State, Error, Call, Metadata, MsgUpdateTokenMapping, M, call, from_result,
  get_external_contract_by_denom, get_auto_contract_by_denom, get_denom_by_contract,
  set_external_contract_for_denom, delete_external_contract_for_denom,
  register_or_update_token_mapping, register_source, update_foreign, set_metadata, metadata_of,
  updated_metadata, invalid_address, unauthorized, is_source_coin, get_contract_address_from_denom,
  get_params, get_permissions, has_permission, any_has_permission, update_token_mapping,
  can_change_token_mapping, signer,
}
use cosmos_swap.Cronos.Mapping.Consistent.{
  IsConsistent, set_external-keeps, delete_external-IsConsistent,
}

module _ (p : Platform) (laws : PlatformLaws p) where
  -- The mapping does not depend on the calls made.
  pub with_calls :
      (s : State p) (cs : List (Call p.Address))
      → IsConsistent p s
      → IsConsistent p (record s { calls = cs })
  unfolding get_external_contract_by_denom get_auto_contract_by_denom get_denom_by_contract
  with_calls s cs k = record {
    external = k.external;
    auto = k.auto;
    back = k.back;
    apart = k.apart;
  }

  unfoldable pub Preserves : {A : Type 0} → M p A → Type 0
  Preserves m = (s : State p) → IsConsistent p s → IsConsistent p (m s).1

  pub IsConsistent-bind :
      {A B : Type 0} (m : M p A) (f : A → M p B) (s : State p)
      → IsConsistent p (m s).1
      → ((a : A) → Preserves (f a))
      → IsConsistent p ((m >>= f) s).1
  unfolding Preserves
  IsConsistent-bind m f s k l = elim (Result-cases (m s).0) [
    | inl (a, y) ↦ rw (y, ◌>>=◌) (l a (m s).1 k)
    | inr (x, y) ↦ rw (y, ◌>>=◌) k
  ]

  pub Preserves-bind :
      {A B : Type 0} (m : M p A) (f : A → M p B)
      → Preserves m
      → ((a : A) → Preserves (f a))
      → Preserves (m >>= f)
  unfolding Preserves
  Preserves-bind m f k l s c = IsConsistent-bind m f s (k s c) l

  pub Preserves-call : (c : Call p.Address) → Preserves (call p c)
  unfolding Preserves
  Preserves-call c s k = elim (Result-cases (p.answer s.calls c)) [
    | inl (a, y) ↦ rw (y, call) (with_calls s (s.calls ++ c ∷ []) k)
    | inr (x, y) ↦ rw (y, call) k
  ]

  Preserves-from_result : {A : Type 0} (r : Result Error A) → Preserves (from_result p r)
  unfolding Preserves
  Preserves-from_result (ok a) s k = k
  Preserves-from_result (err e) s k = k

  pub Preserves-set :
      (d : Bytes) (a : p.Address) → d ≢ [] → Preserves (set_external_contract_for_denom p d a)
  unfolding Preserves
  Preserves-set d a h s k = set_external-keeps p laws s k d a h

  Preserves-delete : (d : Bytes) → Preserves (delete_external_contract_for_denom p d)
  unfolding Preserves
  Preserves-delete d s k = delete_external-IsConsistent p laws s k d

  pub Preserves-raise_if :
      {A : Type 0} (c : Bool) (x : Error) (m : M p A) → Preserves m → Preserves (raise_if c x >> m)
  unfolding Preserves
  Preserves-raise_if true x m k s h = h
  Preserves-raise_if false x m k s h = k s h

  -- An action that leaves the state as it is.
  pub Preserves-read : {A : Type 0} (m : M p A) → ((s : State p) → (m s).1 ≡ s) → Preserves m
  unfolding Preserves
  Preserves-read m r s k = rw (r s) k

  register_source-Preserves :
      (msg : MsgUpdateTokenMapping) → msg.denom ≢ [] → Preserves (register_source p msg)
  unfolding register_source
  register_source-Preserves msg h =
      let parsed = get_contract_address_from_denom p.is_hex_address msg.denom in
      let find = gets (λ s. p.get_metadata s.calls msg.denom) in
      let write = set_external_contract_for_denom p msg.denom (p.hex_to_address msg.contract) in
      let register = λ (m : Option Metadata).
        call p (set_metadata (updated_metadata p msg (metadata_of p msg.denom m))) in
      Preserves-bind (from_result p parsed) (λ _. find >>= λ m. register m >> write)
        (Preserves-from_result parsed)
        (λ _.
          Preserves-bind find (λ m. register m >> write) (Preserves-read find (λ s. refl))
            (λ m.
              Preserves-bind (register m) (λ _. write)
                (Preserves-call (set_metadata (updated_metadata p msg (metadata_of p msg.denom m))))
                (λ _. Preserves-set msg.denom (p.hex_to_address msg.contract) h)))

  update_foreign-Preserves :
      (msg : MsgUpdateTokenMapping) (contract : Bytes)
      → msg.denom ≢ []
      → Preserves (update_foreign p msg contract)
  unfolding update_foreign
  update_foreign-Preserves msg [] h =
      Preserves-bind (delete_external_contract_for_denom p msg.denom) (λ _. pure tt)
        (Preserves-delete msg.denom) (λ _. Preserves-read (pure tt) (λ s. refl))
  update_foreign-Preserves msg (b ∷ bs) h =
      let write = set_external_contract_for_denom p msg.denom (p.hex_to_address msg.contract) in
      Preserves-raise_if (not (p.is_hex_address msg.contract)) invalid_address write
        (Preserves-set msg.denom (p.hex_to_address msg.contract) h)

  pub register-Preserves :
      (msg : MsgUpdateTokenMapping)
      → msg.denom ≢ []
      → Preserves (register_or_update_token_mapping p msg)
  unfolding register_or_update_token_mapping
  register-Preserves msg h = elim (Bool-cases (is_source_coin msg.denom)) [
    | inl y ↦ rw y (register_source-Preserves msg h)
    | inr n ↦ rw n (update_foreign-Preserves msg msg.contract h)
  ]

  pub get_params-state : (s : State p) → (get_params p s).1 ≡ s
  unfolding get_params
  get_params-state s = ground arith

  any_has_permission-state :
      (admin : Bytes) (check : ℕ) (accounts : List Bytes) (s : State p)
      → (any_has_permission p admin check accounts s).1 ≡ s
  unfolding any_has_permission get_permissions
  any_has_permission-state admin check [] s = refl
  any_has_permission-state admin check (a ∷ accounts) s =
      ground (arith, any_has_permission-state admin check accounts s)

  has_permission-state :
      (accounts : List Bytes) (check : ℕ) (s : State p) → (has_permission p accounts check s).1 ≡ s
  unfolding has_permission
  has_permission-state accounts check s = elim (Result-cases (get_params p s).0) [
    | inl (q, y) ↦
        ground (arith, get_params-state s, any_has_permission-state q.cronos_admin check accounts s)
    | inr (x, y) ↦ ground (arith, get_params-state s)
  ]

  signer-state : (r : Result String Bytes) (s : State p) → (signer p r s).1 ≡ s
  signer-state (ok a) s = refl
  signer-state (err e) s = refl

  -- A message to update the token mapping of a denomination that is not empty keeps the mapping
  -- consistent, whether it succeeds or fails.
  pub update_token_mapping-IsConsistent :
      (msg : MsgUpdateTokenMapping) (s : State p)
      → msg.denom ≢ []
      → IsConsistent p s
      → IsConsistent p (update_token_mapping p msg s).1
  unfolding update_token_mapping Preserves
  update_token_mapping-IsConsistent msg s h k =
      let change = register_or_update_token_mapping p msg in
      let check = λ (sender : Bytes). has_permission p (sender ∷ []) (can_change_token_mapping p) in
      let go = λ (allowed : Bool). raise_if (not allowed) unauthorized >> change in
      Preserves-bind (signer p (p.acc_from_bech32 msg.sender)) (λ sender. check sender >>= go)
        (Preserves-read (signer p (p.acc_from_bech32 msg.sender))
          (signer-state (p.acc_from_bech32 msg.sender)))
        (λ sender.
          Preserves-bind (check sender) go
            (Preserves-read (check sender)
              (has_permission-state (sender ∷ []) (can_change_token_mapping p)))
            (λ allowed.
              Preserves-raise_if (not allowed) unauthorized change (register-Preserves msg h)))
        s k
