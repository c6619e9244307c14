-- ===== src/Cronos/Mapping/Writes.antt =====
-- What the writes of parameters, permissions and block lists leave alone: the token mapping.
use cosmos_swap.Prelude.{
  ℕ, ◌≡◌, refl, sym, ◌∙◌, put_uint64, bytes_eq, false, not, [], ◌∷◌, Bytes, nat_beq, arith,
  raise_if, ◌>>=◌, ◌>>◌, nat_eq, ◌==◌,
}
use cosmos_swap.Cronos.{
  Platform, PlatformLaws, State, MsgUpdatePermissions, MsgStoreBlockList, MsgUpdateParams, Params,
  from_external, invalid_signer, unauthorized, update_params, update_permissions, store_block_list,
  set_params, validate_params, set_permissions, write, get_params, params_key, block_list_key,
  get_external_contract_by_denom, get_auto_contract_by_denom, get_denom_by_contract,
}
use cosmos_swap.Cronos.Mapping.Reads.{read-set, external-read, auto-read, denom-read}
use cosmos_swap.Cronos.Mapping.Messages.{
  Preserves, Preserves-bind, Preserves-raise_if, Preserves-read, get_params-state,
}

module _ (p : Platform) (laws : PlatformLaws p) where
  -- A write under another prefix than those of the mapping.
  module _ (tag : ℕ) (x v : Bytes) (s : State p)
      (other : (nat_beq tag 1 ≡ false) × (nat_beq tag 2 ≡ false) × (nat_beq tag 3 ≡ false)) where
    write-external :
        (d : Bytes)
        → get_external_contract_by_denom p d (write p (tag ∷ x) v s).1
          ≡ get_external_contract_by_denom p d s
    write-external d = ground (
      arith,
      external-read p laws d s,
      external-read p laws d (write p (tag ∷ x) v s).1,
      read-set p laws s.store tag x v 1 d,
    )

    write-auto :
        (d : Bytes)
        → get_auto_contract_by_denom p d (write p (tag ∷ x) v s).1
          ≡ get_auto_contract_by_denom p d s
    write-auto d = ground (
      arith,
      auto-read p laws d s,
      auto-read p laws d (write p (tag ∷ x) v s).1,
      read-set p laws s.store tag x v 2 d,
    )

    write-denom :
        (a : p.Address)
        → get_denom_by_contract p a (write p (tag ∷ x) v s).1 ≡ get_denom_by_contract p a s
    write-denom a = ground (
      arith,
      denom-read p laws a s,
      denom-read p laws a (write p (tag ∷ x) v s).1,
      read-set p laws s.store tag x v 3 (p.address_bytes a),
    )

  pub write-Preserves :
      (tag : ℕ) (x v : Bytes)
      → (nat_beq tag 1 ≡ false) × (nat_beq tag 2 ≡ false) × (nat_beq tag 3 ≡ false)
      → Preserves p laws (write p (tag ∷ x) v)
  unfolding Preserves
  write-Preserves tag x v o s k = record {
    external = λ d a e.
        write-denom tag x v s o a ∙ k.external d a (sym (write-external tag x v s o d) ∙ e);
    auto = λ d a e. write-denom tag x v s o a ∙ k.auto d a (sym (write-auto tag x v s o d) ∙ e);
    back = λ a d e. ground (
      arith,
      write-external tag x v s o d,
      write-auto tag x v s o d,
      k.back a d (sym (write-denom tag x v s o a) ∙ e),
    );
    apart = λ d a e f.
        k.apart d a (sym (write-external tag x v s o d) ∙ e) (sym (write-auto tag x v s o d) ∙ f);
  }

  pub set_params-Preserves : (q : Params) → Preserves p laws (set_params p q)
  unfolding set_params validate_params
  set_params-Preserves q =
      Preserves-bind p laws (validate_params p q) (λ _. write p params_key (p.marshal q))
        (Preserves-read p laws (validate_params p q) (λ s. ground arith))
        (λ _. write-Preserves 4 [] (p.marshal q) (refl, refl, refl))

  pub update_params-Preserves : (m : MsgUpdateParams) → Preserves p laws (update_params p m)
  unfolding update_params
  update_params-Preserves m =
      Preserves-raise_if p laws (not (m.authority == p.authority)) invalid_signer
        (set_params p m.params) (set_params-Preserves m.params)

  pub update_permissions-Preserves :
      (m : MsgUpdatePermissions) → Preserves p laws (update_permissions p m)
  unfolding update_permissions set_permissions
  update_permissions-Preserves m =
      let store = λ (acc : Bytes). set_permissions p acc m.permissions in
      let find = from_external p (p.acc_from_bech32 m.address) in
      let check = λ (q : Params).
        raise_if (not (q.cronos_admin == m.from)) unauthorized >> (find >>= store) in
      Preserves-bind p laws (get_params p) check
        (Preserves-read p laws (get_params p) (get_params-state p laws))
        (λ q.
          Preserves-raise_if p laws (not (q.cronos_admin == m.from)) unauthorized (find >>= store) (
            Preserves-bind p laws find store (Preserves-read p laws find (λ s. ground arith))
              (λ acc. write-Preserves 5 acc (put_uint64 m.permissions) (refl, refl, refl))))

  pub store_block_list-Preserves : (m : MsgStoreBlockList) → Preserves p laws (store_block_list p m)
  unfolding store_block_list
  store_block_list-Preserves m =
      let store = write p block_list_key m.blob in
      Preserves-bind p laws (get_params p)
        (λ q. raise_if (not (q.cronos_admin == m.from)) unauthorized >> store)
        (Preserves-read p laws (get_params p) (get_params-state p laws))
        (λ q.
          Preserves-raise_if p laws (not (q.cronos_admin == m.from)) unauthorized store
            (write-Preserves 6 [] m.blob (refl, refl, refl)))
