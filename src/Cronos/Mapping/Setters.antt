-- ===== src/Cronos/Mapping/Setters.antt =====
-- The token mapping of x/cronos seen through its getters, after each of its setters.
use cosmos_swap.Prelude.{
  ◌≡◌, ◌≢◌, refl, inl, inr, Option, none, some, [], ◌∷◌, Bytes, bytes_eq, bytes_beq_iff, nat_eq,
  ◌==◌, if◌then◌else◌, ok, arith, Option-cases,
}
use cosmos_swap.Cronos.{
  Platform, PlatformLaws, State, external_contract_key, denom_key, get_external_contract_by_denom,
  get_auto_contract_by_denom, get_denom_by_contract, set_external_contract_for_denom,
  delete_external_contract_for_denom, set_auto_contract_for_denom,
}
use cosmos_swap.Cronos.Mapping.Reads.{
  read-set, read-delete, nonempty_denom, forgotten, forgotten-read, forgotten-denom, external-read,
  auto-read, denom-read, address_of-bytes, is_old,
}

module _ (p : Platform) (laws : PlatformLaws p) where
  module _ (s : State p) (d : Bytes) (a : p.Address)
      (done : (set_external_contract_for_denom p d a s).0 ≡ ok tt) where
    pub set_external-unregistered : get_denom_by_contract p a s ≡ none
    unfolding set_external_contract_for_denom
    set_external-unregistered = elim (Option-cases (get_denom_by_contract p a s)) [
      | inl e ↦ e
      | inr (x, e) ↦ absurd (ground arith)
    ]

    old_store : p.kv.Store
    old_store = forgotten p laws (get_external_contract_by_denom p d s) s.store

    new_store : p.kv.Store
    new_store =
        p.kv.set (p.kv.set old_store (external_contract_key d) (p.address_bytes a))
          (denom_key (p.address_bytes a)) d

    set_external-store :
        (set_external_contract_for_denom p d a s).1 ≡ record s { store = new_store }
    unfolding set_external_contract_for_denom new_store old_store forgotten
    set_external-store = ground (arith, set_external-unregistered)

    pub set_external-external :
        (e : Bytes)
        → get_external_contract_by_denom p e (set_external_contract_for_denom p d a s).1
          ≡ (if d == e then some a else get_external_contract_by_denom p e s)
    unfolding new_store old_store
    set_external-external e = rw set_external-store (
        ground (
          arith,
          external-read p laws e s,
          external-read p laws e (record s { store = new_store }),
          read-set p laws (p.kv.set old_store (1 ∷ d) (p.address_bytes a)) 3 (p.address_bytes a) d 1
              e,
          read-set p laws old_store 1 d (p.address_bytes a) 1 e,
          forgotten-read p laws (get_external_contract_by_denom p d s) s.store 1 e refl,
          address_of-bytes p laws a,
        ))

    pub set_external-auto :
        (e : Bytes)
        → get_auto_contract_by_denom p e (set_external_contract_for_denom p d a s).1
          ≡ get_auto_contract_by_denom p e s
    unfolding new_store old_store
    set_external-auto e = rw set_external-store (
        ground (
          arith,
          auto-read p laws e s,
          auto-read p laws e (record s { store = new_store }),
          read-set p laws (p.kv.set old_store (1 ∷ d) (p.address_bytes a)) 3 (p.address_bytes a) d 2
              e,
          read-set p laws old_store 1 d (p.address_bytes a) 2 e,
          forgotten-read p laws (get_external_contract_by_denom p d s) s.store 2 e refl,
        ))

    pub set_external-denom :
        d ≢ []
        → (b : p.Address)
        → get_denom_by_contract p b (set_external_contract_for_denom p d a s).1 ≡ (
            if p.address_bytes a == p.address_bytes b
            then some d
            else if is_old p laws (get_external_contract_by_denom p d s) b
            then none
            else get_denom_by_contract p b s)
    unfolding new_store old_store
    set_external-denom h b = rw set_external-store (
        ground (
          arith,
          denom-read p laws b s,
          denom-read p laws b (record s { store = new_store }),
          read-set p laws (p.kv.set old_store (1 ∷ d) (p.address_bytes a)) 3 (p.address_bytes a) d 3
              (p.address_bytes b),
          read-set p laws old_store 1 d (p.address_bytes a) 3 (p.address_bytes b),
          forgotten-denom p laws (get_external_contract_by_denom p d s) s.store b,
          nonempty_denom p laws d h,
        ))

  module _ (s : State p) (d : Bytes) where
    abbrev deleted : Option p.Address → p.kv.Store
    deleted none = s.store
    deleted (some x) =
        p.kv.delete (p.kv.delete s.store (external_contract_key d)) (denom_key (p.address_bytes x))

    delete_external-store :
        (delete_external_contract_for_denom p d s).1
        ≡ record s { store = deleted (get_external_contract_by_denom p d s) }
    unfolding delete_external_contract_for_denom
    delete_external-store = ground arith

    pub delete_external-external :
        (e : Bytes)
        → get_external_contract_by_denom p e (delete_external_contract_for_denom p d s).1
          ≡ (if d == e then none else get_external_contract_by_denom p e s)
    delete_external-external e =
        rw delete_external-store (elim (Option-cases (get_external_contract_by_denom p d s)) [
          | inl n ↦ ground (
            arith,
            bytes_beq_iff d e,
            external-read p laws e s,
            external-read p laws e
                (record s { store = deleted (get_external_contract_by_denom p d s) }),
            read-delete p laws s.store 1 d 1 e,
          )
          | inr (x, n) ↦ ground (
            arith,
            bytes_beq_iff d e,
            external-read p laws e s,
            external-read p laws e
                (record s { store = deleted (get_external_contract_by_denom p d s) }),
            read-delete p laws s.store 1 d 1 e,
            read-delete p laws (p.kv.delete s.store (1 ∷ d)) 3 (p.address_bytes x) 1 e,
          )
        ])

    pub delete_external-auto :
        (e : Bytes)
        → get_auto_contract_by_denom p e (delete_external_contract_for_denom p d s).1
          ≡ get_auto_contract_by_denom p e s
    delete_external-auto e =
        rw delete_external-store (elim (Option-cases (get_external_contract_by_denom p d s)) [
          | inl n ↦ ground (
            arith,
            auto-read p laws e s,
            auto-read p laws e
                (record s { store = deleted (get_external_contract_by_denom p d s) }),
            read-delete p laws s.store 1 d 2 e,
          )
          | inr (x, n) ↦ ground (
            arith,
            auto-read p laws e s,
            auto-read p laws e
                (record s { store = deleted (get_external_contract_by_denom p d s) }),
            read-delete p laws s.store 1 d 2 e,
            read-delete p laws (p.kv.delete s.store (1 ∷ d)) 3 (p.address_bytes x) 2 e,
          )
        ])

    pub delete_external-denom :
        (b : p.Address)
        → get_denom_by_contract p b (delete_external_contract_for_denom p d s).1 ≡ (
            if is_old p laws (get_external_contract_by_denom p d s) b
            then none
            else get_denom_by_contract p b s)
    delete_external-denom b =
        rw delete_external-store (elim (Option-cases (get_external_contract_by_denom p d s)) [
          | inl n ↦ ground (
            arith,
            denom-read p laws b s,
            denom-read p laws b
                (record s { store = deleted (get_external_contract_by_denom p d s) }),
            read-delete p laws s.store 1 d 3 (p.address_bytes b),
          )
          | inr (x, n) ↦ ground (
            arith,
            denom-read p laws b s,
            denom-read p laws b
                (record s { store = deleted (get_external_contract_by_denom p d s) }),
            read-delete p laws s.store 1 d 3 (p.address_bytes b),
            read-delete p laws (p.kv.delete s.store (1 ∷ d)) 3 (p.address_bytes x) 3
                (p.address_bytes b),
          )
        ])

    module _ (a : p.Address) where
      pub set_auto-external :
          (e : Bytes)
          → get_external_contract_by_denom p e (set_auto_contract_for_denom p d a s).1
            ≡ get_external_contract_by_denom p e s
      unfolding set_auto_contract_for_denom
      set_auto-external e = ground (
        arith,
        external-read p laws e s,
        external-read p laws e (set_auto_contract_for_denom p d a s).1,
        read-set p laws (p.kv.set s.store (2 ∷ d) (p.address_bytes a)) 3 (p.address_bytes a) d 1 e,
        read-set p laws s.store 2 d (p.address_bytes a) 1 e,
      )

      pub set_auto-auto :
          (e : Bytes)
          → get_auto_contract_by_denom p e (set_auto_contract_for_denom p d a s).1
            ≡ (if d == e then some a else get_auto_contract_by_denom p e s)
      unfolding set_auto_contract_for_denom
      set_auto-auto e = ground (
        arith,
        auto-read p laws e s,
        auto-read p laws e (set_auto_contract_for_denom p d a s).1,
        read-set p laws (p.kv.set s.store (2 ∷ d) (p.address_bytes a)) 3 (p.address_bytes a) d 2 e,
        read-set p laws s.store 2 d (p.address_bytes a) 2 e,
        address_of-bytes p laws a,
      )

      pub set_auto-denom :
          d ≢ []
          → (b : p.Address)
          → get_denom_by_contract p b (set_auto_contract_for_denom p d a s).1 ≡ (
              if p.address_bytes a == p.address_bytes b
              then some d
              else get_denom_by_contract p b s)
      unfolding set_auto_contract_for_denom
      set_auto-denom h b = ground (
        arith,
        denom-read p laws b s,
        denom-read p laws b (set_auto_contract_for_denom p d a s).1,
        read-set p laws (p.kv.set s.store (2 ∷ d) (p.address_bytes a)) 3 (p.address_bytes a) d 3
            (p.address_bytes b),
        read-set p laws s.store 2 d (p.address_bytes a) 3 (p.address_bytes b),
        nonempty_denom p laws d h,
      )
