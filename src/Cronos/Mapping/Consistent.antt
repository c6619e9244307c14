-- ===== src/Cronos/Mapping/Consistent.antt =====
-- The invariant of the token mapping: the two directions agree, and no contract serves two
-- denominations.
use cosmos_swap.Prelude.{
  ◌≡◌, ◌≢◌, ◌↔◌, ◌⊎◌, inl, inr, true, none, some, [], Bytes, bytes_eq, bytes_beq_iff, ok, err,
  arith, Option-cases, Result-cases,
}
use cosmos_swap.Cronos.{
  Platform, PlatformLaws, State, Error, get_external_contract_by_denom, get_auto_contract_by_denom,
  get_contract_by_denom, get_denom_by_contract, set_external_contract_for_denom,
  delete_external_contract_for_denom, set_auto_contract_for_denom,
}
use cosmos_swap.Cronos.Mapping.Reads.{same_address, is_old}
use cosmos_swap.Cronos.Mapping.Setters.{
  set_external-unregistered, set_external-external, set_external-auto, set_external-denom,
  delete_external-external, delete_external-auto, delete_external-denom, set_auto-external,
  set_auto-auto, set_auto-denom,
}

pub record IsConsistent (p : Platform) (s : State p) : Type 0 where
  pub external :
      (d : Bytes) (a : p.Address)
      → get_external_contract_by_denom p d s ≡ some a
      → get_denom_by_contract p a s ≡ some d
  pub auto :
      (d : Bytes) (a : p.Address)
      → get_auto_contract_by_denom p d s ≡ some a
      → get_denom_by_contract p a s ≡ some d
  pub back :
      (a : p.Address) (d : Bytes)
      → get_denom_by_contract p a s ≡ some d
      → (get_external_contract_by_denom p d s ≡ some a)
        ⊎ (get_auto_contract_by_denom p d s ≡ some a)
  pub apart :
      (d : Bytes) (a : p.Address)
      → get_external_contract_by_denom p d s ≡ some a
      → get_auto_contract_by_denom p d s ≢ some a

module _ (p : Platform) (laws : PlatformLaws p) (s : State p) (ok_s : IsConsistent p s) where
  -- In a consistent state two denominations that have a contract have different ones.
  pub get_contract_by_denom-injective :
      (d e : Bytes) (a : p.Address)
      → get_contract_by_denom p d s ≡ some a
      → get_contract_by_denom p e s ≡ some a
      → d ≡ e
  unfolding get_contract_by_denom
  get_contract_by_denom-injective d e a f g =
      ground (arith, ok_s.external d a, ok_s.external e a, ok_s.auto d a, ok_s.auto e a)

  pub set_auto-IsConsistent :
      (d : Bytes) (a : p.Address)
      → d ≢ []
      → get_contract_by_denom p d s ≡ none
      → get_denom_by_contract p a s ≡ none
      → IsConsistent p (set_auto_contract_for_denom p d a s).1
  unfolding get_contract_by_denom
  set_auto-IsConsistent d a h missing fresh = record {
    external = λ e b f. ground (
      arith,
      set_auto-external p laws s d a e,
      set_auto-denom p laws s d a h b,
      same_address p laws a b,
      ok_s.external e b,
    );
    auto = λ e b f. ground (
      arith,
      set_auto-auto p laws s d a e,
      bytes_beq_iff d e,
      set_auto-denom p laws s d a h b,
      same_address p laws a b,
      ok_s.auto e b,
    );
    back = λ b e f. ground (
      arith,
      set_auto-external p laws s d a e,
      set_auto-auto p laws s d a e,
      bytes_beq_iff d e,
      set_auto-denom p laws s d a h b,
      same_address p laws a b,
      ok_s.back b e,
    );
    apart = λ e b f g. ground (
      arith,
      set_auto-external p laws s d a e,
      set_auto-auto p laws s d a e,
      bytes_beq_iff d e,
      ok_s.external e b,
      ok_s.apart e b,
    );
  }

  old_contract :
      (d : Bytes) (b : p.Address)
      → (is_old p laws (get_external_contract_by_denom p d s) b ≡ true)
        ↔ (get_external_contract_by_denom p d s ≡ some b)
  old_contract d b = elim (Option-cases (get_external_contract_by_denom p d s)) [
    | inl n ↦ ground (arith, n)
    | inr (x, n) ↦ ground (arith, n, same_address p laws x b)
  ]

  set_external-IsConsistent :
      (d : Bytes) (a : p.Address)
      → d ≢ []
      → (set_external_contract_for_denom p d a s).0 ≡ ok tt
      → IsConsistent p (set_external_contract_for_denom p d a s).1
  set_external-IsConsistent d a h done = record {
    external = λ e b f. ground (
      arith,
      set_external-unregistered p laws s d a done,
      set_external-external p laws s d a done e,
      set_external-denom p laws s d a done h b,
      bytes_beq_iff d e,
      same_address p laws a b,
      old_contract d b,
      ok_s.external e b,
      ok_s.external d b,
    );
    auto = λ e b f. ground (
      arith,
      set_external-unregistered p laws s d a done,
      set_external-auto p laws s d a done e,
      set_external-denom p laws s d a done h b,
      same_address p laws a b,
      old_contract d b,
      ok_s.auto e b,
      ok_s.external d b,
      ok_s.apart d b,
    );
    back = λ b e f. ground (
      arith,
      set_external-external p laws s d a done e,
      set_external-auto p laws s d a done e,
      set_external-denom p laws s d a done h b,
      bytes_beq_iff d e,
      same_address p laws a b,
      old_contract d b,
      ok_s.back b e,
    );
    apart = λ e b f g. ground (
      arith,
      set_external-unregistered p laws s d a done,
      set_external-external p laws s d a done e,
      set_external-auto p laws s d a done e,
      bytes_beq_iff d e,
      ok_s.auto e b,
      ok_s.apart e b,
    );
  }

  -- The only error of the setter comes before it writes.
  set_external-error :
      (d : Bytes) (a : p.Address) {x : Error}
      → (set_external_contract_for_denom p d a s).0 ≡ err x
      → (set_external_contract_for_denom p d a s).1 ≡ s
  unfolding set_external_contract_for_denom
  set_external-error d a e = ground arith

  pub set_external-keeps :
      (d : Bytes) (a : p.Address)
      → d ≢ []
      → IsConsistent p (set_external_contract_for_denom p d a s).1
  set_external-keeps d a h = elim (Result-cases (set_external_contract_for_denom p d a s).0) [
    | inl (_, e) ↦ set_external-IsConsistent d a h e
    | inr (x, e) ↦ rw (set_external-error d a e) ok_s
  ]

  pub delete_external-IsConsistent :
      (d : Bytes) → IsConsistent p (delete_external_contract_for_denom p d s).1
  delete_external-IsConsistent d = record {
    external = λ e b f. ground (
      arith,
      delete_external-external p laws s d e,
      delete_external-denom p laws s d b,
      bytes_beq_iff d e,
      old_contract d b,
      ok_s.external e b,
      ok_s.external d b,
    );
    auto = λ e b f. ground (
      arith,
      delete_external-auto p laws s d e,
      delete_external-denom p laws s d b,
      old_contract d b,
      ok_s.auto e b,
      ok_s.external d b,
      ok_s.apart d b,
    );
    back = λ b e f. ground (
      arith,
      delete_external-external p laws s d e,
      delete_external-auto p laws s d e,
      delete_external-denom p laws s d b,
      bytes_beq_iff d e,
      old_contract d b,
      ok_s.back b e,
    );
    apart = λ e b f g. ground (
      arith,
      delete_external-external p laws s d e,
      delete_external-auto p laws s d e,
      ok_s.apart e b,
    );
  }
