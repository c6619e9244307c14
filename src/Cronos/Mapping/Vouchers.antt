-- ===== src/Cronos/Mapping/Vouchers.antt =====
-- Conversions of vouchers, which deploy contracts, keep the token mapping consistent.
use cosmos_swap.Prelude.{
  ◌≡◌, refl, inl, inr, not, Bool-cases, Result-cases, reads-gives, none, List, [], ◌∷◌, Bytes, ok,
  arith, nat_eq, bytes_eq, ◌==◌, length, ltb, ◌*◌, ◌^◌, pure, raise_if, ◌>>=◌, ◌>>◌, Bool,
}
use cosmos_swap.Cronos.{
  Platform, PlatformLaws, State, Coin, Params, MsgConvertVouchers, ten_pow_ten, ibc_cro_denom_empty,
  panic, send_to_module, send_from_module, mint, call, from_external, get_params,
  get_denom_by_contract, new_coin, convert_cro, convert_voucher, convert_vouchers,
  convert_vouchers_to_evm_coins, on_recv_vouchers, convert_coin_from_native_to_crc21,
  validate_convert_vouchers, convert_vouchers_msg,
}
use cosmos_swap.Cronos.Mapping.Consistent.{IsConsistent}
use cosmos_swap.Cronos.Mapping.Messages.{
  Preserves, IsConsistent-bind, Preserves-bind, Preserves-call, Preserves-raise_if, Preserves-read,
}
use cosmos_swap.Cronos.Mapping.Conversions.{convert_coin-IsConsistent}

module _ (p : Platform) where
  -- The address that the next deployment gets has no denomination.
  abbrev pub IsUnused : State p → Type 0
  IsUnused s =
      get_denom_by_contract p (p.create_address p.evm_module_address (p.get_nonce s.calls)) s ≡ none

  -- It has none when each coin's turn comes.
  abbrev pub AreUnused : Params → Bytes → List Coin → State p → Type 0
  AreUnused q acc [] s = Unit
  AreUnused q acc (c ∷ cs) s = IsUnused s × AreUnused q acc cs (convert_voucher p q acc c s).1

  -- The same of a conversion for an account's address.
  abbrev pub AreUnusedFor : Bytes → List Coin → State p → Type 0
  AreUnusedFor from coins s =
      (acc : Bytes) (q : Params)
      → p.acc_from_bech32 from ≡ ok acc
      → get_params p s ≡ (ok q, s)
      → AreUnused q acc coins s

module _ (p : Platform) (laws : PlatformLaws p) where
  convert_cro-Preserves :
      (q : Params) (acc : Bytes) (c : Coin) → Preserves p laws (convert_cro p q acc c)
  unfolding convert_cro
  convert_cro-Preserves q acc c =
      let n = c.amount * ten_pow_ten in
      let pay = λ (minted : Coin). call p (mint minted) >> call p (send_from_module acc minted) in
      let big = not (ltb n (2 ^ 256)) in
      let made = new_coin p p.evm_denom n >>= pay in
      let take = call p (send_to_module acc c) in
      Preserves-raise_if p laws (length q.ibc_cro_denom == 0) ibc_cro_denom_empty
        (take >> (raise_if big panic >> made))
        (Preserves-bind p laws take (λ _. raise_if big panic >> made)
          (Preserves-call p laws (send_to_module acc c))
          (λ _. Preserves-raise_if p laws big panic made (
            Preserves-bind p laws (new_coin p p.evm_denom n) pay
              (Preserves-read p laws (new_coin p p.evm_denom n) (λ s. ground arith))
              (λ minted.
                Preserves-bind p laws (call p (mint minted))
                  (λ _. call p (send_from_module acc minted)) (Preserves-call p laws (mint minted))
                  (λ _. Preserves-call p laws (send_from_module acc minted))))))

  convert_voucher-IsConsistent :
      (q : Params) (acc : Bytes) (c : Coin) (s : State p)
      → IsUnused p s
      → IsConsistent p s
      → IsConsistent p (convert_voucher p q acc c s).1
  unfolding convert_voucher Preserves
  convert_voucher-IsConsistent q acc c s unused k = elim (Bool-cases (c.denom == q.ibc_cro_denom)) [
    | inl y ↦ rw y (convert_cro-Preserves q acc c s k)
    | inr y ↦ rw y (
        IsConsistent-bind p laws
          (convert_coin_from_native_to_crc21 p (p.bytes_to_address acc) c q.enable_auto_deployment)
          (λ _. pure tt) s
          (convert_coin-IsConsistent p laws (p.bytes_to_address acc) c q.enable_auto_deployment s
            unused k)
          (λ _. Preserves-read p laws (pure tt) (λ t. refl)))
  ]

  convert_vouchers-IsConsistent :
      (q : Params) (acc : Bytes) (cs : List Coin) (s : State p)
      → AreUnused p q acc cs s
      → IsConsistent p s
      → IsConsistent p (convert_vouchers p q acc cs s).1
  unfolding convert_vouchers
  convert_vouchers-IsConsistent q acc [] s u k = k
  convert_vouchers-IsConsistent q acc (c ∷ cs) s u k =
      let l = convert_voucher-IsConsistent q acc c s u.0 k in
      elim (Result-cases (convert_voucher p q acc c s).0) [
        | inl (_, y) ↦
            rw (y, ◌>>◌, ◌>>=◌)
              (convert_vouchers-IsConsistent q acc cs (convert_voucher p q acc c s).1 u.1 l)
        | inr (x, y) ↦ rw (y, ◌>>◌, ◌>>=◌) l
      ]

  get_params-reads : (s : State p) → (get_params p s).1 ≡ s
  unfolding get_params
  get_params-reads s = ground arith

  pub convert_vouchers_to_evm_coins-IsConsistent :
      (from : Bytes) (coins : List Coin) (s : State p)
      → AreUnusedFor p from coins s
      → IsConsistent p s
      → IsConsistent p (convert_vouchers_to_evm_coins p from coins s).1
  unfolding convert_vouchers_to_evm_coins
  convert_vouchers_to_evm_coins-IsConsistent from coins s u k =
      let find = from_external p (p.acc_from_bech32 from) in
      let convert = λ (acc : Bytes) (q : Params). convert_vouchers p q acc coins in
      reads-gives (IsConsistent p) find (λ acc. get_params p >>= convert acc) s (ground arith) k
        (λ acc y.
          reads-gives (IsConsistent p) (get_params p) (convert acc) s (get_params-reads s) k (λ q z.
            convert_vouchers-IsConsistent q acc coins s
              (u acc q (ground (arith, y)) (ground (arith, z, get_params-reads s))) k))

  pub on_recv_vouchers-IsConsistent :
      (coins : List Coin) (receiver : Bytes) (s : State p)
      → AreUnusedFor p receiver coins s
      → IsConsistent p s
      → IsConsistent p (on_recv_vouchers p coins receiver s)
  unfolding on_recv_vouchers
  on_recv_vouchers-IsConsistent coins receiver s u k =
      let l = convert_vouchers_to_evm_coins-IsConsistent receiver coins s u k in
      elim (Result-cases (convert_vouchers_to_evm_coins p receiver coins s).0) [
        | inl (_, y) ↦ rw y l
        | inr (x, y) ↦ rw y k
      ]

  -- The message of a conversion, with its stateless checks.
  pub convert_vouchers_msg-IsConsistent :
      (is_valid is_all_positive : List Coin → Bool) (m : MsgConvertVouchers) (s : State p)
      → AreUnusedFor p m.address m.coins s
      → IsConsistent p s
      → IsConsistent p
          ((validate_convert_vouchers p is_valid is_all_positive m
              >> convert_vouchers_msg p is_valid is_all_positive m)
            s).1
  unfolding validate_convert_vouchers convert_vouchers_msg
  convert_vouchers_msg-IsConsistent is_valid is_all_positive m s u k =
      reads-gives (IsConsistent p) (validate_convert_vouchers p is_valid is_all_positive m)
        (λ _. convert_vouchers_msg p is_valid is_all_positive m) s (ground arith) k
        (λ _ y. convert_vouchers_to_evm_coins-IsConsistent m.address m.coins s u k)
