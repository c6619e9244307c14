-- ===== src/Cronos/Logs.antt =====
-- What the processing of a transaction's logs, and the transfers over IBC, leave alone: the store of the
-- cronos module.
use cosmos_swap.Prelude.{
  ℕ, ◌≡◌, refl, sym, inl, inr, Bool, true, false, Option, none, some, List, [], ◌∷◌, Bytes, String,
  Result, ok, err, arith, Result-cases, pure, gets, raise_if, ◌>>=◌, ◌>>◌, ◌∙◌, ◌-◌, ◌%◌, not, ◌&&◌,
  bytes_eq, nat_eq, ◌==◌, length, if◌then◌else◌,
}
use cosmos_swap.Cronos.{
  Platform, State, Error, M, Call, Params, Coin, call, from_external, get_params, source_channel,
  get_source_channel_id, ibc_send_transfer, transfer, transfer_msg, release_vouchers, return_cro,
  transfer_supported, transfer_if_mapped, is_mapped, get_contract_by_denom, is_valid_ibc_denom,
  is_valid_cronos_denom, not_supported, empty_destination, ten_pow_ten, transfer_coin,
  transfer_coins, ibc_transfer_coins,
}
pub mod Handlers
pub mod Rules
pub mod Store
pub mod Even
pub mod Callbacks
mod Tests

module _ (p : Platform) where
  -- The action leaves the store as it is, whether it succeeds or fails.
  unfoldable pub LeavesStore : {A : Type 0} → M p A → Type 0
  LeavesStore m = (s : State p) → (m s).1.store ≡ s.store

  pub LeavesStore-bind :
      {A B : Type 0} (m : M p A) (f : A → M p B)
      → LeavesStore m
      → ((a : A) → LeavesStore (f a))
      → LeavesStore (m >>= f)
  unfolding LeavesStore
  LeavesStore-bind m f k l s = elim (Result-cases (m s).0) [
    | inl (a, y) ↦ rw (y, ◌>>=◌) (l a (m s).1 ∙ k s)
    | inr (x, y) ↦ rw (y, ◌>>=◌) (k s)
  ]

  pub LeavesStore-pure : {A : Type 0} (a : A) → LeavesStore (pure a)
  unfolding LeavesStore
  LeavesStore-pure a s = refl

  pub LeavesStore-gets : {A : Type 0} (f : State p → A) → LeavesStore (gets f)
  unfolding LeavesStore
  LeavesStore-gets f s = refl

  pub LeavesStore-raise_if :
      {A : Type 0} (c : Bool) (x : Error) (m : M p A)
      → LeavesStore m
      → LeavesStore (raise_if c x >> m)
  unfolding LeavesStore
  LeavesStore-raise_if true x m k s = refl
  LeavesStore-raise_if false x m k s = k s

  pub LeavesStore-if :
      {A : Type 0} (c : Bool) (m n : M p A)
      → LeavesStore m
      → LeavesStore n
      → LeavesStore (if c then m else n)
  LeavesStore-if true m n k l = k
  LeavesStore-if false m n k l = l

  pub LeavesStore-call : (c : Call p.Address) → LeavesStore (call p c)
  unfolding LeavesStore
  LeavesStore-call c s = ground arith

  pub from_external-LeavesStore :
      {A : Type 0} (r : Result String A) → LeavesStore (from_external p r)
  unfolding LeavesStore
  from_external-LeavesStore (ok a) s = refl
  from_external-LeavesStore (err x) s = refl

  pub get_params-LeavesStore : LeavesStore (get_params p)
  unfolding LeavesStore get_params
  get_params-LeavesStore s = ground arith

  source_channel-LeavesStore :
      (denom channel : Bytes) → LeavesStore (source_channel p denom channel)
  unfolding LeavesStore source_channel get_source_channel_id
  source_channel-LeavesStore denom channel s = ground arith

  module _ (now : ℕ) (acc to channel : Bytes) where
    ibc_send_transfer-LeavesStore :
        (c : Coin) (chan : Bytes) → LeavesStore (ibc_send_transfer p now acc to c chan)
    unfolding ibc_send_transfer
    ibc_send_transfer-LeavesStore c chan =
        let send =
          λ (x : Bytes) (r : Params). call p (transfer (transfer_msg p now acc to c x r)) in
        LeavesStore-bind (source_channel p c.denom chan) (λ x. get_params p >>= send x)
          (source_channel-LeavesStore c.denom chan)
          (λ x.
            LeavesStore-bind (get_params p) (send x) get_params-LeavesStore
              (λ r. LeavesStore-call (transfer (transfer_msg p now acc to c x r))))

    release_vouchers-LeavesStore : (q : Params) (n : ℕ) → LeavesStore (release_vouchers p q acc n)
    unfolding LeavesStore release_vouchers
    release_vouchers-LeavesStore q n s = ground arith

    transfer_supported-LeavesStore :
        (c : Coin) → LeavesStore (transfer_supported p now acc to channel c)
    unfolding transfer_supported
    transfer_supported-LeavesStore c =
        let find = gets (get_contract_by_denom p c.denom) in
        let send = transfer_if_mapped p now acc to channel c in
        LeavesStore-raise_if
          (not (is_valid_ibc_denom c.denom) && not (is_valid_cronos_denom c.denom)) not_supported
          (find >>= send)
          (LeavesStore-bind find send (LeavesStore-gets (get_contract_by_denom p c.denom)) (λ found.
            LeavesStore-raise_if (not (is_mapped p found)) not_supported
              (ibc_send_transfer p now acc to c channel) (ibc_send_transfer-LeavesStore c channel)))

    return_cro-LeavesStore : (q : Params) (c : Coin) → LeavesStore (return_cro p now q acc to c)
    unfolding return_cro
    return_cro-LeavesStore q c =
        let release = release_vouchers p q acc c.amount in
        LeavesStore-if (c.amount - c.amount % ten_pow_ten == 0) (pure tt)
          (release >>= λ v. ibc_send_transfer p now acc to v []) (LeavesStore-pure tt)
          (LeavesStore-bind release (λ v. ibc_send_transfer p now acc to v [])
            (release_vouchers-LeavesStore q c.amount) (λ v. ibc_send_transfer-LeavesStore v []))

    transfer_coins-LeavesStore :
        (q : Params) (cs : List Coin) → LeavesStore (transfer_coins p now q acc to channel cs)
    unfolding transfer_coins transfer_coin
    transfer_coins-LeavesStore q [] = LeavesStore-pure tt
    transfer_coins-LeavesStore q (c ∷ cs) =
        LeavesStore-bind (transfer_coin p now q acc to channel c)
          (λ _. transfer_coins p now q acc to channel cs)
          (LeavesStore-if (c.denom == p.evm_denom) (return_cro p now q acc to c)
            (transfer_supported p now acc to channel c) (return_cro-LeavesStore q c)
            (transfer_supported-LeavesStore c))
          (λ _. transfer_coins-LeavesStore q cs)

  pub ibc_transfer_coins-LeavesStore :
      (now : ℕ) (from to channel : Bytes) (cs : List Coin)
      → LeavesStore (ibc_transfer_coins p now from to cs channel)
  unfolding ibc_transfer_coins
  ibc_transfer_coins-LeavesStore now from to channel cs =
      let each = λ (acc : Bytes) (q : Params). transfer_coins p now q acc to channel cs in
      LeavesStore-bind (from_external p (p.acc_from_bech32 from))
        (λ acc. raise_if (length to == 0) empty_destination >> (get_params p >>= each acc))
        (from_external-LeavesStore (p.acc_from_bech32 from))
        (λ acc.
          LeavesStore-raise_if (length to == 0) empty_destination (get_params p >>= each acc) (
            LeavesStore-bind (get_params p) (each acc) get_params-LeavesStore
              (λ q. transfer_coins-LeavesStore now acc to channel q cs)))
