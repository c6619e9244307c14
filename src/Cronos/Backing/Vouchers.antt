-- ===== src/Cronos/Backing/Vouchers.antt =====
-- Vouchers of CRO in and out: every voucher taken in stands for 10^10 coins of the EVM created, and
-- every voucher given back for as many destroyed.
use cosmos_swap.Prelude.{
  ℕ, ◌+◌, ◌-◌, ◌*◌, ◌/◌, ◌%◌, ◌≡◌, ◌≢◌, refl, inl, inr, false, not, ◌&&◌, List, [], ◌∷◌, ◌++◌,
  Bytes, bytes_eq, bytes_beq_iff, nat_eq, ◌==◌, String, ok, err, arith, Result-cases, Bool-cases,
  pure, gets, ◌>>=◌,
}
use cosmos_swap.Cronos.{
  Coin, Params, Call, mint, burn, send_to_module, send_from_module, transfer, ten_pow_ten, Platform,
  State, call, is_valid_coin_denom, convert_coin_from_native_to_crc21, convert_cro, convert_voucher,
  convert_vouchers, convert_vouchers_to_evm_coins, get_params, release_vouchers, return_cro,
  transfer_supported, transfer_if_mapped, transfer_coin, transfer_coins, ibc_send_transfer,
  ibc_transfer_coins, source_channel, get_source_channel_id, transfer_msg, is_valid_ibc_denom,
  is_valid_cronos_denom, not_supported, is_mapped, get_contract_by_denom,
}
use cosmos_swap.Cronos.Backing.{
  created, destroyed, total, total-append, IsEven, Keeps, Keeps-bind, Keeps-pure, Keeps-gets,
  Keeps-raise_if, Keeps-if, Keeps-call,
}
use cosmos_swap.Cronos.Backing.Convert.{convert_coin-Keeps}

module _ (p : Platform) (q : Params) (other : p.evm_denom ≢ q.ibc_cro_denom) where
  abbrev all_created : List (Call p.Address) → ℕ
  all_created = total p q.ibc_cro_denom (created p q.ibc_cro_denom)

  abbrev all_destroyed : List (Call p.Address) → ℕ
  all_destroyed = total p q.ibc_cro_denom (destroyed p q.ibc_cro_denom)

  three :
      (f : Call p.Address → ℕ) (cs : List (Call p.Address)) (a b c : Call p.Address)
      → total p q.ibc_cro_denom f (((cs ++ a ∷ []) ++ b ∷ []) ++ c ∷ [])
        ≡ total p q.ibc_cro_denom f cs + f a + f b + f c
  three f cs a b c = omega (
    arith,
    total-append p q.ibc_cro_denom f ((cs ++ a ∷ []) ++ b ∷ []) (c ∷ []),
    total-append p q.ibc_cro_denom f (cs ++ a ∷ []) (b ∷ []),
    total-append p q.ibc_cro_denom f cs (a ∷ []),
  )

  abbrev minted : Coin → Coin
  minted c = record { denom = p.evm_denom; amount = c.amount * ten_pow_ten }

  convert_cro-Keeps :
      (acc : Bytes) (c : Coin)
      → c.denom ≡ q.ibc_cro_denom
      → Keeps p q.ibc_cro_denom (convert_cro p q acc c)
  unfolding convert_cro Keeps IsEven created destroyed
  convert_cro-Keeps acc c h s a e = ground (
    arith,
    bytes_beq_iff c.denom q.ibc_cro_denom,
    bytes_beq_iff p.evm_denom q.ibc_cro_denom,
    bytes_beq_iff p.evm_denom p.evm_denom,
    three (created p q.ibc_cro_denom) s.calls (send_to_module acc c) (mint (minted c))
        (send_from_module acc (minted c)),
    three (destroyed p q.ibc_cro_denom) s.calls (send_to_module acc c) (mint (minted c))
        (send_from_module acc (minted c)),
  )

  convert_voucher-Keeps :
      (acc : Bytes) (c : Coin)
      → is_valid_coin_denom p.evm_denom ≡ false
      → Keeps p q.ibc_cro_denom (convert_voucher p q acc c)
  unfolding convert_voucher
  convert_voucher-Keeps acc c unlisted = elim (Bool-cases (c.denom == q.ibc_cro_denom)) [
    | inl y ↦ rw y (convert_cro-Keeps acc c ((bytes_beq_iff c.denom q.ibc_cro_denom).0 y))
    | inr n ↦
        let convert =
          convert_coin_from_native_to_crc21 p (p.bytes_to_address acc) c q.enable_auto_deployment in
        rw n (
          Keeps-bind p q.ibc_cro_denom convert (λ _. pure tt)
            (convert_coin-Keeps p q.ibc_cro_denom (p.bytes_to_address acc) c
              (λ e. ground (arith, bytes_beq_iff c.denom q.ibc_cro_denom)) q.enable_auto_deployment
              unlisted)
            (λ _. Keeps-pure p q.ibc_cro_denom tt))
  ]

  pub convert_vouchers-Keeps :
      (acc : Bytes) (cs : List Coin)
      → is_valid_coin_denom p.evm_denom ≡ false
      → Keeps p q.ibc_cro_denom (convert_vouchers p q acc cs)
  unfolding convert_vouchers
  convert_vouchers-Keeps acc [] unlisted = Keeps-pure p q.ibc_cro_denom tt
  convert_vouchers-Keeps acc (c ∷ cs) unlisted =
      Keeps-bind p q.ibc_cro_denom (convert_voucher p q acc c) (λ _. convert_vouchers p q acc cs)
        (convert_voucher-Keeps acc c unlisted) (λ _. convert_vouchers-Keeps acc cs unlisted)

  whole : (n : ℕ) → n / ten_pow_ten * ten_pow_ten ≡ n - n % ten_pow_ten
  whole n = omega arith

  abbrev burnt : ℕ → Coin
  burnt n = record { denom = p.evm_denom; amount = n - n % ten_pow_ten }

  abbrev voucher : ℕ → Coin
  voucher n = record { denom = q.ibc_cro_denom; amount = n / ten_pow_ten }

  release_vouchers-Keeps :
      (acc : Bytes) (n : ℕ) → Keeps p q.ibc_cro_denom (release_vouchers p q acc n)
  unfolding release_vouchers Keeps IsEven created destroyed
  release_vouchers-Keeps acc n s a e = ground (
    arith,
    whole n,
    bytes_beq_iff p.evm_denom q.ibc_cro_denom,
    bytes_beq_iff p.evm_denom p.evm_denom,
    bytes_beq_iff q.ibc_cro_denom q.ibc_cro_denom,
    three (created p q.ibc_cro_denom) s.calls (send_to_module acc (burnt n)) (burn (burnt n))
        (send_from_module acc (voucher n)),
    three (destroyed p q.ibc_cro_denom) s.calls (send_to_module acc (burnt n)) (burn (burnt n))
        (send_from_module acc (voucher n)),
  )

  source_channel-Keeps :
      (denom channel : Bytes) → Keeps p q.ibc_cro_denom (source_channel p denom channel)
  unfolding source_channel Keeps IsEven get_source_channel_id
  source_channel-Keeps denom channel s a e = ground arith

  get_params-Keeps : Keeps p q.ibc_cro_denom (get_params p)
  unfolding get_params Keeps IsEven
  get_params-Keeps s a e = ground arith

  ibc_send_transfer-Keeps :
      (now : ℕ) (acc to : Bytes) (c : Coin) (channel : Bytes)
      → Keeps p q.ibc_cro_denom (ibc_send_transfer p now acc to c channel)
  unfolding ibc_send_transfer created destroyed
  ibc_send_transfer-Keeps now acc to c channel =
      let send = λ (x : Bytes) (r : Params). call p (transfer (transfer_msg p now acc to c x r)) in
      Keeps-bind p q.ibc_cro_denom (source_channel p c.denom channel) (λ x. get_params p >>= send x)
        (source_channel-Keeps c.denom channel)
        (λ x.
          Keeps-bind p q.ibc_cro_denom (get_params p) (send x) get_params-Keeps
            (λ r. Keeps-call p q.ibc_cro_denom (transfer (transfer_msg p now acc to c x r)) refl))

  return_cro-Keeps :
      (now : ℕ) (acc to : Bytes) (c : Coin) → Keeps p q.ibc_cro_denom (return_cro p now q acc to c)
  unfolding return_cro
  return_cro-Keeps now acc to c =
      let release = release_vouchers p q acc c.amount in
      Keeps-if p q.ibc_cro_denom (c.amount - c.amount % ten_pow_ten == 0) (pure tt)
        (release >>= λ v. ibc_send_transfer p now acc to v []) (Keeps-pure p q.ibc_cro_denom tt)
        (Keeps-bind p q.ibc_cro_denom release (λ v. ibc_send_transfer p now acc to v [])
          (release_vouchers-Keeps acc c.amount) (λ v. ibc_send_transfer-Keeps now acc to v []))

  transfer_supported-Keeps :
      (now : ℕ) (acc to channel : Bytes) (c : Coin)
      → Keeps p q.ibc_cro_denom (transfer_supported p now acc to channel c)
  unfolding transfer_supported
  transfer_supported-Keeps now acc to channel c =
      let find = gets (get_contract_by_denom p c.denom) in
      let send = transfer_if_mapped p now acc to channel c in
      Keeps-raise_if p q.ibc_cro_denom
        (not (is_valid_ibc_denom c.denom) && not (is_valid_cronos_denom c.denom)) not_supported
        (find >>= send)
        (λ _.
          Keeps-bind p q.ibc_cro_denom find send
            (Keeps-gets p q.ibc_cro_denom (get_contract_by_denom p c.denom))
            (λ found.
              Keeps-raise_if p q.ibc_cro_denom (not (is_mapped p found)) not_supported
                (ibc_send_transfer p now acc to c channel)
                (λ _. ibc_send_transfer-Keeps now acc to c channel)))

  transfer_coin-Keeps :
      (now : ℕ) (acc to channel : Bytes) (c : Coin)
      → Keeps p q.ibc_cro_denom (transfer_coin p now q acc to channel c)
  unfolding transfer_coin
  transfer_coin-Keeps now acc to channel c =
      Keeps-if p q.ibc_cro_denom (c.denom == p.evm_denom) (return_cro p now q acc to c)
        (transfer_supported p now acc to channel c) (return_cro-Keeps now acc to c)
        (transfer_supported-Keeps now acc to channel c)

  pub transfer_coins-Keeps :
      (now : ℕ) (acc to channel : Bytes) (cs : List Coin)
      → Keeps p q.ibc_cro_denom (transfer_coins p now q acc to channel cs)
  unfolding transfer_coins
  transfer_coins-Keeps now acc to channel [] = Keeps-pure p q.ibc_cro_denom tt
  transfer_coins-Keeps now acc to channel (c ∷ cs) =
      Keeps-bind p q.ibc_cro_denom (transfer_coin p now q acc to channel c)
        (λ _. transfer_coins p now q acc to channel cs) (transfer_coin-Keeps now acc to channel c)
        (λ _. transfer_coins-Keeps now acc to channel cs)

  module _ (s : State p) (params : get_params p s ≡ (ok q, s)) (from : Bytes) (cs : List Coin) where
    convert_run :
        (acc : Bytes)
        → p.acc_from_bech32 from ≡ ok acc
        → convert_vouchers_to_evm_coins p from cs s ≡ convert_vouchers p q acc cs s
    unfolding convert_vouchers_to_evm_coins
    convert_run acc e = ground (arith, e, params)

    transfer_run :
        (now : ℕ) (to channel acc : Bytes)
        → (ibc_transfer_coins p now from to cs channel s).0 ≡ ok tt
        → p.acc_from_bech32 from ≡ ok acc
        → ibc_transfer_coins p now from to cs channel s ≡ transfer_coins p now q acc to channel cs s
    unfolding ibc_transfer_coins
    transfer_run now to channel acc done e = ground (arith, e, params)

    bad_sender :
        (x : String)
        → p.acc_from_bech32 from ≡ err x
        → (convert_vouchers_to_evm_coins p from cs s).0 ≢ ok tt
    unfolding convert_vouchers_to_evm_coins
    bad_sender x y d = ground arith

    bad_source :
        (now : ℕ) (to channel : Bytes) (x : String)
        → p.acc_from_bech32 from ≡ err x
        → (ibc_transfer_coins p now from to cs channel s).0 ≢ ok tt
    unfolding ibc_transfer_coins
    bad_source now to channel x y d = ground arith

    -- A conversion of vouchers that succeeds creates and destroys coins of the EVM and vouchers of
    -- CRO at the rate of 10^10 to one, if the EVM's coin is neither the voucher of CRO nor of a
    -- denomination that the module converts.
    pub convert_vouchers_to_evm_coins-IsEven :
        is_valid_coin_denom p.evm_denom ≡ false
        → (convert_vouchers_to_evm_coins p from cs s).0 ≡ ok tt
        → IsEven p q.ibc_cro_denom s (convert_vouchers_to_evm_coins p from cs s).1
    unfolding Keeps
    convert_vouchers_to_evm_coins-IsEven unlisted done =
        elim (Result-cases (p.acc_from_bech32 from)) [
          | inl (acc, y) ↦
              rw (convert_run acc y)
                (convert_vouchers-Keeps acc cs unlisted s tt (rw (convert_run acc y) at done))
          | inr (x, y) ↦ absurd (bad_sender x y done)
        ]

    -- A transfer of coins over IBC that succeeds creates and destroys coins of the EVM and vouchers of
    -- CRO at the rate of 10^10 to one, if the EVM's coin is not the voucher of CRO.
    pub ibc_transfer_coins-IsEven :
        (now : ℕ) (to channel : Bytes)
        → (ibc_transfer_coins p now from to cs channel s).0 ≡ ok tt
        → IsEven p q.ibc_cro_denom s (ibc_transfer_coins p now from to cs channel s).1
    unfolding Keeps
    ibc_transfer_coins-IsEven now to channel done = elim (Result-cases (p.acc_from_bech32 from)) [
      | inl (acc, y) ↦
          let run = transfer_run now to channel acc done y in
          rw run (transfer_coins-Keeps now acc to channel cs s tt (rw run at done))
      | inr (x, y) ↦ absurd (bad_source now to channel x y done)
    ]
