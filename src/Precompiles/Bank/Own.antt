-- ===== src/Precompiles/Bank/Own.antt =====
-- A contract that calls the precompile changes balances of its own denomination only.
use cosmos_swap.Prelude.{
  ◌+◌, ◌≡◌, ◌≢◌, refl, inl, inr, Bool, true, false, Option, none, some, [], ◌∷◌, Bytes, bytes_eq,
  bytes_beq_iff, if◌then◌else◌, Result, ok, err, arith, Result-cases,
}
use cosmos_swap.Prelude.Int.{ℤ}
use cosmos_swap.Sdk.{Coin}
use cosmos_swap.Precompiles.Input.{method_id}
use cosmos_swap.Precompiles.Bank.{
  Platform, Error, Method, mint, burn, balance_of, transfer, other, Ledger, module_name, evm_denom,
  mint_coins, burn_coins, mint_or_burn, done, enabled, and_then, own_coin, is_positive,
  check_blocked_addr, run_mint, run_balance_of, run_transfer, run_method, run_input, run,
  unauthorized, invalid_amount, not_readonly,
}
use cosmos_swap.Precompiles.Bank.Laws.{BankLaws, part}

module _ (p : Platform) (laws : BankLaws p.bank) where
  pub mint_coins-adds :
      (l k : Ledger p) (addr : Bytes) (c : Coin)
      → mint_coins p l addr c ≡ ok k
      → (a d : Bytes) → p.bank.balance k a d ≡ p.bank.balance l a d + part c addr a d
  unfolding mint_coins
  mint_coins-adds l k addr c e a d = elim (Result-cases (p.bank.mint l module_name (c ∷ []))) [
    | inr (x, y) ↦ absurd (ground (arith, e, y))
    | inl (m, y) ↦ elim (Result-cases (p.bank.send_from_module m module_name addr (c ∷ []))) [
      | inr (x, z) ↦ absurd (ground (arith, e, y, z))
      | inl (n, z) ↦
          ground (
            arith,
            e,
            y,
            z,
            laws.mint_adds l m c y a d,
            laws.send_from_module_moves m n c addr z a d,
          )
    ]
  ]

  pub burn_coins-removes :
      (l k : Ledger p) (addr : Bytes) (c : Coin)
      → burn_coins p l addr c ≡ ok k
      → (a d : Bytes) → p.bank.balance k a d + part c addr a d ≡ p.bank.balance l a d
  unfolding burn_coins
  burn_coins-removes l k addr c e a d =
      elim (Result-cases (p.bank.send_to_module l addr module_name (c ∷ []))) [
        | inr (x, y) ↦ absurd (ground (arith, e, y))
        | inl (m, y) ↦ elim (Result-cases (p.bank.burn m module_name (c ∷ []))) [
          | inr (x, z) ↦ absurd (ground (arith, e, y, z))
          | inl (n, z) ↦ ground (
            arith,
            e,
            y,
            z,
            laws.send_to_module_moves l m c addr y a d,
            laws.burn_removes m n c z a d,
          )
        ]
      ]

  -- The balances of other denominations than the caller's are the same.
  unfoldable pub OwnOnly : Bytes → Ledger p → Ledger p → Type 0
  OwnOnly caller l k =
      (a d : Bytes) → d ≢ evm_denom p caller → p.bank.balance k a d ≡ p.bank.balance l a d

  -- A result, if it is no error, has a ledger with the property.
  abbrev OnOk : (Ledger p → Type 0) → Result Error (Bytes × Ledger p) → Type 0
  OnOk P (ok (out, k)) = P k
  OnOk P (err e) = Unit

  done-OnOk :
      (P : Ledger p → Type 0) (r : Result Error (Ledger p))
      → ((k : Ledger p) → r ≡ ok k → P k)
      → OnOk P (done p r)
  done-OnOk P (ok k) h = h k refl
  done-OnOk P (err e) h = tt

  if-OnOk :
      (P : Ledger p → Type 0) (c : Bool) (x : Error) (r : Result Error (Bytes × Ledger p))
      → OnOk P r
      → OnOk P (if c then r else err x) × OnOk P (if c then err x else r)
  if-OnOk P true x r h = (h, tt)
  if-OnOk P false x r h = (tt, h)

  check_blocked-OnOk :
      (P : Ledger p → Type 0) (addr : Bytes) (r : Result Error (Bytes × Ledger p))
      → OnOk P r
      → OnOk P (check_blocked_addr p addr r)
  unfolding check_blocked_addr
  check_blocked-OnOk P addr r h = elim (Result-cases (p.acc_from_bech32 (p.acc_string addr))) [
    | inl (to, y) ↦ rw y ((if-OnOk P (p.bank.blocked to) unauthorized r h).1)
    | inr (x, y) ↦ rw y tt
  ]

  enabled-ok :
      (l k : Ledger p) (c : Coin) (r : Result Error (Ledger p)) → enabled p l c r ≡ ok k → r ≡ ok k
  enabled-ok l k c r e = ground (arith, e)

  -- The checks of a payment: the amount, the recipient, the denomination.
  checked-OnOk :
      (P : Ledger p → Type 0) (l : Ledger p) (to caller : Bytes) (n : ℤ)
      (r : Result Error (Ledger p))
      → ((k : Ledger p) → r ≡ ok k → P k)
      → OnOk P (
          if is_positive p n
          then check_blocked_addr p to (done p (enabled p l (own_coin p caller n) r))
          else err invalid_amount)
  checked-OnOk P l to caller n r h =
      let e = enabled p l (own_coin p caller n) r in
      (if-OnOk P (is_positive p n) invalid_amount (check_blocked_addr p to (done p e)) (
        check_blocked-OnOk P to (done p e)
          (done-OnOk P e (λ k y. h k (enabled-ok l k (own_coin p caller n) r y))))).0

  -- A part of a coin of the caller's denomination is nothing in the others.
  other_part :
      (caller account a d : Bytes) (n : ℤ)
      → d ≢ evm_denom p caller
      → part (own_coin p caller n) account a d ≡ 0
  other_part caller account a d n h = ground (arith, h, bytes_beq_iff (evm_denom p caller) d)

  mint_or_burn-OwnOnly :
      (is_mint : Bool) (l k : Ledger p) (to caller : Bytes) (n : ℤ)
      → mint_or_burn p is_mint l to (own_coin p caller n) ≡ ok k
      → OwnOnly caller l k
  unfolding OwnOnly
  mint_or_burn-OwnOnly true l k to caller n e a d h =
      omega
        (arith, mint_coins-adds l k to (own_coin p caller n) e a d, other_part caller to a d n h)
  mint_or_burn-OwnOnly false l k to caller n e a d h =
      omega
        (arith, burn_coins-removes l k to (own_coin p caller n) e a d, other_part caller to a d n h)

  send-OwnOnly :
      (l k : Ledger p) (from to caller : Bytes) (n : ℤ)
      → and_then p (p.bank.send_coins l from to (own_coin p caller n ∷ [])) ok ≡ ok k
      → OwnOnly caller l k
  unfolding OwnOnly
  send-OwnOnly l k from to caller n e a d h =
      let c = own_coin p caller n in
      elim (Result-cases (p.bank.send_coins l from to (c ∷ []))) [
        | inr (x, y) ↦ absurd (ground (arith, e, y))
        | inl (m, y) ↦ ground (
          arith,
          e,
          y,
          laws.send_coins_moves l m c from to y a d,
          other_part caller from a d n h,
          other_part caller to a d n h,
        )
      ]

  run_mint-OwnOnly :
      (is_mint : Bool) (l : Ledger p) (caller : Bytes) (o : Option (Bytes × ℤ))
      → OnOk (OwnOnly caller l) (run_mint p is_mint l caller o)
  unfolding run_mint
  run_mint-OwnOnly is_mint l caller none = tt
  run_mint-OwnOnly is_mint l caller (some (to, n)) =
      checked-OnOk (OwnOnly caller l) l to caller n
        (mint_or_burn p is_mint l to (own_coin p caller n))
        (λ k. mint_or_burn-OwnOnly is_mint l k to caller n)

  run_transfer-OwnOnly :
      (l : Ledger p) (caller : Bytes) (o : Option (Bytes × Bytes × ℤ))
      → OnOk (OwnOnly caller l) (run_transfer p l caller o)
  unfolding run_transfer
  run_transfer-OwnOnly l caller none = tt
  run_transfer-OwnOnly l caller (some (from, to, n)) =
      checked-OnOk (OwnOnly caller l) l to caller n
        (and_then p (p.bank.send_coins l from to (own_coin p caller n ∷ [])) ok)
        (λ k. send-OwnOnly l k from to caller n)

  run_balance_of-OwnOnly :
      (l : Ledger p) (caller : Bytes) (o : Option (Bytes × Bytes))
      → OnOk (OwnOnly caller l) (run_balance_of p l o)
  unfolding run_balance_of OwnOnly
  run_balance_of-OwnOnly l caller none = tt
  run_balance_of-OwnOnly l caller (some (token, addr)) = λ a d h. refl

  run_method-OwnOnly :
      (readonly : Bool) (l : Ledger p) (caller args : Bytes) (m : Option Method)
      → OnOk (OwnOnly caller l) (run_method p readonly l caller args m)
  run_method-OwnOnly readonly l caller args none = tt
  run_method-OwnOnly readonly l caller args (some mint) =
      (if-OnOk (OwnOnly caller l) readonly not_readonly
        (run_mint p true l caller (p.unpack_mint args))
        (run_mint-OwnOnly true l caller (p.unpack_mint args))).1
  run_method-OwnOnly readonly l caller args (some burn) =
      (if-OnOk (OwnOnly caller l) readonly not_readonly
        (run_mint p false l caller (p.unpack_mint args))
        (run_mint-OwnOnly false l caller (p.unpack_mint args))).1
  run_method-OwnOnly readonly l caller args (some balance_of) =
      run_balance_of-OwnOnly l caller (p.unpack_balance_of args)
  run_method-OwnOnly readonly l caller args (some transfer) =
      (if-OnOk (OwnOnly caller l) readonly not_readonly
        (run_transfer p l caller (p.unpack_transfer args))
        (run_transfer-OwnOnly l caller (p.unpack_transfer args))).1
  run_method-OwnOnly readonly l caller args (some other) = tt

  run_input-OwnOnly :
      (readonly : Bool) (l : Ledger p) (caller : Bytes) (o : Option (Bytes × Bytes))
      → OnOk (OwnOnly caller l) (run_input p readonly l caller o)
  run_input-OwnOnly readonly l caller none = tt
  run_input-OwnOnly readonly l caller (some (id, args)) =
      run_method-OwnOnly readonly l caller args (p.method_by_id id)

  -- A call of the precompile that succeeds, of whatever method, changes no balance of another denomination
  -- than that of the calling contract.
  pub run-OwnOnly :
      (readonly : Bool) (l k : Ledger p) (caller input out : Bytes)
      → run p readonly l caller input ≡ ok (out, k)
      → OwnOnly caller l k
  unfolding run
  run-OwnOnly readonly l k caller input out e =
      let h = run_input-OwnOnly readonly l caller (method_id input) in rw e at h

  -- What a contract mints for an account and burns of it again leaves every balance as it was.
  pub mint_coins-burn_coins :
      (l k m : Ledger p) (addr : Bytes) (c : Coin)
      → mint_coins p l addr c ≡ ok k
      → burn_coins p k addr c ≡ ok m
      → (a d : Bytes) → p.bank.balance m a d ≡ p.bank.balance l a d
  mint_coins-burn_coins l k m addr c e f a d =
      omega (arith, mint_coins-adds l k addr c e a d, burn_coins-removes k m addr c f a d)
