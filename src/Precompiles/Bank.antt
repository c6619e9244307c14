-- ===== src/Precompiles/Bank.antt =====
-- x/cronos/keeper/precompiles/bank.go: a contract mints, burns and moves coins of its own denomination.
use cosmos_swap.Prelude.{
  ℕ, zero, suc, ◌+◌, ◌*◌, ◌%◌, Bool, true, false, Option, none, some, List, [], ◌∷◌, ◌++◌, String,
  Bytes, codes, nat_eq, ◌==◌, length, leb, ltb, u64_mod, if◌then◌else◌, Result, ok, err, check,
}
use cosmos_swap.Prelude.Int.{ℤ, pos, negsuc}
use cosmos_swap.Sdk.{Bank, Coin}
use cosmos_swap.Precompiles.Input.{method_id}
pub mod Laws
pub mod Own

-- `bankABI.MethodById`, by the name of the method
pub data Method : Type 0 where
  mint burn balance_of transfer other : Method

-- The bank, the codes of addresses, and the ABI. An address is its bytes, whatever Go's type.
pub record Platform : Type 1 where
  pub bank : Bank
  pub is_send_enabled : bank.Ledger → Coin → Result String (Unit {0})
  pub hex : Bytes → Bytes  -- `common.Address.Hex`
  pub acc_string : Bytes → Bytes
  pub acc_from_bech32 : Bytes → Result String Bytes
  pub method_by_id : Bytes → Option Method
  pub unpack_mint : Bytes → Option (Bytes × ℤ)  -- of `mint` and `burn`
  pub unpack_balance_of : Bytes → Option (Bytes × Bytes)
  pub unpack_transfer : Bytes → Option (Bytes × Bytes × ℤ)
  pub pack_true : Bytes
  pub pack_balance : ℕ → Bytes
  pub write_cost_per_byte : ℕ

-- `types.ModuleName` of the EVM module
abbrev pub module_name : String
module_name = "evm"

pub data Error : Type 0 where
  panic unknown_method not_readonly bad_arguments invalid_amount unauthorized : Error
  external : String → Error

module _ (p : Platform) where
  abbrev pub Ledger : Type 0
  Ledger = p.bank.Ledger

  unfoldable pub evm_denom : Bytes → Bytes
  evm_denom token = codes "evm/" ++ p.hex token

  abbrev pub method_gas : Method → ℕ
  method_gas mint = 200_000
  method_gas burn = 200_000
  method_gas balance_of = 10_000
  method_gas transfer = 150_000
  method_gas other = 0

  abbrev pub gas_of : ℕ → Option Method → ℕ
  gas_of base none = base
  gas_of base (some m) = (method_gas m + base) % u64_mod

  abbrev pub gas_of_input : ℕ → Option (Bytes × Bytes) → Option ℕ
  gas_of_input base none = none
  gas_of_input base (some (id, rest)) = some (gas_of base (p.method_by_id id))

  -- `RequiredGas`; none is the panic of an input shorter than four bytes.
  unfoldable pub required_gas : Bytes → Option ℕ
  required_gas input =
      gas_of_input (length input * p.write_cost_per_byte % u64_mod) (method_id input)

  abbrev pub and_then : {A B : Type 0} → Result String A → (A → Result Error B) → Result Error B
  and_then (ok a) k = k a
  and_then (err e) k = err (external e)

  abbrev pub is_positive : ℤ → Bool
  is_positive (pos zero) = false
  is_positive (pos (suc n)) = true
  is_positive (negsuc n) = false

  unfoldable pub check_blocked_addr : {A : Type 0} → Bytes → Result Error A → Result Error A
  check_blocked_addr addr rest =
      and_then (p.acc_from_bech32 (p.acc_string addr))
        λ to. if p.bank.blocked to then err unauthorized else rest

  -- The native action of `mint` and `burn`.
  unfoldable pub mint_coins : Ledger → Bytes → Coin → Result Error Ledger
  mint_coins l addr amt =
      and_then (p.bank.mint l module_name (amt ∷ []))
        λ k. and_then (p.bank.send_from_module k module_name addr (amt ∷ [])) ok

  unfoldable pub burn_coins : Ledger → Bytes → Coin → Result Error Ledger
  burn_coins l addr amt =
      and_then (p.bank.send_to_module l addr module_name (amt ∷ []))
        λ k. and_then (p.bank.burn k module_name (amt ∷ [])) ok

  abbrev pub mint_or_burn : Bool → Ledger → Bytes → Coin → Result Error Ledger
  mint_or_burn is_mint l addr amt = if is_mint then mint_coins l addr amt else burn_coins l addr amt

  -- The result with the packed `true`.
  abbrev pub done : Result Error Ledger → Result Error (Bytes × Ledger)
  done (ok l) = ok (p.pack_true, l)
  done (err e) = err e

  abbrev pub enabled : Ledger → Coin → Result Error Ledger → Result Error Ledger
  enabled l amt rest = and_then (p.is_send_enabled l amt) λ _. rest

  -- `sdk.NewCoin` does not panic here: the denomination is one, and the amount is positive.
  abbrev pub own_coin : Bytes → ℤ → Coin
  own_coin caller amount = record { denom = evm_denom caller; amount = amount }

  unfoldable pub run_mint :
      Bool → Ledger → Bytes → Option (Bytes × ℤ) → Result Error (Bytes × Ledger)
  run_mint is_mint l caller none = err bad_arguments
  run_mint is_mint l caller (some (recipient, amount)) =
      if is_positive amount
      then check_blocked_addr recipient (
          done (
            enabled l (own_coin caller amount)
              (mint_or_burn is_mint l recipient (own_coin caller amount))))
      else err invalid_amount

  unfoldable pub run_balance_of : Ledger → Option (Bytes × Bytes) → Result Error (Bytes × Ledger)
  run_balance_of l none = err bad_arguments
  run_balance_of l (some (token, addr)) =
      ok (p.pack_balance (p.bank.balance l addr (evm_denom token)), l)

  unfoldable pub run_transfer :
      Ledger → Bytes → Option (Bytes × Bytes × ℤ) → Result Error (Bytes × Ledger)
  run_transfer l caller none = err bad_arguments
  run_transfer l caller (some (sender, recipient, amount)) =
      if is_positive amount
      then check_blocked_addr recipient (
          done (
            enabled l (own_coin caller amount)
              (and_then (p.bank.send_coins l sender recipient (own_coin caller amount ∷ [])) ok)))
      else err invalid_amount

  abbrev pub writes : Bool → Result Error (Bytes × Ledger) → Result Error (Bytes × Ledger)
  writes readonly rest = if readonly then err not_readonly else rest

  abbrev pub run_method :
      Bool → Ledger → Bytes → Bytes → Option Method → Result Error (Bytes × Ledger)
  run_method readonly l caller args none = err unknown_method
  run_method readonly l caller args (some mint) =
      writes readonly (run_mint true l caller (p.unpack_mint args))
  run_method readonly l caller args (some burn) =
      writes readonly (run_mint false l caller (p.unpack_mint args))
  run_method readonly l caller args (some balance_of) = run_balance_of l (p.unpack_balance_of args)
  run_method readonly l caller args (some transfer) =
      writes readonly (run_transfer l caller (p.unpack_transfer args))
  run_method readonly l caller args (some other) = err unknown_method

  abbrev pub run_input :
      Bool → Ledger → Bytes → Option (Bytes × Bytes) → Result Error (Bytes × Ledger)
  run_input readonly l caller none = err panic
  run_input readonly l caller (some (id, args)) =
      run_method readonly l caller args (p.method_by_id id)

  -- `Run`
  unfoldable pub run : Bool → Ledger → Bytes → Bytes → Result Error (Bytes × Ledger)
  run readonly l caller input = run_input readonly l caller (method_id input)
