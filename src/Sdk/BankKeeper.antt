-- ===== src/Sdk/BankKeeper.antt =====
-- The SDK's bank keeper and coins, as the keepers use them.
use cosmos_swap.Prelude.{
  ℕ, ◌+◌, ◌≤◌, ◌≡◌, Bool, true, false, List, String, Bytes, bytes_eq, ◌==◌, if◌then◌else◌, Result,
  ok,
}
use cosmos_swap.Prelude.Int.{ℤ}

-- `sdk.Coin`; a denomination is the bytes of Go's string.
pub record Coin : Type 0 where
  pub denom : Bytes
  pub amount : ℤ

abbrev pub Coins : Type 0
Coins = List Coin

-- Amounts and balances that a successful call has checked are natural numbers.
pub record Bank : Type 1 where
  pub Ledger : Type 0
  pub balance : Ledger → Bytes → Bytes → ℕ
  -- `Coins.AmountOf`
  pub amount_of : Coins → Bytes → ℕ
  -- `Coins.IsAllPositive` and `Coins.IsValid`
  pub is_all_positive : Coins → Bool
  pub is_valid : Coins → Bool
  -- the address of a module's account
  pub module_address : String → Bytes
  -- an address that the bank refuses to pay
  pub blocked : Bytes → Bool
  pub send_coins : Ledger → Bytes → Bytes → Coins → Result String Ledger
  -- `SendCoinsFromAccountToModule` and `SendCoinsFromModuleToAccount`
  pub send_to_module : Ledger → Bytes → String → Coins → Result String Ledger
  pub send_from_module : Ledger → String → Bytes → Coins → Result String Ledger
  pub mint : Ledger → String → Coins → Result String Ledger
  pub burn : Ledger → String → Coins → Result String Ledger

-- From `l` to `k` the coins `c` have moved from one account to another, and nothing else has.
abbrev pub Moves : (b : Bank) → b.Ledger → b.Ledger → Bytes → Bytes → Coins → Type 0
Moves b l k from to c =
    (a : Bytes) (d : Bytes)
    → b.balance k a d + (if from == a then b.amount_of c d else 0)
      ≡ b.balance l a d + (if to == a then b.amount_of c d else 0)

pub record BankLaws (b : Bank) : Type 0 where
  pub send_to_module_moves :
      (l : b.Ledger) (a : Bytes) (m : String) (c : Coins) (k : b.Ledger)
      → b.send_to_module l a m c ≡ ok k
      → Moves b l k a (b.module_address m) c
  pub send_to_module_valid :
      (l : b.Ledger) (a : Bytes) (m : String) (c : Coins) (k : b.Ledger)
      → b.send_to_module l a m c ≡ ok k
      → b.is_valid c ≡ true
  pub send_from_module_moves :
      (l : b.Ledger) (m : String) (a : Bytes) (c : Coins) (k : b.Ledger)
      → b.send_from_module l m a c ≡ ok k
      → Moves b l k (b.module_address m) a c
  -- a payment of valid coins that the module holds, to an address that is not blocked, succeeds
  pub send_from_module_total :
      (l : b.Ledger) (m : String) (a : Bytes) (c : Coins)
      → b.is_valid c ≡ true
      → b.blocked a ≡ false
      → ((d : Bytes) → b.amount_of c d ≤ b.balance l (b.module_address m) d)
      → (k : b.Ledger) × (b.send_from_module l m a c ≡ ok k)
