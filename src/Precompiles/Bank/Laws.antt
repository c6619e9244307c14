-- ===== src/Precompiles/Bank/Laws.antt =====
-- What the precompile relies on of the bank: a payment of one coin moves it, and a mint or burn changes
-- only the account of the module.
use cosmos_swap.Prelude.{ℕ, ◌+◌, ◌≡◌, ◌&&◌, [], ◌∷◌, Bytes, bytes_eq, ◌==◌, if◌then◌else◌, ok}
use cosmos_swap.Prelude.Int.{pos_part}
use cosmos_swap.Sdk.{Bank, Coin}
use cosmos_swap.Precompiles.Bank.{module_name}

-- The part of a coin that a change of one account makes at an account and a denomination.
abbrev pub part : Coin → Bytes → Bytes → Bytes → ℕ
part c account a d = if account == a && c.denom == d then pos_part c.amount else 0

abbrev pub MovesCoin : (b : Bank) → b.Ledger → b.Ledger → Coin → Bytes → Bytes → Type 0
MovesCoin b l k c from to =
    (a d : Bytes) → b.balance k a d + part c from a d ≡ b.balance l a d + part c to a d

pub record BankLaws (b : Bank) : Type 0 where
  pub mint_adds :
      (l k : b.Ledger) (c : Coin)
      → b.mint l module_name (c ∷ []) ≡ ok k
      → (a d : Bytes)
      → b.balance k a d ≡ b.balance l a d + part c (b.module_address module_name) a d
  pub burn_removes :
      (l k : b.Ledger) (c : Coin)
      → b.burn l module_name (c ∷ []) ≡ ok k
      → (a d : Bytes)
      → b.balance k a d + part c (b.module_address module_name) a d ≡ b.balance l a d
  pub send_from_module_moves :
      (l k : b.Ledger) (c : Coin) (to : Bytes)
      → b.send_from_module l module_name to (c ∷ []) ≡ ok k
      → MovesCoin b l k c (b.module_address module_name) to
  pub send_to_module_moves :
      (l k : b.Ledger) (c : Coin) (from : Bytes)
      → b.send_to_module l from module_name (c ∷ []) ≡ ok k
      → MovesCoin b l k c from (b.module_address module_name)
  pub send_coins_moves :
      (l k : b.Ledger) (c : Coin) (from to : Bytes)
      → b.send_coins l from to (c ∷ []) ≡ ok k
      → MovesCoin b l k c from to
