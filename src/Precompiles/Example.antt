-- ===== src/Precompiles/Example.antt =====
-- A bank of any denominations, and a platform on which the hypotheses of the theorems about the
-- precompile hold. Only the examples use it.
use cosmos_swap.Prelude.{
  ℕ, ◌+◌, ◌-◌, ◌≡◌, inl, inr, ap, Bool, true, ◌&&◌, Option, none, some, [], ◌∷◌, String, Bytes,
  bytes_eq, bytes_beq, bytes_beq_iff, nat_eq, ◌==◌, leb, if◌then◌else◌, Result, ok, err, arith,
  Bool-cases,
}
use cosmos_swap.Prelude.Int.{ℤ, pos, pos_part}
use cosmos_swap.Sdk.{Bank, Coin, Coins}
use cosmos_swap.Precompiles.Bank.{Platform, Method, mint, burn, balance_of, transfer, module_name}
use cosmos_swap.Precompiles.Bank.Laws.{BankLaws, part, MovesCoin}

abbrev pub Accounts : Type 0
Accounts = Bytes → Bytes → ℕ

abbrev module_account : Bytes
module_account = 7 ∷ []

abbrev amount : Coins → Bytes → ℕ
amount [] d = 0
amount (c ∷ cs) d = (if c.denom == d then pos_part c.amount else 0) + amount cs d

abbrev at : Bytes → Coins → Bytes → Bytes → ℕ
at account cs a d = if account == a then amount cs d else 0

abbrev holds : Accounts → Bytes → Coins → Coins → Bool
holds l a cs [] = true
holds l a cs (c ∷ rest) = leb (amount cs c.denom) (l a c.denom) && holds l a cs rest

abbrev paid : Accounts → Bytes → Bytes → Coins → Accounts
paid l from to cs a d = l a d + at to cs a d - at from cs a d

abbrev pay : Accounts → Bytes → Bytes → Coins → Result String Accounts
pay l from to cs = if holds l from cs cs then ok (paid l from to cs) else err "insufficient funds"

abbrev bank : Bank
bank = record {
  Ledger = Accounts;
  balance = λ l a d. l a d;
  amount_of = amount;
  is_all_positive = λ cs. true;
  is_valid = λ cs. true;
  module_address = λ m. module_account;
  blocked = λ a. bytes_beq a module_account;
  send_coins = pay;
  send_to_module = λ l a m cs. pay l a module_account cs;
  send_from_module = λ l m a cs. pay l module_account a cs;
  mint = λ l m cs. ok (λ a d. l a d + at module_account cs a d);
  burn = λ l m cs.
      if holds l module_account cs cs
      then ok (λ a d. l a d - at module_account cs a d)
      else err "insufficient funds";
}

abbrev value : Accounts → Result String Accounts → Accounts
value l (ok k) = k
value l (err e) = l

pay-moves :
    (l k : Accounts) (c : Coin) (from to : Bytes)
    → pay l from to (c ∷ []) ≡ ok k
    → MovesCoin bank l k c from to
pay-moves l k c from to e a d = elim (Bool-cases (holds l from (c ∷ []) (c ∷ []))) [
  | inr n ↦ absurd (ground (arith, e, n))
  | inl y ↦
      let same : paid l from to (c ∷ []) a d ≡ k a d = ap (λ r. value l r a d) (rw y at e) in
      ground (arith, y, same, bytes_beq_iff from a, bytes_beq_iff c.denom d)
]

burn-removes :
    (l k : Accounts) (c : Coin)
    → bank.burn l module_name (c ∷ []) ≡ ok k
    → (a d : Bytes) → k a d + part c module_account a d ≡ l a d
burn-removes l k c e a d = elim (Bool-cases (holds l module_account (c ∷ []) (c ∷ []))) [
  | inr n ↦ absurd (ground (arith, e, n))
  | inl y ↦
      let same : l a d - at module_account (c ∷ []) a d ≡ k a d =
        ap (λ r. value l r a d) (rw y at e) in
      ground (arith, y, same, bytes_beq_iff module_account a, bytes_beq_iff c.denom d)
]

mint-adds :
    (l k : Accounts) (c : Coin)
    → bank.mint l module_name (c ∷ []) ≡ ok k
    → (a d : Bytes) → k a d ≡ l a d + part c module_account a d
mint-adds l k c e a d =
    let same : l a d + at module_account (c ∷ []) a d ≡ k a d = ap (λ r. value l r a d) e in
    ground (arith, same)

pub laws : BankLaws bank
laws = record {
  mint_adds = mint-adds;
  burn_removes = burn-removes;
  send_from_module_moves = λ l k c to e. pay-moves l k c module_account to e;
  send_to_module_moves = λ l k c from e. pay-moves l k c from module_account e;
  send_coins_moves = pay-moves;
}

-- A method is known by its first byte; the arguments are bytes of their own.
abbrev method : Bytes → Option Method
method [] = none
method (b ∷ bs) =
    if b == 0
    then some mint
    else if b == 1
    then some burn
    else if b == 2
    then some balance_of
    else if b == 3
    then some transfer
    else none

abbrev account_and_amount : Bytes → Option (Bytes × ℤ)
account_and_amount (a ∷ n ∷ []) = some (a ∷ [], pos n)
account_and_amount _ = none

abbrev two_accounts : Bytes → Option (Bytes × Bytes)
two_accounts (a ∷ b ∷ []) = some (a ∷ [], b ∷ [])
two_accounts _ = none

abbrev accounts_and_amount : Bytes → Option (Bytes × Bytes × ℤ)
accounts_and_amount (a ∷ b ∷ n ∷ []) = some (a ∷ [], b ∷ [], pos n)
accounts_and_amount _ = none

abbrev pub platform : Platform
platform = record {
  bank = bank;
  is_send_enabled = λ l c. ok tt;
  hex = λ a. a;
  acc_string = λ a. a;
  acc_from_bech32 = λ a. ok a;
  method_by_id = method;
  unpack_mint = account_and_amount;
  unpack_balance_of = two_accounts;
  unpack_transfer = accounts_and_amount;
  pack_true = 1 ∷ [];
  pack_balance = λ n. n ∷ [];
  write_cost_per_byte = 30;
}
