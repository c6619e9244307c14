-- ===== src/Sdk/Example/Ledger.antt =====
-- A bank that knows one denomination; the address `blocked_address` takes no payments.
use cosmos_swap.Prelude.{
  Bool-cases, inl, inr, sym, ap, ◌≤◌, ℕ, ◌+◌, ◌-◌, ◌≡◌, Bool, true, not, ◌&&◌, [], ◌∷◌, String,
  Bytes, codes, bytes_eq, ◌==◌, leb, if◌then◌else◌, Result, ok, err, arith, bytes_beq,
  bytes_beq_iff,
}
use cosmos_swap.Prelude.Int.{pos_part}
use cosmos_swap.Sdk.BankKeeper.{Coins, Bank, BankLaws, Moves}

abbrev pub base_denom : Bytes
base_denom = codes "basecro"

abbrev pub blocked_address : Bytes
blocked_address = 9 ∷ []

-- The address of every module.
abbrev pub module_account : Bytes
module_account = 7 ∷ []

-- Amounts of a list of coins, all taken to be of the one denomination.
abbrev pub sum : Coins → ℕ
sum [] = 0
sum (c ∷ cs) = pos_part c.amount + sum cs

abbrev pub Accounts : Type 0
Accounts = Bytes → ℕ

abbrev pub amount : Coins → Bytes → ℕ
amount c d = if base_denom == d then sum c else 0

abbrev pub held : Accounts → Bytes → Bytes → ℕ
held l a d = if base_denom == d then l a else 0

abbrev pub all_base : Coins → Bool
all_base [] = true
all_base (c ∷ cs) = bytes_beq base_denom c.denom && all_base cs

-- `c` has moved from `a` to `b`.
abbrev pub paid : Accounts → Bytes → Bytes → Coins → Accounts
paid l a b c x = l x + (if bytes_beq b x then sum c else 0) - (if bytes_beq a x then sum c else 0)

abbrev pub pay : Accounts → Bytes → Bytes → Coins → Result String Accounts
pay l a b c =
    if all_base c && leb (sum c) (l a) then ok (paid l a b c) else err "insufficient funds"

abbrev pub pay_unblocked : Accounts → Bytes → Coins → Result String Accounts
pay_unblocked l b c =
    if bytes_beq b blocked_address then err "blocked" else pay l module_account b c

abbrev pub simple_bank : Bank
simple_bank = record {
  Ledger = Accounts;
  balance = held;
  amount_of = amount;
  is_all_positive = λ c. not (leb (sum c) 0);
  is_valid = all_base;
  module_address = λ m. module_account;
  blocked = λ a. bytes_beq a blocked_address;
  send_coins = pay;
  send_to_module = λ l a m c. pay l a module_account c;
  send_from_module = λ l m a c. pay_unblocked l a c;
  mint = λ l m c. ok (λ x. l x + (if bytes_beq module_account x then sum c else 0));
  burn = λ l m c.
      if leb (sum c) (l module_account)
      then ok (λ x. l x - (if bytes_beq module_account x then sum c else 0))
      else err "insufficient funds";
}

abbrev value : Result String Accounts → Accounts → Accounts
value (ok k) l = k
value (err e) l = l

pay_value :
    (l : Accounts) (a b : Bytes) (c : Coins) (k : Accounts)
    → pay l a b c ≡ ok k
    → (k ≡ paid l a b c) × (sum c ≤ l a)
pay_value l a b c k e = elim (Bool-cases (all_base c && leb (sum c) (l a))) [
  | inl y ↦ (sym (ap (λ r. value r l) (rw y at e)), ground arith)
  | inr n ↦ absurd (ground arith)
]

pay-Moves :
    (l : Accounts) (a b : Bytes) (c : Coins) (k : Accounts)
    → pay l a b c ≡ ok k
    → Moves simple_bank l k a b c
pay-Moves l a b c k e x d =
    rw (pay_value l a b c k e).0 (ground (arith, (pay_value l a b c k e).1, bytes_beq_iff a x))

pay_valid :
    (l : Accounts) (a b : Bytes) (c : Coins) (k : Accounts) → pay l a b c ≡ ok k → all_base c ≡ true
pay_valid l a b c k e = ground arith

unblocked_pays :
    (l : Accounts) (b : Bytes) (c : Coins) (k : Accounts)
    → pay_unblocked l b c ≡ ok k
    → pay l module_account b c ≡ ok k
unblocked_pays l b c k e = ground arith

pub simple_bank_laws : BankLaws simple_bank
simple_bank_laws = record {
  send_to_module_moves = λ l a m c k e. pay-Moves l a module_account c k e;
  send_to_module_valid = λ l a m c k e. pay_valid l a module_account c k e;
  send_from_module_moves =
      λ l m a c k e. pay-Moves l module_account a c k (unblocked_pays l a c k e);
  send_from_module_total = λ l m a c v free cover.
      elim (Bool-cases (all_base c && leb (sum c) (l module_account))) [
        | inl y ↦ (paid l module_account a c, ground arith)
        | inr n ↦ absurd (ground (arith, cover base_denom, bytes_beq_iff base_denom base_denom))
      ];
}
