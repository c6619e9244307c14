-- ===== src/Htlc/Solvency.antt =====
-- The module's account always covers what the open contracts owe.
use cosmos_swap.Prelude.{
  ℕ, ◌+◌, ◌≤◌, ◌<◌, ◌≡◌, ◌≢◌, Bool, true, false, ◌&&◌, ◌||◌, Option, none, some, Bytes,
  if◌then◌else◌,
}
use cosmos_swap.Htlc.{Htlc, Platform, State, module_name}
use cosmos_swap.Htlc.View.{stored, next_id}
use cosmos_swap.Htlc.Sums.{total}
pub mod Settle
pub mod Create

module _ (p : Platform) where
  -- What a stored contract still owes in a denomination.
  abbrev pub owed : Option Htlc → Bytes → ℕ
  owed none d = 0
  owed (some h) d = if h.claimed || h.refunded then 0 else p.bank.amount_of h.amount d

  -- The invariant of a state whose next contract gets the id `n`.
  pub record IsSound (s : State p) (n : ℕ) : Type 0 where
    pub counter : next_id p s ≡ some n
    pub keyed : (i : ℕ) (h : Htlc) → stored p s i ≡ some h → h.id ≡ i
    pub fresh : (i : ℕ) → n ≤ i → stored p s i ≡ none
    pub valid : (i : ℕ) (h : Htlc) → stored p s i ≡ some h → p.bank.is_valid h.amount ≡ true
    pub settled_once :
        (i : ℕ) (h : Htlc) → stored p s i ≡ some h → (h.claimed && h.refunded) ≡ false
    pub funded :
        (d : Bytes)
        → total (λ i. owed (stored p s i) d) n
          ≤ p.bank.balance s.ledger (p.bank.module_address module_name) d
