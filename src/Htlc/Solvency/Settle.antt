-- ===== src/Htlc/Solvency/Settle.antt =====
-- Paying an open contract out and marking it keeps the invariant: the step that claim and refund share.
use cosmos_swap.Prelude.{
  ℕ, ◌+◌, ◌≤◌, ◌<◌, ◌≡◌, ◌≢◌, true, false, ◌&&◌, ◌||◌, some, List, Bytes, bytes_eq, nat_eq, ◌==◌,
  bytes_beq_iff, if◌then◌else◌, ok, arith, ◌⊎◌, inl, inr, ap, ◌∙◌,
}
use cosmos_swap.Htlc.{Htlc, Platform, PlatformLaws, State, Event, module_name, set_htlc}
use cosmos_swap.Htlc.View.{stored, next_id, stored-set_htlc, next_id-set_htlc}
use cosmos_swap.Htlc.Sums.{total, total_change}
use cosmos_swap.Htlc.Solvency.{owed, IsSound}

pub lt_or_le : (a b : ℕ) → (a < b) ⊎ (b ≤ a)
lt_or_le a b = omega arith

module _ (p : Platform) (laws : PlatformLaws p) (s : State p) (n id : ℕ) (h h' : Htlc)
    (k : p.bank.Ledger) (ev : List Event) where
  -- The state after the contract is replaced by `h'` and the ledger by `k`.
  abbrev pub after_settle : State p
  after_settle = record (set_htlc p h' s).1 { ledger = k; events = ev }

  pub stored-after_settle :
      (j : ℕ) → stored p after_settle j ≡ (if h'.id == j then some h' else stored p s j)
  unfolding stored
  stored-after_settle j = unfold stored in stored-set_htlc p laws s h' j

  next_id-after_settle : next_id p after_settle ≡ next_id p s
  unfolding next_id
  next_id-after_settle = next_id-set_htlc p laws s h'

  module _ (sound : IsSound p s n) (found : stored p s id ≡ some h) (same_id : h'.id ≡ h.id) where
    id-lt : id < n
    id-lt = elim (lt_or_le id n) [ inl l ↦ l | inr g ↦ cc (sound.fresh id g) ]

    stored_self : stored p after_settle id ≡ some h'
    stored_self = ground (arith, stored-after_settle id, sound.keyed id h)

    stored_other : (j : ℕ) → j ≢ id → stored p after_settle j ≡ stored p s j
    stored_other j ne = ground (arith, stored-after_settle j, sound.keyed id h)

    -- What the contracts owe falls by what the settled one owed.
    owed_change :
        (d : Bytes)
        → total (λ i. owed p (stored p after_settle i) d) n + owed p (some h) d
          ≡ total (λ i. owed p (stored p s i) d) n + owed p (some h') d
    owed_change d =
        rw (ap (λ o. owed p o d) found, ap (λ o. owed p o d) stored_self) at
          (total_change (λ i. owed p (stored p s i) d) (λ i. owed p (stored p after_settle i) d) id
            n id-lt (λ j ne. ap (λ o. owed p o d) (stored_other j ne)))

    pub settle-IsSound :
        (a : Bytes)
        → h.claimed ≡ false
        → h.refunded ≡ false
        → h'.amount ≡ h.amount
        → (h'.claimed || h'.refunded) ≡ true
        → (h'.claimed && h'.refunded) ≡ false
        → p.bank.send_from_module s.ledger module_name a h.amount ≡ ok k
        → IsSound p after_settle n
    settle-IsSound a c r same settled once paid = record {
      counter = next_id-after_settle ∙ sound.counter;
      keyed = λ i g e. ground (arith, stored-after_settle i, sound.keyed i g);
      fresh = λ i l. ground (arith, stored_other i, sound.fresh i, id-lt);
      valid = λ i g e. ground (arith, stored-after_settle i, sound.valid i g, sound.valid id h);
      settled_once = λ i g e. ground (arith, stored-after_settle i, sound.settled_once i g);
      funded = λ d. ground (
        arith,
        owed_change d,
        sound.funded d,
        laws.bank_laws.send_from_module_moves s.ledger module_name a h.amount k paid
            (p.bank.module_address module_name) d,
        bytes_beq_iff (p.bank.module_address module_name) (p.bank.module_address module_name),
      );
    }
