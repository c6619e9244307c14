-- ===== src/Htlc/Solvency/Create.antt =====
-- Storing a new contract that its sender has paid for keeps the invariant.
use cosmos_swap.Prelude.{
  ℕ, suc, ◌+◌, ◌<◌, ◌≡◌, ◌≢◌, ap, ◌∙◌, false, some, List, Bytes, bytes_eq, nat_eq, ◌==◌,
  if◌then◌else◌, bytes_beq_iff, u64_mod, ok, arith,
}
use cosmos_swap.Htlc.{
  Htlc, Platform, PlatformLaws, State, Event, module_name, set_htlc, increment_next_htlc_id,
}
use cosmos_swap.Htlc.View.{
  stored, next_id, stored-set_htlc, next_id-set_htlc, stored-increment, next_id-increment,
}
use cosmos_swap.Htlc.Sums.{total, total_ext}
use cosmos_swap.Htlc.Solvency.{owed, IsSound}

module _ (p : Platform) (laws : PlatformLaws p) (s : State p) (n : ℕ) (h : Htlc) (k : p.bank.Ledger)
    (ev : List Event) where
  -- The state after `h` is stored, the counter is incremented and the ledger is replaced by `k`.
  abbrev pub after_create : State p
  after_create = record (increment_next_htlc_id p (set_htlc p h (record s { ledger = k })).1).1 {
    ledger = k;
    events = ev;
  }

  module _ (sound : IsSound p s n) (id_is : h.id ≡ n) where
    counter_set : next_id p (set_htlc p h (record s { ledger = k })).1 ≡ some n
    unfolding next_id
    counter_set =
        unfold next_id in next_id-set_htlc p laws (record s { ledger = k }) h ∙ sound.counter

    pub stored-after_create :
        (j : ℕ) → stored p after_create j ≡ (if n == j then some h else stored p s j)
    unfolding stored
    stored-after_create j = ground (
      arith,
      stored-increment p laws (set_htlc p h (record s { ledger = k })).1 n j counter_set,
      stored-set_htlc p laws (record s { ledger = k }) h j,
    )

    counter_after : n + 1 < u64_mod → next_id p after_create ≡ some (n + 1)
    unfolding next_id
    counter_after small =
        ground
          (arith, next_id-increment p laws (set_htlc p h (record s { ledger = k })).1 n counter_set)

    owed_before :
        (d : Bytes)
        → total (λ i. owed p (stored p after_create i) d) n ≡ total (λ i. owed p (stored p s i) d) n
    owed_before d =
        total_ext (λ i. owed p (stored p s i) d) (λ i. owed p (stored p after_create i) d) n
          (λ j l. ground (arith, stored-after_create j))

    owed_new : (d : Bytes) → owed p (stored p after_create n) d ≡ owed p (some h) d
    owed_new d = ap (λ o. owed p o d) {y = some h} (ground (arith, stored-after_create n))

    pub create-IsSound :
        (a : Bytes)
        → a ≢ p.bank.module_address module_name
        → n + 1 < u64_mod
        → h.claimed ≡ false
        → h.refunded ≡ false
        → p.bank.send_to_module s.ledger a module_name h.amount ≡ ok k
        → IsSound p after_create (suc n)
    create-IsSound a other small c r paid = record {
      counter = ground (arith, counter_after small);
      keyed = λ i g e. ground (arith, stored-after_create i, sound.keyed i g);
      fresh = λ i l. ground (arith, stored-after_create i, sound.fresh i);
      valid = λ i g e. ground (
        arith,
        stored-after_create i,
        sound.valid i g,
        laws.bank_laws.send_to_module_valid s.ledger a module_name h.amount k paid,
      );
      settled_once = λ i g e. ground (arith, stored-after_create i, sound.settled_once i g);
      funded = λ d. ground (
        arith,
        owed_before d,
        owed_new d,
        sound.funded d,
        laws.bank_laws.send_to_module_moves s.ledger a module_name h.amount k paid
            (p.bank.module_address module_name) d,
        bytes_beq_iff a (p.bank.module_address module_name),
        bytes_beq_iff (p.bank.module_address module_name) (p.bank.module_address module_name),
      );
    }
