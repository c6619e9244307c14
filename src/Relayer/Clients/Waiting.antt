-- ===== src/Relayer/Clients/Waiting.antt =====
-- `WaitForTransaction` of relayer/pkg/ethereum_client/client.go: a poll at each tick of two seconds.
use cosmos_swap.Prelude.{
  ℕ, zero, suc, ◌+◌, ◌*◌, ◌/◌, ◌≤◌, ◌≡◌, ◌≢◌, ◌⊎◌, refl, inl, inr, Bool, true, Option, none, some,
  String, if◌then◌else◌, arith, Bool-cases,
}

-- What the node answers to a request for a receipt.
pub data Poll (Receipt : Type 0) : Type 0 where
  found : Receipt → Poll Receipt
  not_found : Poll Receipt
  failed : String → Poll Receipt

pub data Outcome (Receipt : Type 0) : Type 0 where
  receipt : Receipt → Outcome Receipt
  timed_out : Outcome Receipt
  failure : String → Outcome Receipt

-- Nanoseconds from one tick to the next.
abbrev pub period : ℕ
period = 2_000_000_000

module _ {Receipt : Type 0} (poll : ℕ → Poll Receipt) (is_done : ℕ → Bool) where
  -- The answer to one poll, given what the loop does next.
  abbrev pub after_poll : Poll Receipt → Option (Outcome Receipt) → Option (Outcome Receipt)
  after_poll (found r) next = some (receipt r)
  after_poll not_found next = next
  after_poll (failed e) next = some (failure e)

  -- The loop from the tick `k` on: at a tick the `select` may take the context's end instead. The fuel
  -- bounds the ticks.
  unfoldable pub wait : ℕ → ℕ → Option (Outcome Receipt)
  wait zero k = none
  wait (suc fuel) k =
      let next = wait fuel (suc k) in if is_done k then some timed_out else after_poll (poll k) next

  -- `WaitForTransaction`, of a timeout that is not negative
  unfoldable pub wait_for_transaction : ℕ → Option (Outcome Receipt)
  wait_for_transaction timeout = wait (suc (timeout / period)) 0

  -- A tick, at the latest the last one, at which the node or the context says what the outcome says.
  unfoldable pub IsFrom : ℕ → Outcome Receipt → Type 0
  IsFrom last (receipt r) = (k : ℕ) × (k ≤ last) × (poll k ≡ found r)
  IsFrom last timed_out = (k : ℕ) × (k ≤ last) × (is_done k ≡ true)
  IsFrom last (failure e) = (k : ℕ) × (k ≤ last) × (poll k ≡ failed e)

  poll-cases :
      (q : Poll Receipt)
      → ((r : Receipt) × (q ≡ found r)) ⊎ ((q ≡ not_found) ⊎ ((e : String) × (q ≡ failed e)))
  poll-cases (found r) = inl (r, refl)
  poll-cases not_found = inr (inl refl)
  poll-cases (failed e) = inr (inr (e, refl))

  abbrev Returns : ℕ → Option (Outcome Receipt) → Type 0
  Returns last w = (o : Outcome Receipt) × (w ≡ some o) × IsFrom last o

  -- One turn of the loop, given that the next one returns when it is needed.
  turn-Returns :
      (last k : ℕ) (next : Option (Outcome Receipt))
      → k ≤ last
      → (poll k ≡ not_found → Returns last next)
      → Returns last (if is_done k then some timed_out else after_poll (poll k) next)
  unfolding IsFrom
  turn-Returns last k next le more = elim (Bool-cases (is_done k)) [
    | inl y ↦ (timed_out, rw y refl, (k, le, y))
    | inr n ↦ elim (poll-cases (poll k)) [
      | inl (r, y) ↦ (receipt r, rw (n, y) refl, (k, le, y))
      | inr (inl y) ↦ rw (n, y) (more y)
      | inr (inr (e, y)) ↦ (failure e, rw (n, y) refl, (k, le, y))
    ]
  ]

  module _ (timeout : ℕ) (expired : (k : ℕ) → timeout ≤ suc k * period → poll k ≢ not_found) where
    wait-Returns :
        (fuel k : ℕ) → k + fuel ≡ timeout / period → Returns (timeout / period) (wait (suc fuel) k)
    unfolding wait
    wait-Returns zero k h =
        turn-Returns (timeout / period) k (wait zero (suc k)) (omega (arith, h))
          (λ y. absurd (expired k (omega (arith, h)) y))
    wait-Returns (suc fuel) k h =
        turn-Returns (timeout / period) k (wait (suc fuel) (suc k)) (omega (arith, h))
          (λ y. wait-Returns fuel (suc k) (omega (arith, h)))

    -- If a request for a receipt, made once the context has ended, does not find none, the loop ends, at the
    -- latest at the tick that follows the timeout, whenever the `select` sees the end of the context: with a
    -- receipt or an error that the node answered, or with a timeout that the context reported.
    pub wait_for_transaction-returns :
        (o : Outcome Receipt) × (wait_for_transaction timeout ≡ some o)
        × IsFrom (timeout / period) o
    unfolding wait_for_transaction
    wait_for_transaction-returns = wait-Returns (timeout / period) 0 (omega arith)
