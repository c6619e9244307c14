-- ===== src/Htlc/Tests.antt =====
-- Runs of the htlc module on concrete inputs, and the theorems applied there.
use cosmos_swap.Prelude.{
  ◌⊎◌, ℕ, ◌+◌, ◌≡◌, refl, true, some, List, [], ◌∷◌, Bytes, codes, bytes_beq, uint64, put_uint64,
  if◌then◌else◌, ok, err, arith,
}
use cosmos_swap.Prelude.Int.{pos}
use cosmos_swap.Prelude.Map.{lookup, insert}
use cosmos_swap.Prelude.Time.{Time, unix}
use cosmos_swap.Sdk.Example.Ledger.{base_denom}
use cosmos_swap.Htlc.{
  Htlc, MsgCreateHtlc, MsgClaimHtlc, MsgRefundHtlc, Platform, State, htlc_claimed, module_name,
  create_msg, claim_msg, refund_msg, get_htlc, set_htlc, get_next_htlc_id, increment_next_htlc_id,
}
use cosmos_swap.Htlc.View.{stored, next_id}
use cosmos_swap.Htlc.Example.{platform, platform_laws, encode, decode, toy_hash, is_empty}
use cosmos_swap.Htlc.Handlers.{new_htlc}
use cosmos_swap.Htlc.Payout.{claim_pays, refund_pays, claim_and_refund_instant}
use cosmos_swap.Htlc.Solvency.{IsSound}
use cosmos_swap.Htlc.Transactions.{Msg, create, claim, refund, deliver, run}
use cosmos_swap.Htlc.Transactions.Sound.{run-IsSound, create_msg-IsSound, claim_msg-IsSound}
use cosmos_swap.Htlc.Transactions.Live.{open-settles}
use cosmos_swap.Htlc.Msgs.{validate_create}
use cosmos_swap.Htlc.Transactions.Lifecycle.{settled-not-paid_again, deliver-Step, Step}

abbrev alice : Bytes
alice = 1 ∷ []

abbrev bob : Bytes
bob = 2 ∷ []

abbrev secret : Bytes
secret = codes "secret"

abbrev start : State platform
start = record { store = []; ledger = λ a. if bytes_beq alice a then 100 else 0; events = [] }

start-IsSound : IsSound platform start 1
unfolding stored next_id lookup
start-IsSound = record {
  counter = refl;
  keyed = λ i h e. cc;
  fresh = λ i l. refl;
  valid = λ i h e. cc;
  settled_once = λ i h e. cc;
  funded = λ d. omega arith;
}

abbrev lock : MsgCreateHtlc
lock = record {
  sender = alice;
  receiver = bob;
  amount = record { denom = base_denom; amount = pos 50 } ∷ [];
  hash_lock = toy_hash secret;
  time_lock = pos 200;
}

abbrev unlock : MsgClaimHtlc
unlock = record { claimer = bob; htlc_id = 1; preimage = secret }

locked : (create_msg platform (unix (pos 100)) lock start).0 ≡ ok 1
unfolding create_msg get_next_htlc_id set_htlc increment_next_htlc_id lookup insert encode uint64
    put_uint64 bytes_beq
locked = refl

abbrev history : List (Time × Msg)
history = (unix (pos 100), create lock) ∷ (unix (pos 150), claim unlock) ∷ []

run-IsSound_example : (k : ℕ) × IsSound platform (run platform history start) k
run-IsSound_example =
    run-IsSound platform platform_laws history start 1 start-IsSound (λ e. cc, (tt, tt))
      (omega arith)

abbrev locked_state : State platform
locked_state = (create_msg platform (unix (pos 100)) lock start).1

locked-IsSound : IsSound platform locked_state 2
locked-IsSound =
    create_msg-IsSound platform platform_laws start 1 start-IsSound (unix (pos 100)) lock 1
      (λ e. cc) (omega arith) locked

abbrev first : Htlc
first = new_htlc 1 alice bob lock.amount lock.hash_lock (pos 200)

first_found : stored platform locked_state 1 ≡ some first
unfolding create_msg get_next_htlc_id set_htlc increment_next_htlc_id lookup insert encode decode
    uint64 put_uint64 bytes_beq stored is_empty
first_found = refl

claim_pays_example :
    ((cosmos_swap.Htlc.claim platform (unix (pos 150)) 1 secret bob locked_state).0 ≡ ok tt)
    × ((d : Bytes)
        → platform.bank.balance
            (cosmos_swap.Htlc.claim platform (unix (pos 150)) 1 secret bob locked_state).1.ledger
            bob
            d
          ≡ platform.bank.balance locked_state.ledger bob d
            + platform.bank.amount_of first.amount d)
unfolding bytes_beq
claim_pays_example =
    claim_pays platform platform_laws locked_state 2 locked-IsSound 1 first first_found
      (unix (pos 150)) secret bob (refl, refl, refl, refl, refl) refl (λ e. cc)

refund_pays_example :
    ((cosmos_swap.Htlc.refund platform (unix (pos 201)) 1 alice locked_state).0 ≡ ok tt)
    × ((d : Bytes)
        → platform.bank.balance
            (cosmos_swap.Htlc.refund platform (unix (pos 201)) 1 alice locked_state).1.ledger
            alice
            d
          ≡ platform.bank.balance locked_state.ledger alice d
            + platform.bank.amount_of first.amount d)
unfolding bytes_beq
refund_pays_example =
    refund_pays platform platform_laws locked_state 2 locked-IsSound 1 first first_found
      (unix (pos 201)) alice (refl, refl, refl, refl) refl (λ e. cc)

claim_at_lock :
    (cosmos_swap.Htlc.claim platform (unix (pos 200)) 1 secret bob locked_state).0 ≡ ok tt
unfolding cosmos_swap.Htlc.claim create_msg get_htlc get_next_htlc_id set_htlc
    increment_next_htlc_id lookup insert encode decode uint64 put_uint64 bytes_beq
claim_at_lock = refl

refund_at_lock : (cosmos_swap.Htlc.refund platform (unix (pos 200)) 1 alice locked_state).0 ≡ ok tt
unfolding cosmos_swap.Htlc.refund create_msg get_htlc get_next_htlc_id set_htlc
    increment_next_htlc_id lookup insert encode decode uint64 put_uint64 bytes_beq
refund_at_lock = refl

-- At the instant of the lock the receiver may claim and the sender may be refunded.
claim_and_refund_instant_example : (pos 200 ≡ pos 200) × (◌≡◌ {A = ℕ} 0 0)
claim_and_refund_instant_example =
    claim_and_refund_instant platform platform_laws locked_state 2 locked-IsSound 1 first
      first_found (unix (pos 200)) secret bob alice claim_at_lock refund_at_lock

abbrev claimed_state : State platform
claimed_state = (claim_msg platform (unix (pos 150)) unlock locked_state).1

claimed : (claim_msg platform (unix (pos 150)) unlock locked_state).0 ≡ ok tt
unfolding claim_msg create_msg get_htlc get_next_htlc_id set_htlc increment_next_htlc_id lookup
    insert encode decode uint64 put_uint64 bytes_beq
claimed = refl

abbrev spent : Htlc
spent = record first { claimed = true }

spent_found : stored platform claimed_state 1 ≡ some spent
unfolding claim_msg create_msg get_htlc get_next_htlc_id set_htlc increment_next_htlc_id lookup
    insert encode decode uint64 put_uint64 bytes_beq stored
spent_found = refl

claimed-IsSound : IsSound platform claimed_state 2
claimed-IsSound =
    claim_msg-IsSound platform platform_laws locked_state 2 locked-IsSound (unix (pos 150)) unlock
      claimed

abbrev later : List (Time × Msg)
later = (unix (pos 300), refund (record { refunder = alice; htlc_id = 1 })) ∷ []

settled-not-paid_again_example :
    (claim_msg platform
        (unix (pos 400))
        (record { claimer = bob; htlc_id = 1; preimage = secret })
        (run platform later claimed_state)
      ≡ (err htlc_claimed, run platform later claimed_state))
    × (refund_msg platform
          (unix (pos 400))
          (record { refunder = bob; htlc_id = 1 })
          (run platform later claimed_state)
        ≡ (err htlc_claimed, run platform later claimed_state))
settled-not-paid_again_example =
    settled-not-paid_again platform platform_laws later claimed_state 2 1 spent claimed-IsSound
      (tt, tt) (omega arith) spent_found refl (unix (pos 400)) secret bob

deliver-Step_example :
    Step
      (stored platform locked_state 1)
      (stored platform (deliver platform (unix (pos 150)) (claim unlock) locked_state) 1)
deliver-Step_example =
    deliver-Step platform platform_laws locked_state 2 locked-IsSound (unix (pos 150)) 1
      (claim unlock)

abbrev opening : List (Time × Msg)
opening = (unix (pos 100), create lock) ∷ []

opened : stored platform (run platform opening start) 1 ≡ some first
unfolding run deliver validate_create create_msg get_next_htlc_id set_htlc increment_next_htlc_id
    lookup insert encode decode uint64 put_uint64 bytes_beq stored is_empty
opened = refl

open-settles_example :
    ((d : Bytes)
      → platform.bank.balance
          (deliver platform (unix (pos 170)) (claim unlock) (run platform opening start)).ledger
          bob
          d
        ≡ platform.bank.balance (run platform opening start).ledger bob d
          + platform.bank.amount_of first.amount d)
    ⊎ ((d : Bytes)
        → platform.bank.balance
            (deliver platform
              (unix (pos 170))
              (refund (record { refunder = alice; htlc_id = 1 }))
              (run platform opening start)).ledger
            alice
            d
          ≡ platform.bank.balance (run platform opening start).ledger alice d
            + platform.bank.amount_of first.amount d)
unfolding bytes_beq is_empty
open-settles_example =
    open-settles platform platform_laws opening start 1 start-IsSound (λ e. cc, tt) (omega arith) 1
      first secret (unix (pos 170)) opened refl refl refl (omega arith) (λ e. cc) refl refl refl
      refl (λ e. cc) (λ e. cc)
