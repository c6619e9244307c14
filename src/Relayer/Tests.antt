-- ===== src/Relayer/Tests.antt =====
-- Runs of the relayer on concrete inputs, and the theorems applied there.
use text.Mathlib.TextEquality.{eq_iff}
use cosmos_swap.Prelude.{
  ◌*◌, ◌≡◌, ◌≢◌, ◌⊎◌, refl, false, none, some, List, [], ◌∷◌, ◌++◌, String, ok, arith,
}
use cosmos_swap.Prelude.Int.{ℤ, pos, ◌≤ℤ◌, ◌+ℤ◌, ◌*ℤ◌, ◌-ℤ◌}
use cosmos_swap.Prelude.Map.{insert, lookup}
use cosmos_swap.Prelude.Time.{unix, second, sub_time}
use cosmos_swap.Relayer.Types.{Order, DutchAuctionParams, active, matched, completed, failed}
use cosmos_swap.Relayer.Auction.{is_rounded_up, seconds_of, calculate}
use cosmos_swap.Relayer.Auction.Decay.{calculate_falls}
use cosmos_swap.Relayer.Auction.Bounds.{IsAuction, calculate_bounds}
use cosmos_swap.Relayer.Orders.{
  Call, create_on_ethereum, withdraw_on_cronos, Contracts, Replies, process_new, process_update,
  expire, match_order,
}
use cosmos_swap.Relayer.Orders.Effects.{
  creation, calls_of, process_new_outcome, process_update_completes,
}
use cosmos_swap.Relayer.Manager.{
  Manager, Event, new_manager, add, add_order, new_order, timeouts, match_orders, run, step,
  get_order,
}
use cosmos_swap.Relayer.Manager.Shape.{IsWellFormed}
use cosmos_swap.Relayer.Manager.Preserved.{run-IsWellFormed}
use cosmos_swap.Relayer.Manager.Runs.{new_manager-IsWellFormed, IsIdle, run-IsIdle}
use cosmos_swap.Relayer.Manager.Unmatched.{AllUnmatched, run-AllUnmatched}
use cosmos_swap.Relayer.Manager.Duplicates.{add_twice-sent}
use cosmos_swap.Relayer.Service.{Service, CronosOrder, EthereumOrder, convert_cronos, scan_cronos}
use cosmos_swap.Relayer.Service.Convert.{convert_cronos-IsUnmatched}
use cosmos_swap.Relayer.Service.Scan.{rescan_creates_twice, escrow_call}

abbrev contracts : Contracts
contracts = record { resolver = "resolver"; escrow_factory = "factory" }

abbrev accept : Replies
accept call = ok "0xabc"

abbrev auction : DutchAuctionParams
auction = record {
  initial_price = some (pos 1000);
  minimum_price = some (pos 400);
  decay_rate = some (pos 5);
  start_time = unix (pos 100);
  duration = pos (200 * second);
}

auction-IsAuction : IsAuction auction (pos 1000) (pos 400) 5
auction-IsAuction = record { initial = refl; minimum = refl; decay = refl; ordered = omega arith }

calculate_bounds_example :
    (q : ℤ) × (calculate auction (unix (pos 250)) ≡ ok (some q)) × (pos 400 ≤ℤ q) × (q ≤ℤ pos 1000)
calculate_bounds_example =
    calculate_bounds auction (pos 1000) (pos 400) 5 auction-IsAuction (unix (pos 250))

at_10 : calculate auction (unix (pos 110)) ≡ ok (some (pos 950))
unfolding calculate is_rounded_up sub_time ◌+ℤ◌ ◌*ℤ◌ ◌-ℤ◌
at_10 = refl

at_150 : calculate auction (unix (pos 250)) ≡ ok (some (pos 400))
unfolding calculate is_rounded_up sub_time ◌+ℤ◌ ◌*ℤ◌ ◌-ℤ◌
at_150 = refl

elapsed_le :
    sub_time (unix (pos 110)) auction.start_time ≤ℤ sub_time (unix (pos 250)) auction.start_time
unfolding sub_time ◌+ℤ◌ ◌*ℤ◌ ◌-ℤ◌
elapsed_le = omega arith

-- In the 2^24th second of an auction, the last nanosecond is taken for the next second.
rounded : seconds_of 16_777_216_999_999_999 ≡ 16_777_217
unfolding is_rounded_up
rounded = refl

exact : seconds_of 8_388_608_999_999_999 ≡ 8_388_608
unfolding is_rounded_up
exact = refl

calculate_falls_example : pos 400 ≤ℤ pos 950
calculate_falls_example =
    calculate_falls auction (pos 1000) (pos 400) 5 auction-IsAuction (unix (pos 110))
      (unix (pos 250)) (pos 950) (pos 400) elapsed_le at_10 at_150

abbrev escrow : CronosOrder
escrow = record {
  id = "7";
  maker = "maker";
  taker = "taker";
  secret_hash = "hash";
  timelock = 500;
  dst_chain_id = "ethereum";
  dst_asset = "ETH";
  dst_amount = "20";
  deposited_amount = "10";
  deposited_denom = "acro";
  status = "pending";
  created_at = 100;
  initial_price = "1000";
  price_decay_rate = "";
  minimum_price = "400";
  allow_partial_fill = false;
  filled_amount = "";
  remaining_amount = "";
  minimum_fill_amount = "";
}

abbrev hour : ℤ
hour = pos (3600 * second)

not_matched : escrow.status ≢ "matched"
not_matched = ground (arith, eq_iff "pending" "matched")

not_completed : escrow.status ≢ "completed"
not_completed = ground (arith, eq_iff "pending" "completed")

abbrev order : Order
order = convert_cronos hour (unix (pos 120)) escrow

process_new_outcome_example :
    ((call : Call) × (tx : String) × (creation contracts order.type order ≡ some call)
      × (accept call ≡ ok tx)
      × ((process_new contracts accept order []).0
          ≡ record order { dest_tx_hash = tx; status = active }))
    ⊎ ((process_new contracts accept order []).0.status ≡ failed)
process_new_outcome_example = process_new_outcome contracts accept order []

abbrev ready : Order
ready = record order { status = matched; secret = "s3cret"; source_escrow_addr = "escrow" }

swapped : (process_update contracts accept (unix (pos 130)) ready []).0.status ≡ completed
unfolding process_update convert_cronos
swapped = refl

process_update_completes_example :
    (ready.status ≡ completed)
    ⊎ ((tx : String) × (ready.status ≡ matched)
        × (ready.secret ≢ "")
        × (accept (withdraw_on_cronos "escrow" "s3cret") ≡ ok tx)
        × ((process_update contracts accept (unix (pos 130)) ready []).0.source_tx_hash ≡ tx))
unfolding convert_cronos
process_update_completes_example =
    process_update_completes contracts accept ready [] (unix (pos 130)) swapped

-- An order is added, its escrow is created, and it is offered for matching.
abbrev schedule : List Event
schedule = add order ∷ new_order accept ∷ match_orders ∷ timeouts (unix (pos 130)) ∷ []

abbrev reached : Manager
reached = record {
  heap = record order { status = active; dest_tx_hash = "0xabc" } ∷ [];
  active_orders = ("7", 0) ∷ [];
  new_orders = [];
  update_orders = [];
  completed_orders = [];
  sent = create_on_ethereum "resolver" (pos 500) ∷ [];
}

schedule-reached : run contracts schedule new_manager ≡ ok reached
unfolding run step convert_cronos add_order insert process_new expire match_order
schedule-reached = refl

run-IsWellFormed_example : IsWellFormed reached
run-IsWellFormed_example =
    run-IsWellFormed contracts schedule new_manager reached schedule-reached
      new_manager-IsWellFormed

run-IsIdle_example : IsIdle reached
run-IsIdle_example = run-IsIdle contracts schedule reached schedule-reached

found : get_order "7" reached ≡ some (record order { status = active; dest_tx_hash = "0xabc" })
unfolding get_order lookup
found = refl

run-AllUnmatched_example : AllUnmatched reached.heap
run-AllUnmatched_example =
    run-AllUnmatched contracts schedule new_manager reached schedule-reached
      (convert_cronos-IsUnmatched hour (unix (pos 120)) escrow not_matched not_completed, tt) tt

add_twice-sent_example :
    (m : Manager) × (run contracts
        (add order ∷ new_order accept ∷ add order ∷ new_order accept ∷ [])
        new_manager
      ≡ ok m)
    × (m.sent
        ≡ calls_of (creation contracts order.type order)
          ++ calls_of (creation contracts order.type order))
add_twice-sent_example = add_twice-sent contracts order accept accept new_manager refl

abbrev ethereum_escrow : EthereumOrder
ethereum_escrow = record {
  id = "8";
  maker = "maker";
  taker = "taker";
  secret_hash = "hash";
  timelock = 500;
  src_chain_id = "cronos";
  src_asset = "acro";
  src_amount = none;
  deposited_amount = some (pos 3);
  token_address = "token";
  status = "Active";
  created_at = 100;
  escrow_address = "escrow";
}

-- An escrow without a decay rate, ten seconds into its auction.
abbrev service : Service
service = record { manager = new_manager; last_cronos_block = pos 4; last_ethereum_block = 0 }

abbrev scanned : Service
scanned = record service { manager = add_order order new_manager; last_cronos_block = pos 5 }

service-scanned :
    scan_cronos hour (unix (pos 120)) (ok (pos 5)) (ok (escrow ∷ [])) service ≡ ok scanned
unfolding scan_cronos
service-scanned = refl

rescan_creates_twice_example :
    (s1 : Service) × (m1 : Manager) × (s2 : Service) × (m2 : Manager) × (scan_cronos hour
        (unix (pos 120))
        (ok (pos 5))
        (ok (escrow ∷ []))
        service
      ≡ ok s1)
    × (step contracts (new_order accept) s1.manager ≡ ok m1)
    × (scan_cronos hour
          (unix (pos 125))
          (ok (pos 6))
          (ok (escrow ∷ []))
          (record s1 { manager = m1 })
        ≡ ok s2)
    × (step contracts (new_order accept) s2.manager ≡ ok m2)
    × (m2.sent
        ≡ (service.manager.sent ++ escrow_call contracts hour escrow ∷ [])
          ++ escrow_call contracts hour escrow ∷ [])
rescan_creates_twice_example =
    rescan_creates_twice contracts hour escrow (unix (pos 120)) (unix (pos 125)) (pos 5) (pos 6)
      accept accept service refl (omega arith) (omega arith)
