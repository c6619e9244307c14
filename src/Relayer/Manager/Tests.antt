-- ===== src/Relayer/Manager/Tests.antt =====
-- An order that waits for its chain while another is added and a ticker ticks.
use cosmos_swap.Prelude.{◌≡◌, refl, none, some, List, [], ◌∷◌, ok, get_elem?}
use cosmos_swap.Prelude.Int.{pos}
use cosmos_swap.Prelude.Time.{unix}
use cosmos_swap.Relayer.Types.{Order, AssetInfo, cronos_to_ethereum, pending}
use cosmos_swap.Relayer.Orders.{
  create_on_ethereum, Contracts, Replies, expire, handle_new_order, process_new,
}
use cosmos_swap.Relayer.Manager.{new_manager, add_order, register, each}
use cosmos_swap.Relayer.Manager.Overlap.{
  Held, Overlapped, idle, Turn, receive_new, hold_new, release_new, turn, turns,
}
use cosmos_swap.Relayer.Manager.Exclusive.{held_as_received}

abbrev contracts : Contracts
contracts = record { resolver = "resolver"; escrow_factory = "factory" }

abbrev accept : Replies
accept call = ok "0xabc"

abbrev asset : AssetInfo
asset = record { symbol = "CRO"; address = ""; amount = some (pos 10); decimals = 18 }

abbrev order : Order
order = record {
  id = "7";
  type = cronos_to_ethereum;
  status = pending;
  source_chain = "cronos";
  destination_chain = "ethereum";
  maker = "maker";
  taker = "taker";
  secret_hash = "hash";
  secret = "";
  timelock = 500;
  source_asset = asset;
  destination_asset = asset;
  source_escrow_addr = "";
  dest_escrow_addr = "";
  dutch_auction = none;
  current_price = none;
  partial_fill = none;
  created_at = unix (pos 100);
  updated_at = unix (pos 100);
  expires_at = unix (pos 500);
  source_tx_hash = "";
  dest_tx_hash = "";
  retry_count = 0;
  last_error = "";
}

abbrev held : Held
held = record {
  pointer = 0;
  seen = order;
  replies = accept;
  answer = (handle_new_order contracts accept order []).0;
}

abbrev waiting : Overlapped
waiting = record {
  manager = record new_manager {
    heap = order ∷ order ∷ [];
    new_orders = 1 ∷ [];
    sent = create_on_ethereum "resolver" (pos 500) ∷ [];
  };
  new_held = some held;
  update_held = none;
}

abbrev schedule : List (Replies × Turn)
schedule =
    (accept, Turn.add order)
    ∷ (accept, receive_new)
    ∷ (accept, Turn.add order)
    ∷ (accept, Turn.timeouts (unix (pos 600)))
    ∷ []

reaches : turns contracts schedule idle ≡ ok waiting
unfolding turns turn add_order hold_new handle_new_order each expire
reaches = refl

held_as_received_example :
    (get_elem? waiting.manager.heap 0 ≡ some order)
    × (release_new held waiting.manager
        ≡ register 0
            ((process_new contracts accept order []).0, waiting.manager.sent)
            waiting.manager)
held_as_received_example = held_as_received contracts schedule waiting held reaches refl
