-- ===== src/Relayer/Statistics.antt =====
-- `GetOrderStats` of relayer/pkg/order_manager/manager.go: how many orders there are, of each status and
-- of each type.
use cosmos_swap.Prelude.{
  ℕ, suc, ◌+◌, ◌≡◌, Option, none, some, List, [], ◌∷◌, String, string_eq, length, arith,
}
use cosmos_swap.Prelude.Map.{lookup, insert}
use cosmos_swap.Relayer.Types.{Order, OrderType, cronos_to_ethereum, ethereum_to_cronos}
use cosmos_swap.Relayer.Manager.{Manager, get_active_orders}
use cosmos_swap.Relayer.Service.Convert.{from_status}

-- `string(type)`
abbrev pub from_type : OrderType → String
from_type cronos_to_ethereum = "cronos_to_ethereum"
from_type ethereum_to_cronos = "ethereum_to_cronos"
from_type (OrderType.other s) = s

abbrev pub or_zero : Option ℕ → ℕ
or_zero none = 0
or_zero (some n) = n

-- `counts[key]++`
unfoldable pub increment : String → List (String × ℕ) → List (String × ℕ)
increment key counts = insert key (suc (or_zero (lookup key counts))) counts

unfoldable pub count_by : (Order → String) → List (String × ℕ) → List Order → List (String × ℕ)
count_by key counts [] = counts
count_by key counts (o ∷ os) = count_by key (increment (key o) counts) os

pub record OrderStats : Type 0 where
  pub total_active_orders : ℕ
  pub status_counts : List (String × ℕ)
  pub type_counts : List (String × ℕ)

unfoldable pub get_order_stats : Manager → OrderStats
get_order_stats m = record {
  total_active_orders = length m.active_orders;
  status_counts = count_by (λ o. from_status o.status) [] (get_active_orders m);
  type_counts = count_by (λ o. from_type o.type) [] (get_active_orders m);
}

abbrev pub sum_counts : List (String × ℕ) → ℕ
sum_counts [] = 0
sum_counts ((key, n) ∷ counts) = n + sum_counts counts

sum_counts-insert :
    (key : String) (counts : List (String × ℕ)) (n : ℕ)
    → sum_counts (insert key n counts) + or_zero (lookup key counts) ≡ sum_counts counts + n
unfolding insert lookup
sum_counts-insert key [] n = omega arith
sum_counts-insert key ((k, m) ∷ counts) n = ground (arith, sum_counts-insert key counts n)

sum_counts-count_by :
    (key : Order → String) (counts : List (String × ℕ)) (os : List Order)
    → sum_counts (count_by key counts os) ≡ sum_counts counts + length os
unfolding count_by increment
sum_counts-count_by key counts [] = omega arith
sum_counts-count_by key counts (o ∷ os) =
    let n = suc (or_zero (lookup (key o) counts)) in
    omega (
      arith,
      sum_counts-count_by key (insert (key o) n counts) os,
      sum_counts-insert (key o) counts n,
    )

-- The counts by status and the counts by type each add up to the number of the active orders.
pub get_order_stats-total :
    (m : Manager)
    → (sum_counts (get_order_stats m).status_counts ≡ length (get_active_orders m))
      × (sum_counts (get_order_stats m).type_counts ≡ length (get_active_orders m))
unfolding get_order_stats
get_order_stats-total m = (
  omega (arith, sum_counts-count_by (λ o. from_status o.status) [] (get_active_orders m)),
  omega (arith, sum_counts-count_by (λ o. from_type o.type) [] (get_active_orders m)),
)
