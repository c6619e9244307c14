-- ===== src/Precompiles/Relayer/Gas.antt =====
-- The gas of a call stays a 64-bit number.
use cosmos_swap.Prelude.{ℕ, ◌+◌, ◌≤◌, ◌<◌, arith, u64_mod}
use cosmos_swap.Precompiles.Relayer.{net_gas}

-- The gas charged and the intrinsic gas together cover the cost of the method and of the input, and no more
-- than that is charged, if the sum fits 64 bits.
pub net_gas-covers :
    (required base intrinsic : ℕ)
    → required + base < u64_mod
    → (required + base ≤ net_gas required base intrinsic + intrinsic)
      × (net_gas required base intrinsic ≤ required + base)
unfolding net_gas
net_gas-covers required base intrinsic h = (ground (arith, h), ground (arith, h))
