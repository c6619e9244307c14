-- ===== src/Precompiles/Input.antt =====
-- The input of a precompile: `input[:4]`, which names a method, and `input[4:]`, its packed arguments.
use cosmos_swap.Prelude.{Option, none, some, [], ◌∷◌, Bytes}

-- None if the input is too short to slice.
abbrev pub method_id : Bytes → Option (Bytes × Bytes)
method_id (a ∷ b ∷ c ∷ d ∷ rest) = some (a ∷ b ∷ c ∷ d ∷ [], rest)
method_id _ = none
