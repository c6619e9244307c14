-- ===== src/Relayer/Errors.antt =====
-- The texts of the errors that the order manager makes with `fmt.Errorf`.
use Prim.Native.String.{String, ◌++◌}
use cosmos_swap.Prelude.{Result, ok, err}

-- `%s` after a text
abbrev pub joined : String → String → String
joined text value = text ++ value

-- `%w` after a text, of the error that a method with a state returned, if it did
abbrev pub prefixed : {S A : Type 0} → String → Result String A × S → Result String A × S
prefixed text (ok a, s) = (ok a, s)
prefixed text (err e, s) = (err (text ++ e), s)
