-- ===== src/Sdk/Example/Memory.antt =====
-- A store as an association list.
use mathlib.Core.List.{Memᴰ}
use mathlib.Core.List.Memᴰ.{head, tail}
use cosmos_swap.Prelude.{
  ◌≡◌, Bool, true, false, some, [], ◌∷◌, ◌==◌, if◌then◌else◌, has_prefix, Bool-cases, inl, inr,
  arith, List, Bytes, bytes_eq,
}
use cosmos_swap.Prelude.Map.{lookup, insert, erase, lookup-insert, lookup-erase}
use cosmos_swap.Sdk.Store.{KvStore, KvLaws}

unfoldable pub under : List (Bytes × Bytes) → Bytes → List (Bytes × Bytes)
under [] prefix = []
under ((key, v) ∷ m) prefix =
    let rest = under m prefix in if has_prefix key prefix then (key, v) ∷ rest else rest

mem-either :
    {x : Bytes × Bytes} (b : Bool) (y : Bytes × Bytes) (m : List (Bytes × Bytes))
    → Memᴰ x m
    → Memᴰ x (if b then y ∷ m else m)
mem-either true y m d = tail d
mem-either false y m d = d

mem-under :
    (m : List (Bytes × Bytes)) (prefix key v : Bytes)
    → lookup key m ≡ some v
    → has_prefix key prefix ≡ true
    → Memᴰ (key, v) (under m prefix)
unfolding under lookup
mem-under [] prefix key v e h = cc
mem-under ((k, w) ∷ m) prefix key v e h = elim (Bool-cases (k == key)) [
  | inl t ↦
      let same : k ≡ key = (bytes_eq.same_iff k key).0 t in
      let held : has_prefix k prefix ≡ true = cc in
      let found : w ≡ v = ground arith in rw held (head cc)
  | inr f ↦
      let found : lookup key m ≡ some v = ground arith in
      mem-either (has_prefix k prefix) (k, w) (under m prefix) (mem-under m prefix key v found h)
]

abbrev pub memory : KvStore
memory = record {
  Store = List (Bytes × Bytes);
  get = λ s k. lookup k s;
  set = λ s k v. insert k v s;
  delete = λ s k. erase k s;
  iterate = under;
}

pub memory_laws : KvLaws memory
memory_laws = record {
  get-set = λ s k v q. lookup-insert k q v s;
  iterate-get = mem-under;
  get-delete = λ s k q. lookup-erase k q s;
}
