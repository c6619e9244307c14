-- ===== src/Htlc/Queries.antt =====
-- x/htlc-com/keeper/grpc_query.go: the queries of one contract and of all.
use cosmos_swap.Prelude.{
  ◌≡◌, ℕ, Option, none, some, List, [], ◌∷◌, Bytes, ok, arith, pure, raise, gets, or_raise, ◌>>=◌,
}
use cosmos_swap.Htlc.{Htlc, Platform, State, M, get_htlc, htlc_not_found, panic, key_prefix_htlc}
use cosmos_swap.Htlc.View.{stored, get_htlc-stored}

module _ (p : Platform) where
  abbrev or_not_found : Option Htlc → M p Htlc
  or_not_found none = raise htlc_not_found
  or_not_found (some h) = pure h

  -- `HTLC`
  unfoldable pub query_htlc : ℕ → M p Htlc
  query_htlc id = do found ← get_htlc p id; or_not_found found

  unfoldable pub decode_all : List (Bytes × Bytes) → M p (List Htlc)
  decode_all [] = pure []
  decode_all ((key, bz) ∷ entries) = do
    h ← or_raise (p.unmarshal bz) panic
    hs ← decode_all entries
    pure (h ∷ hs)

  -- `HTLCs`, without pages
  unfoldable pub query_htlcs : M p (List Htlc)
  query_htlcs = do entries ← gets (λ s. p.kv.iterate s.store key_prefix_htlc); decode_all entries

  -- The query of a contract that is stored answers it.
  pub query_htlc-stored :
      (s : State p) (id : ℕ) (h : Htlc) → stored p s id ≡ some h → query_htlc id s ≡ (ok h, s)
  unfolding query_htlc
  query_htlc-stored s id h e = ground (arith, get_htlc-stored p s id h e)
