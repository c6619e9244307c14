-- ===== src/Cronos/Mapping/History.antt =====
-- Histories of the messages and proposals that change the store of x/cronos.
use cosmos_swap.Prelude.{
  ◌≡◌, bytes_eq, inl, inr, true, List, [], ◌∷◌, Bytes, Result, ok, err, arith, Bool-cases,
  Result-cases, modify, Bool, ◌>>=◌, ◌>>◌, nat_eq,
}
use cosmos_swap.Cronos.{
  Coin, MsgConvertVouchers, validate_convert_vouchers, convert_vouchers_msg, on_recv_vouchers,
  Platform, PlatformLaws, State, Error, M, MsgUpdateTokenMapping, MsgUpdatePermissions,
  MsgStoreBlockList, MsgUpdateParams, TokenMappingChangeProposal, validate_token_mapping,
  validate_update_params, validate_permissions, handle_proposal, proposed, update_token_mapping,
  update_params, update_permissions, store_block_list, validate_params, is_valid_coin_denom,
}
use cosmos_swap.Cronos.Mapping.Consistent.{IsConsistent}
use cosmos_swap.Cronos.Mapping.Messages.{
  Preserves, Preserves-bind, Preserves-read, register-Preserves, update_token_mapping-IsConsistent,
}
use cosmos_swap.Cronos.Mapping.Conversions.{is_valid_coin_denom-nonempty}
use cosmos_swap.Cronos.Mapping.Writes.{
  update_params-Preserves, update_permissions-Preserves, store_block_list-Preserves,
}
use cosmos_swap.Cronos.Mapping.Vouchers.{
  AreUnusedFor, convert_vouchers_msg-IsConsistent, on_recv_vouchers-IsConsistent,
}

pub data Msg : Type 0 where
  mapping : MsgUpdateTokenMapping → Msg
  proposal : TokenMappingChangeProposal → Msg
  params : MsgUpdateParams → Msg
  permissions : MsgUpdatePermissions → Msg
  block_list : MsgStoreBlockList → Msg
  conversion : MsgConvertVouchers → Msg
  -- vouchers that the middleware converts for an account
  receipt : List Coin → Bytes → Msg

-- Given `Coins.IsValid` and `Coins.IsAllPositive`.
module _ (p : Platform) (is_valid is_all_positive : List Coin → Bool) where
  -- The stateless checks, then the handler. That a block list is encrypted is checked by a library.
  unfoldable pub handler : Msg → M p (Unit {0})
  handler (mapping m) = validate_token_mapping p m >> update_token_mapping p m
  handler (proposal c) = handle_proposal p c
  handler (params m) = validate_update_params p m >> update_params p m
  handler (permissions m) = validate_permissions p m >> update_permissions p m
  handler (block_list m) = store_block_list p m
  handler (conversion m) =
      validate_convert_vouchers p is_valid is_all_positive m
      >> convert_vouchers_msg p is_valid is_all_positive m
  handler (receipt coins receiver) = modify (on_recv_vouchers p coins receiver)

  abbrev pub commit : State p → Result Error (Unit {0}) × State p → State p
  commit s (ok _, t) = t
  commit s (err e, t) = s

  -- Each runs as a transaction, whose writes are kept only if it succeeds.
  unfoldable pub run : List Msg → State p → State p
  run [] s = s
  run (m ∷ ms) s = run ms (commit s (handler m s))

  -- Whenever vouchers are converted, the address that the next deployment gets has no denomination.
  abbrev pub DeploysUnused : Msg → State p → Type 0
  DeploysUnused (conversion m) s = AreUnusedFor p m.address m.coins s
  DeploysUnused (receipt coins receiver) s = AreUnusedFor p receiver coins s
  DeploysUnused _ s = Unit

  abbrev pub AllDeployUnused : List Msg → State p → Type 0
  AllDeployUnused [] s = Unit
  AllDeployUnused (m ∷ ms) s = DeploysUnused m s × AllDeployUnused ms (commit s (handler m s))

module _ (p : Platform) (laws : PlatformLaws p) where
  handle_proposal-Preserves :
      (c : TokenMappingChangeProposal) → Preserves p laws (handle_proposal p c)
  unfolding handle_proposal Preserves
  handle_proposal-Preserves c s k = elim (Bool-cases (is_valid_coin_denom c.denom)) [
    | inr f ↦ rw f k
    | inl t ↦
        rw t (register-Preserves p laws (proposed p c) (is_valid_coin_denom-nonempty c.denom t) s k)
  ]

  validate_mapping-state :
      (m : MsgUpdateTokenMapping) (s : State p) → (validate_token_mapping p m s).1 ≡ s
  unfolding validate_token_mapping
  validate_mapping-state m s = ground arith

  validate_mapping-denom :
      (m : MsgUpdateTokenMapping) (s : State p)
      → (validate_token_mapping p m s).0 ≡ ok tt
      → is_valid_coin_denom m.denom ≡ true
  unfolding validate_token_mapping
  validate_mapping-denom m s e = ground arith

  mapping-IsConsistent :
      (m : MsgUpdateTokenMapping) (s : State p)
      → IsConsistent p s
      → IsConsistent p ((validate_token_mapping p m >> update_token_mapping p m) s).1
  mapping-IsConsistent m s k = elim (Result-cases (validate_token_mapping p m s).0) [
    | inl (_, y) ↦
        rw (y, ◌>>◌, ◌>>=◌, validate_mapping-state m s)
          (update_token_mapping-IsConsistent p laws m s
            (is_valid_coin_denom-nonempty m.denom (validate_mapping-denom m s y)) k)
    | inr (x, y) ↦ rw (y, ◌>>◌, ◌>>=◌, validate_mapping-state m s) k
  ]

  commit-IsConsistent :
      (v w : List Coin → Bool) (s : State p) (r : Result Error (Unit {0}) × State p)
      → IsConsistent p s
      → IsConsistent p r.1
      → IsConsistent p (commit p v w s r)
  commit-IsConsistent v w s (ok _, t) k l = l
  commit-IsConsistent v w s (err e, t) k l = k

  module _ (v w : List Coin → Bool) where
    handler-IsConsistent :
        (m : Msg) (s : State p)
        → DeploysUnused p v w m s
        → IsConsistent p s
        → IsConsistent p (handler p v w m s).1
    unfolding handler Preserves validate_update_params validate_permissions validate_params
    handler-IsConsistent (mapping m) s u k = mapping-IsConsistent m s k
    handler-IsConsistent (proposal c) s u k = handle_proposal-Preserves c s k
    handler-IsConsistent (params m) s u k =
        Preserves-bind p laws (validate_update_params p m) (λ _. update_params p m)
          (Preserves-read p laws (validate_update_params p m) (λ t. ground arith))
          (λ _. update_params-Preserves p laws m) s k
    handler-IsConsistent (permissions m) s u k =
        Preserves-bind p laws (validate_permissions p m) (λ _. update_permissions p m)
          (Preserves-read p laws (validate_permissions p m) (λ t. ground arith))
          (λ _. update_permissions-Preserves p laws m) s k
    handler-IsConsistent (block_list m) s u k = store_block_list-Preserves p laws m s k
    handler-IsConsistent (conversion m) s u k = convert_vouchers_msg-IsConsistent p laws v w m s u k
    handler-IsConsistent (receipt coins receiver) s u k =
        on_recv_vouchers-IsConsistent p laws coins receiver s u k

    -- Every history of messages and proposals that change the store, each with its stateless checks, and of
    -- vouchers that are received keeps the token mapping consistent, if whenever the turn of a coin comes in a
    -- conversion of vouchers the address that the next deployment gets has no denomination yet.
    pub run-IsConsistent :
        (ms : List Msg) (s : State p)
        → AllDeployUnused p v w ms s
        → IsConsistent p s
        → IsConsistent p (run p v w ms s)
    unfolding run
    run-IsConsistent [] s u k = k
    run-IsConsistent (m ∷ ms) s u k =
        run-IsConsistent ms (commit p v w s (handler p v w m s)) u.1
          (commit-IsConsistent v w s (handler p v w m s) k (handler-IsConsistent m s u.0 k))
