-- ===== src/Rpc/Execution.antt =====
-- `ReplayBlock` of x/cronos/keeper/grpc_query.go: the messages of a block run again on the state of a query,
-- which is thrown away. The EVM's and the account's keepers are parameters.
use cosmos_swap.Prelude.{
  ℕ, ◌≡◌, Option, List, [], ◌∷◌, Bytes, String, Result, ok, err, Action, pure, raise, or_raise,
  gets, ◌>>=◌, ◌>>◌, length, arith, inl, inr, Result-cases,
}
use cosmos_swap.Prelude.Time.{Time}
use cosmos_swap.Rpc.{EthMsg, MsgEthereumTxResponse, ReplayBlockRequest, add64, Node}

-- `WithBlockHeight`, `WithBlockTime` and `WithHeaderHash`
pub record BlockContext : Type 0 where
  pub height : ℕ
  pub time : Time
  pub header_hash : Bytes

pub record EvmKeeper : Type 1 where
  pub State : Type 0
  -- the parameters of the EVM, its forks and the base fee, of a block on a state
  pub Rules : Type 0
  pub rules : BlockContext → State → Rules
  pub Fees : Type 0
  pub hex_to_bytes : Bytes → Bytes  -- `common.Hex2Bytes`
  pub sender : EthMsg → Result String Bytes  -- `GetSenderLegacy`, which fills `From`
  pub verify_fee : Rules → EthMsg → Result String Fees
  pub deduct_tx_costs : Fees → Bytes → Action State String (Unit {0})
  pub get_sequence : State → Bytes → Option ℕ  -- of `GetAccount`, none for nil
  pub set_sequence : Bytes → ℕ → Action State String (Unit {0})  -- with `SetAccount`
  pub ethereum_tx : BlockContext → EthMsg → Action State String MsgEthereumTxResponse

module _ (k : EvmKeeper) where
  abbrev of_result : {A : Type 0} → Result String A → Action k.State String A
  of_result (ok a) = pure a
  of_result (err e) = raise e

  -- The body of the loop
  unfoldable pub replay_msg :
      BlockContext → k.Rules → EthMsg → Action k.State String MsgEthereumTxResponse
  replay_msg context rules msg = do
    from ← of_result (k.sender msg)
    fees ← of_result (k.verify_fee rules msg)
    k.deduct_tx_costs fees from
    account ← gets (λ s. k.get_sequence s from)
    sequence ← or_raise account "account not found"
    k.set_sequence from (add64 sequence 1)
    k.ethereum_tx context msg

  unfoldable pub replay_all :
      BlockContext → k.Rules → List EthMsg → Action k.State String (List MsgEthereumTxResponse)
  replay_all context rules [] = pure []
  replay_all context rules (msg ∷ msgs) = do
    rsp ← replay_msg context rules msg
    rest ← replay_all context rules msgs
    pure (rsp ∷ rest)

  -- `ReplayBlock` of the keeper
  unfoldable pub execute_replay :
      ReplayBlockRequest → Action k.State String (List MsgEthereumTxResponse)
  execute_replay req = do
    let context : BlockContext = record {
      height = req.block_number;
      time = req.block_time;
      header_hash = k.hex_to_bytes req.block_hash;
    }
    rules ← gets (k.rules context)
    replay_all context rules req.msgs

  length-replay_all :
      (context : BlockContext) (rules : k.Rules) (msgs : List EthMsg) (s : k.State)
      (rsps : List MsgEthereumTxResponse)
      → (replay_all context rules msgs s).0 ≡ ok rsps
      → length rsps ≡ length msgs
  unfolding replay_all
  length-replay_all context rules [] s rsps e = ground (arith, e)
  length-replay_all context rules (msg ∷ msgs) s rsps e =
      elim (Result-cases (replay_msg context rules msg s).0) [
        | inr (x, y) ↦ ground (arith, e, y)
        | inl (r, y) ↦
            let t = (replay_msg context rules msg s).1 in
            elim (Result-cases (replay_all context rules msgs t).0) [
              | inr (x, z) ↦ ground (arith, e, y, z)
              | inl (rs, z) ↦ ground (arith, e, y, z, length-replay_all context rules msgs t rs z)
            ]
      ]

  -- A replay that succeeds answers one response for each message.
  pub length-execute_replay :
      (req : ReplayBlockRequest) (s : k.State) (rsps : List MsgEthereumTxResponse)
      → (execute_replay req s).0 ≡ ok rsps
      → length rsps ≡ length req.msgs
  unfolding execute_replay
  length-execute_replay req s rsps e = length-replay_all _ _ req.msgs s rsps e

  -- A node answers the query by the keeper, on the state after a height.
  abbrev pub Serves : (ℕ → k.State) → Node → Type 0
  Serves state_at n =
      (height : ℕ) (req : ReplayBlockRequest)
      → n.replay_block height req ≡ (execute_replay req (state_at height)).0
