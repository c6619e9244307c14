-- ===== src/Rpc/Tests.antt =====
-- A block of two transactions of Ethereum, replayed by a keeper that counts.
use mathlib.Core.Path.{subst}
use cosmos_swap.Prelude.{
  ℕ, suc, ◌≡◌, refl, ap, ok-injective, Result-cases, inl, inr, Bool, true, false, none, some, List,
  [], ◌∷◌, Bytes, ok, err, arith, nat_eq,
}
use cosmos_swap.Prelude.Int.{pos}
use cosmos_swap.Prelude.Time.{unix}
use cosmos_swap.Rpc.{
  add64, EthMsg, ethereum, TxData, TxResult, Block, BlockDetail, BlockNumberOrHash,
  MsgEthereumTxResponse, ReplayBlockRequest, Receipt, Node, get_block, get_block_detail,
  contract_address_of, price_of,
}
use cosmos_swap.Rpc.Receipts.{
  receipt_of, message_receipt, message_receipts, transaction_receipts, decoded_receipts,
  block_receipts, get_transaction_receipts_by_block,
}
use cosmos_swap.Rpc.Replay.{
  ethereum_msgs, collect, context_height, request, replayed_receipts, replayed_receipt, reverted,
  revert_last, replay_msgs, replay_block,
}
use cosmos_swap.Rpc.Execution.{
  BlockContext, EvmKeeper, Serves, execute_replay, replay_all, replay_msg,
}
use cosmos_swap.Rpc.Matched.{Matched}
use cosmos_swap.Rpc.Reverted.{AreBounded, EndsReverted, replay_block-EndsReverted}
use cosmos_swap.Rpc.Responses.{UnpacksAsStated, responses}
use cosmos_swap.Rpc.Agreement.{AllSucceeded, replay_block-recorded}

abbrev msg_of : Bytes → EthMsg
msg_of tx = record { hash = tx; packed = []; gas = 100 }

abbrev data_of : EthMsg → TxData
data_of m = record { hash = m.hash; to = none; nonce = 0; tx_type = 2 }

abbrev block : Block
block = record { height = 5; time = unix (pos 1000); hash = 9 ∷ []; txs = (1 ∷ []) ∷ (2 ∷ []) ∷ [] }

abbrev result : ℕ → TxResult
result code = record { code = code; gas_used = 21; log = []; result_data = []; events = [] }

abbrev keeper : EvmKeeper
keeper = record {
  State = ℕ;
  Rules = ℕ;
  rules = λ c s. c.height;
  Fees = ℕ;
  hex_to_bytes = λ h. h;
  sender = λ m. ok m.hash;
  verify_fee = λ rules m. ok m.gas;
  deduct_tx_costs = λ fees from s. (ok tt, s);
  get_sequence = λ s from. some s;
  set_sequence = λ from q s. (ok tt, q);
  ethereum_tx = λ c m s. (ok (record { logs = []; failed = false; gas_used = 21 }), s);
}

abbrev node : List TxResult → Node
node results = record {
  block_by_hash = λ h. err "not found";
  block_by_number = λ k. ok block;
  block_result_by_number = λ k. ok results;
  base_fee = λ rs. ok (some 7);
  decode_tx = λ tx. ok (ethereum (msg_of tx) ∷ []);
  success_or_exceeds = λ r. true;
  parse_tx_result = λ r ms. ok (record { msg_index = 0; gas_used = 21; failed = false } ∷ []);
  decode_logs = λ r i h. ok [];
  says_block_gas_exceeded = λ log. true;
  as_transaction = λ m. some (data_of m);
  unpack_tx_data = λ m. ok (data_of m);
  sender = λ m. ok m.hash;
  effective_gas_price = λ m fee. 7;
  create_address = λ from nonce. nonce ∷ from;
  bloom = λ logs. [];
  replay_block = λ height req. (execute_replay keeper req 0).0;
}

abbrev latest : BlockNumberOrHash
latest = record { block_number = some 5; block_hash = none }

abbrev detail : List TxResult → BlockDetail
detail results = record { block = block; tx_results = results; base_fee = some 7 }

abbrev receipt : ℕ → ℕ → Receipt
receipt i gas = record {
  successful = true;
  cumulative_gas_used = gas;
  logs_bloom = [];
  logs = [];
  transaction_hash = suc i ∷ [];
  contract_address = some (0 ∷ suc i ∷ []);
  gas_used = 21;
  block_hash = 9 ∷ [];
  block_number = 5;
  transaction_index = i;
  from = suc i ∷ [];
  to = none;
  tx_type = 2;
  effective_gas_price = some 7;
}

abbrev receipts : List Receipt
receipts = receipt 0 21 ∷ receipt 1 42 ∷ []

abbrev succeeded : List TxResult
succeeded = result 0 ∷ result 0 ∷ []

abbrev over_limit : List TxResult
over_limit = result 0 ∷ result 11 ∷ []

abbrev patched : Receipt
patched = record (receipt 1 121) { successful = false; contract_address = none; gas_used = 100 }

replays_over_limit : replay_block (node over_limit) latest true ≡ ok (receipt 0 21 ∷ patched ∷ [])
unfolding replay_block get_block_detail get_block collect ethereum_msgs replay_msgs context_height
    execute_replay replay_all replay_msg replayed_receipts replayed_receipt contract_address_of
    price_of revert_last reverted
replays_over_limit = refl

serves : (results : List TxResult) → Serves keeper (λ height. 0) (node results)
serves results height req = refl

found_detail :
    (results : List TxResult) → get_block_detail (node results) latest ≡ ok (detail results)
unfolding get_block_detail get_block
found_detail results = refl

collected :
    collect (node over_limit) block.txs over_limit
    ≡ ok (true, msg_of (1 ∷ []) ∷ msg_of (2 ∷ []) ∷ [])
unfolding collect ethereum_msgs
collected = refl

small_responses :
    (context : BlockContext) (rules : ℕ) (msgs : List EthMsg) (s : ℕ)
    (rsps : List MsgEthereumTxResponse)
    → (replay_all keeper context rules msgs s).0 ≡ ok rsps
    → AreBounded rsps
unfolding replay_all replay_msg
small_responses context rules [] s rsps e = subst AreBounded (ok-injective e) tt
small_responses context rules (m ∷ msgs) s rsps e =
    let t = add64 s 1 in
    elim (Result-cases (replay_all keeper context rules msgs t).0) [
      | inr (x, y) ↦ ground (arith, e, y)
      | inl (rest, y) ↦
          let first : MsgEthereumTxResponse = record { logs = []; failed = false; gas_used = 21 } in
          let same : first ∷ rest ≡ rsps = ground (arith, e, y) in
          subst AreBounded same (omega arith, small_responses context rules msgs t rest y)
    ]

small_gas :
    (height : ℕ) (req : ReplayBlockRequest) (rsps : List MsgEthereumTxResponse)
    → (node over_limit).replay_block height req ≡ ok rsps
    → AreBounded rsps
unfolding execute_replay
small_gas height req rsps e = small_responses _ _ req.msgs 0 rsps e

replay_block-EndsReverted_example :
    EndsReverted (msg_of (1 ∷ []) ∷ msg_of (2 ∷ []) ∷ []) (receipt 0 21 ∷ patched ∷ [])
replay_block-EndsReverted_example =
    replay_block-EndsReverted keeper (λ height. 0) (node over_limit) (serves over_limit) small_gas
      latest (receipt 0 21 ∷ patched ∷ []) (detail over_limit) (msg_of (1 ∷ []))
      (msg_of (2 ∷ []) ∷ []) (found_detail over_limit) collected replays_over_limit

recorded : get_transaction_receipts_by_block (node succeeded) latest ≡ ok receipts
unfolding get_transaction_receipts_by_block get_block_detail get_block block_receipts
    decoded_receipts transaction_receipts message_receipts message_receipt receipt_of
    contract_address_of price_of
recorded = refl

unpacks : UnpacksAsStated (node succeeded)
unpacks m t e = ground (arith, e)

all_succeeded : AllSucceeded (node succeeded) block.txs succeeded
all_succeeded = (refl, refl, (λ ms d e. cc), (refl, refl, (λ ms d e. cc), tt))

answers :
    (msgs : List EthMsg)
    → collect (node succeeded) block.txs succeeded ≡ ok (false, msgs)
    → (node succeeded).replay_block (context_height 5) (request (detail succeeded) msgs)
      ≡ ok (responses receipts)
unfolding collect ethereum_msgs execute_replay replay_all replay_msg
answers msgs e =
    let all = (node succeeded).replay_block (context_height 5) in
    subst (λ (w : List EthMsg). all (request (detail succeeded) w) ≡ ok (responses receipts))
      (ap (λ (w : Bool × List EthMsg). w.1) (ok-injective e)) refl

replay_block-recorded_example : replay_block (node succeeded) latest true ≡ ok receipts
replay_block-recorded_example =
    replay_block-recorded (node succeeded) latest (detail succeeded) true receipts unpacks
      (found_detail succeeded) all_succeeded recorded answers
