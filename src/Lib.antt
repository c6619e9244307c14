-- ===== src/Lib.antt =====
-- A verification of the Go parts of cosmos-swap that decide where money goes: the hashed timelock
-- contracts on the Cosmos side, the cronos module, and the relayer that carries swaps between Cronos
-- and Ethereum.
--
-- The htlc module (x/htlc-com) locks coins of a sender under a hash and a time. The receiver takes
-- them with the preimage up to that time, the sender gets them back from it on. Its messages run as
-- transactions of the Cosmos SDK, over the store and the bank of the SDK.
--   Htlc/Types, Htlc/Environment: types.go, errors.go, keys.go and messages.go; the store, bank,
--     codec, hash and addresses of the SDK are parameters (Sdk/Store, Sdk/BankKeeper), with their
--     documented behaviour as laws. Sdk/Example and Htlc/Example fill them with concrete functions.
--   Htlc/Keeper: x/htlc-com/keeper/keeper.go and msg_server.go. CreateHTLC is `create`, ClaimHTLC
--     `claim`, RefundHTLC `refund`; the state holds the store, the ledger and the events, and a
--     failing method leaves what it has written before it failed.
--   Htlc/Msgs: the ValidateBasic methods. Htlc/Queries: x/htlc-com/keeper/grpc_query.go.
--   Htlc/Transactions: a delivered message passes its stateless checks and its handler or leaves
--     no trace; a history is a list of messages with block times.
--   Htlc/Commands: the commands of x/htlc-com/client/cli/tx.go; Prelude/Strconv: Go's strconv.
--   Htlc/View, Handlers, Sums, Solvency, Payout: what is stored, what each handler has checked and
--     done, and that the account of the module covers the open contracts.
--
-- The relayer (relayer) scans both chains for escrows, turns them into orders, creates the escrow on
-- the other chain and is meant to match orders and withdraw from the escrows.
--   Relayer/Types: the order and its parts, of relayer/pkg/order_manager/manager.go.
--   Relayer/Auction: calculateDutchAuctionPrice. A nil *big.Int is `none`, its use a panic.
--   Relayer/Orders: what the handlers do to one order, and the transactions that they send; the
--     answers of the chains are a function from calls to results.
--   Relayer/Manager: the order manager. Orders are shared by pointer, so the state holds a heap and
--     the map and channels hold positions in it. The goroutines, the tickers and the callers of the
--     manager are events, and a run is any sequence of events. Relayer/Manager/Overlap
--     splits a turn where its handler waits for a chain, and lets the others go on meanwhile.
--   Relayer/Service: the scans and conversions of relayer/cmd/relayer/main.go, with the order types
--     of relayer/pkg/cronos_client and relayer/pkg/ethereum_client.
--   Relayer/Statistics: GetOrderStats of the order manager.
--   Relayer/Clients: the two clients over a node that answers by what it got before, with the wait
--     for a receipt. Relayer/Config: relayer/pkg/config/config.go.
--
-- The cronos module (x/cronos) maps denominations of coins to token contracts of the EVM and converts
-- between the two.
--   Cronos/Types, Cronos/Denoms, Cronos/Environment: types.go and keys.go, the parameters and messages;
--     the SDK, the EVM and the transfer module are parameters. The calls that the keeper makes of
--     them are listed in the state, and answered by a function of the calls before.
--   Cronos/Keeper, Cronos/Admin: keeper.go, params.go, permissions.go and msg_server.go.
--   Cronos/Msgs: stateless checks of messages.go, and proposal_handler.go.
--   Cronos/Evm, Cronos/Ibc, Cronos/Genesis: evm.go, ibc.go and genesis.go.
--   Cronos/Hooks: x/cronos/keeper/evm_hooks.go and x/cronos/keeper/evmhandlers.
--   Cronos/Middleware: x/cronos/middleware, over the application below it. Cronos/Callbacks: those of
--     x/cronos/keeper/keeper.go about packets. Cronos/Queries: x/cronos/keeper/grpc_query.go.
--   Cronos/Transactions: the messages that convert and transfer coins, and histories of them and of
--     the EVM's logs.
--   Cronos/Mapping: the token mapping through its getters, its invariant, and who may change it.
--   Cronos/Backing: what is minted and burnt against the vouchers taken in and given back.
--   Cronos/Logs: what the hook, its handlers and the callbacks may do.
--   Cronos/Migration: x/cronos/migrations/v2/migrate.go. Cronos/Commands: x/cronos/client/cli/tx.go.
--
-- Events: the conversion of native events to logs of the EVM, of x/cronos/events; Events/Decoders:
--   decoders.go of it. Events/Tables: the tables of events.go.
--
-- Rpc: the receipts of a block, of x/cronos/rpc/api.go. Rpc/Receipts: those recorded. Rpc/Replay: those of a
--   replay. Rpc/Execution: the replay in x/cronos/keeper/grpc_query.go. The node, the codecs and the keeper
--   of the EVM are parameters. Sums of gas wrap at 2^64.
--
-- The precompiles (x/cronos/keeper/precompiles) let contracts of the EVM call native modules.
--   Precompiles/Bank: bank.go. Precompiles/Relayer: relayer.go, and exec of utils.go.
--   Precompiles/Ica: ica.go. The ABI, the codec and the keepers are parameters; a native action that
--     fails leaves no trace, so that an error carries no state. Precompiles/Input: the method's id.
--
-- Numbers are unbounded naturals, with the wrap at 2^64 and the conversion to int64 written out where
-- the code has it. Loops run over lists, so that no fuel is needed, but for the wait for a receipt,
-- which gets one tick more than the timeout holds, and for the digits of a number, of which 256 bits
-- have 78 at most. `int64(elapsed.Seconds())` is what the float64 that Go
-- goes through gives: from 2^24 seconds on, the next second for a time just before it; 34 doublings pass the
-- seconds of every duration.
--
-- Not modelled: generated code, the transport of RPC, signing, logging, the ABI bindings of events, what
-- a command line is made of, queries and the rewriting of a genesis on it, configuration files; the
-- contracts in Rust and Solidity.

pub mod Prelude
pub mod Sdk
pub mod Htlc
pub mod Relayer
pub mod Events
pub mod Rpc
pub mod Precompiles
pub mod Cronos
