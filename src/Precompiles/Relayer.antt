-- ===== src/Precompiles/Relayer.antt =====
-- x/cronos/keeper/precompiles/relayer.go and utils.go: the messages of IBC that a contract of the EVM
-- may send in its own name. The events and the logger are left out.
use cosmos_swap.Prelude.{
  ℕ, ◌+◌, ◌-◌, ◌*◌, ◌%◌, Bool, true, false, not, Option, none, some, List, [], ◌∷◌, String, Bytes,
  bytes_eq, nat_eq, ◌==◌, length, ltb, u64_mod, if◌then◌else◌, Result, ok, err,
}
use cosmos_swap.Precompiles.Input.{method_id}
pub mod Caller
pub mod Gas

-- The methods of `irelayerABI`.
pub data Method : Type 0 where
  create_client update_client upgrade_client submit_misbehaviour : Method
  connection_open_init connection_open_try connection_open_ack connection_open_confirm : Method
  channel_open_init channel_open_try channel_open_ack channel_open_confirm : Method
  channel_close_init channel_close_confirm : Method
  recv_packet acknowledgement timeout timeout_on_close : Method
  register_payee register_counterparty_payee : Method

pub data Error : Type 0 where
  not_readonly input_too_short unknown_method bad_arguments bad_message multi_signers : Error
  not_authenticated : Error
  external : String → Error

-- The codec, the ABI, and the IBC keeper, which changes a state of its own. A native action that fails
-- is undone.
pub record Platform : Type 1 where
  pub State : Type 0
  pub Msg : Type 0
  pub method_by_id : Bytes → Option Method
  pub unpack_input : Method → Bytes → Option Bytes  -- the one argument of each method
  pub unmarshal : Method → Bytes → Option Msg
  pub signers : Msg → Result String (List Bytes)  -- `GetMsgV1Signers`
  pub bytes_to_address : Bytes → Bytes
  pub action : Method → Msg → State → Result String (Bytes × State)  -- with the marshalled response
  -- whether the token of a `MsgRecvPacket` comes back to this chain; none if the bytes do not decode
  pub is_returning : Bytes → Option Bool
  pub intrinsic_gas : Bytes → ℕ

-- `relayerGasRequiredByMethod`
unfoldable pub method_gas : Method → ℕ
method_gas create_client = 117_462
method_gas update_client = 111_894
method_gas upgrade_client = 400_000
method_gas connection_open_init = 19_755
method_gas connection_open_try = 38_468
method_gas connection_open_ack = 29_603
method_gas connection_open_confirm = 12_865
method_gas channel_open_init = 68_701
method_gas channel_open_try = 70_562
method_gas channel_open_ack = 22_127
method_gas channel_open_confirm = 21_190
method_gas channel_close_confirm = 31_199
method_gas recv_packet = 144_025
method_gas acknowledgement = 61_781
method_gas timeout = 104_283
method_gas register_payee = 38_000
method_gas register_counterparty_payee = 37_000
method_gas submit_misbehaviour = 100_000
method_gas channel_close_init = 100_000
method_gas timeout_on_close = 100_000

abbrev pub is_known : Method → Bool
is_known submit_misbehaviour = false
is_known register_payee = false
is_known register_counterparty_payee = false
is_known _ = true

-- `max(0, total - intrinsic)` on 64 bits.
unfoldable pub net_gas : ℕ → ℕ → ℕ → ℕ
net_gas required base intrinsic =
    let total = (required + base) % u64_mod in if ltb total intrinsic then 0 else total - intrinsic

module _ (p : Platform) where
  abbrev pub packet_gas : Option Bool → Option ℕ
  packet_gas none = none
  packet_gas (some returning) = some (if returning then 51_705 else 144_025)

  abbrev pub packet_gas_of : Option Bytes → Option ℕ
  packet_gas_of none = none
  packet_gas_of (some msg) = packet_gas (p.is_returning msg)

  unfoldable pub table_gas : Method → Bytes → Option ℕ
  table_gas recv_packet args = packet_gas_of (p.unpack_input recv_packet args)
  table_gas m args = some (method_gas m)

  abbrev pub net_of : Bytes → Option ℕ → Option ℕ
  net_of input none = none
  net_of input (some required) =
      some (net_gas required (length input * 10 % u64_mod) (p.intrinsic_gas input))

  abbrev pub gas_of_method : Bytes → Bytes → Option Method → Option ℕ
  gas_of_method input args none = none
  gas_of_method input args (some m) = net_of input (table_gas m args)

  abbrev pub gas_of_input : Bytes → Option (Bytes × Bytes) → Option ℕ
  gas_of_input input none = none
  gas_of_input input (some (id, args)) = gas_of_method input args (p.method_by_id id)

  -- `RequiredGas`; none is one of its panics, and `authtypes.DefaultTxSizeCostPerByte` is 10.
  unfoldable pub required_gas : Bytes → Option ℕ
  required_gas input = gas_of_input input (method_id input)

  abbrev pub act : Result String (Bytes × p.State) → Result Error (Bytes × p.State)
  act (ok r) = ok r
  act (err e) = err (external e)

  -- The one signer of the message must be the calling contract.
  abbrev pub authenticate :
      Bytes → List Bytes → Result Error (Bytes × p.State) → Result Error (Bytes × p.State)
  authenticate caller (signer ∷ []) rest =
      if p.bytes_to_address signer == caller then rest else err not_authenticated
  authenticate caller _ rest = err multi_signers

  abbrev pub with_signers :
      Bytes
      → Result String (List Bytes)
      → Result Error (Bytes × p.State)
      → Result Error (Bytes × p.State)
  with_signers caller (err e) rest = err (external e)
  with_signers caller (ok signers) rest = authenticate caller signers rest

  -- `exec`, of a method and its decoded message
  unfoldable pub exec : Bytes → Method → Option p.Msg → p.State → Result Error (Bytes × p.State)
  exec caller m none s = err bad_message
  exec caller m (some msg) s = with_signers caller (p.signers msg) (act (p.action m msg s))

  abbrev pub exec_input : Bytes → Method → Option Bytes → p.State → Result Error (Bytes × p.State)
  exec_input caller m none s = err bad_arguments
  exec_input caller m (some input) s =
      if is_known m then exec caller m (p.unmarshal m input) s else err unknown_method

  abbrev pub run_method : Bytes → Bytes → Option Method → p.State → Result Error (Bytes × p.State)
  run_method caller args none s = err unknown_method
  run_method caller args (some m) s = exec_input caller m (p.unpack_input m args) s

  abbrev pub run_input : Bytes → Option (Bytes × Bytes) → p.State → Result Error (Bytes × p.State)
  run_input caller none s = err input_too_short
  run_input caller (some (id, args)) s = run_method caller args (p.method_by_id id) s

  -- `Run`
  unfoldable pub run : Bool → Bytes → Bytes → p.State → Result Error (Bytes × p.State)
  run readonly caller input s =
      if readonly then err not_readonly else run_input caller (method_id input) s
