-- ===== src/Precompiles/Ica.antt =====
-- x/cronos/keeper/precompiles/ica.go: a contract of the EVM registers, asks for and uses the interchain
-- accounts that it owns. The events are left out.
use cosmos_swap.Prelude.{
  ℕ, ◌+◌, ◌*◌, ◌%◌, Bool, true, false, Option, none, some, List, [], ◌∷◌, ◌++◌, String, Bytes,
  codes, length, u64_mod, if◌then◌else◌, Result, ok, err,
}
use cosmos_swap.Precompiles.Input.{method_id}
pub mod Owner

pub data Method : Type 0 where
  register_account query_account submit_msgs other : Method

pub data Error : Type 0 where
  panic unknown_method not_readonly bad_arguments no_active_channel : Error
  external : String → Error

-- The ABI, the codes of addresses, and the keeper of the controller with its state. A native action that
-- fails is undone.
pub record Platform : Type 1 where
  pub State : Type 0
  pub hex : Bytes → Bytes  -- `common.Address.String`
  pub acc_string : Bytes → Bytes
  pub method_by_id : Bytes → Option Method
  pub unpack_register : Bytes → Option (Bytes × Bytes × ℕ)
  pub unpack_query : Bytes → Option (Bytes × Bytes)
  pub unpack_submit : Bytes → Option (Bytes × Bytes × ℕ)
  pub pack_true : Bytes
  pub pack_address : Bytes → Bytes
  pub pack_sequence : ℕ → Bytes
  pub write_cost_per_byte : ℕ
  -- `RegisterInterchainAccount` of an owner, a connection, a version and an ordering
  pub register : Bytes → Bytes → Bytes → ℕ → State → Result String State
  pub interchain_account : Bytes → Bytes → State → Result String Bytes
  -- `SendTx` of an owner, a connection, a timeout, and the data and memo of the packet
  pub send_tx : Bytes → Bytes → ℕ → Bytes → Bytes → State → Result String (ℕ × State)
  pub port_id : Bytes → Result String Bytes  -- `NewControllerPortID`
  pub active_channel : Bytes → Bytes → State → Option Bytes

module _ (p : Platform) where
  -- The gas of a method, given the parameter `MaxCallbackGas`.
  abbrev pub method_gas : ℕ → Method → ℕ
  method_gas callback register_account = 300_000
  method_gas callback query_account = 100_000
  method_gas callback submit_msgs = (300_000 + callback) % u64_mod
  method_gas callback other = 0

  abbrev pub gas_of : ℕ → ℕ → Option Method → ℕ
  gas_of callback base none = base
  gas_of callback base (some m) = (method_gas callback m + base) % u64_mod

  abbrev pub gas_of_input : ℕ → ℕ → Option (Bytes × Bytes) → Option ℕ
  gas_of_input callback base none = none
  gas_of_input callback base (some (id, args)) = some (gas_of callback base (p.method_by_id id))

  -- `RequiredGas`; none is the panic of an input shorter than four bytes.
  unfoldable pub required_gas : ℕ → Bytes → Option ℕ
  required_gas callback input =
      gas_of_input callback (length input * p.write_cost_per_byte % u64_mod) (method_id input)

  abbrev pub registered : Result String p.State → Result Error (Bytes × p.State)
  registered (ok s) = ok (p.pack_true, s)
  registered (err e) = err (external e)

  unfoldable pub run_register :
      Bytes → Option (Bytes × Bytes × ℕ) → p.State → Result Error (Bytes × p.State)
  run_register caller none s = err bad_arguments
  run_register caller (some (connection, version, ordering)) s =
      registered (p.register (p.acc_string caller) connection version ordering s)

  abbrev pub answered : p.State → Result String Bytes → Result Error (Bytes × p.State)
  answered s (ok address) = ok (p.pack_address address, s)
  answered s (err e) = err (external e)

  unfoldable pub run_query : Option (Bytes × Bytes) → p.State → Result Error (Bytes × p.State)
  run_query none s = err bad_arguments
  run_query (some (connection, account)) s =
      answered s (p.interchain_account (p.acc_string account) connection s)

  abbrev pub memo : Bytes → Bytes
  memo caller = codes "{\"src_callback\": {\"address\": \"" ++ p.hex caller ++ codes "\"}}"

  abbrev pub with_channel : ℕ → p.State → Option Bytes → Result Error (Bytes × p.State)
  with_channel seq s none = err no_active_channel
  with_channel seq s (some channel) = ok (p.pack_sequence seq, s)

  abbrev pub with_port : ℕ → Bytes → p.State → Result String Bytes → Result Error (Bytes × p.State)
  with_port seq connection s (err e) = err (external e)
  with_port seq connection s (ok port) = with_channel seq s (p.active_channel connection port s)

  abbrev pub sent : Bytes → Bytes → Result String (ℕ × p.State) → Result Error (Bytes × p.State)
  sent owner connection (err e) = err (external e)
  sent owner connection (ok (seq, s)) = with_port seq connection s (p.port_id owner)

  unfoldable pub run_submit :
      Bytes → Option (Bytes × Bytes × ℕ) → p.State → Result Error (Bytes × p.State)
  run_submit caller none s = err bad_arguments
  run_submit caller (some (connection, msgs, timeout)) s =
      sent (p.acc_string caller) connection
        (p.send_tx (p.acc_string caller) connection (timeout % u64_mod) msgs (memo caller) s)

  abbrev pub run_method :
      Bool → Bytes → Bytes → Option Method → p.State → Result Error (Bytes × p.State)
  run_method readonly caller args none s = err unknown_method
  run_method readonly caller args (some register_account) s =
      if readonly then err not_readonly else run_register caller (p.unpack_register args) s
  run_method readonly caller args (some query_account) s = run_query (p.unpack_query args) s
  run_method readonly caller args (some submit_msgs) s =
      if readonly then err not_readonly else run_submit caller (p.unpack_submit args) s
  run_method readonly caller args (some other) s = err unknown_method

  abbrev pub run_input :
      Bool → Bytes → Option (Bytes × Bytes) → p.State → Result Error (Bytes × p.State)
  run_input readonly caller none s = err panic
  run_input readonly caller (some (id, args)) s =
      run_method readonly caller args (p.method_by_id id) s

  -- `Run`
  unfoldable pub run : Bool → Bytes → Bytes → p.State → Result Error (Bytes × p.State)
  run readonly caller input s = run_input readonly caller (method_id input) s
