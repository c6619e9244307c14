-- ===== src/Precompiles/Tests.antt =====
-- Calls of the precompiles on concrete inputs, and the theorems applied there.
use cosmos_swap.Prelude.{
  ℕ, ◌≡◌, ◌+◌, refl, false, none, some, [], ◌∷◌, Bytes, codes, bytes_beq, Result, ok, err,
}
use cosmos_swap.Precompiles.Bank
use cosmos_swap.Precompiles.Relayer
use cosmos_swap.Precompiles.Ica
use cosmos_swap.Precompiles.Example.{Accounts, platform, laws}
use cosmos_swap.Precompiles.Bank.{
  run, run_mint, mint_coins, burn_coins, check_blocked_addr, evm_denom,
}
use cosmos_swap.Precompiles.Bank.Own.{OwnOnly, run-OwnOnly}
use cosmos_swap.Precompiles.Relayer.{exec, net_gas}
use cosmos_swap.Precompiles.Relayer.Caller.{Executes, run-Executes}
use cosmos_swap.Precompiles.Ica.{run_register, memo}
use cosmos_swap.Precompiles.Ica.Owner.{ActsFor, run-ActsFor}

abbrev nothing : Accounts
nothing a d = 0

abbrev caller : Bytes
caller = 5 ∷ []

-- Mint 9 for the account 3.
abbrev input : Bytes
input = 0 ∷ 0 ∷ 0 ∷ 0 ∷ 3 ∷ 9 ∷ []

abbrev ledger_of : Result Bank.Error (Bytes × Accounts) → Accounts
ledger_of (ok (out, l)) = l
ledger_of (err e) = nothing

minted :
    run platform false nothing caller input
    ≡ ok (1 ∷ [], ledger_of (run platform false nothing caller input))
unfolding run run_mint mint_coins check_blocked_addr evm_denom bytes_beq
minted = refl

run-OwnOnly_example :
    OwnOnly platform laws caller nothing (ledger_of (run platform false nothing caller input))
run-OwnOnly_example =
    run-OwnOnly platform laws false nothing (ledger_of (run platform false nothing caller input))
      caller input (1 ∷ []) minted

abbrev server : Relayer.Platform
server = record {
  State = ℕ;
  Msg = Bytes;
  method_by_id = λ id. some Relayer.update_client;
  unpack_input = λ m bz. some bz;
  unmarshal = λ m bz. some bz;
  signers = λ msg. ok (msg ∷ []);
  bytes_to_address = λ bz. bz;
  action = λ m msg s. ok ([], s + 1);
  is_returning = λ bz. none;
  intrinsic_gas = λ bz. 0;
}

executed : Relayer.run server false caller (0 ∷ 0 ∷ 0 ∷ 0 ∷ caller) 7 ≡ ok ([], 8)
unfolding Relayer.run exec bytes_beq
executed = refl

run-Executes_example : (false ≡ false) × Executes server caller 7 [] 8
run-Executes_example = run-Executes server false caller (0 ∷ 0 ∷ 0 ∷ 0 ∷ caller) [] 7 8 executed

abbrev controller : Ica.Platform
controller = record {
  State = ℕ;
  hex = λ a. a;
  acc_string = λ a. a;
  method_by_id = λ id. some Ica.register_account;
  unpack_register = λ bz. some (codes "connection-0", codes "v1", 1);
  unpack_query = λ bz. none;
  unpack_submit = λ bz. none;
  pack_true = 1 ∷ [];
  pack_address = λ a. a;
  pack_sequence = λ n. n ∷ [];
  write_cost_per_byte = 30;
  register = λ owner connection version ordering s. ok (s + 1);
  interchain_account = λ owner connection s. err "none";
  send_tx = λ owner connection timeout msgs note s. ok (1, s);
  port_id = λ owner. ok owner;
  active_channel = λ connection port s. none;
}

acted : Ica.run controller false caller (0 ∷ 0 ∷ 0 ∷ 0 ∷ []) 7 ≡ ok (1 ∷ [], 8)
unfolding Ica.run run_register
acted = refl

run-ActsFor_example : ActsFor controller caller (memo controller caller) 7 8
run-ActsFor_example = run-ActsFor controller caller 7 false (0 ∷ 0 ∷ 0 ∷ 0 ∷ []) (1 ∷ []) 8 acted
