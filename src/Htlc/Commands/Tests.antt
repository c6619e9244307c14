-- ===== src/Htlc/Commands/Tests.antt =====
-- Runs of the commands on concrete arguments, and the theorem about them applied there.
use cosmos_swap.Prelude.{
  ◌+◌, ◌≡◌, refl, some, [], ◌∷◌, Bytes, codes, bytes_beq, uint64, put_uint64, decimal,
  if◌then◌else◌, ok, err, arith,
}
use cosmos_swap.Prelude.Int.{pos}
use cosmos_swap.Prelude.Map.{lookup, insert}
use cosmos_swap.Prelude.Time.{unix}
use cosmos_swap.Prelude.Strconv.{parse_uint, parse_int, range_error, syntax_error}
use cosmos_swap.Sdk.Example.Ledger.{base_denom}
use cosmos_swap.Htlc.{
  MsgCreateHtlc, MsgClaimHtlc, State, create_msg, set_htlc, get_next_htlc_id,
  increment_next_htlc_id,
}
use cosmos_swap.Htlc.View.{stored, next_id}
use cosmos_swap.Htlc.Example.{platform, platform_laws, encode, decode, toy_hash, is_empty}
use cosmos_swap.Htlc.Handlers.{new_htlc}
use cosmos_swap.Htlc.Msgs.{validate_create, validate_refund}
use cosmos_swap.Htlc.Solvency.{IsSound}
use cosmos_swap.Htlc.Transactions.{create, claim, deliver, run}
use cosmos_swap.Htlc.Commands.{
  Client, number, lock_length, create_htlc_cmd, claim_htlc_cmd, refund_htlc_cmd,
}
use cosmos_swap.Htlc.Commands.Exchange.{created-claimed}

abbrev alice : Bytes
alice = 1 ∷ []

abbrev bob : Bytes
bob = 2 ∷ []

abbrev secret : Bytes
secret = codes "secret"

abbrev client_of : Bytes → Client
client_of address = record {
  from_address = ok address;
  acc_from_bech32 = λ text. ok text;
  parse_coins = λ text. ok (record { denom = base_denom; amount = pos 50 } ∷ []);
  now = pos 100;
}

abbrev start : State platform
start = record { store = []; ledger = λ a. if bytes_beq alice a then 100 else 0; events = [] }

start-IsSound : IsSound platform start 1
unfolding stored next_id lookup
start-IsSound = record {
  counter = refl;
  keyed = λ i h e. cc;
  fresh = λ i l. refl;
  valid = λ i h e. cc;
  settled_once = λ i h e. cc;
  funded = λ d. omega arith;
}

abbrev lock : MsgCreateHtlc
lock = record {
  sender = alice;
  receiver = bob;
  amount = record { denom = base_denom; amount = pos 50 } ∷ [];
  hash_lock = toy_hash secret;
  time_lock = pos 200;
}

made :
    create_htlc_cmd platform
      (client_of alice)
      (bob ∷ codes "50stake" ∷ toy_hash secret ∷ codes "200" ∷ [])
    ≡ ok lock
unfolding create_htlc_cmd validate_create parse_int is_empty
made = refl

refused :
    create_htlc_cmd platform (client_of alice) (bob ∷ codes "50stake" ∷ secret ∷ codes "200" ∷ [])
    ≡ err lock_length
unfolding create_htlc_cmd validate_create parse_int is_empty
refused = refl

negative_id :
    refund_htlc_cmd platform (client_of alice) (codes "-1" ∷ []) ≡ err (number syntax_error)
unfolding refund_htlc_cmd validate_refund parse_uint is_empty
negative_id = refl

large_id :
    refund_htlc_cmd platform (client_of alice) (codes "18446744073709551616" ∷ [])
    ≡ err (number range_error)
unfolding refund_htlc_cmd validate_refund parse_uint is_empty
large_id = refl

largest : parse_uint (codes "18446744073709551615") ≡ ok 18446744073709551615
unfolding parse_uint
largest = refl

opened :
    stored platform (run platform ((unix (pos 120), create lock) ∷ []) start) 1
    ≡ some (new_htlc 1 alice bob lock.amount lock.hash_lock (pos 200))
unfolding run deliver validate_create create_msg get_next_htlc_id set_htlc increment_next_htlc_id
    lookup insert encode decode uint64 put_uint64 bytes_beq stored is_empty
opened = refl

abbrev after_creation : State platform
after_creation = run platform ((unix (pos 120), create lock) ∷ []) start

created-claimed_example :
    (stored platform (deliver platform (unix (pos 120)) (create lock) start) 1
      ≡ some (new_htlc 1 alice bob lock.amount lock.hash_lock (pos 200)))
    × (c : MsgClaimHtlc) × (claim_htlc_cmd platform (client_of bob) (decimal 1 ∷ secret ∷ [])
        ≡ ok c)
    × ((d : Bytes)
        → platform.bank.balance
            (deliver platform (unix (pos 150)) (claim c) after_creation).ledger
            bob
            d
          ≡ platform.bank.balance after_creation.ledger bob d
            + platform.bank.amount_of lock.amount d)
unfolding bytes_beq
created-claimed_example =
    created-claimed platform platform_laws start 1 lock _ (client_of alice) (client_of bob) bob
      (codes "50stake") (toy_hash secret) (codes "200") secret [] (unix (pos 120)) (unix (pos 150))
      start-IsSound (omega arith) (omega arith) made (λ e. cc) (omega arith) refl tt opened refl
      refl (λ e. cc) refl refl (λ e. cc)
