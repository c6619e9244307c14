-- ===== src/Htlc/Environment.antt =====
-- What the htlc keeper takes from outside the repository: the store and the bank of the SDK, the
-- codec, SHA-256, account addresses, and `types.GetHTLCKey`, which the package calls and does not
-- define.
use cosmos_swap.Prelude.{ℕ, ◌≡◌, ◌≢◌, ◌↔◌, Bool, true, Option, some, List, [], Bytes}
use cosmos_swap.Sdk.{KvStore, KvLaws, Bank, BankLaws}
use cosmos_swap.Htlc.Types.{Htlc, Event, key_next_htlc_id}

pub record Platform : Type 1 where
  pub kv : KvStore
  pub bank : Bank
  pub htlc_key : ℕ → Bytes
  -- `MustMarshal`, and `MustUnmarshal`, which panics (`none`) on bytes that do not decode
  pub marshal : Htlc → Bytes
  pub unmarshal : Bytes → Option Htlc
  pub sha256 : Bytes → Bytes
  -- `AccAddress.Equals` and `AccAddress.Empty`
  pub addr_equals : Bytes → Bytes → Bool
  pub addr_empty : Bytes → Bool

pub record PlatformLaws (p : Platform) : Type 0 where
  pub kv_laws : KvLaws p.kv
  pub bank_laws : BankLaws p.bank
  pub unmarshal-marshal : (h : Htlc) → p.unmarshal (p.marshal h) ≡ some h
  pub htlc_key_injective : (i j : ℕ) → p.htlc_key i ≡ p.htlc_key j → i ≡ j
  pub htlc_key-ne-next : (i : ℕ) → p.htlc_key i ≢ key_next_htlc_id
  pub addr_equals_iff : (a b : Bytes) → (p.addr_equals a b ≡ true) ↔ (a ≡ b)
  pub addr_empty_iff : (a : Bytes) → (p.addr_empty a ≡ true) ↔ (a ≡ [])

-- The state that a transaction of the module reads and writes.
pub record State (p : Platform) : Type 0 where
  pub store : p.kv.Store
  pub ledger : p.bank.Ledger
  pub events : List Event
