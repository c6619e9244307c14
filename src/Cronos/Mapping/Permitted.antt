-- ===== src/Cronos/Mapping/Permitted.antt =====
-- Who may change the token mapping.
use Prim.Native.Nat.{bit_and}
use cosmos_swap.Prelude.{
  ℕ, ◌≡◌, ◌≢◌, ◌⊎◌, inl, inr, true, [], ◌∷◌, Bytes, bytes_eq, bytes_beq_iff, ◌==◌, nat_eq,
  nat_beq_iff, ok, arith, Result-cases, Bool-cases,
}
use cosmos_swap.Cronos.{
  Platform, State, Params, MsgUpdateTokenMapping, get_params, get_permissions, has_permission,
  any_has_permission, update_token_mapping, can_change_token_mapping,
}

module _ (p : Platform) (s : State p) where
  -- The account is the admin of the parameters, or has every permission asked for.
  abbrev pub IsPermitted : Bytes → ℕ → Type 0
  IsPermitted account check =
      (q : Params) × ((get_params p s).0 ≡ ok q)
      × ((q.cronos_admin ≡ p.acc_string account)
          ⊎ ((n : ℕ) × ((get_permissions p account s).0 ≡ ok n) × (bit_and n check ≡ check)))

  get_params-reads : (get_params p s).1 ≡ s
  unfolding get_params
  get_params-reads = ground arith

  has_permission-IsPermitted :
      (account : Bytes) (check : ℕ)
      → check ≢ 0
      → (has_permission p (account ∷ []) check s).0 ≡ ok true
      → IsPermitted account check
  unfolding has_permission any_has_permission
  has_permission-IsPermitted account check h e = elim (Result-cases (get_params p s).0) [
    | inl (q, y) ↦ elim (Result-cases (get_permissions p account s).0) [
      | inl (n, z) ↦ elim (Bool-cases (q.cronos_admin == p.acc_string account)) [
        | inl t ↦ (q, y, inl ((bytes_beq_iff q.cronos_admin (p.acc_string account)).0 t))
        | inr f ↦ (
          q,
          y,
          inr (n, z, ground (arith, get_params-reads, nat_beq_iff (bit_and n check) check)),
        )
      ]
      | inr (x, z) ↦ (
        q,
        y,
        inl (ground (arith, get_params-reads, bytes_beq_iff q.cronos_admin (p.acc_string account))),
      )
    ]
    | inr (x, y) ↦ absurd (ground (arith, get_params-reads))
  ]

  -- A message to update the token mapping succeeds only for a sender that is the admin, or has the
  -- permission to change the mapping.
  pub update_token_mapping-IsPermitted :
      (msg : MsgUpdateTokenMapping)
      → (update_token_mapping p msg s).0 ≡ ok tt
      → (sender : Bytes) × (p.acc_from_bech32 msg.sender ≡ ok sender)
        × IsPermitted sender (can_change_token_mapping p)
  unfolding update_token_mapping
  update_token_mapping-IsPermitted msg e = elim (Result-cases (p.acc_from_bech32 msg.sender)) [
    | inl (sender, y) ↦ (
      sender,
      y,
      has_permission-IsPermitted sender (can_change_token_mapping p) (λ z. cc) (ground arith),
    )
    | inr (x, y) ↦ absurd (ground arith)
  ]
