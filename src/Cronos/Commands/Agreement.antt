-- ===== src/Cronos/Commands/Agreement.antt =====
-- The proposal and the message that change the token mapping, made of the same arguments and flags.
use cosmos_swap.Prelude.{
  ℕ, ◌≡◌, ◌≢◌, refl, ap, sym, ◌∙◌, some, true, false, [], ◌∷◌, Bytes, ok, arith,
}
use cosmos_swap.Cronos.{
  Platform, State, MsgUpdateTokenMapping, TokenMappingChangeProposal, is_valid_coin_denom,
  register_source, update_foreign, register_or_update_token_mapping, handle_proposal, proposed,
  validate_token_mapping,
}
use cosmos_swap.Cronos.Commands.{
  Client, contract_of, new_proposal, symbol_and_decimal, token_mapping_change_cmd,
  update_token_mapping_cmd,
}

-- A checksummed address text is a hex address, and names the address that it is made of.
pub record HexLaws (p : Platform) : Type 0 where
  pub hex_to_address-address_hex : (a : p.Address) → p.hex_to_address (p.address_hex a) ≡ a
  pub is_hex_address-address_hex : (a : p.Address) → p.is_hex_address (p.address_hex a) ≡ true
  pub is_hex_address-nil : p.is_hex_address [] ≡ false

module _ (p : Platform) (laws : HexLaws p) where
  hex_nonempty : (text : Bytes) → p.is_hex_address text ≡ true → text ≢ []
  hex_nonempty text h e = cc (laws.is_hex_address-nil)

  contract_of-some :
      (text : Bytes)
      → p.is_hex_address text ≡ true
      → contract_of p text ≡ some (p.hex_to_address text)
  contract_of-some [] h = absurd (hex_nonempty [] h refl)
  contract_of-some (b ∷ bs) h = refl

  handle_proposal-valid :
      (content : TokenMappingChangeProposal) (t : State p)
      → is_valid_coin_denom content.denom ≡ true
      → handle_proposal p content t ≡ register_or_update_token_mapping p (proposed p content) t
  unfolding handle_proposal
  handle_proposal-valid content t h = rw h refl

  -- Of a contract that is a hex address only the address matters.
  register-same :
      (denom symbol a b from from' : Bytes) (decimal : ℕ) (t : State p)
      → p.is_hex_address a ≡ true
      → p.is_hex_address b ≡ true
      → p.hex_to_address a ≡ p.hex_to_address b
      → register_or_update_token_mapping p
          (record {
            sender = from;
            denom = denom;
            contract = a;
            symbol = symbol;
            decimal = decimal;
          })
          t
        ≡ register_or_update_token_mapping p
            (record {
              sender = from';
              denom = denom;
              contract = b;
              symbol = symbol;
              decimal = decimal;
            })
            t
  unfolding register_or_update_token_mapping register_source update_foreign
  register-same denom symbol [] b from from' decimal t h k e = absurd (hex_nonempty [] h refl)
  register-same denom symbol (x ∷ xs) [] from from' decimal t h k e =
      absurd (hex_nonempty [] k refl)
  register-same denom symbol (x ∷ xs) (y ∷ ys) from from' decimal t h k e = rw (h, k, e) refl

  module _ (c : Client) (denom contract : Bytes) (s : State p) where
    -- What the message command's message says, and what was checked.
    update_token_mapping_cmd_effect :
        (msg : MsgUpdateTokenMapping)
        → (update_token_mapping_cmd p c (denom ∷ contract ∷ []) s).0 ≡ ok msg
        → (msg.denom ≡ denom)
          × (msg.contract ≡ contract)
          × (is_valid_coin_denom denom ≡ true)
          × (p.is_hex_address contract ≡ true)
          × ((symbol_and_decimal p c denom s).0 ≡ ok (msg.symbol, msg.decimal))
    unfolding update_token_mapping_cmd validate_token_mapping
    update_token_mapping_cmd_effect msg e = ground arith

    token_mapping_change_cmd_effect :
        (content : TokenMappingChangeProposal) (symbol : Bytes) (decimal : ℕ)
        → (token_mapping_change_cmd p c (denom ∷ contract ∷ []) s).0 ≡ ok content
        → (symbol_and_decimal p c denom s).0 ≡ ok (symbol, decimal)
        → content ≡ new_proposal p denom symbol decimal (contract_of p contract)
    unfolding token_mapping_change_cmd
    token_mapping_change_cmd_effect content symbol decimal e h = ground arith

    -- If both commands that change the token mapping succeed with the same arguments and flags, then an
    -- accepted proposal and a permitted message do the same in every state, if the text of an address is a
    -- hex address that names it. The message command succeeds only with a contract that is not empty, if
    -- the empty text is no hex address, so that no message of it removes a mapping.
    pub handle_proposal-message :
        (content : TokenMappingChangeProposal) (msg : MsgUpdateTokenMapping) (t : State p)
        → (token_mapping_change_cmd p c (denom ∷ contract ∷ []) s).0 ≡ ok content
        → (update_token_mapping_cmd p c (denom ∷ contract ∷ []) s).0 ≡ ok msg
        → (msg.contract ≢ [])
          × (handle_proposal p content t ≡ register_or_update_token_mapping p msg t)
    handle_proposal-message content msg t e h =
        let (is_denom, is_contract, valid, hex, flags) = update_token_mapping_cmd_effect msg h in
        let is_content = token_mapping_change_cmd_effect content msg.symbol msg.decimal e flags in
        let address = p.hex_to_address msg.contract in
        let same =
          register-same msg.denom msg.symbol (p.address_hex address) msg.contract [] msg.sender
            msg.decimal t (laws.is_hex_address-address_hex address) (rw is_contract hex)
            (laws.hex_to_address-address_hex address) in
        let content_is =
          is_content
          ∙ ap (new_proposal p denom msg.symbol msg.decimal) (contract_of-some contract hex)
          ∙ rw (is_denom, is_contract) refl in
        (
          λ n. hex_nonempty contract hex (sym is_contract ∙ n),
          rw content_is (handle_proposal-valid _ t (rw is_denom valid) ∙ same),
        )
