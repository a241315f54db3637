-- ===== src/Tx/Mint/Permit.antt =====
-- actions/mint.ts: the mint by EIP-2612 permits, and the choice between the two ways.
use etf.Base.{
  ℕ, ◌+◌, String, Bool, true, false, Option, none, some, List, [], ◌∷◌, ◌++◌, map, length, ◌==◌,
  if◌then◌else◌,
}
use etf.Base.Dict.{Dict, get}
use etf.Base.Results.{Result, ok, err, ◌>>=◌, or_else}
use etf.Base.Text.{◌<>◌, show_nat, to_lower}
use etf.Tx.{Arg, StepKind, PermitStruct, SignStep, PlanStep, ActionResult, TokenMeta, Need}
use etf.Tx.Approvals.{meta_or}
use etf.Tx.Summaries.{mint_summary}
use etf.Tx.Mint.{
  VaultType, Constituent, MintDeps, load_basket, compute_deposits, create_arg_for,
  read_flat_create_fee, fee_approval_steps, build_mint, vault_label,
}

abbrev pub permit_deadline : ℕ → ℕ
permit_deadline now_sec = now_sec + 3600

abbrev pub sign_step :
    MintDeps → String → String → Dict TokenMeta → Need → String → ℕ → String → SignStep
sign_step deps vault account metas d name nonce version =
    let symbol = (meta_or (get metas (to_lower d.token)) d.token).symbol in
    record {
      token = d.token;
      typed_data = record {
        name = name;
        version = version;
        chain_id = deps.chain_id;
        verifying_contract = d.token;
        owner = account;
        spender = vault;
        value = d.amount;
        nonce = nonce;
        deadline = permit_deadline deps.now_sec;
      };
      label = "Sign " <> (symbol <> " permit");
      summary =
          "Authorize "
          <> (vault
              <> (" to pull "
                  <> (show_nat d.amount <> (" " <> (symbol <> " via EIP-2612 (no approval tx)")))));
    }

-- `Promise.all` over the deposits: a token whose name or nonce cannot be read fails the plan; one
-- without a version has version 1.
unfoldable pub sign_steps :
    MintDeps → String → String → Dict TokenMeta → List Need → Result (List SignStep)
sign_steps deps vault account metas [] = ok []
sign_steps deps vault account metas (d ∷ ds) = do
  name ← deps.permit_name d.token
  nonce ← deps.permit_nonce d.token account
  rest ← sign_steps deps vault account metas ds
  ok (
      sign_step deps vault account metas d name nonce (or_else (deps.permit_version d.token) "1")
      ∷ rest)

unfoldable pub build_mint_permit : MintDeps → String → String → ℕ → Result ActionResult
unfolding compute_deposits read_flat_create_fee fee_approval_steps sign_steps
build_mint_permit deps vault account units = do
  b ← load_basket deps vault
  deposits ← compute_deposits deps b units
  fee_approval ←
      fee_approval_steps deps.approvals account vault (read_flat_create_fee deps vault b.vault_type)
  metas ← deps.approvals.get_many (map (λ (d : Need). d.token) deposits)
  signs ← sign_steps deps vault account metas deposits
  ok (record {
    steps = map PlanStep.built fee_approval ++ map PlanStep.sign712 signs;
    finalize = some ("/baskets/" <> (vault <> "/tx/mint/finalize"));
  })

-- A signature as the client posts it; its token is not in the struct.
pub record PermitPost : Type 0 where
  pub token : String
  pub permit : PermitStruct

abbrev pub many : List PermitStruct → String
many ps = if length ps == 1 then "" else "s"

unfoldable pub finalize_mint_permit : MintDeps → String → ℕ → List PermitPost → Result ActionResult
unfolding create_arg_for
finalize_mint_permit deps vault units posts = do
  b ← load_basket deps vault
  let structs = map (λ (p : PermitPost). p.permit) posts
  let create_arg = create_arg_for b units
  ok (record {
    steps =
        PlanStep.built (record {
          kind = StepKind.call;
          to = vault;
          data_ = record {
            abi = "BasketVault";
            function_name = "createWithPermit";
            args = Arg.uint create_arg ∷ Arg.permits structs ∷ [];
          };
          value = "0";
          contract_name = vault_label b.vault_type;
          label = mint_summary create_arg b.symbol;
          summary =
              "Mint "
              <> (show_nat create_arg
                  <> (" "
                      <> (b.symbol
                          <> (" in-kind via "
                              <> (show_nat (length structs)
                                  <> (" EIP-2612 permit" <> (many structs <> " (1 tx)")))))));
          needs_prior_approval = some false;
        })
        ∷ [];
    finalize = none;
  })

abbrev pub answered : Result ℕ → Bool
answered (ok n) = true
answered (err e) = false

unfoldable pub every_nonce : MintDeps → String → List String → Bool
every_nonce deps account [] = true
every_nonce deps account (t ∷ ts) =
    let rest = every_nonce deps account ts in
    if answered (deps.permit_nonce t account) then rest else false

unfoldable pub supports_permit : MintDeps → String → List String → Bool
unfolding every_nonce
supports_permit deps account [] = false
supports_permit deps account (t ∷ ts) = every_nonce deps account (t ∷ ts)

pub data MintMode : Type 0 where
  permit approve : MintMode

abbrev pub is_permit_eligible : VaultType → Bool
is_permit_eligible VaultType.basket = true
is_permit_eligible VaultType.managed = true
is_permit_eligible _ = false

abbrev pub build_either : MintDeps → String → String → ℕ → Bool → Result ActionResult
build_either deps vault account units true = build_mint_permit deps vault account units
build_either deps vault account units false = build_mint deps vault account units

unfoldable pub build_mint_any :
    MintDeps → String → String → ℕ → Option MintMode → Result ActionResult
unfolding build_mint_permit supports_permit
build_mint_any deps vault account units (some MintMode.approve) =
    build_mint deps vault account units
build_mint_any deps vault account units _ = do
  b ← load_basket deps vault
  build_either deps vault account units (
      if is_permit_eligible b.vault_type
      then supports_permit deps account (map (λ (c : Constituent). c.token) b.constituents)
      else false)
