-- ===== src/Tx/Mint.antt =====
-- actions/mint.ts: the in-kind mint, by approvals or by permits. A decimal text of a request or of the
-- database is the number it spells.
pub mod Quote
pub mod Permit
pub mod Ready
pub mod Choice
use etf.Base.{
  ℕ, ◌*◌, String, Bool, true, false, ◌||◌, Option, none, some, List, [], ◌∷◌, ◌++◌, map, length,
  ltb, ◌==◌, if◌then◌else◌,
}
use etf.Base.Results.{Result, ok, err, ◌>>=◌, or_throw, or_else}
use etf.Base.Text.{◌<>◌, show_nat}
use etf.Tx.{Arg, Call, StepKind, BuiltStep, PlanStep, ActionResult, Need, ApprovalDeps}
use etf.Tx.Approvals.{build_approval_steps}
use etf.Tx.Summaries.{mint_summary}

pub data VaultType : Type 0 where
  basket managed committed rebalance registry : VaultType

pub record Constituent : Type 0 where
  pub token : String
  pub unit_qty : ℕ

pub record BasketRow : Type 0 where
  pub vault_address : String
  pub symbol : String
  pub unit_size : ℕ
  pub vault_type : VaultType
  pub constituents : List Constituent

-- What the builders read: the database, and views of the vault and of the tokens.
pub record MintDeps : Type 0 where
  pub approvals : ApprovalDeps
  pub find_basket : String → Option BasketRow
  pub latest_price : String → Option ℕ
  pub fee_token : String → Result String
  pub flat_create_fee : String → Result ℕ
  pub preview_create : String → ℕ → Result (List String × List ℕ)
  pub permit_name : String → Result String
  pub permit_nonce : String → String → Result ℕ
  pub permit_version : String → Result String
  pub chain_id : ℕ
  pub now_sec : ℕ

abbrev pub is_share_based : VaultType → Bool
is_share_based VaultType.rebalance = true
is_share_based _ = false

unfoldable pub create_arg_for : BasketRow → ℕ → ℕ
create_arg_for b units = if is_share_based b.vault_type then units * b.unit_size else units

abbrev pub load_basket : MintDeps → String → Result BasketRow
load_basket deps vault = or_throw (deps.find_basket vault) ("basket " <> (vault <> " not found"))

-- The keys of FEE_BEARING_ABI.
abbrev pub is_fee_bearing : VaultType → Bool
is_fee_bearing VaultType.managed = true
is_fee_bearing VaultType.rebalance = true
is_fee_bearing VaultType.registry = true
is_fee_bearing _ = false

abbrev pub zero_address : String
zero_address = "0x0000000000000000000000000000000000000000"

-- The fee as a need of its token.
abbrev pub no_fee : Need
no_fee = record { token = zero_address; amount = 0 }

unfoldable pub read_flat_create_fee : MintDeps → String → VaultType → Need
read_flat_create_fee deps vault vault_type =
    if is_fee_bearing vault_type
    then or_else
        (do
          token ← deps.fee_token vault
          amount ← deps.flat_create_fee vault
          ok (record { token = token; amount = amount }))
        no_fee
    else no_fee

unfoldable pub fee_approval_steps : ApprovalDeps → String → String → Need → Result (List BuiltStep)
fee_approval_steps deps account vault fee =
    if ltb 0 fee.amount then build_approval_steps deps account vault (fee ∷ []) "fee" else ok []

-- `tokens.map((token, i) => ({ token, amount: amounts[i] ?? 0n }))`
abbrev pub paired : List String → List ℕ → List Need
paired [] amounts = []
paired (t ∷ tokens) [] = record { token = t; amount = 0 } ∷ paired tokens []
paired (t ∷ tokens) (a ∷ amounts) = record { token = t; amount = a } ∷ paired tokens amounts

abbrev pub recipe_needs : List Constituent → ℕ → List Need
recipe_needs cs units =
    map (λ (c : Constituent). record { token = c.token; amount = c.unit_qty * units }) cs

unfoldable pub compute_deposits : MintDeps → BasketRow → ℕ → Result (List Need)
unfolding create_arg_for
compute_deposits deps b units =
    if is_share_based b.vault_type
    then (do
      preview ← deps.preview_create b.vault_address (create_arg_for b units)
      ok (paired preview.0 preview.1))
    else ok (recipe_needs b.constituents units)

unfoldable pub encode_create : BasketRow → ℕ → Call
encode_create b create_arg = elim b.vault_type [
  | VaultType.committed ↦ record {
    abi = "CommittedVault";
    function_name = "create";
    args =
        Arg.uint create_arg
        ∷ Arg.addrs (map (λ (c : Constituent). c.token) b.constituents)
        ∷ Arg.uints (map (λ (c : Constituent). c.unit_qty) b.constituents)
        ∷ [];
  }
  | VaultType.rebalance ↦ record {
    abi = "ManagedRebalanceVault";
    function_name = "create";
    args = Arg.uint create_arg ∷ [];
  }
  | _ ↦ record { abi = "BasketVault"; function_name = "create"; args = Arg.uint create_arg ∷ [] }
]

abbrev pub vault_label : VaultType → String
vault_label VaultType.basket = "BasketVault"
vault_label VaultType.managed = "ManagedVault"
vault_label VaultType.committed = "CommittedVault"
vault_label VaultType.rebalance = "ManagedRebalanceVault"
vault_label VaultType.registry = "RegistryRebalanceVault"

abbrev pub plural : List Need → String
plural ds = if length ds == 1 then "" else "s"

abbrev pub mint_call : BasketRow → String → ℕ → List Need → BuiltStep
mint_call b vault create_arg deposits = record {
  kind = StepKind.call;
  to = vault;
  data_ = encode_create b create_arg;
  value = "0";
  contract_name = vault_label b.vault_type;
  label = mint_summary create_arg b.symbol;
  summary =
      "Mint "
      <> (show_nat create_arg
          <> (" "
              <> (b.symbol
                  <> (" in-kind by depositing "
                      <> (show_nat (length deposits) <> (" token" <> plural deposits))))));
  needs_prior_approval = some true;
}

unfoldable pub build_mint : MintDeps → String → String → ℕ → Result ActionResult
unfolding compute_deposits create_arg_for read_flat_create_fee fee_approval_steps encode_create
build_mint deps vault account units = do
  b ← load_basket deps vault
  deposits ← compute_deposits deps b units
  fee_approval ←
      fee_approval_steps deps.approvals account vault (read_flat_create_fee deps vault b.vault_type)
  approvals ← build_approval_steps deps.approvals account vault deposits "vault"
  ok (record {
    steps =
        map PlanStep.built (
          fee_approval
          ++ (approvals ++ (mint_call b vault (create_arg_for b units) deposits ∷ [])));
    finalize = none;
  })
