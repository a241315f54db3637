-- ===== src/Tx/Claims.antt =====
-- actions/registry-claims.ts: the life of the registry vault's ERC-6909 claims.
pub mod Registry
use etf.Base.{
  ℕ, ◌+◌, ◌*◌, ◌/◌, ◌%◌, String, Bool, true, false, ◌||◌, Option, none, some, List, [], ◌∷◌, ◌++◌,
  map, length, ltb, ◌==◌, not, if◌then◌else◌,
}
use etf.Base.Results.{Result, ok, err, ◌>>=◌, throw_if}
use etf.Base.Text.{◌<>◌, show_nat}
use etf.Tx.{Arg, Call, StepKind, BuiltStep, PlanStep, ActionResult, Need, ApprovalDeps}
use etf.Tx.Approvals.{build_approval_steps}
use etf.Tx.Mint.{paired}
use etf.Tx.Recipe.{Leaf, MerkleTree, build_bootstrap_proofs}

abbrev pub contract : String
contract = "RegistryRebalanceVault"

abbrev pub registry_call : String → List Arg → Call
registry_call name args = record { abi = contract; function_name = name; args = args }

-- A call of the vault.
abbrev pub vault_step : String → Call → String → String → Bool → BuiltStep
vault_step vault data_ label summary prior = record {
  kind = StepKind.call;
  to = vault;
  data_ = data_;
  value = "0";
  contract_name = contract;
  label = label;
  summary = summary;
  needs_prior_approval = some prior;
}

-- `{ steps: [...], finalize: null }` of steps that are all built.
abbrev pub plan : List BuiltStep → ActionResult
plan steps = record { steps = map PlanStep.built steps; finalize = none }

abbrev pub any_steps : List BuiltStep → Bool
any_steps steps = ltb 0 (length steps)

abbrev pub wrap_args : Need → Call
wrap_args w = registry_call "wrap" (Arg.addr w.token ∷ Arg.uint w.amount ∷ [])

unfoldable pub build_wrap : ApprovalDeps → String → String → String → ℕ → Result ActionResult
build_wrap deps vault account token amount = do
  let w : Need = record { token = token; amount = amount }
  approvals ← build_approval_steps deps account vault (w ∷ []) "vault"
  ok (
      plan (
        approvals
        ++ (vault_step vault (wrap_args w) "Wrap constituent into claim"
              ("Deposit "
                <> (show_nat amount
                    <> (" of " <> (token <> " and receive an equal ERC-6909 claim"))))
              (any_steps approvals)
            ∷ [])))

unfoldable pub build_batch_wrap :
    ApprovalDeps → String → String → List String → List ℕ → Result ActionResult
build_batch_wrap deps vault account tokens amounts = do
  _ ← throw_if (not (length tokens == length amounts)) "tokens/amounts length mismatch"
  approvals ← build_approval_steps deps account vault (paired tokens amounts) "vault"
  ok (
      plan (
        approvals
        ++ (vault_step vault (registry_call "batchWrap" (Arg.addrs tokens ∷ Arg.uints amounts ∷ []))
              ("Batch-wrap " <> (show_nat (length tokens) <> " constituents"))
              ("Deposit "
                <> (show_nat (length tokens)
                    <> " constituents and receive their ERC-6909 claims in one tx"))
              (any_steps approvals)
            ∷ [])))

unfoldable pub build_unwrap : String → String → ℕ → String → ActionResult
build_unwrap vault token amount to = plan (
    vault_step vault (registry_call "unwrap" (Arg.addr token ∷ Arg.uint amount ∷ Arg.addr to ∷ []))
      "Unwrap claim into constituent"
      ("Burn "
        <> (show_nat amount
            <> (" of the " <> (token <> (" claim and send the real ERC-20 to " <> to)))))
      false
    ∷ [])

unfoldable pub build_set_operator : String → String → Bool → ActionResult
build_set_operator vault operator approved =
    let verb = if approved then "Authorize" else "Revoke" in
    plan (
      vault_step vault (registry_call "setOperator" (Arg.addr operator ∷ Arg.flag approved ∷ []))
        (verb <> " operator over claims")
        (verb <> (" " <> (operator <> " as an ERC-6909 operator over your claims"))) false
      ∷ [])

abbrev pub genesis_wrap : String → Need → BuiltStep
genesis_wrap vault w =
    vault_step vault (wrap_args w) "Wrap genesis constituent"
      ("Deposit " <> (show_nat w.amount <> (" of " <> (w.token <> " into custody as a claim"))))
      true

abbrev pub or_unit : Option ℕ → ℕ → ℕ
or_unit none unit_size = unit_size
or_unit (some n) unit_size = n

unfoldable pub build_bootstrap :
    ApprovalDeps
    → (List Leaf → Result MerkleTree)
    → String
    → String
    → List String
    → List ℕ
    → ℕ
    → Option ℕ
    → Result ActionResult
build_bootstrap deps tree_of vault account tokens unit_qty unit_size n_shares = do
  let shares = or_unit n_shares unit_size
  let wrong = not (shares % unit_size == 0)
  _ ← throw_if (not (length tokens == length unit_qty)) "tokens/unitQty length mismatch"
  _ ←
      throw_if (if shares == 0 then true else wrong)
        "nShares must be a non-zero multiple of unitSize"
  recipe ← build_bootstrap_proofs tree_of tokens unit_qty unit_size
  let amounts = map (λ (q : ℕ). q * (shares / unit_size)) recipe.sorted_unit_qty
  let wraps = paired recipe.sorted_tokens amounts
  approvals ← build_approval_steps deps account vault wraps "vault"
  ok (
      plan (
        approvals
        ++ (map (genesis_wrap vault) wraps
            ++ (vault_step vault
                  (registry_call "bootstrap" (
                    Arg.uint shares
                    ∷ Arg.addrs recipe.sorted_tokens
                    ∷ Arg.uints recipe.sorted_unit_qty
                    ∷ Arg.proofs recipe.proofs
                    ∷ []))
                  "Bootstrap (genesis mint)"
                  ("Seed custody from the wrapped claims and mint "
                    <> (show_nat shares <> " shares (Merkle-proof-gated)"))
                  true
                ∷ []))))
