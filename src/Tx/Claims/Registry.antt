-- ===== src/Tx/Claims/Registry.antt =====
-- actions/registry-claims.ts: the registry vault's create and redeem in kind.
pub mod Holdings
use etf.Base.{
  ℕ, ◌-◌, String, Bool, true, false, ◌||◌, Option, none, some, List, [], ◌∷◌, ◌++◌, map, filter,
  ltb, if◌then◌else◌,
}
use etf.Base.Results.{Result, ok, err, ◌>>=◌, or_throw, or_else}
use etf.Base.Text.{◌<>◌, show_nat, address_value}
use etf.Tx.{Arg, Call, StepKind, BuiltStep, PlanStep, ActionResult, Need, ApprovalDeps}
use etf.Tx.Approvals.{or_zero, build_approval_steps}
use etf.Tx.Summaries.{format_token_amount}
use etf.Tx.Mint.{paired, no_fee, fee_approval_steps}
use etf.Tx.Claims.{plan, any_steps, registry_call, vault_step, wrap_args}

-- What these builders read: `balances` is the multicall of `balanceOf(account, id)` over the ids.
pub record RegistryDeps : Type 0 where
  pub approvals : ApprovalDeps
  pub find_symbol : String → Option String
  pub fee_token : String → Result String
  pub flat_create_fee : String → Result ℕ
  pub preview_create : String → ℕ → Result (List String × List ℕ)
  pub preview_redeem : String → ℕ → Result (List String × List ℕ)
  pub balances : String → String → List ℕ → Result (List (Option ℕ))

abbrev pub load_symbol : RegistryDeps → String → Result String
load_symbol deps vault = or_throw (deps.find_symbol vault) ("basket " <> (vault <> " not found"))

-- A getter that fails means no fee.
unfoldable pub read_fee : RegistryDeps → String → Need
read_fee deps vault =
    or_else
      (do
        fee_token ← deps.fee_token vault
        fee ← deps.flat_create_fee vault
        ok (record { token = fee_token; amount = fee }))
      no_fee

unfoldable pub flat_create_fee_approval : RegistryDeps → String → String → Result (List BuiltStep)
unfolding read_fee fee_approval_steps
flat_create_fee_approval deps account vault =
    fee_approval_steps deps.approvals account vault (read_fee deps vault)

-- The shortfall of each token, where it has one.
unfoldable pub shortfalls : List (Option ℕ) → List Need → List Need
shortfalls rs [] = []
shortfalls [] (n ∷ needs) =
    let rest = shortfalls [] needs in
    if ltb 0 n.amount then record { token = n.token; amount = n.amount } ∷ rest else rest
shortfalls (r ∷ rs) (n ∷ needs) =
    let rest = shortfalls rs needs in
    if ltb (or_zero r) n.amount
    then record { token = n.token; amount = n.amount - or_zero r } ∷ rest
    else rest

abbrev pub cover_wrap : String → Need → BuiltStep
cover_wrap vault w =
    vault_step vault (wrap_args w) "Wrap constituent into claim"
      ("Deposit "
        <> (show_nat w.amount <> (" of " <> (w.token <> " as a claim to cover the create need"))))
      true

abbrev pub create_step : String → String → ℕ → Bool → BuiltStep
create_step vault symbol shares prior =
    vault_step vault (registry_call "create" (Arg.uint shares ∷ []))
      ("Create " <> format_token_amount shares 18 symbol)
      ("Move your pro-rata claims into the vault and mint "
        <> (show_nat shares <> (" " <> (symbol <> " (in-kind, claims you already hold)"))))
      prior

unfoldable pub build_registry_create : RegistryDeps → String → String → ℕ → Result ActionResult
unfolding shortfalls flat_create_fee_approval
build_registry_create deps vault account shares = do
  symbol ← load_symbol deps vault
  preview ← deps.preview_create vault shares
  balances ← deps.balances vault account (map address_value preview.0)
  let wraps = shortfalls balances (paired preview.0 preview.1)
  approvals ← build_approval_steps deps.approvals account vault wraps "vault"
  fees ← flat_create_fee_approval deps account vault
  let wrap_steps = map (cover_wrap vault) wraps
  ok (
      plan (
        fees
        ++ (approvals
            ++ (wrap_steps
                ++ (create_step vault symbol shares (any_steps wrap_steps || any_steps fees)
                    ∷ [])))))

abbrev pub unwrap_step : String → String → Need → BuiltStep
unwrap_step vault account u =
    vault_step vault
      (registry_call "unwrap" (Arg.addr u.token ∷ Arg.uint u.amount ∷ Arg.addr account ∷ []))
      "Unwrap claim into constituent"
      ("Burn "
        <> (show_nat u.amount
            <> (" of the " <> (u.token <> " claim and send the real ERC-20 back to you"))))
      true

abbrev pub redeem_step : String → String → ℕ → BuiltStep
redeem_step vault symbol amount =
    vault_step vault (registry_call "redeem" (Arg.uint amount ∷ []))
      ("Redeem " <> format_token_amount amount 18 symbol)
      ("Burn "
        <> (show_nat amount
            <> (" " <> (symbol <> " and receive the underlying as ERC-6909 claims"))))
      false

-- The steps after the redeem: none without `with_unwrap`.
unfoldable pub unwrap_steps : RegistryDeps → String → String → ℕ → Bool → Result (List BuiltStep)
unwrap_steps deps vault account amount false = ok []
unwrap_steps deps vault account amount true = do
  preview ← deps.preview_redeem vault amount
  ok (
      map (unwrap_step vault account)
        (filter (λ (u : Need). ltb 0 u.amount) (paired preview.0 preview.1)))

unfoldable pub build_registry_redeem :
    RegistryDeps → String → String → ℕ → Bool → Result ActionResult
unfolding unwrap_steps
build_registry_redeem deps vault account amount with_unwrap = do
  symbol ← load_symbol deps vault
  rest ← unwrap_steps deps vault account amount with_unwrap
  ok (plan (redeem_step vault symbol amount ∷ rest))
