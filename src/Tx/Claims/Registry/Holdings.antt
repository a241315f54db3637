-- ===== src/Tx/Claims/Registry/Holdings.antt =====
-- What the plan of a registry create does to the account's claims and allowances.
use mathlib.Core.Bool.{◌&&◌}
use etf.Base.{
  ℕ, ◌+◌, ◌-◌, ◌≤◌, ◌≡◌, String, Bool, Option, none, some, List, [], ◌∷◌, ◌++◌, map, leb, All,
  if◌then◌else◌,
}
use etf.Base.Text.{str_eq}
use etf.Tx.{Arg, BuiltStep, PlanStep, ActionResult, Need}
use etf.Tx.Approvals.Cover.{grants}
use etf.Tx.Claims.Registry.{RegistryDeps, read_fee, cover_wrap, create_step}

-- The account's tokens, what it lets the vault pull of them, and its claims, by token.
pub record Ledger : Type 0 where
  pub balance : String → ℕ
  pub allowance : String → ℕ
  pub claims : String → ℕ

abbrev pub less : (String → ℕ) → Need → String → ℕ
less a w = λ t. if str_eq w.token t then a t - w.amount else a t

abbrev pub more : (String → ℕ) → Need → String → ℕ
more c w = λ t. if str_eq w.token t then c t + w.amount else c t

-- `wrap` of the vault: it pulls the token, so it reverts without the allowance or without the balance,
-- and gives the claim.
abbrev wrap_args_run : Ledger → List Arg → Option Ledger
wrap_args_run l (Arg.addr token ∷ (Arg.uint amount ∷ [])) =
    let w : Need = record { token = token; amount = amount } in
    if leb amount (l.allowance token) && leb amount (l.balance token)
    then some (record {
      balance = less l.balance w;
      allowance = less l.allowance w;
      claims = more l.claims w;
    })
    else none
wrap_args_run l _ = none

abbrev run_from : Option Ledger → (Ledger → Option Ledger) → Option Ledger
run_from none f = none
run_from (some l) f = f l

-- Runs steps that are wraps; any other step stops it.
abbrev pub run_wraps : List BuiltStep → Ledger → Option Ledger
run_wraps [] l = some l
run_wraps (s ∷ steps) l =
    run_from (if str_eq s.data_.function_name "wrap" then wrap_args_run l s.data_.args else none)
      (run_wraps steps)

abbrev deposited : (String → ℕ) → List Need → String → ℕ
deposited c [] = c
deposited c (w ∷ ws) = deposited (more c w) ws

abbrev spent : (String → ℕ) → List Need → String → ℕ
spent a [] = a
spent a (w ∷ ws) = spent (less a w) ws

abbrev after_wraps : Ledger → List Need → Ledger
after_wraps l ws = record {
  balance = spent l.balance ws;
  allowance = spent l.allowance ws;
  claims = deposited l.claims ws;
}

-- The claims hold every need, once the given wraps are in.
abbrev IsHeld : (String → ℕ) → List Need → List Need → Type 0
IsHeld c needs ws = All (λ (n : Need). n.amount ≤ deposited c ws n.token) needs

-- The plan's approvals, then its wraps, then the create; and what they do, in that order.
abbrev pub IsCreateReady :
    RegistryDeps
    → String
    → String
    → ℕ
    → List Need
    → (wraps : List Need) → Ledger
    → ActionResult
    → Type 0
IsCreateReady deps vault symbol shares needs wraps l out =
    (approvals : List BuiltStep) × (prior : Bool) × (end : Ledger) × (out.steps
      ≡ map PlanStep.built (
          approvals
          ++ (map (cover_wrap vault) wraps ++ (create_step vault symbol shares prior ∷ []))))
    × (run_wraps (map (cover_wrap vault) wraps)
          (record l { allowance = grants vault l.allowance approvals })
        ≡ some end)
    × All (λ (n : Need). n.amount ≤ end.claims n.token) needs
    × ((read_fee deps vault).amount ≤ end.allowance (read_fee deps vault).token)
