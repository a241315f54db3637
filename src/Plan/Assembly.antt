-- ===== src/Plan/Assembly.antt =====
-- The plan of the steps that are built, and the gate before it: tx-simulator.ts, and what the methods of
-- tx-plan.builder.ts share. The client of the chain, the database and what the builders of steps read are
-- in the services; a call that throws is `err`.
use etf.Base.{ℕ, String, Bool, true, false, Option, none, some, List, [], map, if◌then◌else◌}
use etf.Base.Results.{Result, ok, err, ◌>>=◌}
use etf.Base.Text.{str_eq, prefix}
use etf.Oracle.{OracleSeverity}
use etf.Tx.{StepKind, Call, BuiltStep, SignStep, PlanStep, ActionResult, ApprovalDeps}
use etf.Tx.Mint.{BasketRow, MintDeps}
use etf.Tx.Recipe.{Leaf, MerkleTree}
use etf.Tx.Claims.Registry.{RegistryDeps}
use etf.Tx.Actions.{ForwardDeps, KeeperDeps}
use etf.Plan.Availability.{TxAction, Reason, Item, BasketState, availability, item_of}

-- `"none"` is `no_reason`.
pub data GateReason : Type 0 where
  no_reason estimated frozen halted : GateReason

pub record GateState : Type 0 where
  pub gated : Bool
  pub reason : GateReason

pub record SentStep : Type 0 where
  pub kind : StepKind
  pub to : String
  pub data_ : Call
  pub value : String
  pub contract_name : String
  pub label : String
  pub summary : String
  pub simulated : Bool

pub data TxStep : Type 0 where
  sent : SentStep → TxStep
  sign712 : SignStep → TxStep

pub record TxPlan : Type 0 where
  pub chain_id : ℕ
  pub gate : GateState
  pub steps : List TxStep
  pub finalize : Option String

-- `call` is the client's `call` of an account with a step, `severity_of` that of the latest snapshot.
pub record PlanServices : Type 0 where
  pub basket_of : String → Result (Option BasketState)
  pub severity_of : String → Result (Option OracleSeverity)
  pub call : String → BuiltStep → Result (Unit {0})
  pub mint : MintDeps
  pub find_basket : String → Option BasketRow
  pub approvals : ApprovalDeps
  pub registry : RegistryDeps
  pub forward : ForwardDeps
  pub keeper : KeeperDeps
  pub auction : Option String
  pub usdg : Option String
  pub clone_factory : Option String
  pub creation_fee_token : Result String
  pub creation_fee : ℕ → Result ℕ
  pub tree_of : List Leaf → Result MerkleTree

-- `simulate`: whether the call went through.
abbrev pub went_through : Result (Unit {0}) → Bool
went_through (ok u) = true
went_through (err e) = false

abbrev pub needs_prior : Option Bool → Bool
needs_prior none = false
needs_prior (some b) = b

-- `account || null`
abbrev pub account_or_none : String → Option String
account_or_none account = if str_eq account "" then none else some account

abbrev pub gate_reason : Reason → GateReason
gate_reason Reason.frozen = GateReason.frozen
gate_reason _ = GateReason.halted

-- Why an action is barred, if its item says so.
abbrev pub barred_by : Option Item → Option Reason
barred_by none = none
barred_by (some i) = if i.enabled then none else some i.reason

abbrev pub is_not_deployed : String → Bool
is_not_deployed message = str_eq (prefix 12 message) "not-deployed"

module _ (svc : PlanServices) where
  unfoldable pub to_tx_step : String → PlanStep → TxStep
  to_tx_step account (PlanStep.sign712 s) = TxStep.sign712 s
  to_tx_step account (PlanStep.built s) = TxStep.sent (record {
    kind = s.kind;
    to = s.to;
    data_ = s.data_;
    value = s.value;
    contract_name = s.contract_name;
    label = s.label;
    summary = s.summary;
    simulated =
        if needs_prior s.needs_prior_approval then false else went_through (svc.call account s);
  })

  abbrev pub to_tx_plan : ActionResult → String → TxPlan
  to_tx_plan result account = record {
    chain_id = svc.mint.chain_id;
    gate = record { gated = false; reason = GateReason.no_reason };
    steps = map (to_tx_step account) result.steps;
    finalize = result.finalize;
  }

  abbrev pub gated_plan : Reason → TxPlan
  gated_plan reason = record {
    chain_id = svc.mint.chain_id;
    gate = record { gated = true; reason = gate_reason reason };
    steps = [];
    finalize = none;
  }

  -- `await` of the steps, and the plan of them.
  abbrev pub planned : Result ActionResult → String → Result TxPlan
  planned (ok result) account = ok (to_tx_plan result account)
  planned (err message) account = err message

  -- `catch`: a surface that is not deployed is a gate.
  abbrev pub or_gated : Result TxPlan → Result TxPlan
  or_gated (ok p) = ok p
  or_gated (err message) =
      if is_not_deployed message then ok (gated_plan Reason.not_deployed) else err message

  -- A vault without a row has no snapshot to read.
  abbrev pub items_of : String → Option String → Option BasketState → Result (List Item)
  items_of vault account none = ok (availability none none account)
  items_of vault account (some b) = do
    severity ← svc.severity_of vault
    ok (availability (some b) severity account)

  unfoldable pub available : String → Option String → Result (List Item)
  unfolding availability
  available vault account = do basket ← svc.basket_of vault; items_of vault account basket

  abbrev pub unless_barred : Option Reason → Result TxPlan → Result TxPlan
  unless_barred none build = build
  unless_barred (some reason) build = ok (gated_plan reason)

  -- `if (item && !item.enabled) return this.gatedPlan(item.reason)`
  unfoldable pub behind : TxAction → String → String → Result TxPlan → Result TxPlan
  unfolding available
  behind action vault account build = do
    items ← available vault (account_or_none account)
    unless_barred (barred_by (item_of action items)) build
