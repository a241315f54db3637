-- ===== src/Plan/Examples.antt =====
-- Requests about a small vault.
use etf.Base.{List, ◌≡◌, refl, true, none, some, [], ◌∷◌}
use etf.Base.Results.{ok, err}
use etf.Oracle.{OracleSeverity}
use etf.Tx.{ApprovalDeps, Need}
use etf.Tx.Mint.{VaultType}
use etf.Tx.Actions.{build_forward_cancel}
use etf.Tx.Deploy.{DeployTxRequest}
use etf.Indexer.{Store, Basket}
use etf.Plan.Availability.{BasketState, availability}
use etf.Plan.Assembly.{PlanServices, TxPlan, behind, available}
use etf.Plan.Builder.{deploy, persist_genesis_recipe}
use etf.Plan.Builder
use etf.Plan.Controller.{Body, handle}
use etf.Plan.Requests.{action_of, is_surface, steps_for}
use etf.Plan.Gates.{outcome, IsPermitted, IsBarred, handle_gate}
use etf.Plan.Sound.{IsPlanOf, handle_steps}

-- Frozen, and run by one manager.
abbrev basket_state : BasketState
basket_state = record { frozen = true; vault_type = VaultType.registry; manager = some "0xBoss" }

abbrev no_needs : ApprovalDeps
no_needs = record { allowances = λ account spender tokens. ok []; get_many = λ tokens. ok [] }

abbrev svc : PlanServices
svc = record {
  basket_of = λ v. ok (some basket_state);
  severity_of = λ v. ok (some OracleSeverity.opened);
  call = λ account step. ok tt;
  mint = record {
    approvals = no_needs;
    find_basket = λ v. none;
    latest_price = λ t. none;
    fee_token = λ v. err "no getter";
    flat_create_fee = λ v. err "no getter";
    preview_create = λ v n. err "no preview";
    permit_name = λ t. err "no permit";
    permit_nonce = λ t a. err "no permit";
    permit_version = λ t. err "no permit";
    chain_id = 7;
    now_sec = 500;
  };
  find_basket = λ v. none;
  approvals = no_needs;
  registry = record {
    approvals = no_needs;
    find_symbol = λ v. some "IDX";
    fee_token = λ v. err "no getter";
    flat_create_fee = λ v. err "no getter";
    preview_create = λ v n. err "no preview";
    preview_redeem = λ v n. ok ([], []);
    balances = λ v a ids. ok [];
  };
  forward = record {
    approvals = no_needs;
    find_basket = λ v. some (record { symbol = "IDX"; cash_token = none });
    queue_for = λ v. some "0xQ";
    read_stable = λ q. ok none;
  };
  keeper = record {
    queue_for = λ v. some "0xQ";
    observer = λ q. ok "0xObs";
    held_tokens = λ v. ok [];
    payloads_for = λ t. ok [];
  };
  auction = none;
  usdg = none;
  clone_factory = some "0xFac";
  creation_fee_token = err "no getter";
  creation_fee = λ i. err "no getter";
  tree_of = λ ls. ok (record { root = "0xR00t"; entries = [] });
}

-- The vault is frozen, and a ticket can be cancelled nevertheless.
handle_gate_example :
    (IsPermitted svc "0xv" "0xacc" basket_state (some OracleSeverity.opened) (Body.forward_cancel 3)
      → handle svc "0xv" "0xacc" (Body.forward_cancel 3)
        ≡ outcome svc "0xv" "0xacc"
            (is_surface (action_of (Body.forward_cancel 3)))
            (steps_for svc "0xv" "0xacc" (Body.forward_cancel 3)))
    × ((IsPermitted svc "0xv" "0xacc" basket_state
            (some OracleSeverity.opened)
            (Body.forward_cancel 3)
          → ⊥)
        → IsBarred svc "0xv" "0xacc" (handle svc "0xv" "0xacc" (Body.forward_cancel 3)))
handle_gate_example =
    handle_gate svc "0xv" "0xacc" (Body.forward_cancel 3) basket_state (some OracleSeverity.opened)
      refl refl

cancelled : (p : TxPlan) × (handle svc "0xv" "0xacc" (Body.forward_cancel 3) ≡ ok p)
unfolding handle Builder.forward_cancel behind available availability build_forward_cancel
cancelled = (_, refl)

handle_steps_example :
    IsPlanOf svc "0xacc" (steps_for svc "0xv" "0xacc" (Body.forward_cancel 3)) cancelled.0
handle_steps_example =
    handle_steps svc "0xv" "0xacc" (Body.forward_cancel 3) cancelled.0 cancelled.1

abbrev request : DeployTxRequest
request = record {
  account = "0xacc";
  vault_kind = VaultType.registry;
  name = "Index";
  symbol = "IDX";
  tokens = "0xb" ∷ "0xa" ∷ [];
  unit_qty = 2 ∷ 1 ∷ [];
  unit_size = 100;
  manager = none;
  manager_fee_bps = some 50;
  keeper_bps = some 10;
  keeper_escrow = none;
  user_salt = none;
}

abbrev index_row : Basket
index_row = record {
  unit_size = 100;
  name = "Index";
  symbol = "IDX";
  vault_type = VaultType.registry;
  manager = some "0xacc";
  manager_fee_bps = some 50;
  platform_fee_bps = none;
  keeper_bps = some 10;
  keeper_escrow = some "0xacc";
  recipe_commitment = some "0xr00T";
}

abbrev after_deploy : Store
after_deploy = record {
  baskets = ("0xv", index_row) ∷ [];
  constituents = [];
  rebalance_events = [];
  target_changes = [];
  keeper_payouts = [];
  forward_tickets = [];
  forward_events = [];
  activity_events = [];
  genesis_recipes = (deploy svc request []).0;
  checkpoint = none;
}

abbrev request_pairs : List Need
request_pairs = record { token = "0xb"; amount = 2 } ∷ record { token = "0xa"; amount = 1 } ∷ []
