-- ===== src/Tx/Actions.antt =====
-- actions/redeem.ts, forward.ts, keeper.ts, curator.ts and auction.ts: plans of one call, and of approvals
-- before it. A ticket's id is a number; so is a decimal text.
pub mod Ready
use etf.Base.{
  ℕ, String, Bool, true, false, ◌&&◌, not, Option, none, some, List, [], ◌∷◌, ◌++◌, map, length,
  ltb, ◌==◌, if◌then◌else◌,
}
use etf.Base.Results.{Result, ok, err, ◌>>=◌, or_throw, throw_if, or_else}
use etf.Base.Text.{◌<>◌, show_nat, str_eq}
use etf.Tx.{Arg, Call, StepKind, BuiltStep, PlanStep, ActionResult, Need, ApprovalDeps}
use etf.Tx.Approvals.{build_approval_steps}
use etf.Tx.Mint.{VaultType, Constituent, BasketRow, vault_label}
use etf.Tx.Claims.{plan, any_steps}

abbrev pub one_call : String → Call → String → String → String → Bool → BuiltStep
one_call to data_ contract_name label summary prior = record {
  kind = StepKind.call;
  to = to;
  data_ = data_;
  value = "0";
  contract_name = contract_name;
  label = label;
  summary = summary;
  needs_prior_approval = some prior;
}

-- redeem.ts
unfoldable pub encode_redeem : BasketRow → ℕ → Call
encode_redeem b amount = elim b.vault_type [
  | VaultType.committed ↦ record {
    abi = "CommittedVault";
    function_name = "redeem";
    args =
        Arg.uint amount
        ∷ Arg.addrs (map (λ (c : Constituent). c.token) b.constituents)
        ∷ Arg.uints (map (λ (c : Constituent). c.unit_qty) b.constituents)
        ∷ [];
  }
  | _ ↦ record { abi = "BasketVault"; function_name = "redeem"; args = Arg.uint amount ∷ [] }
]

unfoldable pub build_redeem : (String → Option BasketRow) → String → ℕ → Result ActionResult
unfolding encode_redeem
build_redeem find_basket vault amount = do
  b ← or_throw (find_basket vault) ("basket " <> (vault <> " not found"))
  ok (
      plan (
        one_call vault (encode_redeem b amount) (vault_label b.vault_type)
          ("Redeem " <> (show_nat amount <> (" " <> b.symbol)))
          ("Burn "
            <> (show_nat amount
                <> (" " <> (b.symbol <> " shares and receive underlying tokens in-kind"))))
          false
        ∷ []))

-- forward.ts
pub record ForwardBasketRow : Type 0 where
  pub symbol : String
  pub cash_token : Option String

-- `read_stable` is the multicall of the queue's `stable`: `none` an answer that is not a success.
pub record ForwardDeps : Type 0 where
  pub approvals : ApprovalDeps
  pub find_basket : String → Option ForwardBasketRow
  pub queue_for : String → Option String
  pub read_stable : String → Result (Option String)

abbrev pub resolve_queue : (String → Option String) → String → Result String
resolve_queue queue_for vault =
    or_throw (queue_for vault) "not-deployed: no forward queue for this vault"

abbrev pub find_forward_basket : ForwardDeps → String → Result ForwardBasketRow
find_forward_basket deps vault =
    or_throw (deps.find_basket vault) ("basket " <> (vault <> " not found"))

abbrev pub read_queue_stable : ForwardDeps → String → Option String
read_queue_stable deps queue = or_else (deps.read_stable queue) none

-- `basket.cashToken ?? (await readQueueStable(deps, queue))`
abbrev pub cash_token_of : ForwardDeps → String → ForwardBasketRow → Option String
cash_token_of deps queue b = elim b.cash_token [
  | none ↦ read_queue_stable deps queue
  | some t ↦ some t
]

abbrev pub queue_call : String → List Arg → Call
queue_call name args = record { abi = "ForwardCashQueue"; function_name = name; args = args }

abbrev pub forward_create_call : String → String → ℕ → Bool → BuiltStep
forward_create_call queue symbol cash prior =
    one_call queue (queue_call "requestCreate" (Arg.uint cash ∷ [])) "ForwardCashQueue"
      ("Queue create " <> symbol)
      ("Queue a forward create for " <> (symbol <> "; settles at the next market open")) prior

abbrev pub forward_redeem_call : String → String → ℕ → Bool → BuiltStep
forward_redeem_call queue symbol shares prior =
    one_call queue (queue_call "requestRedeem" (Arg.uint shares ∷ [])) "ForwardCashQueue"
      ("Queue redeem " <> symbol)
      ("Queue a forward redeem of " <> (symbol <> "; settles at the next market open")) prior

unfoldable pub build_forward_create : ForwardDeps → String → String → ℕ → Result ActionResult
build_forward_create deps vault account cash = do
  queue ← resolve_queue deps.queue_for vault
  b ← find_forward_basket deps vault
  cash_token ← or_throw (cash_token_of deps queue b) ("basket " <> (vault <> " has no cashToken"))
  approvals ←
      build_approval_steps deps.approvals account queue
        (record { token = cash_token; amount = cash } ∷ []) "queue"
  ok (plan (approvals ++ (forward_create_call queue b.symbol cash (any_steps approvals) ∷ [])))

unfoldable pub build_forward_redeem : ForwardDeps → String → String → ℕ → Result ActionResult
build_forward_redeem deps vault account shares = do
  queue ← resolve_queue deps.queue_for vault
  b ← find_forward_basket deps vault
  approvals ←
      build_approval_steps deps.approvals account queue
        (record { token = vault; amount = shares } ∷ []) "queue"
  ok (plan (approvals ++ (forward_redeem_call queue b.symbol shares (any_steps approvals) ∷ [])))

unfoldable pub build_forward_cancel : ForwardDeps → String → ℕ → Result ActionResult
build_forward_cancel deps vault ticket_id = do
  queue ← resolve_queue deps.queue_for vault
  ok (
      plan (
        one_call queue (queue_call "cancel" (Arg.uint ticket_id ∷ [])) "ForwardCashQueue"
          ("Cancel forward ticket #" <> show_nat ticket_id)
          ("Cancel forward ticket #" <> (show_nat ticket_id <> " and release escrow")) false
        ∷ []))

-- keeper.ts
pub record KeeperDeps : Type 0 where
  pub queue_for : String → Option String
  pub observer : String → Result String
  pub held_tokens : String → Result (List String)
  pub payloads_for : String → Result (List String)

-- `Promise.all` of the payloads: the first call that fails makes the whole fail.
unfoldable pub payloads_of :
    (String → Result (List String)) → List String → Result (List (List String))
payloads_of f [] = ok []
payloads_of f (t ∷ ts) = do p ← f t; rest ← payloads_of f ts; ok (p ∷ rest)

unfoldable pub build_keeper_record : KeeperDeps → String → Result ActionResult
unfolding payloads_of
build_keeper_record deps vault = do
  queue ← resolve_queue deps.queue_for vault
  observer ← deps.observer queue
  held ← deps.held_tokens vault
  payloads ← payloads_of deps.payloads_for held
  ok (
      plan (
        one_call observer
          (record {
            abi = "BasketNavObserver";
            function_name = "record";
            args = Arg.addr vault ∷ Arg.addrs held ∷ Arg.payloads payloads ∷ [];
          })
          "BasketNavObserver" "Record NAV observation"
          "Print a holdings-NAV observation for the basket's TWAP window" false
        ∷ []))

unfoldable pub build_keeper_settle : KeeperDeps → String → List ℕ → String → Result ActionResult
unfolding payloads_of
build_keeper_settle deps vault ticket_ids ap = do
  queue ← resolve_queue deps.queue_for vault
  held ← deps.held_tokens vault
  payloads ← payloads_of deps.payloads_for held
  ok (
      plan (
        one_call queue
          (queue_call "settle"
            (Arg.uints ticket_ids ∷ Arg.addrs held ∷ Arg.payloads payloads ∷ Arg.addr ap ∷ []))
          "ForwardCashQueue" ("Settle " <> (show_nat (length ticket_ids) <> " forward ticket(s)"))
          "Settle queued forward tickets at the printed NAV via the AP filler" false
        ∷ []))

-- curator.ts
abbrev pub target_call : String → List Arg → Call
target_call name args = record { abi = "ManagedRebalanceVault"; function_name = name; args = args }

unfoldable pub build_curator_schedule : String → List String → List ℕ → ActionResult
build_curator_schedule vault tokens unit_qty = plan (
    one_call vault (target_call "scheduleTarget" (Arg.addrs tokens ∷ Arg.uints unit_qty ∷ []))
      "ManagedRebalanceVault" "Schedule rebalance target"
      "Schedule a new target basket; activates after the on-chain timelock" false
    ∷ [])

unfoldable pub build_curator_activate : String → ActionResult
build_curator_activate vault = plan (
    one_call vault (target_call "activateTarget" []) "ManagedRebalanceVault"
      "Activate rebalance target"
      "Activate the scheduled target basket once its timelock has elapsed" false
    ∷ [])
