-- ===== src/Plan/Builder.antt =====
-- tx-plan.builder.ts: the methods of the builder.
use etf.Base.{
  ℕ, String, Bool, true, false, not, ◌&&◌, Option, none, some, List, [], ◌∷◌, if◌then◌else◌,
}
use etf.Base.Results.{Result, ok, err, ◌>>=◌}
use etf.Base.Text.{str_eq, to_lower}
use etf.Base.Dict.{get}
use etf.Base.Table.{Table, upsert}
use etf.Tx.{TokenMeta, Need}
use etf.Tx.Mint.{VaultType}
use etf.Tx.Mint.Permit.{MintMode, PermitPost, build_mint_any, finalize_mint_permit}
use etf.Tx.Recipe
use etf.Tx.Recipe.{Leaf, MerkleTree, build_genesis_root}
use etf.Tx.Claims.{build_wrap, build_batch_wrap, build_unwrap, build_set_operator, build_bootstrap}
use etf.Tx.Claims.Registry.{build_registry_create, build_registry_redeem}
use etf.Tx.Actions.{
  build_redeem, build_forward_create, build_forward_redeem, build_forward_cancel,
  build_keeper_record, build_keeper_settle, build_curator_schedule, build_curator_activate,
}
use etf.Tx.Auction.{
  ReleaseRow, AcquireRow, build_auction_set_exec_mode, build_auction_open, build_auction_bid,
}
use etf.Tx.Deploy.{DeployDeps, DeployTxRequest, build_deploy, build_faucet, build_usdg_faucet}
use etf.Indexer.{GenesisRecipe}
use etf.Plan.Availability.{TxAction, Reason}
use etf.Plan.Assembly.{
  PlanServices, TxPlan, account_or_none, to_tx_plan, gated_plan, planned, or_gated, available,
  behind,
}

module _ (svc : PlanServices) where
  unfoldable pub mint : String → String → ℕ → Option MintMode → Result TxPlan
  unfolding behind
  mint vault account units mode =
      behind svc TxAction.mint vault account
        (planned svc (build_mint_any svc.mint vault account units mode) account)

  unfoldable pub finalize_mint : String → String → ℕ → List PermitPost → Result TxPlan
  finalize_mint vault account units permits =
      planned svc (finalize_mint_permit svc.mint vault units permits) account

  -- The availability is read, and not heeded.
  unfoldable pub redeem : String → String → ℕ → Result TxPlan
  unfolding available
  redeem vault account amount = do
    items ← available svc vault (account_or_none account)
    planned svc (build_redeem svc.find_basket vault amount) account

  unfoldable pub wrap : String → String → String → ℕ → Result TxPlan
  wrap vault account token amount =
      planned svc (build_wrap svc.approvals vault account token amount) account

  unfoldable pub batch_wrap : String → String → List String → List ℕ → Result TxPlan
  batch_wrap vault account tokens amounts =
      planned svc (build_batch_wrap svc.approvals vault account tokens amounts) account

  unfoldable pub unwrap : String → String → String → ℕ → String → Result TxPlan
  unwrap vault account token amount to =
      planned svc (ok (build_unwrap vault token amount to)) account

  unfoldable pub set_operator : String → String → String → Bool → Result TxPlan
  set_operator vault account operator approved =
      planned svc (ok (build_set_operator vault operator approved)) account

  unfoldable pub bootstrap : String → String → List String → List ℕ → ℕ → Option ℕ → Result TxPlan
  bootstrap vault account tokens unit_qty unit_size n_shares =
      planned svc
        (build_bootstrap svc.approvals svc.tree_of vault account tokens unit_qty unit_size n_shares)
        account

  unfoldable pub registry_create : String → String → ℕ → Result TxPlan
  registry_create vault account shares =
      planned svc (build_registry_create svc.registry vault account shares) account

  unfoldable pub registry_redeem : String → String → ℕ → Bool → Result TxPlan
  registry_redeem vault account amount with_unwrap =
      planned svc (build_registry_redeem svc.registry vault account amount with_unwrap) account

  unfoldable pub forward_create : String → String → ℕ → Result TxPlan
  unfolding behind
  forward_create vault account cash =
      behind svc TxAction.forward_create vault account
        (or_gated svc (planned svc (build_forward_create svc.forward vault account cash) account))

  unfoldable pub forward_redeem : String → String → ℕ → Result TxPlan
  unfolding behind
  forward_redeem vault account shares =
      behind svc TxAction.forward_redeem vault account
        (or_gated svc (planned svc (build_forward_redeem svc.forward vault account shares) account))

  unfoldable pub forward_cancel : String → String → ℕ → Result TxPlan
  unfolding behind
  forward_cancel vault account ticket_id =
      behind svc TxAction.forward_cancel vault account
        (or_gated svc (planned svc (build_forward_cancel svc.forward vault ticket_id) account))

  unfoldable pub curator_schedule : String → String → List String → List ℕ → Result TxPlan
  unfolding behind
  curator_schedule vault account tokens unit_qty =
      behind svc TxAction.curator_schedule vault account
        (planned svc (ok (build_curator_schedule vault tokens unit_qty)) account)

  unfoldable pub curator_activate : String → String → Result TxPlan
  unfolding behind
  curator_activate vault account =
      behind svc TxAction.curator_activate vault account
        (planned svc (ok (build_curator_activate vault)) account)

  unfoldable pub keeper_record : String → String → Result TxPlan
  unfolding behind
  keeper_record vault account =
      behind svc TxAction.keeper_record vault account
        (or_gated svc (planned svc (build_keeper_record svc.keeper vault) account))

  unfoldable pub keeper_settle : String → String → List ℕ → String → Result TxPlan
  unfolding behind
  keeper_settle vault account ticket_ids ap =
      behind svc TxAction.keeper_settle vault account
        (or_gated svc (planned svc (build_keeper_settle svc.keeper vault ticket_ids ap) account))

  unfoldable pub auction_open :
      String → String → ℕ → List ReleaseRow → List AcquireRow → Result TxPlan
  unfolding behind
  auction_open vault account duration release acquire =
      behind svc TxAction.auction_open vault account (
        or_gated svc
          (planned svc (build_auction_open svc.auction vault duration release acquire) account))

  unfoldable pub auction_bid : String → String → List Need → Result TxPlan
  unfolding behind
  auction_bid vault account acquire = behind svc TxAction.auction_bid vault account (
      or_gated svc
        (planned svc (build_auction_bid svc.approvals svc.auction vault account acquire) account))

  unfoldable pub auction_set_exec_mode : String → String → ℕ → Result TxPlan
  unfolding behind
  auction_set_exec_mode vault account mode =
      behind svc TxAction.auction_set_exec_mode vault account
        (or_gated svc (planned svc (build_auction_set_exec_mode svc.auction vault mode) account))

  abbrev pub is_usdg : Option String → String → Bool
  is_usdg none token = false
  is_usdg (some usdg) token = not (str_eq usdg "") && str_eq (to_lower token) (to_lower usdg)

  abbrev pub symbol_of : Option TokenMeta → Option String
  symbol_of none = none
  symbol_of (some m) = some m.symbol

  unfoldable pub faucet : String → String → Result TxPlan
  faucet token account =
      if is_usdg svc.usdg token
      then ok (to_tx_plan svc (build_usdg_faucet token account) account)
      else (do
        metas ← svc.approvals.get_many (token ∷ [])
        ok (to_tx_plan svc (build_faucet token (symbol_of (get metas (to_lower token)))) account))

  -- The write is best-effort: a recipe without a tree is not kept.
  abbrev pub kept_recipe :
      Result Recipe.GenesisRecipe → Table String GenesisRecipe → Table String GenesisRecipe
  kept_recipe (err message) recipes = recipes
  kept_recipe (ok g) recipes =
      let row : GenesisRecipe = record { tokens = g.sorted_tokens; unit_qty = g.sorted_unit_qty } in
      upsert str_eq (to_lower g.genesis_root) row (λ r. row) recipes

  -- The recipe that the indexer reads, under its root in lower case.
  unfoldable pub persist_genesis_recipe :
      DeployTxRequest → Table String GenesisRecipe → Table String GenesisRecipe
  unfolding build_genesis_root
  persist_genesis_recipe req recipes =
      kept_recipe (build_genesis_root svc.tree_of req.tokens req.unit_qty req.unit_size) recipes

  abbrev pub deploy_deps : String → DeployDeps
  deploy_deps factory = record {
    clone_factory = factory;
    creation_fee_token = svc.creation_fee_token;
    creation_fee = svc.creation_fee;
  }

  abbrev pub is_registry_kind : VaultType → Bool
  is_registry_kind VaultType.registry = true
  is_registry_kind _ = false

  abbrev pub deploy_at :
      Option String
      → DeployTxRequest
      → Table String GenesisRecipe
      → Table String GenesisRecipe × Result TxPlan
  deploy_at none req recipes = (recipes, ok (gated_plan svc Reason.not_deployed))
  deploy_at (some factory) req recipes = (
    (if is_registry_kind req.vault_kind then persist_genesis_recipe req recipes else recipes),
    planned svc (build_deploy (deploy_deps factory) svc.tree_of req) req.account,
  )

  -- The recipes that are kept after the request, and its plan.
  unfoldable pub deploy :
      DeployTxRequest → Table String GenesisRecipe → Table String GenesisRecipe × Result TxPlan
  unfolding persist_genesis_recipe
  deploy req recipes = deploy_at svc.clone_factory req recipes
