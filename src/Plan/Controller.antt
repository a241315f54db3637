-- ===== src/Plan/Controller.antt =====
-- tx.controller.ts: the requests about a vault, each answered by a method of the builder. The routes for
-- quotes, previews, tokens and deployments are not among them.
use etf.Base.{ℕ, String, Bool, Option, List}
use etf.Base.Results.{Result}
use etf.Tx.{Need}
use etf.Tx.Mint.Permit.{MintMode, PermitPost}
use etf.Tx.Auction.{ReleaseRow, AcquireRow}
use etf.Plan.Builder
use etf.Plan.Assembly.{PlanServices, TxPlan}

-- A request's body, less the account.
pub data Body : Type 0 where
  mint : ℕ → Option MintMode → Body
  finalize_mint : ℕ → List PermitPost → Body
  redeem : ℕ → Body
  registry_wrap : String → ℕ → Body
  registry_batch_wrap : List String → List ℕ → Body
  registry_unwrap : String → ℕ → String → Body
  registry_set_operator : String → Bool → Body
  registry_bootstrap : List String → List ℕ → ℕ → Option ℕ → Body
  registry_create : ℕ → Body
  registry_redeem : ℕ → Bool → Body
  forward_create : ℕ → Body
  forward_redeem : ℕ → Body
  forward_cancel : ℕ → Body
  curator_schedule : List String → List ℕ → Body
  curator_activate : Body
  keeper_record : Body
  keeper_settle : List ℕ → String → Body
  auction_open : ℕ → List ReleaseRow → List AcquireRow → Body
  auction_bid : List Need → Body
  auction_set_exec_mode : ℕ → Body

unfoldable pub handle : PlanServices → String → String → Body → Result TxPlan
unfolding Builder.mint Builder.finalize_mint Builder.redeem Builder.wrap Builder.batch_wrap
    Builder.unwrap Builder.set_operator Builder.bootstrap Builder.registry_create
    Builder.registry_redeem Builder.forward_create Builder.forward_redeem Builder.forward_cancel
    Builder.curator_schedule Builder.curator_activate Builder.keeper_record Builder.keeper_settle
    Builder.auction_open Builder.auction_bid Builder.auction_set_exec_mode
handle svc vault account (Body.mint units mode) = Builder.mint svc vault account units mode
handle svc vault account (Body.finalize_mint units permits) =
    Builder.finalize_mint svc vault account units permits
handle svc vault account (Body.redeem amount) = Builder.redeem svc vault account amount
handle svc vault account (Body.registry_wrap token amount) =
    Builder.wrap svc vault account token amount
handle svc vault account (Body.registry_batch_wrap tokens amounts) =
    Builder.batch_wrap svc vault account tokens amounts
handle svc vault account (Body.registry_unwrap token amount to) =
    Builder.unwrap svc vault account token amount to
handle svc vault account (Body.registry_set_operator operator approved) =
    Builder.set_operator svc vault account operator approved
handle svc vault account (Body.registry_bootstrap tokens unit_qty unit_size n_shares) =
    Builder.bootstrap svc vault account tokens unit_qty unit_size n_shares
handle svc vault account (Body.registry_create shares) =
    Builder.registry_create svc vault account shares
handle svc vault account (Body.registry_redeem amount with_unwrap) =
    Builder.registry_redeem svc vault account amount with_unwrap
handle svc vault account (Body.forward_create cash) = Builder.forward_create svc vault account cash
handle svc vault account (Body.forward_redeem shares) =
    Builder.forward_redeem svc vault account shares
handle svc vault account (Body.forward_cancel ticket_id) =
    Builder.forward_cancel svc vault account ticket_id
handle svc vault account (Body.curator_schedule tokens unit_qty) =
    Builder.curator_schedule svc vault account tokens unit_qty
handle svc vault account Body.curator_activate = Builder.curator_activate svc vault account
handle svc vault account Body.keeper_record = Builder.keeper_record svc vault account
handle svc vault account (Body.keeper_settle ticket_ids ap) =
    Builder.keeper_settle svc vault account ticket_ids ap
handle svc vault account (Body.auction_open duration release acquire) =
    Builder.auction_open svc vault account duration release acquire
handle svc vault account (Body.auction_bid acquire) = Builder.auction_bid svc vault account acquire
handle svc vault account (Body.auction_set_exec_mode mode) =
    Builder.auction_set_exec_mode svc vault account mode
