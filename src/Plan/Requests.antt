-- ===== src/Plan/Requests.antt =====
-- What each request is for, and which gate it stands behind.
use etf.Base.{ap, String, Bool, true, false, Option, none, some}
use etf.Base.Results.{Result, ok}
use etf.Tx.{ActionResult}
use etf.Tx.Mint.Permit.{build_mint_any, finalize_mint_permit}
use etf.Tx.Claims.{build_wrap, build_batch_wrap, build_unwrap, build_set_operator, build_bootstrap}
use etf.Tx.Claims.Registry.{build_registry_create, build_registry_redeem}
use etf.Tx.Actions.{
  build_redeem, build_forward_create, build_forward_redeem, build_forward_cancel,
  build_keeper_record, build_keeper_settle, build_curator_schedule, build_curator_activate,
}
use etf.Tx.Auction.{build_auction_set_exec_mode, build_auction_open, build_auction_bid}
use etf.Plan.Availability.{TxAction}
use etf.Plan.Assembly.{PlanServices}
use etf.Plan.Controller.{Body}

-- The action that a request is gated by. A redemption in kind, the finalizing of a mint, and what moves
-- the claims of a registry vault stand behind no gate.
abbrev pub action_of : Body → Option TxAction
action_of (Body.mint units mode) = some TxAction.mint
action_of (Body.finalize_mint units permits) = none
action_of (Body.redeem amount) = none
action_of (Body.registry_wrap token amount) = none
action_of (Body.registry_batch_wrap tokens amounts) = none
action_of (Body.registry_unwrap token amount to) = none
action_of (Body.registry_set_operator operator approved) = none
action_of (Body.registry_bootstrap tokens unit_qty unit_size n_shares) = none
action_of (Body.registry_create shares) = none
action_of (Body.registry_redeem amount with_unwrap) = none
action_of (Body.forward_create cash) = some TxAction.forward_create
action_of (Body.forward_redeem shares) = some TxAction.forward_redeem
action_of (Body.forward_cancel ticket_id) = some TxAction.forward_cancel
action_of (Body.curator_schedule tokens unit_qty) = some TxAction.curator_schedule
action_of Body.curator_activate = some TxAction.curator_activate
action_of Body.keeper_record = some TxAction.keeper_record
action_of (Body.keeper_settle ticket_ids ap) = some TxAction.keeper_settle
action_of (Body.auction_open duration release acquire) = some TxAction.auction_open
action_of (Body.auction_bid acquire) = some TxAction.auction_bid
action_of (Body.auction_set_exec_mode mode) = some TxAction.auction_set_exec_mode

-- Whether a surface that is not deployed gates the request.
abbrev pub is_surface : Option TxAction → Bool
is_surface none = false
is_surface (some TxAction.mint) = false
is_surface (some TxAction.redeem_in_kind) = false
is_surface (some TxAction.deploy) = false
is_surface (some TxAction.forward_create) = true
is_surface (some TxAction.forward_redeem) = true
is_surface (some TxAction.forward_cancel) = true
is_surface (some TxAction.curator_schedule) = false
is_surface (some TxAction.curator_activate) = false
is_surface (some TxAction.keeper_record) = true
is_surface (some TxAction.keeper_settle) = true
is_surface (some TxAction.auction_open) = true
is_surface (some TxAction.auction_bid) = true
is_surface (some TxAction.auction_set_exec_mode) = true

module _ (svc : PlanServices) (vault account : String) where
  -- The steps that a request is for.
  abbrev pub steps_for : Body → Result ActionResult
  steps_for (Body.mint units mode) = build_mint_any svc.mint vault account units mode
  steps_for (Body.finalize_mint units permits) = finalize_mint_permit svc.mint vault units permits
  steps_for (Body.redeem amount) = build_redeem svc.find_basket vault amount
  steps_for (Body.registry_wrap token amount) = build_wrap svc.approvals vault account token amount
  steps_for (Body.registry_batch_wrap tokens amounts) =
      build_batch_wrap svc.approvals vault account tokens amounts
  steps_for (Body.registry_unwrap token amount to) = ok (build_unwrap vault token amount to)
  steps_for (Body.registry_set_operator operator approved) =
      ok (build_set_operator vault operator approved)
  steps_for (Body.registry_bootstrap tokens unit_qty unit_size n_shares) =
      build_bootstrap svc.approvals svc.tree_of vault account tokens unit_qty unit_size n_shares
  steps_for (Body.registry_create shares) = build_registry_create svc.registry vault account shares
  steps_for (Body.registry_redeem amount with_unwrap) =
      build_registry_redeem svc.registry vault account amount with_unwrap
  steps_for (Body.forward_create cash) = build_forward_create svc.forward vault account cash
  steps_for (Body.forward_redeem shares) = build_forward_redeem svc.forward vault account shares
  steps_for (Body.forward_cancel ticket_id) = build_forward_cancel svc.forward vault ticket_id
  steps_for (Body.curator_schedule tokens unit_qty) =
      ok (build_curator_schedule vault tokens unit_qty)
  steps_for Body.curator_activate = ok (build_curator_activate vault)
  steps_for Body.keeper_record = build_keeper_record svc.keeper vault
  steps_for (Body.keeper_settle ticket_ids ap) = build_keeper_settle svc.keeper vault ticket_ids ap
  steps_for (Body.auction_open duration release acquire) =
      build_auction_open svc.auction vault duration release acquire
  steps_for (Body.auction_bid acquire) =
      build_auction_bid svc.approvals svc.auction vault account acquire
  steps_for (Body.auction_set_exec_mode mode) = build_auction_set_exec_mode svc.auction vault mode
