-- ===== src/Tx/Auction.antt =====
-- actions/auction.ts: the rebalance auction's plans.
use etf.Base.{ℕ, String, true, false, ◌&&◌, not, Option, List, [], ◌∷◌, ◌++◌, map, ◌==◌}
use etf.Base.Results.{Result, ok, ◌>>=◌, or_throw, throw_if}
use etf.Base.Text.{◌<>◌, show_nat}
use etf.Tx.{Arg, Call, BuiltStep, ActionResult, Need, ApprovalDeps}
use etf.Tx.Approvals.{build_approval_steps}
use etf.Tx.Claims.{plan}
use etf.Tx.Actions.{one_call}

pub record ReleaseRow : Type 0 where
  pub token : String
  pub release_out : ℕ

pub record AcquireRow : Type 0 where
  pub token : String
  pub start_in : ℕ
  pub end_in : ℕ

-- The address of the auction that is registered, if one is.
abbrev pub resolve_auction : Option String → Result String
resolve_auction auction = or_throw auction "not-deployed: RebalanceAuction is not registered"

abbrev pub auction_call : String → List Arg → Call
auction_call name args = record { abi = "RebalanceAuction"; function_name = name; args = args }

unfoldable pub build_auction_set_exec_mode : Option String → String → ℕ → Result ActionResult
build_auction_set_exec_mode registered vault mode = do
  auction ← resolve_auction registered
  _ ← throw_if (not (mode == 0) && not (mode == 1)) (
      "invalid auction exec mode "
      <> (show_nat mode <> ": only 0 (manager-only) and 1 (allowlist) are allowed"))
  ok (
      plan (
        one_call auction (auction_call "setExecMode" (Arg.addr vault ∷ Arg.uint mode ∷ []))
          "RebalanceAuction" "Set auction execution mode"
          "Set who may open rebalance auctions for this basket (manager-only or allowlist)" false
        ∷ []))

unfoldable pub build_auction_open :
    Option String → String → ℕ → List ReleaseRow → List AcquireRow → Result ActionResult
build_auction_open registered vault duration release acquire = do
  auction ← resolve_auction registered
  ok (
      plan (
        one_call auction
          (auction_call "open" (
            Arg.addr vault
            ∷ Arg.addrs (map (λ (r : ReleaseRow). r.token) release)
            ∷ Arg.uints (map (λ (r : ReleaseRow). r.release_out) release)
            ∷ Arg.addrs (map (λ (a : AcquireRow). a.token) acquire)
            ∷ Arg.uints (map (λ (a : AcquireRow). a.start_in) acquire)
            ∷ Arg.uints (map (λ (a : AcquireRow). a.end_in) acquire)
            ∷ Arg.uint duration
            ∷ []))
          "RebalanceAuction" "Open rebalance auction"
          "Open a Dutch auction that swaps the vault's release legs for the acquire legs over the duration"
          false
        ∷ []))

abbrev pub bid_call : String → String → BuiltStep
bid_call auction vault =
    one_call auction (auction_call "bid" (Arg.addr vault ∷ [])) "RebalanceAuction"
      "Bid on rebalance auction"
      "Fill the live Dutch auction; pulls the acquire tokens from your wallet and pays the opener a tip"
      true

unfoldable pub build_auction_bid :
    ApprovalDeps → Option String → String → String → List Need → Result ActionResult
build_auction_bid deps registered vault account acquire = do
  auction ← resolve_auction registered
  approvals ← build_approval_steps deps account auction acquire "auction"
  ok (plan (approvals ++ (bid_call auction vault ∷ [])))
