-- ===== src/Tx/Actions/Ready.antt =====
-- The plans that pull an account's tokens: what is approved when their call is sent.
use etf.Base.{ℕ, ◌≤◌, ◌≡◌, refl, String, some, List, [], ◌∷◌, ◌++◌, map, All}
use etf.Base.Results.{ok}
use etf.Tx.{BuiltStep, PlanStep, ActionResult, Need, ApprovalDeps}
use etf.Tx.Approvals.{build_approval_steps}
use etf.Tx.Approvals.Cover.{Allowances, IsDistinct, grants, build_approval_steps_cover}
use etf.Tx.Mint.Ready.{IsAnswering}
use etf.Tx.Claims.{any_steps, plan}
use etf.Tx.Actions.{
  ForwardDeps, ForwardBasketRow, cash_token_of, build_forward_create, build_forward_redeem,
  forward_create_call, forward_redeem_call,
}
use etf.Tx.Auction.{bid_call, build_auction_bid}

-- A plan of approvals and one last call, which names its need of them; after the approvals the spender
-- may pull the needs.
abbrev pub IsPull : String → Allowances → List Need → String → ActionResult → Type 0
IsPull spender a needs name out =
    (approvals : List BuiltStep) × (call : BuiltStep) × (out.steps
      ≡ map PlanStep.built (approvals ++ (call ∷ [])))
    × (call.to ≡ spender)
    × (call.data_.function_name ≡ name)
    × All (λ (n : Need). n.amount ≤ grants spender a approvals n.token) needs

approved :
    (deps : ApprovalDeps) (account spender label : String) (needs : List Need) (a : Allowances)
    → IsAnswering deps account spender a
    → IsDistinct needs
    → (steps : List BuiltStep) × ((build_approval_steps deps account spender needs label ≡ ok steps)
        × All (λ (n : Need). n.amount ≤ grants spender a steps n.token) needs)
approved deps account spender label needs a (m, reads) d =
    let (rs, (r, t)) = reads needs in
    let (steps, (built, (cover, rest, none_needed))) =
      build_approval_steps_cover deps account spender needs label a rs m r t d in
    (steps, (built, cover))

abbrev pub need_of : String → ℕ → List Need
need_of token amount = record { token = token; amount = amount } ∷ []

-- A vault with a forward queue and a cash token, its own or the queue's: when the reads behind the
-- approvals answer, both forward plans are built, on that queue. After its approvals the queue may pull
-- the cash of a create, or the shares of a redeem.
pub build_forward_ready :
    (deps : ForwardDeps) (vault account queue cash_token : String) (b : ForwardBasketRow)
    (amount : ℕ) (a : Allowances)
    → deps.queue_for vault ≡ some queue
    → deps.find_basket vault ≡ some b
    → cash_token_of deps queue b ≡ some cash_token
    → IsAnswering deps.approvals account queue a
    → ((out : ActionResult) × ((build_forward_create deps vault account amount ≡ ok out)
          × IsPull queue a (need_of cash_token amount) "requestCreate" out))
      × ((out : ActionResult) × ((build_forward_redeem deps vault account amount ≡ ok out)
            × IsPull queue a (need_of vault amount) "requestRedeem" out))
unfolding build_forward_create build_forward_redeem
build_forward_ready deps vault account queue cash_token b amount a q known cash reads =
    let (steps, (built, cover)) =
      approved deps.approvals account queue "queue" (need_of cash_token amount) a reads (tt, tt) in
    let (steps', (built', cover')) =
      approved deps.approvals account queue "queue" (need_of vault amount) a reads (tt, tt) in
    let call = forward_create_call queue b.symbol amount (any_steps steps) in
    let call' = forward_redeem_call queue b.symbol amount (any_steps steps') in
    (
      (
        plan (steps ++ (call ∷ [])),
        (simp (q, known, cash, built) refl, (steps, call, refl, refl, refl, cover)),
      ),
      (
        plan (steps' ++ (call' ∷ [])),
        (simp (q, known, built') refl, (steps', call', refl, refl, refl, cover')),
      ),
    )

-- A bid at a registered auction, of tokens that differ: when the reads behind the approvals answer, the
-- plan is built, and after its approvals the auction may pull every amount of the bid.
pub build_auction_bid_ready :
    (deps : ApprovalDeps) (auction vault account : String) (needs : List Need) (a : Allowances)
    → IsAnswering deps account auction a
    → IsDistinct needs
    → (out : ActionResult) × ((build_auction_bid deps (some auction) vault account needs ≡ ok out)
        × IsPull auction a needs "bid" out)
unfolding build_auction_bid
build_auction_bid_ready deps auction vault account needs a reads d =
    let (steps, (built, cover)) = approved deps account auction "auction" needs a reads d in
    (
      plan (steps ++ (bid_call auction vault ∷ [])),
      (simp built refl, (steps, bid_call auction vault, refl, refl, refl, cover)),
    )
