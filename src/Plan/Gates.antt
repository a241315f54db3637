-- ===== src/Plan/Gates.antt =====
-- Which requests are gated, and what a plan may ask a wallet to send.
use etf.Base.{
  ◌≡◌, ◌≢◌, refl, ap, ◌∙◌, String, Bool, true, false, Option, none, some, List, Bool-cases, inl,
  inr, if◌then◌else◌,
}
use etf.Base.Results.{Result, ok, err, ◌>>=◌}
use etf.Oracle.{OracleSeverity}
use etf.Tx.{ActionResult}
use etf.Plan.Availability.{
  TxAction, Reason, Item, BasketState, availability, item_of, IsOpen, IsItem,
}
use etf.Plan.Open.{availability_iff}
use etf.Plan.Builder
use etf.Plan.Assembly.{
  PlanServices, TxPlan, to_tx_plan, gated_plan, planned, or_gated, items_of, available,
  unless_barred, barred_by, behind, account_or_none, is_not_deployed,
}
use etf.Plan.Controller.{Body, handle}
use etf.Plan.Requests.{action_of, is_surface, steps_for}

module _ (svc : PlanServices) (vault account : String) where
  -- What an open request gets: the plan of its steps, and if they cannot be built the error, or a gate
  -- where the surface is not deployed.
  abbrev pub outcome : Bool → Result ActionResult → Result TxPlan
  outcome surface (ok result) = ok (to_tx_plan svc result account)
  outcome true (err message) =
      if is_not_deployed message then ok (gated_plan svc Reason.not_deployed) else err message
  outcome false (err message) = err message

  planned-outcome : (r : Result ActionResult) → planned svc r account ≡ outcome false r
  planned-outcome (ok result) = refl
  planned-outcome (err message) = refl

  or_gated-outcome :
      (r : Result ActionResult) → or_gated svc (planned svc r account) ≡ outcome true r
  or_gated-outcome (ok result) = refl
  or_gated-outcome (err message) = refl

  -- A plan that asks for nothing, for a reason.
  abbrev pub IsBarred : Result TxPlan → Type 0
  IsBarred r = (reason : Reason) × ((reason ≢ Reason.ok) × (r ≡ ok (gated_plan svc reason)))

  abbrev pub Gated : Type 0 → Result TxPlan → Result TxPlan → Type 0
  Gated P r open_ = (P → r ≡ open_) × ((P → ⊥) → IsBarred r)

  ungated : (r open_ : Result TxPlan) → r ≡ open_ → Gated Unit r open_
  ungated r open_ e = ((λ u. e), (λ n. absurd (n tt)))

  barred_lem :
      {P : Type 0} (a : TxAction) (o : Option Item) (build : Result TxPlan)
      → IsItem a P o
      → Gated P (unless_barred svc (barred_by o) build) build
  barred_lem a none build h = absurd h
  barred_lem a (some i) build (e, gate, reason) = elim (Bool-cases i.enabled) [
    | inl on ↦ (
      (λ p. ap (λ b. unless_barred svc (if b then none else some i.reason) build) on),
      (λ n. absurd (n (gate.0 on))),
    )
    | inr off ↦ (
      (λ p. let on = gate.1 p in cc),
      (λ n. (
        i.reason,
        (
          (λ r. let on = reason.1 r in cc),
          ap (λ b. unless_barred svc (if b then none else some i.reason) build) off,
        ),
      )),
    )
  ]

  module _ (b : BasketState) (severity : Option OracleSeverity) where
    -- Who sends a request may do what it asks for.
    abbrev pub IsPermitted : Body → Type 0
    IsPermitted body = elim (action_of body) [
      | none ↦ Unit
      | some a ↦ IsOpen a b severity (account_or_none account)
    ]

    available_lem :
        svc.basket_of vault ≡ ok (some b)
        → svc.severity_of vault ≡ ok severity
        → available svc vault (account_or_none account)
          ≡ ok (availability (some b) severity (account_or_none account))
    unfolding available
    available_lem e f =
        ap (λ r. r >>= items_of svc vault (account_or_none account)) e
        ∙ ap
            (λ (r : Result (Option OracleSeverity)).
              r >>= (λ s. ok (availability (some b) s (account_or_none account))))
            f

    behind_lem :
        (a : TxAction) (build open_ : Result TxPlan)
        → svc.basket_of vault ≡ ok (some b)
        → svc.severity_of vault ≡ ok severity
        → build ≡ open_
        → Gated
            (IsOpen a b severity (account_or_none account))
            (behind svc a vault account build)
            open_
    unfolding behind
    behind_lem a build open_ e f same =
        let acc = account_or_none account in
        let o = item_of a (availability (some b) severity acc) in
        let run : behind svc a vault account build ≡ unless_barred svc (barred_by o) build =
          ap
            (λ (r : Result (List Item)).
              r >>= (λ items. unless_barred svc (barred_by (item_of a items)) build))
            (available_lem e f) in
        let gate = barred_lem a o build (availability_iff a b severity acc) in
        (
          (λ p. run ∙ gate.0 p ∙ same),
          (λ n. let barred = gate.1 n in (barred.0, (barred.1.0, run ∙ barred.1.1))),
        )

-- A request about a deployed vault, when the database answers. If whoever sends it may do what it asks
-- for, it gets the plan of the builder's steps, or the builder's error, which for the queue's, the
-- keeper's and the auction's requests is a gate where the surface is not deployed. If not, it gets a plan
-- that is gated and has no steps. A redemption in kind, the finalizing of a mint, and
-- what moves the claims of a registry vault, are permitted to everyone, whatever the state of the vault
-- and of the market.
pub handle_gate :
    (svc : PlanServices) (vault account : String) (body : Body) (b : BasketState)
    (severity : Option OracleSeverity)
    → svc.basket_of vault ≡ ok (some b)
    → svc.severity_of vault ≡ ok severity
    → (IsPermitted svc vault account b severity body
        → handle svc vault account body
          ≡ outcome svc vault account
              (is_surface (action_of body))
              (steps_for svc vault account body))
      × ((IsPermitted svc vault account b severity body → ⊥)
          → IsBarred svc vault account (handle svc vault account body))
unfolding handle Builder.mint Builder.finalize_mint Builder.redeem Builder.wrap Builder.batch_wrap
    Builder.unwrap Builder.set_operator Builder.bootstrap Builder.registry_create
    Builder.registry_redeem Builder.forward_create Builder.forward_redeem Builder.forward_cancel
    Builder.curator_schedule Builder.curator_activate Builder.keeper_record Builder.keeper_settle
    Builder.auction_open Builder.auction_bid Builder.auction_set_exec_mode
handle_gate svc vault account (Body.finalize_mint units permits) b s e f =
    ungated svc vault account _ _ (
      planned-outcome svc vault account
        (steps_for svc vault account (Body.finalize_mint units permits)))
handle_gate svc vault account (Body.registry_wrap token amount) b s e f =
    ungated svc vault account _ _ (
      planned-outcome svc vault account
        (steps_for svc vault account (Body.registry_wrap token amount)))
handle_gate svc vault account (Body.registry_batch_wrap tokens amounts) b s e f =
    ungated svc vault account _ _ (
      planned-outcome svc vault account
        (steps_for svc vault account (Body.registry_batch_wrap tokens amounts)))
handle_gate svc vault account (Body.registry_unwrap token amount to) b s e f =
    ungated svc vault account _ _ (
      planned-outcome svc vault account
        (steps_for svc vault account (Body.registry_unwrap token amount to)))
handle_gate svc vault account (Body.registry_set_operator operator approved) b s e f =
    ungated svc vault account _ _ (
      planned-outcome svc vault account
        (steps_for svc vault account (Body.registry_set_operator operator approved)))
handle_gate svc vault account (Body.registry_bootstrap tokens unit_qty unit_size n_shares) b s e f =
    ungated svc vault account _ _ (
      planned-outcome svc vault account
        (steps_for svc vault account (Body.registry_bootstrap tokens unit_qty unit_size n_shares)))
handle_gate svc vault account (Body.registry_create shares) b s e f =
    ungated svc vault account _ _ (
      planned-outcome svc vault account (steps_for svc vault account (Body.registry_create shares)))
handle_gate svc vault account (Body.registry_redeem amount with_unwrap) b s e f =
    ungated svc vault account _ _ (
      planned-outcome svc vault account
        (steps_for svc vault account (Body.registry_redeem amount with_unwrap)))
handle_gate svc vault account (Body.redeem amount) b s e f =
    let steps = steps_for svc vault account (Body.redeem amount) in
    ungated svc vault account _ _ (
      ap (λ (r : Result (List Item)). r >>= (λ items. planned svc steps account))
        (available_lem svc vault account b s e f)
      ∙ planned-outcome svc vault account steps)
handle_gate svc vault account (Body.mint units mode) b s e f =
    behind_lem svc vault account b s TxAction.mint _ _ e f
      (planned-outcome svc vault account (steps_for svc vault account (Body.mint units mode)))
handle_gate svc vault account (Body.curator_schedule tokens unit_qty) b s e f =
    behind_lem svc vault account b s TxAction.curator_schedule _ _ e f (
      planned-outcome svc vault account
        (steps_for svc vault account (Body.curator_schedule tokens unit_qty)))
handle_gate svc vault account Body.curator_activate b s e f =
    behind_lem svc vault account b s TxAction.curator_activate _ _ e f
      (planned-outcome svc vault account (steps_for svc vault account Body.curator_activate))
handle_gate svc vault account (Body.forward_create cash) b s e f =
    behind_lem svc vault account b s TxAction.forward_create _ _ e f
      (or_gated-outcome svc vault account (steps_for svc vault account (Body.forward_create cash)))
handle_gate svc vault account (Body.forward_redeem shares) b s e f =
    behind_lem svc vault account b s TxAction.forward_redeem _ _ e f (
      or_gated-outcome svc vault account (steps_for svc vault account (Body.forward_redeem shares)))
handle_gate svc vault account (Body.forward_cancel ticket_id) b s e f =
    behind_lem svc vault account b s TxAction.forward_cancel _ _ e f (
      or_gated-outcome svc vault account
        (steps_for svc vault account (Body.forward_cancel ticket_id)))
handle_gate svc vault account Body.keeper_record b s e f =
    behind_lem svc vault account b s TxAction.keeper_record _ _ e f
      (or_gated-outcome svc vault account (steps_for svc vault account Body.keeper_record))
handle_gate svc vault account (Body.keeper_settle ticket_ids ap) b s e f =
    behind_lem svc vault account b s TxAction.keeper_settle _ _ e f (
      or_gated-outcome svc vault account
        (steps_for svc vault account (Body.keeper_settle ticket_ids ap)))
handle_gate svc vault account (Body.auction_open duration release acquire) b s e f =
    behind_lem svc vault account b s TxAction.auction_open _ _ e f (
      or_gated-outcome svc vault account
        (steps_for svc vault account (Body.auction_open duration release acquire)))
handle_gate svc vault account (Body.auction_bid acquire) b s e f =
    behind_lem svc vault account b s TxAction.auction_bid _ _ e f
      (or_gated-outcome svc vault account (steps_for svc vault account (Body.auction_bid acquire)))
handle_gate svc vault account (Body.auction_set_exec_mode mode) b s e f =
    behind_lem svc vault account b s TxAction.auction_set_exec_mode _ _ e f (
      or_gated-outcome svc vault account
        (steps_for svc vault account (Body.auction_set_exec_mode mode)))
