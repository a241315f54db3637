-- ===== src/Plan/Sound.antt =====
-- What any plan that a request gets asks a wallet to do.
use etf.Base.{
  ◌≡◌, ◌⊎◌, refl, sym, ap, subst, String, Bool, true, false, Option, none, some, List, [], ◌∷◌, map,
  Bool-cases, inl, inr, if◌then◌else◌,
}
use etf.Base.Results.{Result, ok, err, ◌>>=◌, Result-cases}
use etf.Tx.{PlanStep, ActionResult}
use etf.Plan.Availability.{TxAction, Reason, Item, item_of}
use etf.Plan.Builder
use etf.Plan.Assembly.{
  PlanServices, TxPlan, TxStep, to_tx_step, to_tx_plan, gated_plan, planned, or_gated, available,
  unless_barred, barred_by, behind, account_or_none, is_not_deployed, went_through, needs_prior,
}
use etf.Plan.Controller.{Body, handle}
use etf.Plan.Requests.{steps_for}

-- The step of a plan is the builder's; it counts as simulated only where nothing has to be approved first
-- and the client's call of that step went through.
abbrev pub IsStepOf : PlanServices → String → PlanStep → TxStep → Type 0
IsStepOf svc account (PlanStep.sign712 s) (TxStep.sign712 t) = t ≡ s
IsStepOf svc account (PlanStep.sign712 s) (TxStep.sent t) = ⊥
IsStepOf svc account (PlanStep.built s) (TxStep.sign712 t) = ⊥
IsStepOf svc account (PlanStep.built s) (TxStep.sent t) =
    (t.to ≡ s.to)
    × (t.data_ ≡ s.data_)
    × (t.value ≡ s.value)
    × ((t.simulated ≡ true)
        → (needs_prior s.needs_prior_approval ≡ false) × (svc.call account s ≡ ok tt))

abbrev pub AreStepsOf : PlanServices → String → List PlanStep → List TxStep → Type 0
AreStepsOf svc account [] [] = Unit
AreStepsOf svc account [] (t ∷ ts) = ⊥
AreStepsOf svc account (s ∷ ss) [] = ⊥
AreStepsOf svc account (s ∷ ss) (t ∷ ts) = IsStepOf svc account s t × AreStepsOf svc account ss ts

-- The plan asks for nothing, or is of the steps that were built.
abbrev pub IsPlanOf : PlanServices → String → Result ActionResult → TxPlan → Type 0
IsPlanOf svc account steps p =
    ((p.gate.gated ≡ true) × (p.steps ≡ []))
    ⊎ ((p.gate.gated ≡ false)
        × ((res : ActionResult) × ((steps ≡ ok res) × AreStepsOf svc account res.steps p.steps)))

module _ (svc : PlanServices) (account : String) where
  went_lem : (r : Result (Unit {0})) → went_through r ≡ true → r ≡ ok tt
  went_lem (ok u) h = refl
  went_lem (err e) h = cc

  simulated_lem :
      (prior : Bool) (r : Result (Unit {0}))
      → (if prior then false else went_through r) ≡ true
      → (prior ≡ false) × (r ≡ ok tt)
  simulated_lem true r h = cc
  simulated_lem false r h = (refl, went_lem r h)

  step_lem : (s : PlanStep) → IsStepOf svc account s (to_tx_step svc account s)
  unfolding to_tx_step
  step_lem (PlanStep.sign712 s) = refl
  step_lem (PlanStep.built s) =
      (refl, refl, refl, simulated_lem (needs_prior s.needs_prior_approval) (svc.call account s))

  steps_lem : (ss : List PlanStep) → AreStepsOf svc account ss (map (to_tx_step svc account) ss)
  steps_lem [] = tt
  steps_lem (s ∷ ss) = (step_lem s, steps_lem ss)

  -- If it is a plan, it is of the steps.
  abbrev IsSound : Result ActionResult → Result TxPlan → Type 0
  IsSound steps r = (p : TxPlan) → r ≡ ok p → IsPlanOf svc account steps p

  open_lem : (res : ActionResult) → IsPlanOf svc account (ok res) (to_tx_plan svc res account)
  open_lem res = inr (refl, (res, (refl, steps_lem res.steps)))

  plan_of : TxPlan → Result TxPlan → TxPlan
  plan_of d (ok p) = p
  plan_of d (err m) = d

  same_plan :
      (steps : Result ActionResult) (q : TxPlan)
      → IsPlanOf svc account steps q
      → IsSound steps (ok q)
  unfolding plan_of
  same_plan steps q h p e = subst (IsPlanOf svc account steps) (ap (plan_of q) e) h

  planned-IsSound : (steps : Result ActionResult) → IsSound steps (planned svc steps account)
  planned-IsSound (ok res) = same_plan (ok res) (to_tx_plan svc res account) (open_lem res)
  planned-IsSound (err m) = λ p e. cc

  gated_lem :
      (steps : Result ActionResult) (reason : Reason) → IsSound steps (ok (gated_plan svc reason))
  gated_lem steps reason = same_plan steps (gated_plan svc reason) (inl (refl, refl))

  or_gated-IsSound :
      (steps : Result ActionResult) → IsSound steps (or_gated svc (planned svc steps account))
  or_gated-IsSound (ok res) = planned-IsSound (ok res)
  or_gated-IsSound (err m) = elim (Bool-cases (is_not_deployed m)) [
    | inl e ↦
        subst (IsSound (err m))
          (sym (ap (λ b. if b then ok (gated_plan svc Reason.not_deployed) else err m) e))
          (gated_lem (err m) Reason.not_deployed)
    | inr e ↦
        subst (IsSound (err m))
          (sym (ap (λ b. if b then ok (gated_plan svc Reason.not_deployed) else err m) e))
          (λ p h. cc)
  ]

  barred-IsSound :
      (steps : Result ActionResult) (o : Option Reason) (build : Result TxPlan)
      → IsSound steps build
      → IsSound steps (unless_barred svc o build)
  barred-IsSound steps none build h = h
  barred-IsSound steps (some reason) build h = gated_lem steps reason

  behind-IsSound :
      (steps : Result ActionResult) (a : TxAction) (vault : String) (build : Result TxPlan)
      → IsSound steps build
      → IsSound steps (behind svc a vault account build)
  unfolding behind
  behind-IsSound steps a vault build h =
      elim (Result-cases (available svc vault (account_or_none account))) [
        | inl (m, e) ↦
            subst (IsSound steps)
              (sym (
                ap
                  (λ (r : Result (List Item)).
                    r >>= (λ items. unless_barred svc (barred_by (item_of a items)) build))
                  e))
              (λ p k. cc)
        | inr (items, e) ↦
            subst (IsSound steps)
              (sym (
                ap
                  (λ (r : Result (List Item)).
                    r >>= (λ is. unless_barred svc (barred_by (item_of a is)) build))
                  e))
              (barred-IsSound steps (barred_by (item_of a items)) build h)
      ]

  after_read :
      (steps : Result ActionResult) (answer : Result (List Item)) (build : Result TxPlan)
      → IsSound steps build
      → IsSound steps (answer >>= (λ items. build))
  after_read steps (ok items) build h = h
  after_read steps (err m) build h = λ p e. cc

-- Whatever the database and the chain answer, a plan that a request gets is gated and asks for nothing, or
-- is not gated and its steps are those that were built for the request, one by one: the same destination,
-- the same data and the same value. A step is called simulated only if it waits for no approval and the
-- client's call of it went through.
pub handle_steps :
    (svc : PlanServices) (vault account : String) (body : Body) (p : TxPlan)
    → handle svc vault account body ≡ ok p
    → IsPlanOf svc account (steps_for svc vault account body) p
unfolding handle Builder.mint Builder.finalize_mint Builder.redeem Builder.wrap Builder.batch_wrap
    Builder.unwrap Builder.set_operator Builder.bootstrap Builder.registry_create
    Builder.registry_redeem Builder.forward_create Builder.forward_redeem Builder.forward_cancel
    Builder.curator_schedule Builder.curator_activate Builder.keeper_record Builder.keeper_settle
    Builder.auction_open Builder.auction_bid Builder.auction_set_exec_mode
handle_steps svc vault account (Body.finalize_mint units permits) =
    planned-IsSound svc account (steps_for svc vault account (Body.finalize_mint units permits))
handle_steps svc vault account (Body.registry_wrap token amount) =
    planned-IsSound svc account (steps_for svc vault account (Body.registry_wrap token amount))
handle_steps svc vault account (Body.registry_batch_wrap tokens amounts) =
    planned-IsSound svc account
      (steps_for svc vault account (Body.registry_batch_wrap tokens amounts))
handle_steps svc vault account (Body.registry_unwrap token amount to) =
    planned-IsSound svc account (steps_for svc vault account (Body.registry_unwrap token amount to))
handle_steps svc vault account (Body.registry_set_operator operator approved) =
    planned-IsSound svc account
      (steps_for svc vault account (Body.registry_set_operator operator approved))
handle_steps svc vault account (Body.registry_bootstrap tokens unit_qty unit_size n_shares) =
    planned-IsSound svc account
      (steps_for svc vault account (Body.registry_bootstrap tokens unit_qty unit_size n_shares))
handle_steps svc vault account (Body.registry_create shares) =
    planned-IsSound svc account (steps_for svc vault account (Body.registry_create shares))
handle_steps svc vault account (Body.registry_redeem amount with_unwrap) =
    planned-IsSound svc account
      (steps_for svc vault account (Body.registry_redeem amount with_unwrap))
handle_steps svc vault account (Body.redeem amount) =
    let steps = steps_for svc vault account (Body.redeem amount) in
    after_read svc account steps (available svc vault (account_or_none account)) _
      (planned-IsSound svc account steps)
handle_steps svc vault account (Body.mint units mode) =
    let steps = steps_for svc vault account (Body.mint units mode) in
    behind-IsSound svc account steps TxAction.mint vault _ (planned-IsSound svc account steps)
handle_steps svc vault account (Body.curator_schedule tokens unit_qty) =
    let steps = steps_for svc vault account (Body.curator_schedule tokens unit_qty) in
    behind-IsSound svc account steps TxAction.curator_schedule vault _
      (planned-IsSound svc account steps)
handle_steps svc vault account Body.curator_activate =
    let steps = steps_for svc vault account Body.curator_activate in
    behind-IsSound svc account steps TxAction.curator_activate vault _
      (planned-IsSound svc account steps)
handle_steps svc vault account (Body.forward_create cash) =
    let steps = steps_for svc vault account (Body.forward_create cash) in
    behind-IsSound svc account steps TxAction.forward_create vault _
      (or_gated-IsSound svc account steps)
handle_steps svc vault account (Body.forward_redeem shares) =
    let steps = steps_for svc vault account (Body.forward_redeem shares) in
    behind-IsSound svc account steps TxAction.forward_redeem vault _
      (or_gated-IsSound svc account steps)
handle_steps svc vault account (Body.forward_cancel ticket_id) =
    let steps = steps_for svc vault account (Body.forward_cancel ticket_id) in
    behind-IsSound svc account steps TxAction.forward_cancel vault _
      (or_gated-IsSound svc account steps)
handle_steps svc vault account Body.keeper_record =
    let steps = steps_for svc vault account Body.keeper_record in
    behind-IsSound svc account steps TxAction.keeper_record vault _
      (or_gated-IsSound svc account steps)
handle_steps svc vault account (Body.keeper_settle ticket_ids ap) =
    let steps = steps_for svc vault account (Body.keeper_settle ticket_ids ap) in
    behind-IsSound svc account steps TxAction.keeper_settle vault _
      (or_gated-IsSound svc account steps)
handle_steps svc vault account (Body.auction_open duration release acquire) =
    let steps = steps_for svc vault account (Body.auction_open duration release acquire) in
    behind-IsSound svc account steps TxAction.auction_open vault _
      (or_gated-IsSound svc account steps)
handle_steps svc vault account (Body.auction_bid acquire) =
    let steps = steps_for svc vault account (Body.auction_bid acquire) in
    behind-IsSound svc account steps TxAction.auction_bid vault _
      (or_gated-IsSound svc account steps)
handle_steps svc vault account (Body.auction_set_exec_mode mode) =
    let steps = steps_for svc vault account (Body.auction_set_exec_mode mode) in
    behind-IsSound svc account steps TxAction.auction_set_exec_mode vault _
      (or_gated-IsSound svc account steps)
