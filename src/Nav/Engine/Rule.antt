-- ===== src/Nav/Engine/Rule.antt =====
-- The rule on estimates over all the ways the engine can find a NAV.
use etf.Base.{
  ◌≡◌, refl, subst, map, ◌∙◌, ◌&&◌, [], ◌∷◌, String, true, false, List, Bool-cases, Option-cases,
  inl, inr,
}
use etf.Base.Results.{Result, Holds, Result-cases}
use etf.Oracle.{MarketStatus, NavResult}
use etf.Nav.Onchain.{Chain, Recipe, payloads, scaled, read_l4_per_unit, read_l4_holdings}
use etf.Nav.Onchain.Laws.{map_nav_result_iff}
use etf.Base.Text.{str_eq}
use etf.Signals.Router.{NavReading}
use etf.Nav.Engine.Signals.{step_estimated}
use etf.Nav.Engine.{
  BasketHolding, Constituent, Tally, tally, tally_step, definition, opening, has_fair_value,
  is_holdings_based, BasketRow, NavEngine, compute_on_chain, l4_total, compute_demo,
  compute_from_signals, compute_nav,
}

-- A NAV that is not called an estimate is of the regular session.
abbrev pub IsHonest : NavResult → Type 0
IsHonest out = out.estimated ≡ false → out.market_status ≡ MarketStatus.regular

holdings-IsHonest : (chain : Chain) (vault : String) → Holds IsHonest (read_l4_holdings chain vault)
unfolding read_l4_holdings scaled
holdings-IsHonest chain vault = elim (Option-cases chain.fair_value_nav) [
  | inl e ↦ rw e tt
  | inr (fv, e) ↦ rw e (elim (Result-cases (chain.held_tokens vault)) [
    | inl (m, e1) ↦ rw e1 tt
    | inr (held, e1) ↦ rw e1 (elim (Result-cases (payloads chain.payloads_for held)) [
      | inl (m, e2) ↦ rw e2 tt
      | inr (p, e2) ↦ rw e2 (elim (Result-cases (chain.nav_of_holdings vault held p)) [
        | inl (m, e3) ↦ rw e3 tt
        | inr (raw, e3) ↦ rw e3 (elim (Result-cases (chain.total_supply vault)) [
          | inl (m, e4) ↦ rw e4 tt
          | inr (supply, e4) ↦ rw e4 ((map_nav_result_iff raw).1)
        ])
      ])
    ])
  ])
]

per_unit-IsHonest :
    (chain : Chain) (vault : String) (recipe : Recipe)
    → Holds IsHonest (read_l4_per_unit chain vault recipe)
unfolding read_l4_per_unit
per_unit-IsHonest chain vault recipe = elim (Option-cases chain.fair_value_nav) [
  | inl e ↦ rw e tt
  | inr (fv, e) ↦ rw e (elim (Result-cases (payloads chain.payloads_for recipe.tokens)) [
    | inl (m, e1) ↦ rw e1 tt
    | inr (p, e1) ↦ rw e1 (elim (Result-cases (chain.nav_of vault recipe p)) [
      | inl (m, e2) ↦ rw e2 tt
      | inr (raw, e2) ↦ rw e2 ((map_nav_result_iff raw).1)
    ])
  ])
]

l4_total-IsHonest :
    (engine : NavEngine) (vault : String) (basket : BasketRow)
    → Holds IsHonest (l4_total engine vault basket)
unfolding l4_total scaled
l4_total-IsHonest engine vault basket =
    let recipe : Recipe = record {
      tokens = map (λ (c : Constituent). c.token) basket.constituents;
      unit_qty = map (λ (c : Constituent). c.unit_qty) basket.constituents;
      unit_size = basket.unit_size;
    } in
    elim (Result-cases (read_l4_per_unit engine.chain vault recipe)) [
      | inl (m, e) ↦ rw e tt
      | inr (r, e) ↦
          let k = subst (Holds IsHonest) e (per_unit-IsHonest engine.chain vault recipe) in
          rw e (elim (Result-cases (engine.chain.total_supply vault)) [
            | inl (m, e1) ↦ rw e1 tt
            | inr (supply, e1) ↦ rw e1 k
          ])
    ]

on_chain-IsHonest :
    (engine : NavEngine) (vault : String) → Holds IsHonest (compute_on_chain engine vault)
unfolding compute_on_chain l4_total scaled
on_chain-IsHonest engine vault = elim (Option-cases (engine.find_basket vault)) [
  | inl e ↦ rw e tt
  | inr (basket, e) ↦
      rw e
        (elim (is_holdings_based basket.vault_type)
          as (λ b. Holds IsHonest (elim b [
            | true ↦ read_l4_holdings engine.chain vault
            | false ↦ l4_total engine vault basket
          ])) [
            | true ↦ holdings-IsHonest engine.chain vault
            | false ↦ l4_total-IsHonest engine vault basket
          ])
]

abbrev IsKept : Tally → Type 0
IsKept t = t.estimated ≡ false → t.worst_status ≡ MarketStatus.regular

-- The loop's variables keep the rule, from values that keep it.
tally_honest :
    (get : String → Result NavReading) (s : Tally) (hs : List BasketHolding)
    → (s.estimated ≡ false → s.worst_status ≡ MarketStatus.regular)
    → Holds IsKept (tally get s hs)
unfolding tally
tally_honest get s [] k = k
tally_honest get s (h ∷ hs) k = elim (Result-cases (get h.token)) [
  | inl (m, e) ↦ rw e tt
  | inr (r, e) ↦ rw e (
      tally_honest get (tally_step s h r) hs
        (λ g. let (to, from) = (step_estimated s h r).0 in (step_estimated s h r).1 g ∙ k (to g).0))
]

signals-IsHonest :
    (engine : NavEngine) (id : String) → Holds IsHonest (compute_from_signals engine id)
unfolding compute_from_signals
signals-IsHonest engine id = elim (Option-cases (definition engine.bootstrap id)) [
  | inl e ↦ rw e tt
  | inr (def, e) ↦
      rw e (elim (Result-cases (tally engine.get_reading (opening engine.now) def.holdings)) [
        | inl (m, e1) ↦ rw e1 tt
        | inr (s, e1) ↦ rw e1 (
            subst (Holds IsKept) e1
              (tally_honest engine.get_reading (opening engine.now) def.holdings (λ g. refl)))
      ])
]

demo-IsHonest : (engine : NavEngine) (vault : String) → Holds IsHonest (compute_demo engine vault)
unfolding compute_demo
demo-IsHonest engine vault = elim (Option-cases (engine.find_basket vault)) [
  | inl e ↦ rw e tt
  | inr (b, e) ↦ rw e (λ g. refl)
]

-- Whichever way the engine finds a NAV (the demo, the chain, the signals), a NAV that it returns and
-- does not call an estimate has the status Regular.
pub compute_nav-IsHonest :
    (engine : NavEngine) (vault : String) → Holds IsHonest (compute_nav engine vault)
unfolding compute_nav
compute_nav-IsHonest engine vault = elim (Bool-cases engine.demo_nav) [
  | inl e ↦ rw e (demo-IsHonest engine vault)
  | inr e ↦
      rw e
        (elim (Bool-cases
          (str_eq engine.nav_source "onchain" && has_fair_value engine.chain.fair_value_nav)) [
            | inl e1 ↦ rw e1 (on_chain-IsHonest engine vault)
            | inr e1 ↦ rw e1 (signals-IsHonest engine vault)
          ])
]
