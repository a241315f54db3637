-- ===== src/Tx/Guard.antt =====
-- packages/sdk/src/tx-guard.ts: the client's check of a plan before it sends any step.
use etf.Base.{
  ◌≡◌, ◌≢◌, ◌↔◌, ◌⊎◌, ◌∙◌, refl, sym, String, Bool, true, false, Any, List, [], ◌∷◌, ◌++◌, map, any,
  All, Bool-cases, inl, inr, if◌then◌else◌,
}
use etf.Base.Results.{Result, ok, err}
use etf.Base.Text.{◌<>◌, str_eq, eq_iff, to_lower}
use etf.Tx.{PlanStep}

-- The values of the address book, and the tokens of the constituents.
pub record SafetyContext : Type 0 where
  pub address_book : List String
  pub constituent_tokens : List String

abbrev pub allowed : SafetyContext → List String
allowed ctx = map to_lower ctx.address_book ++ map to_lower ctx.constituent_tokens

-- `allowed.has(to.toLowerCase())`
abbrev pub is_allowed : SafetyContext → String → Bool
is_allowed ctx to = any (λ a. str_eq a (to_lower to)) (allowed ctx)

unfoldable pub assert_tx_plan_safe : SafetyContext → List PlanStep → Result (Unit {0})
assert_tx_plan_safe ctx [] = ok tt
assert_tx_plan_safe ctx (PlanStep.sign712 s ∷ steps) = assert_tx_plan_safe ctx steps
assert_tx_plan_safe ctx (PlanStep.built s ∷ steps) =
    let rest = assert_tx_plan_safe ctx steps in
    if is_allowed ctx s.to
    then rest
    else err
        ("TxPlan rejected: unknown destination " <> (s.to <> (" for step \"" <> (s.label <> "\""))))

-- One of the addresses is the given one, but for the case of the letters.
abbrev pub IsNamed : List String → String → Type 0
IsNamed addresses to = Any (λ (a : String). to_lower a ≡ to_lower to) addresses

-- The step sends nothing, or sends to a known destination.
abbrev pub IsSafeStep : SafetyContext → PlanStep → Type 0
IsSafeStep ctx (PlanStep.sign712 s) = Unit
IsSafeStep ctx (PlanStep.built s) =
    IsNamed ctx.address_book s.to ⊎ IsNamed ctx.constituent_tokens s.to

true≢false : true ≢ false
true≢false e = cc

-- Whether an address is among some of the book and some of the tokens, as the code tests it.
named_lem :
    (book tokens : List String) (to : String)
    → (any (λ a. str_eq a (to_lower to)) (map to_lower book ++ map to_lower tokens) ≡ true)
      ↔ (IsNamed book to ⊎ IsNamed tokens to)
named_lem [] [] to = ((λ h. cc), (λ h. elim h [ inl a ↦ absurd a | inr a ↦ absurd a ]))
named_lem [] (t ∷ ts) to =
    let (one, back) = named_lem [] ts to in
    let same = eq_iff (to_lower t) (to_lower to) in
    elim (Bool-cases (str_eq (to_lower t) (to_lower to))) [
      | inl e ↦ rw e ((λ h. inr (inl (same.0 e))), (λ h. refl))
      | inr e ↦ rw e (
        (λ h. elim (one h) [ inl a ↦ absurd a | inr a ↦ inr (inr a) ]),
        (λ h. elim h [
          | inl a ↦ absurd a
          | inr a ↦ elim a [
            | inl same_text ↦ absurd (true≢false (sym (same.1 same_text) ∙ e))
            | inr b ↦ back (inr b)
          ]
        ]),
      )
    ]
named_lem (a ∷ book) ts to =
    let (one, back) = named_lem book ts to in
    let same = eq_iff (to_lower a) (to_lower to) in
    elim (Bool-cases (str_eq (to_lower a) (to_lower to))) [
      | inl e ↦ rw e ((λ h. inl (inl (same.0 e))), (λ h. refl))
      | inr e ↦ rw e (
        (λ h. elim (one h) [ inl b ↦ inl (inr b) | inr b ↦ inr b ]),
        (λ h. elim h [
          | inl b ↦ elim b [
            | inl same_text ↦ absurd (true≢false (sym (same.1 same_text) ∙ e))
            | inr c ↦ back (inl c)
          ]
          | inr b ↦ back (inr b)
        ]),
      )
    ]

-- The client accepts a plan exactly when every approval and call in it goes to an address of the address
-- book or to a constituent's token, whatever the case of the letters; signatures are not looked at.
pub assert_tx_plan_safe_iff :
    (ctx : SafetyContext) (steps : List PlanStep)
    → (assert_tx_plan_safe ctx steps ≡ ok tt) ↔ All (IsSafeStep ctx) steps
unfolding assert_tx_plan_safe
assert_tx_plan_safe_iff ctx [] = ((λ h. tt), (λ h. refl))
assert_tx_plan_safe_iff ctx (PlanStep.sign712 s ∷ steps) =
    let (to, from) = assert_tx_plan_safe_iff ctx steps in ((λ h. (tt, to h)), (λ h. from h.1))
assert_tx_plan_safe_iff ctx (PlanStep.built s ∷ steps) =
    let (to, from) = assert_tx_plan_safe_iff ctx steps in
    let (named, found) = named_lem ctx.address_book ctx.constituent_tokens s.to in
    elim (Bool-cases (is_allowed ctx s.to)) [
      | inl e ↦ rw e ((λ h. (named e, to h)), (λ h. from h.1))
      | inr e ↦ rw e ((λ h. cc), (λ h. absurd (true≢false (sym (found h.0) ∙ e))))
    ]
