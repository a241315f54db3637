-- ===== src/Tx/Mint/Ready.antt =====
-- The plan of a mint by approvals: when its call is sent, everything it pulls is approved.
use etf.Base.{
  ℕ, ◌≤◌, ◌≡◌, ◌∙◌, refl, sym, ap, subst, String, false, Option, none, some, List, [], ◌∷◌, ◌++◌,
  map, ltb, All, All-map_of, arith, Bool-cases, inl, inr,
}
use mathlib.Core.List.{append_assoc}
use etf.Base.Text.{str_eq, eq_iff}
use etf.Base.Dict.{Dict}
use etf.Base.Results.{ok}
use etf.Tx.{BuiltStep, PlanStep, ActionResult, TokenMeta, Need, ApprovalDeps}
use etf.Tx.Approvals.{or_zero, build_approval_steps}
use etf.Tx.Approvals.Cover.{
  Allowances, IsTruthful, IsDistinct, IsFreshIn, grant, grants, build_approval_steps_cover,
}
use etf.Tx.Mint.{
  MintDeps, BasketRow, compute_deposits, create_arg_for, read_flat_create_fee, fee_approval_steps,
  mint_call, build_mint,
}

-- The reads behind the approvals answer for any needs, with no more than the ledger holds.
abbrev pub IsAnswering : ApprovalDeps → String → String → Allowances → Type 0
IsAnswering deps account spender a =
    ((ts : List String) → (m : Dict TokenMeta) × (deps.get_many ts ≡ ok m))
    × ((needs : List Need)
        → (rs : List (Option ℕ)) × ((deps.allowances account spender
                (map (λ (n : Need). n.token) needs)
              ≡ ok rs)
            × IsTruthful a rs needs))

pub grants-append :
    (spender : String) (a : Allowances) (xs ys : List BuiltStep)
    → grants spender a (xs ++ ys) ≡ grants spender (grants spender a xs) ys
grants-append spender a [] ys = refl
grants-append spender a (x ∷ xs) ys = grants-append spender (grant spender a x) xs ys

-- Ledgers that agree on the needs' tokens.
pub IsTruthful-agree :
    (a b : Allowances) (rs : List (Option ℕ)) (needs : List Need)
    → All (λ (n : Need). a n.token ≡ b n.token) needs
    → IsTruthful a rs needs
    → IsTruthful b rs needs
IsTruthful-agree a b rs [] e h = tt
IsTruthful-agree a b [] (n ∷ needs) e h = tt
IsTruthful-agree a b (r ∷ rs) (n ∷ needs) e h =
    (subst (λ (v : ℕ). or_zero r ≤ v) (e.0) (h.0), IsTruthful-agree a b rs needs e.1 h.1)

-- The approval of the fee, and no other.
abbrev pub IsFeeApproved : String → Allowances → Need → List BuiltStep → Type 0
IsFeeApproved vault a fee steps =
    (fee.amount ≤ grants vault a steps fee.token)
    × ((t : String) → IsFreshIn t (fee ∷ []) → grants vault a steps t ≡ a t)

pub fee_lem :
    (deps : ApprovalDeps) (account vault : String) (fee : Need) (a : Allowances)
    → IsAnswering deps account vault a
    → (steps : List BuiltStep) × ((fee_approval_steps deps account vault fee ≡ ok steps)
        × IsFeeApproved vault a fee steps)
unfolding fee_approval_steps
fee_lem deps account vault fee a (m, reads) = elim (Bool-cases (ltb 0 fee.amount)) [
  | inl e ↦
      let (rs, (r, t)) = reads (fee ∷ []) in
      let (steps, (built, (cover, same, none_needed))) =
        build_approval_steps_cover deps account vault (fee ∷ []) "fee" a rs m r t (tt, tt) in
      (steps, (rw e built, (cover.0, same)))
  | inr e ↦ ([], (rw e refl, (ground arith, (λ t h. refl))))
]

-- Approvals of a fee, then approvals of needs of other tokens.
abbrev pub IsAllApproved : String → Allowances → Need → List Need → List BuiltStep → Type 0
IsAllApproved vault a fee needs steps =
    All (λ (n : Need). n.amount ≤ grants vault a steps n.token) needs
    × (fee.amount ≤ grants vault a steps fee.token)

pub str_eq_sym : (s t : String) → str_eq s t ≡ false → str_eq t s ≡ false
str_eq_sym s t h = grind (arith, eq_iff s t, eq_iff t s)

pub approvals_after_fee :
    (deps : ApprovalDeps) (account vault label : String) (fee : Need) (needs : List Need)
    (a : Allowances) (fees : List BuiltStep)
    → IsAnswering deps account vault a
    → IsFeeApproved vault a fee fees
    → IsDistinct needs
    → IsFreshIn fee.token needs
    → (steps : List BuiltStep) × ((build_approval_steps deps account vault needs label ≡ ok steps)
        × IsAllApproved vault a fee needs (fees ++ steps))
approvals_after_fee deps account vault label fee needs a fees (m, reads) (paid, same) d f =
    let b = grants vault a fees in
    let (rs, (r, t)) = reads needs in
    let agree : All (λ (n : Need). a n.token ≡ b n.token) needs =
      All-map_of needs (λ n e. sym (same n.token (str_eq_sym n.token fee.token e, tt))) f in
    let (steps, (built, (cover, rest, none_needed))) =
      build_approval_steps_cover deps account vault needs label b rs m r
        (IsTruthful-agree a b rs needs agree t) d in
    let joined = grants-append vault a fees steps in
    (
      steps,
      (
        built,
        (
          subst (λ (g : Allowances). All (λ (n : Need). n.amount ≤ g n.token) needs) (sym joined)
              cover,
          subst (λ (v : ℕ). fee.amount ≤ v)
              (sym (rest fee.token f) ∙ ap (λ (g : Allowances). g fee.token) (sym joined)) paid,
        ),
      ),
    )

abbrev pub IsMintReady :
    MintDeps → BasketRow → String → ℕ → List Need → Allowances → ActionResult → Type 0
IsMintReady deps b vault units deposits a out =
    (approvals : List BuiltStep) × ((out.steps
        ≡ map PlanStep.built
            (approvals ++ (mint_call b vault (create_arg_for b units) deposits ∷ [])))
      × IsAllApproved vault a (read_flat_create_fee deps vault b.vault_type) deposits approvals)

-- When the basket is known, its deposits can be computed, the reads behind the approvals answer, and
-- the fee and the deposits are of tokens that differ, the mint is built: approvals, then the one call.
-- Run on the ledger, the approvals leave the vault allowed to pull every deposit and the fee.
pub build_mint_ready :
    (deps : MintDeps) (account vault : String) (units : ℕ) (b : BasketRow) (deposits : List Need)
    (a : Allowances)
    → deps.find_basket vault ≡ some b
    → compute_deposits deps b units ≡ ok deposits
    → IsAnswering deps.approvals account vault a
    → IsDistinct deposits
    → IsFreshIn (read_flat_create_fee deps vault b.vault_type).token deposits
    → (out : ActionResult) × ((build_mint deps vault account units ≡ ok out)
        × IsMintReady deps b vault units deposits a out)
unfolding build_mint
build_mint_ready deps account vault units b deposits a known computed reads d f =
    let fee = read_flat_create_fee deps vault b.vault_type in
    let (fees, (built_fee, paid)) = fee_lem deps.approvals account vault fee a reads in
    let (steps, (built, approved)) =
      approvals_after_fee deps.approvals account vault "vault" fee deposits a fees reads paid d f in
    let call = mint_call b vault (create_arg_for b units) deposits in
    (
      record { steps = map PlanStep.built (fees ++ (steps ++ (call ∷ []))); finalize = none },
      (
        simp (known, computed, built_fee, built) refl,
        (
          fees ++ steps,
          (ap (map PlanStep.built) (sym (append_assoc fees steps (call ∷ []))), approved),
        ),
      ),
    )
