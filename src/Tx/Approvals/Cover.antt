-- ===== src/Tx/Approvals/Cover.antt =====
-- What the approvals do on an ERC-20 ledger.
use etf.Base.{
  ℕ, ◌≤◌, ◌≡◌, refl, ap, subst, ◌∙◌, String, false, Option, List, [], ◌∷◌, map, ltb, All,
  All-map_of, arith, Bool-cases, inl, inr, if◌then◌else◌,
}
use etf.Base.Dict.{Dict}
use etf.Base.Results.{ok}
use etf.Base.Text.{str_eq, eq_iff, eq_refl}
use etf.Tx.{Arg, BuiltStep, TokenMeta, Need, ApprovalDeps}
use etf.Tx.Approvals.{or_zero, under, approve_step, approve_steps, build_approval_steps}

-- The allowances that an account gives to a spender, by token. `approve` sets one, as ERC-20 says.
abbrev pub Allowances : Type 0
Allowances = String → ℕ

abbrev pub set_allowance : Allowances → String → ℕ → Allowances
set_allowance a token amount = λ t. if str_eq token t then amount else a t

-- A step's effect on the allowances of a spender: an approval of another spender has none.
abbrev grant_args : String → String → List Arg → Allowances → Allowances
grant_args spender token (Arg.addr s ∷ (Arg.uint n ∷ [])) a =
    if str_eq s spender then set_allowance a token n else a
grant_args spender token _ a = a

abbrev pub grant : String → Allowances → BuiltStep → Allowances
grant spender a step =
    if str_eq step.data_.function_name "approve"
    then grant_args spender step.to step.data_.args a
    else a

abbrev pub grants : String → Allowances → List BuiltStep → Allowances
grants spender a [] = a
grants spender a (step ∷ steps) = grants spender (grant spender a step) steps

-- No two of the needs are of one token.
abbrev pub IsFreshIn : String → List Need → Type 0
IsFreshIn t needs = All (λ (n : Need). str_eq n.token t ≡ false) needs

abbrev pub IsDistinct : List Need → Type 0
IsDistinct [] = Unit
IsDistinct (n ∷ needs) = IsFreshIn n.token needs × IsDistinct needs

-- Every answer that the reads gave is at most what the ledger holds; one that failed, or is not there,
-- says nothing.
abbrev pub IsTruthful : Allowances → List (Option ℕ) → List Need → Type 0
IsTruthful a rs [] = Unit
IsTruthful a [] (n ∷ needs) = Unit
IsTruthful a (r ∷ rs) (n ∷ needs) = (or_zero r ≤ a n.token) × IsTruthful a rs needs

fresh_under :
    (t : String) (rs : List (Option ℕ)) (needs : List Need)
    → IsFreshIn t needs
    → IsFreshIn t (under rs needs)
unfolding under
fresh_under t rs [] h = tt
fresh_under t [] (n ∷ needs) h = elim (Bool-cases (ltb 0 n.amount)) [
  | inl e ↦ rw e (h.0, fresh_under t [] needs h.1)
  | inr e ↦ rw e (fresh_under t [] needs h.1)
]
fresh_under t (r ∷ rs) (n ∷ needs) h = elim (Bool-cases (ltb (or_zero r) n.amount)) [
  | inl e ↦ rw e (h.0, fresh_under t rs needs h.1)
  | inr e ↦ rw e (fresh_under t rs needs h.1)
]

IsTruthful-none : (a : Allowances) (needs : List Need) → IsTruthful a [] needs
IsTruthful-none a [] = tt
IsTruthful-none a (n ∷ needs) = tt

module _ (metas : Dict TokenMeta) (spender label : String) where
  abbrev run : Allowances → List Need → Allowances
  run a us = grants spender a (map (approve_step metas spender label) us)

  grant-approve :
      (a : Allowances) (n : Need)
      → grant spender a (approve_step metas spender label n) ≡ set_allowance a n.token n.amount
  grant-approve a n = rw (eq_refl spender) refl

  run-cons :
      (a : Allowances) (u : Need) (us : List Need) (t : String)
      → run a (u ∷ us) t ≡ run (set_allowance a u.token u.amount) us t
  run-cons a u us t = ap (λ (b : Allowances). run b us t) (grant-approve a u)

  run_fresh : (a : Allowances) (t : String) (us : List Need) → IsFreshIn t us → run a us t ≡ a t
  run_fresh a t [] h = refl
  run_fresh a t (u ∷ us) h =
      run-cons a u us t ∙ run_fresh (set_allowance a u.token u.amount) t us h.1 ∙ rw h.0 refl

  IsTruthful-set :
      (a : Allowances) (t : String) (amount : ℕ) (rs : List (Option ℕ)) (needs : List Need)
      → IsFreshIn t needs
      → IsTruthful a rs needs
      → IsTruthful (set_allowance a t amount) rs needs
  IsTruthful-set a t amount rs [] f h = tt
  IsTruthful-set a t amount [] (n ∷ needs) f h = tt
  IsTruthful-set a t amount (r ∷ rs) (n ∷ needs) f h =
      let e : str_eq t n.token ≡ false = grind (arith, eq_iff t n.token, eq_iff n.token t, f.0) in
      (rw e (h.0), IsTruthful-set a t amount rs needs f.1 h.1)

  abbrev IsCovered : Allowances → List Need → List Need → Type 0
  IsCovered a us needs = All (λ (n : Need). n.amount ≤ run a us n.token) needs

  -- One need put before the others.
  IsCovered-taken :
      (a : Allowances) (n : Need) (us needs : List Need)
      → IsFreshIn n.token us
      → IsCovered (set_allowance a n.token n.amount) us needs
      → IsCovered a (n ∷ us) (n ∷ needs)
  IsCovered-taken a n us needs f h = (
    rw (run-cons a n us n.token) (
        rw (run_fresh (set_allowance a n.token n.amount) n.token us f)
          (rw (eq_refl n.token) (omega arith))),
    All-map_of needs (λ m k. rw (run-cons a n us m.token) k) h,
  )

  abbrev IsCoveredBy : Allowances → List Need → List Need → Type 0
  IsCoveredBy a needs us = IsCovered a us needs

  covered :
      (a : Allowances) (rs : List (Option ℕ)) (needs : List Need)
      → IsDistinct needs
      → IsTruthful a rs needs
      → IsCovered a (under rs needs) needs
  unfolding under
  covered a rs [] d h = tt
  covered a [] (n ∷ needs) d h = elim (Bool-cases (ltb 0 n.amount)) [
    | inl e ↦
        let taken : n ∷ under [] needs ≡ under [] (n ∷ needs) = rw e refl in
        subst (IsCoveredBy a (n ∷ needs)) taken (
          IsCovered-taken a n (under [] needs) needs (fresh_under n.token [] needs d.0) (
            covered (set_allowance a n.token n.amount) [] needs d.1
              (IsTruthful-none (set_allowance a n.token n.amount) needs)))
    | inr e ↦
        let left : under [] needs ≡ under [] (n ∷ needs) = rw e refl in
        subst (IsCoveredBy a (n ∷ needs)) left
          (ground arith, covered a [] needs d.1 (IsTruthful-none a needs))
  ]
  covered a (r ∷ rs) (n ∷ needs) d h = elim (Bool-cases (ltb (or_zero r) n.amount)) [
    | inl e ↦
        let taken : n ∷ under rs needs ≡ under (r ∷ rs) (n ∷ needs) = rw e refl in
        subst (IsCoveredBy a (n ∷ needs)) taken (
          IsCovered-taken a n (under rs needs) needs (fresh_under n.token rs needs d.0) (
            covered (set_allowance a n.token n.amount) rs needs d.1
              (IsTruthful-set a n.token n.amount rs needs d.0 h.1)))
    | inr e ↦
        let left : under rs needs ≡ under (r ∷ rs) (n ∷ needs) = rw e refl in
        subst (IsCoveredBy a (n ∷ needs)) left (
          rw (run_fresh a n.token (under rs needs) (fresh_under n.token rs needs d.0))
              (ground (arith, h.0)),
          covered a rs needs d.1 h.1,
        )
  ]

-- Every allowance read covers its need.
abbrev pub IsEnough : List (Option ℕ) → List Need → Type 0
IsEnough rs [] = Unit
IsEnough [] (n ∷ needs) = (n.amount ≤ 0) × IsEnough [] needs
IsEnough (r ∷ rs) (n ∷ needs) = (n.amount ≤ or_zero r) × IsEnough rs needs

under_enough : (rs : List (Option ℕ)) (needs : List Need) → IsEnough rs needs → under rs needs ≡ []
unfolding under
under_enough rs [] h = refl
under_enough [] (n ∷ needs) h =
    let e : ltb 0 n.amount ≡ false = ground (arith, h.0) in rw e (under_enough [] needs h.1)
under_enough (r ∷ rs) (n ∷ needs) h =
    let e : ltb (or_zero r) n.amount ≡ false = ground (arith, h.0) in
    rw e (under_enough rs needs h.1)

-- The approvals of the needs left are built from some metadata.
approve_steps_lem :
    (deps : ApprovalDeps) (spender label : String) (us : List Need)
    → ((ts : List String) → (m : Dict TokenMeta) × (deps.get_many ts ≡ ok m))
    → (metas : Dict TokenMeta) × (approve_steps deps spender label us
        ≡ ok (map (approve_step metas spender label) us))
unfolding approve_steps
approve_steps_lem deps spender label [] m = ([], refl)
approve_steps_lem deps spender label (u ∷ us) m =
    let (metas, e) = m (map (λ (n : Need). n.token) (u ∷ us)) in (metas, simp e refl)

-- What the approvals guarantee of the allowances they leave.
abbrev pub IsApproved : String → Allowances → List (Option ℕ) → List Need → List BuiltStep → Type 0
IsApproved spender a rs needs steps =
    All (λ (n : Need). n.amount ≤ grants spender a steps n.token) needs
    × ((t : String) → IsFreshIn t needs → grants spender a steps t ≡ a t)
    × (IsEnough rs needs → steps ≡ [])

-- When the reads answer, and answer no more than the ledger holds, and no two needs are of one token,
-- the approvals are built; run in order on the ledger they leave every need covered, also one whose
-- allowance could not be read, and they leave the allowance of every other token as it was. There are none
-- when every allowance read is enough.
pub build_approval_steps_cover :
    (deps : ApprovalDeps) (account spender : String) (needs : List Need) (label : String)
    (a : Allowances) (rs : List (Option ℕ))
    → ((ts : List String) → (m : Dict TokenMeta) × (deps.get_many ts ≡ ok m))
    → deps.allowances account spender (map (λ (n : Need). n.token) needs) ≡ ok rs
    → IsTruthful a rs needs
    → IsDistinct needs
    → (steps : List BuiltStep) × ((build_approval_steps deps account spender needs label ≡ ok steps)
        × IsApproved spender a rs needs steps)
unfolding build_approval_steps
build_approval_steps_cover deps account spender [] label a rs m r t d =
    ([], (refl, (tt, (λ t' h. refl), (λ h. refl))))
build_approval_steps_cover deps account spender (n ∷ needs) label a rs m r t d =
    let us = under rs (n ∷ needs) in
    let (metas, e) = approve_steps_lem deps spender label us m in
    (
      map (approve_step metas spender label) us,
      (
        simp (r, e) refl,
        (
          covered metas spender label a rs (n ∷ needs) d t,
          (λ u h. run_fresh metas spender label a u us (fresh_under u rs (n ∷ needs) h)),
          (λ h. ap (map (approve_step metas spender label)) (under_enough rs (n ∷ needs) h)),
        ),
      ),
    )
