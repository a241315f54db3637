-- ===== src/Tx/Mint/Choice.antt =====
-- When a mint is made by permits, and what is signed then.
use etf.Base.{
  ℕ, ◌+◌, ◌*◌, ◌≡◌, ◌≢◌, ◌⊎◌, refl, sym, subst, String, Bool, true, false, Option, none, some, List,
  [], ◌∷◌, ◌++◌, map, All, if◌then◌else◌, inl, inr,
}
use etf.Base.Dict.{Dict}
use etf.Base.Text.{◌<>◌}
use etf.Base.Results.{ok, ◌>>=◌, Holds, Result-cases}
use etf.Tx.{SignStep, PlanStep, BuiltStep, ActionResult, TokenMeta, Need}
use etf.Tx.Mint.{
  VaultType, Constituent, MintDeps, BasketRow, compute_deposits, read_flat_create_fee,
  fee_approval_steps, build_mint,
}
use etf.Tx.Mint.Permit.{
  MintMode, answered, every_nonce, supports_permit, is_permit_eligible, sign_steps,
  build_mint_permit, build_either, build_mint_any,
}

-- The signatures are one for each deposit, in order, each for the deposit's token and amount, from the
-- account to the vault, with the nonce that the token reports and an hour to go.
abbrev pub IsSigned : MintDeps → String → String → Need → SignStep → Type 0
IsSigned deps vault account d s =
    (s.token ≡ d.token)
    × (s.typed_data.verifying_contract ≡ d.token)
    × (s.typed_data.value ≡ d.amount)
    × (s.typed_data.owner ≡ account)
    × (s.typed_data.spender ≡ vault)
    × (deps.permit_nonce d.token account ≡ ok s.typed_data.nonce)
    × (s.typed_data.deadline ≡ deps.now_sec + 60 * 60)

abbrev pub AreSigned : MintDeps → String → String → List Need → List SignStep → Type 0
AreSigned deps vault account [] [] = Unit
AreSigned deps vault account [] (s ∷ ss) = ⊥
AreSigned deps vault account (d ∷ ds) [] = ⊥
AreSigned deps vault account (d ∷ ds) (s ∷ ss) =
    IsSigned deps vault account d s × AreSigned deps vault account ds ss

both : (x y : Bool) → (if x then y else false) ≡ true → (x ≡ true) × (y ≡ true)
both true y h = (refl, h)
both false y h = cc

-- The kinds of vault that a permit serves.
eligible :
    (k : VaultType) → is_permit_eligible k ≡ true → (k ≡ VaultType.basket) ⊎ (k ≡ VaultType.managed)
eligible VaultType.basket h = inl refl
eligible VaultType.managed h = inr refl
eligible VaultType.committed h = cc
eligible VaultType.registry h = cc
eligible VaultType.rebalance h = cc

module _ (deps : MintDeps) (vault account : String) where
  sign_steps_lem :
      (metas : Dict TokenMeta) (ds : List Need)
      → Holds (AreSigned deps vault account ds) (sign_steps deps vault account metas ds)
  unfolding sign_steps
  sign_steps_lem metas [] = tt
  sign_steps_lem metas (d ∷ ds) = elim (Result-cases (deps.permit_name d.token)) [
    | inl (m, e) ↦ rw e tt
    | inr (name, e) ↦ rw e (elim (Result-cases (deps.permit_nonce d.token account)) [
      | inl (m, e1) ↦ rw e1 tt
      | inr (nonce, e1) ↦ rw e1 (elim (Result-cases (sign_steps deps vault account metas ds)) [
        | inl (m, e2) ↦ rw e2 tt
        | inr (rest, e2) ↦ rw e2 (
          (refl, refl, refl, refl, refl, e1, refl),
          subst (Holds (AreSigned deps vault account ds)) e2 (sign_steps_lem metas ds),
        )
      ])
    ])
  ]

  -- What allows permits: the vault's kind, and a nonce from each of its tokens, of which it has one.
  abbrev pub IsPermitted : BasketRow → Type 0
  IsPermitted b =
      ((b.vault_type ≡ VaultType.basket) ⊎ (b.vault_type ≡ VaultType.managed))
      × (b.constituents ≢ [])
      × All (λ (c : Constituent). answered (deps.permit_nonce c.token account) ≡ true)
          b.constituents

  -- A plan by permits: plain approvals of the fee, then one signature for each deposit.
  abbrev pub IsPermitPlan : BasketRow → ℕ → ActionResult → Type 0
  IsPermitPlan b units out =
      (fees : List BuiltStep) × (deposits : List Need) × (signs : List SignStep)
      × (fee_approval_steps deps.approvals account vault
            (read_flat_create_fee deps vault b.vault_type)
          ≡ ok fees)
      × (compute_deposits deps b units ≡ ok deposits)
      × AreSigned deps vault account deposits signs
      × (out.steps ≡ map PlanStep.built fees ++ map PlanStep.sign712 signs)

  every_nonce_lem :
      (cs : List Constituent)
      → every_nonce deps account (map (λ (c : Constituent). c.token) cs) ≡ true
      → All (λ (c : Constituent). answered (deps.permit_nonce c.token account) ≡ true) cs
  unfolding every_nonce
  every_nonce_lem [] h = tt
  every_nonce_lem (c ∷ cs) h = let (e, k) = both _ _ h in (e, every_nonce_lem cs k)

  supports_lem :
      (cs : List Constituent)
      → supports_permit deps account (map (λ (c : Constituent). c.token) cs) ≡ true
      → (cs ≢ [])
        × All (λ (c : Constituent). answered (deps.permit_nonce c.token account) ≡ true) cs
  unfolding supports_permit
  supports_lem [] h = cc
  supports_lem (c ∷ cs) h = ((λ e. cc), every_nonce_lem (c ∷ cs) h)

  signs_plan :
      (b : BasketRow) (units : ℕ) (ds : List Need) (fees : List BuiltStep)
      → compute_deposits deps b units ≡ ok ds
      → fee_approval_steps deps.approvals account vault
          (read_flat_create_fee deps vault b.vault_type)
        ≡ ok fees
      → Holds (IsPermitPlan b units) (do
        metas ← deps.approvals.get_many (map (λ (d : Need). d.token) ds)
        signs ← sign_steps deps vault account metas ds
        ok (record {
          steps = map PlanStep.built fees ++ map PlanStep.sign712 signs;
          finalize = some ("/baskets/" <> (vault <> "/tx/mint/finalize"));
        }))
  signs_plan b units ds fees e e1 =
      elim (Result-cases (deps.approvals.get_many (map (λ (d : Need). d.token) ds))) [
        | inl (m, e2) ↦ rw e2 tt
        | inr (metas, e2) ↦ rw e2 (elim (Result-cases (sign_steps deps vault account metas ds)) [
          | inl (m, e3) ↦ rw e3 tt
          | inr (signs, e3) ↦
              let k =
                subst (Holds (AreSigned deps vault account ds)) e3 (sign_steps_lem metas ds) in
              rw e3 (fees, ds, signs, e1, e, k, refl)
        ])
      ]

  build_mint_permit_lem :
      (b : BasketRow) (units : ℕ)
      → deps.find_basket vault ≡ some b
      → Holds (IsPermitPlan b units) (build_mint_permit deps vault account units)
  unfolding build_mint_permit
  build_mint_permit_lem b units known =
      let fee = read_flat_create_fee deps vault b.vault_type in
      rw known (elim (Result-cases (compute_deposits deps b units)) [
        | inl (m, e) ↦ rw e tt
        | inr (ds, e) ↦
            rw e (elim (Result-cases (fee_approval_steps deps.approvals account vault fee)) [
              | inl (m, e1) ↦ rw e1 tt
              | inr (fees, e1) ↦ rw e1 (signs_plan b units ds fees e e1)
            ])
      ])

  -- Either the plan that the mint by approvals gives, or permits and what allows them.
  abbrev pub IsChoice : BasketRow → ℕ → Option MintMode → Type 0
  IsChoice b units mode =
      (build_mint_any deps vault account units mode ≡ build_mint deps vault account units)
      ⊎ ((mode ≢ some MintMode.approve)
          × IsPermitted b
          × Holds (IsPermitPlan b units) (build_mint_any deps vault account units mode))

  -- A mode that leaves the choice to the test.
  either-IsChoice :
      (b : BasketRow) (units : ℕ) (mode : Option MintMode) (test : Bool)
      → deps.find_basket vault ≡ some b
      → mode ≢ some MintMode.approve
      → (if is_permit_eligible b.vault_type
          then supports_permit deps account (map (λ (c : Constituent). c.token) b.constituents)
          else false)
        ≡ test
      → build_mint_any deps vault account units mode ≡ build_either deps vault account units test
      → IsChoice b units mode
  either-IsChoice b units mode false known n h run = inl run
  either-IsChoice b units mode true known n h run =
      let (e, k) = both _ _ h in
      let (some_one, nonces) = supports_lem b.constituents k in
      inr (
        n,
        (eligible b.vault_type e, some_one, nonces),
        subst (Holds (IsPermitPlan b units)) (sym run) (build_mint_permit_lem b units known),
      )

-- A mint is by approvals, or else it is by permits: then it was not asked to be by approvals, the vault
-- is a Basket or Managed one, it has a constituent and every constituent reports a nonce; and the plan,
-- if no read fails, is the fee's approvals and one signature for each deposit with its amount.
pub build_mint_any-IsChoice :
    (deps : MintDeps) (vault account : String) (b : BasketRow) (units : ℕ) (mode : Option MintMode)
    → deps.find_basket vault ≡ some b
    → IsChoice deps vault account b units mode
unfolding build_mint_any
build_mint_any-IsChoice deps vault account b units (some MintMode.approve) known = inl refl
build_mint_any-IsChoice deps vault account b units none known =
    either-IsChoice deps vault account b units none _ known (λ e. cc) refl (simp known refl)
build_mint_any-IsChoice deps vault account b units (some MintMode.permit) known =
    either-IsChoice deps vault account b units (some MintMode.permit) _ known (λ e. cc) refl
      (simp known refl)
