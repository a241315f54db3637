-- ===== src/Tx/Examples.antt =====
-- Plans for one account and a vault of two constituents.
use etf.Base.{
  ℕ, ◌≡◌, ◌↔◌, refl, String, Bool, false, Option, none, some, List, [], ◌∷◌, All, Any, map, arith,
  inl, inr,
}
use etf.Base.Results.{ok, err}
use etf.Base.Text.{address_value, to_lower, str_eq}
use etf.Tx.{Arg, StepKind, BuiltStep, PlanStep, ActionResult, Need, ApprovalDeps}
use etf.Tx.Approvals.{build_approval_steps}
use etf.Tx.Approvals.Cover.{Allowances, IsTruthful, IsApproved, build_approval_steps_cover}
use etf.Tx.Mint.{VaultType, BasketRow, MintDeps, compute_deposits, build_mint, read_flat_create_fee}
use etf.Tx.Mint.Ready.{IsAnswering, IsMintReady, build_mint_ready}
use etf.Tx.Mint.Choice.{IsChoice, build_mint_any-IsChoice}
use etf.Tx.Recipe.{
  Leaf, MerkleTree, BootstrapRecipe, sort_by_token, insert_token, leaves, build_bootstrap_proofs,
}
use etf.Tx.Recipe.Proofs.{AreProved, IsKeyed, build_bootstrap_proofs_lem}
use etf.Tx.Claims.Registry.{RegistryDeps}
use etf.Tx.Claims.Registry.Holdings.{Ledger}
use etf.Tx.Actions.{ForwardDeps, ForwardBasketRow, build_forward_create, build_forward_redeem}
use etf.Tx.Actions.Ready.{IsPull, need_of, build_forward_ready}
use etf.Tx.Guard.{SafetyContext, IsSafeStep, assert_tx_plan_safe, assert_tx_plan_safe_iff}

-- The account lets every spender pull 7 of any token.
abbrev seven : Allowances
seven t = 7

-- Reads that always answer what the ledger holds.
abbrev sevens : List String → List (Option ℕ)
sevens [] = []
sevens (t ∷ ts) = some 7 ∷ sevens ts

abbrev deps : ApprovalDeps
deps = record { allowances = λ a s ts. ok (sevens ts); get_many = λ ts. ok [] }

sevens-IsTruthful :
    (needs : List Need) → IsTruthful seven (sevens (map (λ (n : Need). n.token) needs)) needs
sevens-IsTruthful [] = tt
sevens-IsTruthful (n ∷ needs) = (omega arith, sevens-IsTruthful needs)

answering : (account spender : String) → IsAnswering deps account spender seven
answering account spender = (
  (λ ts. ([], refl)),
  (λ needs. (sevens (map (λ (n : Need). n.token) needs), (refl, sevens-IsTruthful needs))),
)

abbrev needs : List Need
needs = record { token = "0xa"; amount = 5 } ∷ record { token = "0xb"; amount = 9 } ∷ []

build_approval_steps_cover_example :
    (steps : List BuiltStep) × ((build_approval_steps deps "0xacc" "0xba5" needs "vault" ≡ ok steps)
      × IsApproved "0xba5" seven (some 7 ∷ some 7 ∷ []) needs steps)
build_approval_steps_cover_example =
    build_approval_steps_cover deps "0xacc" "0xba5" needs "vault" seven (some 7 ∷ some 7 ∷ [])
      (λ ts. ([], refl)) refl (sevens-IsTruthful needs) ((refl, tt), (tt, tt))

abbrev row : BasketRow
row = record {
  vault_address = "0xba5";
  symbol = "TWO";
  unit_size = 100;
  vault_type = VaultType.managed;
  constituents =
      record { token = "0xa"; unit_qty = 5 } ∷ record { token = "0xb"; unit_qty = 9 } ∷ [];
}

abbrev mint_deps : MintDeps
mint_deps = record {
  approvals = deps;
  find_basket = λ v. some row;
  latest_price = λ t. none;
  fee_token = λ v. ok "0x05d";
  flat_create_fee = λ v. ok 20;
  preview_create = λ v n. err "not share based";
  permit_name = λ t. ok "Token";
  permit_nonce = λ t a. ok 0;
  permit_version = λ t. err "no version";
  chain_id = 1;
  now_sec = 1_000;
}

one_unit : compute_deposits mint_deps row 1 ≡ ok needs
unfolding compute_deposits
one_unit = refl

fee_other :
    All
      (λ (n : Need).
        str_eq n.token (read_flat_create_fee mint_deps "0xba5" VaultType.managed).token ≡ false)
      needs
unfolding read_flat_create_fee
fee_other = (refl, (refl, tt))

build_mint_ready_example :
    (out : ActionResult) × ((build_mint mint_deps "0xba5" "0xacc" 1 ≡ ok out)
      × IsMintReady mint_deps row "0xba5" 1 needs seven out)
build_mint_ready_example =
    build_mint_ready mint_deps "0xacc" "0xba5" 1 row needs seven refl one_unit
      (answering "0xacc" "0xba5") ((refl, tt), (tt, tt)) fee_other

build_mint_any-IsChoice_example : IsChoice mint_deps "0xba5" "0xacc" row 1 none
build_mint_any-IsChoice_example = build_mint_any-IsChoice mint_deps "0xba5" "0xacc" row 1 none refl

abbrev leaf_a : Leaf
leaf_a = record { token = "0xa"; unit_qty = 5; unit_size = 100 }

abbrev leaf_b : Leaf
leaf_b = record { token = "0xb"; unit_qty = 9; unit_size = 100 }

-- A tree that lists its entries in another order, and whose proofs are their leaves' tokens.
abbrev tree : MerkleTree
tree = record {
  root = "0x400";
  entries =
      record { leaf = leaf_b; proof = "0xb" ∷ [] }
      ∷ record { leaf = leaf_a; proof = "0xa" ∷ [] }
      ∷ [];
}

abbrev verify : List String → Leaf → Bool
verify [] l = false
verify (p ∷ ps) l = str_eq p l.token

abbrev recipe : List Need
recipe = record { token = "0xb"; amount = 9 } ∷ record { token = "0xa"; amount = 5 } ∷ []

leaves_sorted : leaves 100 (sort_by_token recipe) ≡ leaf_a ∷ leaf_b ∷ []
unfolding sort_by_token insert_token address_value
leaves_sorted = refl

leaves_in :
    All (λ (v : Leaf). Any (λ e. e.leaf ≡ v) tree.entries) (leaves 100 (sort_by_token recipe))
leaves_in = rw leaves_sorted (inr (inl refl), (inl refl, tt))

entries-IsKeyed : IsKeyed tree.entries
unfolding to_lower
entries-IsKeyed = ((refl, tt), (tt, tt))

build_bootstrap_proofs_lem_example :
    (out : BootstrapRecipe) × ((build_bootstrap_proofs
          (λ ls. ok tree)
          ("0xb" ∷ "0xa" ∷ [])
          (9 ∷ 5 ∷ 7 ∷ [])
          100
        ≡ ok out)
      × (out.genesis_root ≡ "0x400")
      × AreProved verify 100 out.sorted_tokens out.sorted_unit_qty out.proofs)
build_bootstrap_proofs_lem_example =
    build_bootstrap_proofs_lem (λ ls. ok tree) verify recipe (7 ∷ []) 100 tree refl entries-IsKeyed
      (refl, (refl, tt)) leaves_in

-- The account holds two claims of the first constituent and none of the second.
abbrev registry : RegistryDeps
registry = record {
  approvals = deps;
  find_symbol = λ v. some "TWO";
  fee_token = λ v. ok "0x05d";
  flat_create_fee = λ v. ok 20;
  preview_create = λ v n. ok ("0xa" ∷ "0xb" ∷ [], 5 ∷ 9 ∷ []);
  preview_redeem = λ v n. ok ([], []);
  balances = λ v a ids. ok (some 2 ∷ none ∷ []);
}

abbrev ledger : Ledger
ledger = record { balance = λ t. 10; allowance = seven; claims = λ t. 2 }

abbrev forward_row : ForwardBasketRow
forward_row = record { symbol = "TWO"; cash_token = none }

abbrev forward_deps : ForwardDeps
forward_deps = record {
  approvals = deps;
  find_basket = λ v. some forward_row;
  queue_for = λ v. some "0x9";
  read_stable = λ q. ok (some "0x05d");
}

build_forward_ready_example :
    ((out : ActionResult) × ((build_forward_create forward_deps "0xba5" "0xacc" 50 ≡ ok out)
        × IsPull "0x9" seven (need_of "0x05d" 50) "requestCreate" out))
    × ((out : ActionResult) × ((build_forward_redeem forward_deps "0xba5" "0xacc" 50 ≡ ok out)
          × IsPull "0x9" seven (need_of "0xba5" 50) "requestRedeem" out))
build_forward_ready_example =
    build_forward_ready forward_deps "0xba5" "0xacc" "0x9" "0x05d" forward_row 50 seven refl refl
      refl (answering "0xacc" "0x9")

abbrev book : SafetyContext
book = record { address_book = "0xBA5" ∷ []; constituent_tokens = "0xa" ∷ [] }

abbrev step_to : String → PlanStep
step_to address = PlanStep.built (record {
  kind = StepKind.call;
  to = address;
  data_ = record { abi = "BasketVault"; function_name = "create"; args = Arg.uint 1 ∷ [] };
  value = "0";
  contract_name = "BasketVault";
  label = "Mint";
  summary = "Mint";
  needs_prior_approval = none;
})

assert_tx_plan_safe_iff_example :
    (assert_tx_plan_safe book (step_to "0xba5" ∷ step_to "0xbad" ∷ []) ≡ ok tt)
    ↔ All (IsSafeStep book) (step_to "0xba5" ∷ step_to "0xbad" ∷ [])
assert_tx_plan_safe_iff_example =
    assert_tx_plan_safe_iff book (step_to "0xba5" ∷ step_to "0xbad" ∷ [])
