-- ===== src/Tx/Deploy.antt =====
-- actions/deploy.ts and faucet.ts: the plans that create a vault, and that mint demonstration tokens.
use etf.Base.{
  ℕ, ◌*◌, ◌^◌, String, Bool, true, false, ◌||◌, Option, none, some, List, [], ◌∷◌, ◌++◌, ltb, not,
  if◌then◌else◌,
}
use etf.Base.Results.{Result, ok, ◌>>=◌, or_else}
use etf.Base.Text.{◌<>◌, show_nat, str_eq}
use etf.Tx.{Field, Arg, Call, StepKind, BuiltStep, ActionResult, Need}
use etf.Tx.Mint.{VaultType, zero_address}
use etf.Tx.Claims.{plan}
use etf.Tx.Recipe.{Leaf, MerkleTree, build_genesis_root, resolve_keeper_escrow}

-- `creationFeeToken` and `creationFee` of the factory.
pub record DeployDeps : Type 0 where
  pub clone_factory : String
  pub creation_fee_token : Result String
  pub creation_fee : ℕ → Result ℕ

pub record DeployTxRequest : Type 0 where
  pub account : String
  pub vault_kind : VaultType
  pub name : String
  pub symbol : String
  pub tokens : List String
  pub unit_qty : List ℕ
  pub unit_size : ℕ
  pub manager : Option String
  pub manager_fee_bps : Option ℕ
  pub keeper_bps : Option ℕ
  pub keeper_escrow : Option String
  pub user_salt : Option String

abbrev pub default_salt : String
default_salt = "0x0000000000000000000000000000000000000000000000000000000000000000"

-- The factory's number of a kind of vault.
abbrev pub vault_type_index : VaultType → ℕ
vault_type_index VaultType.basket = 0
vault_type_index VaultType.committed = 1
vault_type_index VaultType.managed = 2
vault_type_index VaultType.rebalance = 3
vault_type_index VaultType.registry = 4

abbrev pub kind_name : VaultType → String
kind_name VaultType.basket = "basket"
kind_name VaultType.committed = "committed"
kind_name VaultType.managed = "managed"
kind_name VaultType.rebalance = "rebalance"
kind_name VaultType.registry = "registry"

-- A factory without the getters charges nothing.
unfoldable pub read_creation_fee : DeployDeps → VaultType → Need
read_creation_fee deps kind =
    or_else
      (do
        token ← deps.creation_fee_token
        amount ← deps.creation_fee (vault_type_index kind)
        ok (record { token = token; amount = amount }))
      (record { token = zero_address; amount = 0 })

abbrev pub fee_approve_step : DeployDeps → Need → BuiltStep
fee_approve_step deps fee = record {
  kind = StepKind.approve;
  to = fee.token;
  data_ = record {
    abi = "erc20";
    function_name = "approve";
    args = Arg.addr deps.clone_factory ∷ Arg.uint fee.amount ∷ [];
  };
  value = "0";
  contract_name = "USDG";
  label = "Approve USDG creation fee";
  summary = "Approve CloneFactory to pull the " <> (show_nat fee.amount <> " creation fee in USDG");
  needs_prior_approval = none;
}

unfoldable pub creation_fee_approve_step : DeployDeps → Need → List BuiltStep
creation_fee_approve_step deps fee =
    if not (ltb 0 fee.amount) || str_eq fee.token zero_address
    then []
    else fee_approve_step deps fee ∷ []

abbrev pub factory_call : String → List Arg → Call
factory_call name args = record { abi = "CloneFactory"; function_name = name; args = args }

-- `??`
abbrev pub or_default {ℓ} : {A : Type ℓ} → Option A → A → A
or_default none d = d
or_default (some a) d = a

abbrev pub manager_of : DeployTxRequest → String
manager_of req = or_default req.manager req.account

abbrev pub salt_of : DeployTxRequest → String
salt_of req = or_default req.user_salt default_salt

-- The arguments of `createBasket` and `createCommittedBasket`.
abbrev pub flat_args : DeployTxRequest → List Arg
flat_args req =
    Arg.addrs req.tokens
    ∷ Arg.uints req.unit_qty
    ∷ Arg.uint req.unit_size
    ∷ Arg.text req.name
    ∷ Arg.text req.symbol
    ∷ Arg.text (salt_of req)
    ∷ []

-- The fields that a struct ends with: those of a manager, and those of a keeper.
abbrev pub managed_fields : DeployTxRequest → Option String → List (String × Field)
managed_fields req manager =
    ("unitSize", Field.uint (some req.unit_size))
    ∷ ("name", Field.text req.name)
    ∷ ("symbol", Field.text req.symbol)
    ∷ ("manager", Field.addr manager)
    ∷ ("managerFeeBps", Field.uint req.manager_fee_bps)
    ∷ []

abbrev pub keeper_fields : DeployTxRequest → List (String × Field)
keeper_fields req =
    let bps = or_default req.keeper_bps 0 in
    ("keeperBps", Field.uint (some bps))
    ∷ (
      "keeperEscrow",
      Field.addr (some (resolve_keeper_escrow bps req.keeper_escrow (manager_of req))),
    )
    ∷ []

abbrev pub struct_call : String → DeployTxRequest → List (String × Field) → Call
struct_call name req fields = factory_call name (Arg.struct fields ∷ Arg.text (salt_of req) ∷ [])

-- The call of a kind; `tree_of` is the Merkle tree of the leaves.
unfoldable pub encode_deploy :
    (List Leaf → Result MerkleTree) → DeployTxRequest → VaultType → Result Call
unfolding build_genesis_root
encode_deploy tree_of req VaultType.managed = ok (
    struct_call "createManagedBasket" req (
      ("tokens", Field.addrs req.tokens)
      ∷ ("unitQty", Field.uints req.unit_qty)
      ∷ managed_fields req req.manager))
encode_deploy tree_of req VaultType.committed =
    ok (factory_call "createCommittedBasket" (flat_args req))
encode_deploy tree_of req VaultType.registry = do
  recipe ← build_genesis_root tree_of req.tokens req.unit_qty req.unit_size
  ok (
      struct_call "createRegistryIndex" req (
        ("genesisRoot", Field.text recipe.genesis_root)
        ∷ ("tokens", Field.addrs recipe.sorted_tokens)
        ∷ (managed_fields req (some (manager_of req)) ++ keeper_fields req)))
encode_deploy tree_of req VaultType.rebalance = ok (
    struct_call "createRebalanceBasket" req (
      ("tokens", Field.addrs req.tokens)
      ∷ ("unitQty", Field.uints req.unit_qty)
      ∷ (managed_fields req (some (manager_of req)) ++ keeper_fields req)))
encode_deploy tree_of req VaultType.basket = ok (factory_call "createBasket" (flat_args req))

abbrev pub is_some_step : List BuiltStep → Bool
is_some_step [] = false
is_some_step (s ∷ steps) = true

abbrev pub deploy_call : DeployDeps → DeployTxRequest → Call → Bool → BuiltStep
deploy_call deps req data_ prior = record {
  kind = StepKind.call;
  to = deps.clone_factory;
  data_ = data_;
  value = "0";
  contract_name = "CloneFactory";
  label = "Deploy " <> (kind_name req.vault_kind <> (" basket \"" <> (req.name <> "\"")));
  summary =
      "Create a new "
      <> (kind_name req.vault_kind <> (" vault via CloneFactory for " <> req.symbol));
  needs_prior_approval = some prior;
}

unfoldable pub build_deploy :
    DeployDeps → (List Leaf → Result MerkleTree) → DeployTxRequest → Result ActionResult
unfolding encode_deploy read_creation_fee creation_fee_approve_step
build_deploy deps tree_of req = do
  data_ ← encode_deploy tree_of req req.vault_kind
  let approve = creation_fee_approve_step deps (read_creation_fee deps req.vault_kind)
  ok (plan (approve ++ (deploy_call deps req data_ (is_some_step approve) ∷ [])))

-- faucet.ts
abbrev pub usdg_faucet_amount : ℕ
usdg_faucet_amount = 100 * 10 ^ 18

abbrev pub faucet_step : String → Call → String → String → String → BuiltStep
faucet_step token data_ contract_name label summary = record {
  kind = StepKind.call;
  to = token;
  data_ = data_;
  value = "0";
  contract_name = contract_name;
  label = label;
  summary = summary;
  needs_prior_approval = some false;
}

unfoldable pub build_faucet : String → Option String → ActionResult
build_faucet token symbol =
    let name = or_default symbol "tokens" in
    plan (
      faucet_step token (record { abi = "faucet"; function_name = "faucetMint"; args = [] }) "Stock"
        ("Mint test " <> name) ("Faucet-mint demo " <> (name <> " to your wallet"))
      ∷ [])

unfoldable pub build_usdg_faucet : String → String → ActionResult
build_usdg_faucet token account = plan (
    faucet_step token
      (record {
        abi = "mint";
        function_name = "mint";
        args = Arg.addr account ∷ Arg.uint usdg_faucet_amount ∷ [];
      })
      "USDG" "Mint test USDG" "Faucet-mint demo USDG to your wallet"
    ∷ [])
