-- ===== src/Plan/Genesis.antt =====
-- The recipe of a registry index, from its deployment to the indexer.
use etf.Base.{◌<◌, length, ◌≡◌, refl, String, Option, none, some, List, map}
use etf.Base.Results.{Result, ok, err, ◌>>=◌}
use etf.Base.Table.{Table}
use etf.Tx.{Need}
use etf.Tx.Mint.{VaultType, Constituent}
use etf.Tx.Recipe
use etf.Tx.Recipe.{
  Leaf, MerkleTree, build_genesis_root, sort_by_token, zipped, leaves, tokens_of, amounts_of,
}
use etf.Tx.Recipe.Sorted.{zipped_short}
use etf.Tx.Deploy.{DeployTxRequest, encode_deploy}
use etf.Indexer.{GenesisRecipe}
use etf.Plan.Assembly.{PlanServices}
use etf.Plan.Builder.{persist_genesis_recipe, deploy, deploy_at}

-- The constituents of a list of tokens with their quantities.
abbrev pub constituents_of : List Need → List Constituent
constituents_of = map (λ (n : Need). record { token = n.token; unit_qty = n.amount })

-- What is kept of a recipe whose tree can be built.
abbrev row_of : List Need → GenesisRecipe
row_of pairs =
    let order = sort_by_token pairs in
    record { tokens = tokens_of order; unit_qty = amounts_of order }

abbrev recipe_of_tree : List Need → MerkleTree → Recipe.GenesisRecipe
recipe_of_tree order tree = record {
  genesis_root = tree.root;
  sorted_tokens = tokens_of order;
  sorted_unit_qty = amounts_of order;
}

-- The recipe of pairs, once the tree of their leaves is built.
abbrev rooted : PlanServices → DeployTxRequest → List Need → Result Recipe.GenesisRecipe
rooted svc req pairs =
    let order = sort_by_token pairs in
    svc.tree_of (leaves req.unit_size order) >>= (λ tree. ok (recipe_of_tree order tree))

-- The deployment of a registry index with a token that has no quantity: no recipe is kept, and the call
-- cannot be encoded.
pub deploy_short :
    (svc : PlanServices) (req : DeployTxRequest) (recipes : Table String GenesisRecipe)
    → req.vault_kind ≡ VaultType.registry
    → length req.unit_qty < length req.tokens
    → ((deploy svc req recipes).0 ≡ recipes)
      × (message : String) × (encode_deploy svc.tree_of req req.vault_kind ≡ err message)
unfolding deploy persist_genesis_recipe build_genesis_root encode_deploy
deploy_short svc req recipes kind less =
    let (message, e) = zipped_short req.tokens req.unit_qty less in
    (none_kept svc.clone_factory message e, message, simp (kind, e) refl)
  where
    none_kept :
        (factory : Option String) (message : String)
        → zipped req.tokens req.unit_qty ≡ err message
        → (deploy_at svc factory req recipes).0 ≡ recipes
    none_kept none message e = refl
    none_kept (some factory) message e = simp (kind, e) refl
