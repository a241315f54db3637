-- ===== src/Tx/Recipe.antt =====
-- registry-recipe.ts and keeper-escrow.ts. The Merkle tree is OpenZeppelin's: what the code uses of it is
-- its root and its entries, each a leaf and the leaf's proof.
pub mod Sorted
pub mod Proofs
use etf.Base.{
  ℕ, ◌&&◌, ◌||◌, String, Bool, true, false, Option, none, some, List, [], ◌∷◌, map, ltb,
  if◌then◌else◌,
}
use etf.Base.Dict.{Dict, get, put}
use etf.Base.Results.{Result, ok, err, ◌>>=◌}
use etf.Base.Text.{str_eq, to_lower, address_value}
use etf.Tx.{Need}

-- A leaf is a token, the quantity of a unit, and the unit's size.
pub record Leaf : Type 0 where
  pub token : String
  pub unit_qty : ℕ
  pub unit_size : ℕ

pub record Entry : Type 0 where
  pub leaf : Leaf
  pub proof : List String

pub record MerkleTree : Type 0 where
  pub root : String
  pub entries : List Entry

pub record GenesisRecipe : Type 0 where
  pub genesis_root : String
  pub sorted_tokens : List String
  pub sorted_unit_qty : List ℕ

pub record BootstrapRecipe : Type 0 where
  pub genesis_root : String
  pub sorted_tokens : List String
  pub sorted_unit_qty : List ℕ
  pub proofs : List (Option (List String))

-- `tokens.map((t, i) => ({ t, q: unitQty[i]! }))`. A token without a quantity gets an undefined one, whose
-- `toString` throws when the leaves are written, before the tree is built; quantities beyond the tokens
-- are not looked at.
unfoldable pub zipped : List String → List ℕ → Result (List Need)
zipped [] qty = ok []
zipped (t ∷ tokens) [] = err "Cannot read properties of undefined (reading 'toString')"
zipped (t ∷ tokens) (q ∷ qty) = do
  rest ← zipped tokens qty
  ok (record { token = t; amount = q } ∷ rest)

-- `sort` by the number of the address. The comparison of the source answers 1 for equal addresses, and
-- the engine's merge then keeps them in the order in which they are given.
unfoldable pub insert_token : Need → List Need → List Need
insert_token x [] = x ∷ []
insert_token x (y ∷ ys) =
    let rest = insert_token x ys in
    if ltb (address_value y.token) (address_value x.token) then y ∷ rest else x ∷ y ∷ ys

unfoldable pub sort_by_token : List Need → List Need
unfolding insert_token
sort_by_token [] = []
sort_by_token (x ∷ xs) = insert_token x (sort_by_token xs)

abbrev pub leaves : ℕ → List Need → List Leaf
leaves unit_size order =
    map (λ (o : Need). record { token = o.token; unit_qty = o.amount; unit_size = unit_size }) order

abbrev pub tokens_of : List Need → List String
tokens_of = map (λ (o : Need). o.token)

abbrev pub amounts_of : List Need → List ℕ
amounts_of = map (λ (o : Need). o.amount)

unfoldable pub build_genesis_root :
    (List Leaf → Result MerkleTree) → List String → List ℕ → ℕ → Result GenesisRecipe
unfolding zipped sort_by_token
build_genesis_root tree_of tokens unit_qty unit_size = do
  pairs ← zipped tokens unit_qty
  let order = sort_by_token pairs
  tree ← tree_of (leaves unit_size order)
  ok (record {
    genesis_root = tree.root;
    sorted_tokens = tokens_of order;
    sorted_unit_qty = amounts_of order;
  })

-- `for (const [i, v] of tree.entries()) proofByToken[v[0].toLowerCase()] = tree.getProof(i)`
unfoldable pub proof_by_token : Dict (List String) → List Entry → Dict (List String)
proof_by_token d [] = d
proof_by_token d (e ∷ es) = proof_by_token (put d (to_lower e.leaf.token) e.proof) es

unfoldable pub build_bootstrap_proofs :
    (List Leaf → Result MerkleTree) → List String → List ℕ → ℕ → Result BootstrapRecipe
unfolding zipped sort_by_token proof_by_token
build_bootstrap_proofs tree_of tokens unit_qty unit_size = do
  pairs ← zipped tokens unit_qty
  let order = sort_by_token pairs
  tree ← tree_of (leaves unit_size order)
  ok (record {
    genesis_root = tree.root;
    sorted_tokens = tokens_of order;
    sorted_unit_qty = amounts_of order;
    proofs =
        map (λ (t : String). get (proof_by_token [] tree.entries) (to_lower t)) (tokens_of order);
  })

abbrev pub zero_address : String
zero_address = "0x0000000000000000000000000000000000000000"

-- `!keeperEscrow || keeperEscrow.toLowerCase() === ZERO_ADDRESS`
abbrev pub no_escrow : Option String → Bool
no_escrow none = true
no_escrow (some a) = str_eq a "" || str_eq (to_lower a) zero_address

abbrev pub given_or_zero : Option String → String
given_or_zero none = zero_address
given_or_zero (some a) = a

unfoldable pub resolve_keeper_escrow : ℕ → Option String → String → String
resolve_keeper_escrow keeper_bps keeper_escrow manager =
    if ltb 0 keeper_bps && no_escrow keeper_escrow then manager else given_or_zero keeper_escrow
