-- ===== src/Tx/Recipe/Proofs.antt =====
-- Each token's proof of the genesis recipe.
use etf.Base.{
  ℕ, ◌≡◌, ◌∙◌, refl, sym, subst, true, false, List, [], ◌∷◌, ◌++◌, String, Bool, Option, some, none,
  map, All, Any, inl, inr,
}
use etf.Base.Dict.{Dict, get, put, get-put}
use etf.Base.Results.{Result, ok}
use etf.Base.Text.{str_eq, eq_refl, to_lower}
use etf.Tx.{Need}
use etf.Tx.Recipe.Sorted.{zipped_lem}
use etf.Tx.Recipe.{
  Leaf, Entry, MerkleTree, BootstrapRecipe, sort_by_token, leaves, tokens_of, amounts_of,
  proof_by_token, build_bootstrap_proofs,
}

abbrev pub key : Entry → String
key e = to_lower e.leaf.token

-- The key is no entry's.
abbrev pub IsNoKey : String → List Entry → Type 0
IsNoKey k es = All (λ (e : Entry). str_eq (key e) k ≡ false) es

-- No two entries are of one token.
abbrev pub IsKeyed : List Entry → Type 0
IsKeyed [] = Unit
IsKeyed (e ∷ es) = IsNoKey (key e) es × IsKeyed es

proof-no_key :
    (d : Dict (List String)) (es : List Entry) (k : String)
    → IsNoKey k es
    → get (proof_by_token d es) k ≡ get d k
unfolding proof_by_token
proof-no_key d [] k h = refl
proof-no_key d (e ∷ es) k h =
    proof-no_key (put d (key e) e.proof) es k h.1 ∙ get-put d (key e) k e.proof ∙ rw h.0 refl

-- What the table holds for a leaf that stands among the entries: the proof of that very leaf.
IsProved : (List String → Leaf → Bool) → Dict (List String) → Leaf → Type 0
IsProved verify d v =
    (p : List String) × ((get d (to_lower v.token) ≡ some p) × (verify p v ≡ true))

proof_lem :
    (verify : List String → Leaf → Bool) (d : Dict (List String)) (es : List Entry) (v : Leaf)
    → IsKeyed es
    → All (λ (e : Entry). verify e.proof e.leaf ≡ true) es
    → Any (λ (e : Entry). e.leaf ≡ v) es
    → IsProved verify (proof_by_token d es) v
unfolding proof_by_token IsProved
proof_lem verify d [] v k good h = absurd h
proof_lem verify d (e ∷ es) v k good (inl same) = (
  e.proof,
  (
    subst
        (λ (l : Leaf).
          get (proof_by_token (put d (key e) e.proof) es) (to_lower l.token) ≡ some e.proof)
        same
        (proof-no_key (put d (key e) e.proof) es (key e) k.0
          ∙ get-put d (key e) (key e) e.proof
          ∙ rw (eq_refl (key e)) refl),
    subst (λ (l : Leaf). verify e.proof l ≡ true) same (good.0),
  ),
)
proof_lem verify d (e ∷ es) v k good (inr later) =
    proof_lem verify (put d (key e) e.proof) es v k.1 good.1 later

-- The proofs of a recipe, each beside its token and quantity.
abbrev pub AreProved :
    (List String → Leaf → Bool) → ℕ → List String → List ℕ → List (Option (List String)) → Type 0
AreProved verify size [] [] [] = Unit
AreProved verify size (t ∷ ts) (q ∷ qs) (none ∷ ps) = ⊥
AreProved verify size (t ∷ ts) (q ∷ qs) (some p ∷ ps) =
    (verify p (record { token = t; unit_qty = q; unit_size = size }) ≡ true)
    × AreProved verify size ts qs ps
AreProved verify size _ _ _ = ⊥

found :
    (verify : List String → Leaf → Bool) (size : ℕ) (t : String) (q : ℕ) (ts : List String)
    (qs : List ℕ) (ps : List (Option (List String))) (o : Option (List String)) (p : List String)
    → o ≡ some p
    → verify p (record { token = t; unit_qty = q; unit_size = size }) ≡ true
    → AreProved verify size ts qs ps
    → AreProved verify size (t ∷ ts) (q ∷ qs) (o ∷ ps)
found verify size t q ts qs ps o p e v h =
    subst (λ (x : Option (List String)). AreProved verify size (t ∷ ts) (q ∷ qs) (x ∷ ps)) (sym e)
      (v, h)

proofs_lem :
    (verify : List String → Leaf → Bool) (size : ℕ) (es : List Entry) (order : List Need)
    → IsKeyed es
    → All (λ (e : Entry). verify e.proof e.leaf ≡ true) es
    → All (λ (v : Leaf). Any (λ (e : Entry). e.leaf ≡ v) es) (leaves size order)
    → AreProved verify size
        (tokens_of order)
        (amounts_of order)
        (map (λ (t : String). get (proof_by_token [] es) (to_lower t)) (tokens_of order))
unfolding IsProved
proofs_lem verify size es [] k good h = tt
proofs_lem verify size es (n ∷ ns) k good h =
    let v : Leaf = record { token = n.token; unit_qty = n.amount; unit_size = size } in
    let (p, (e, ok_p)) = proof_lem verify [] es v k good (h.0) in
    found verify size n.token n.amount (tokens_of ns) (amounts_of ns)
      (map (λ (t : String). get (proof_by_token [] es) (to_lower t)) (tokens_of ns))
      (get (proof_by_token [] es) (to_lower n.token)) p e ok_p
      (proofs_lem verify size es ns k good h.1)

-- For tokens that each have a quantity, and perhaps more quantities: when the tree is built over the
-- leaves of the sorted recipe, as OpenZeppelin's is: every leaf is among
-- its entries, each entry's proof verifies its leaf, and no two entries are of one token, the recipe
-- for the bootstrap is returned: the tree's root, and for each token a proof that verifies the leaf of
-- that token with the quantity at the same place, in whatever order the tree lists its entries.
pub build_bootstrap_proofs_lem :
    (tree_of : List Leaf → Result MerkleTree) (verify : List String → Leaf → Bool)
    (pairs : List Need) (extra : List ℕ) (unit_size : ℕ) (tree : MerkleTree)
    → tree_of (leaves unit_size (sort_by_token pairs)) ≡ ok tree
    → IsKeyed tree.entries
    → All (λ (e : Entry). verify e.proof e.leaf ≡ true) tree.entries
    → All
        (λ (v : Leaf). Any (λ (e : Entry). e.leaf ≡ v) tree.entries)
        (leaves unit_size (sort_by_token pairs))
    → (out : BootstrapRecipe) × ((build_bootstrap_proofs tree_of
            (tokens_of pairs)
            (amounts_of pairs ++ extra)
            unit_size
          ≡ ok out)
        × (out.genesis_root ≡ tree.root)
        × AreProved verify unit_size out.sorted_tokens out.sorted_unit_qty out.proofs)
unfolding build_bootstrap_proofs
build_bootstrap_proofs_lem tree_of verify pairs extra unit_size tree built keyed good all_in =
    let order = sort_by_token pairs in
    (
      record {
        genesis_root = tree.root;
        sorted_tokens = tokens_of order;
        sorted_unit_qty = amounts_of order;
        proofs =
            map (λ (t : String). get (proof_by_token [] tree.entries) (to_lower t))
              (tokens_of order);
      },
      (
        simp (zipped_lem pairs extra, built) refl,
        refl,
        proofs_lem verify unit_size tree.entries order keyed good all_in,
      ),
    )
