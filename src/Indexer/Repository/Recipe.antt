-- ===== src/Indexer/Repository/Recipe.antt =====
-- A registry vault's constituents are exactly the recipe that was written last.
use etf.Base.{
  ℕ, ◌≡◌, ◌≢◌, ◌↔◌, ◌∙◌, refl, sym, ap, subst, String, true, false, not, ◌&&◌, ◌||◌, Option, none,
  some, List, [], ◌∷◌, map, any, filter, Bool-cases, inl, inr, arith, if◌then◌else◌,
}
use etf.Base.Results.{ok}
use etf.Base.Text.{differs, str_eq, eq_iff, eq_refl}
use etf.Base.Table.{Table, find, upsert, upserted, find-upsert}
use etf.Tx.Mint.{Constituent}
use etf.Indexer.{RegistryConstituentsUpdate, ConstituentKey, Store, same_constituent}
use etf.Indexer.Repository.{
  is_indexed, is_dropped, upsert_constituents, replaced, replace_registry_constituents,
}

same_constituent_iff : (a b : ConstituentKey) → (same_constituent a b ≡ true) ↔ (a ≡ b)
same_constituent_iff a b =
    ground (arith, eq_iff a.vault_address b.vault_address, eq_iff a.token b.token)

-- The quantity of a token in a recipe: of several, the last.
abbrev pub quantity_or : Option ℕ → List Constituent → String → Option ℕ
quantity_or q [] token = q
quantity_or q (c ∷ cs) token =
    quantity_or (if str_eq c.token token then some c.unit_qty else q) cs token

upserted_same : (q : ℕ) (o : Option ℕ) → upserted q (λ r. q) o ≡ q
upserted_same q none = refl
upserted_same q (some r) = refl

upsert-find_one :
    (vault : String) (c : Constituent) (t : Table ConstituentKey ℕ) (k : ConstituentKey)
    → find same_constituent
        (upsert same_constituent
          (record { vault_address = vault; token = c.token })
          c.unit_qty
          (λ q. c.unit_qty)
          t)
        k
      ≡ (if str_eq vault k.vault_address && str_eq c.token k.token
          then some c.unit_qty
          else find same_constituent t k)
upsert-find_one vault c t k =
    let j : ConstituentKey = record { vault_address = vault; token = c.token } in
    find-upsert same_constituent same_constituent_iff j k c.unit_qty (λ q. c.unit_qty) t
    ∙ ap
        (λ (u : ℕ).
          if str_eq vault k.vault_address && str_eq c.token k.token
          then some u
          else find same_constituent t k)
        (upserted_same c.unit_qty (find same_constituent t j))

upsert_constituents-find :
    (vault : String) (cs : List Constituent) (t : Table ConstituentKey ℕ) (k : ConstituentKey)
    → find same_constituent (upsert_constituents vault cs t) k ≡ (
        if str_eq vault k.vault_address
        then quantity_or (find same_constituent t k) cs k.token
        else find same_constituent t k)
unfolding upsert_constituents
upsert_constituents-find vault [] t k = ground arith
upsert_constituents-find vault (c ∷ cs) t k =
    let j : ConstituentKey = record { vault_address = vault; token = c.token } in
    upsert_constituents-find vault cs (upsert same_constituent j c.unit_qty (λ q. c.unit_qty) t) k
    ∙ elim (Bool-cases (str_eq vault k.vault_address)) [
      | inl e ↦ let one = upsert-find_one vault c t k in rw (one, e) refl
      | inr e ↦ let one = upsert-find_one vault c t k in rw (one, e) refl
    ]

kept_same :
    (vault : String) (tokens : List String) (t : Table ConstituentKey ℕ) (k : ConstituentKey)
    (q : ℕ)
    → find same_constituent (filter (λ r. not (is_dropped vault tokens r)) t) k ≡ (
        if str_eq k.vault_address vault && not (any (λ x. str_eq x k.token) tokens)
        then none
        else find same_constituent t k)
    → find same_constituent (filter (λ r. not (is_dropped vault tokens r)) ((k, q) ∷ t)) k ≡ (
        if str_eq k.vault_address vault && not (any (λ x. str_eq x k.token) tokens)
        then none
        else find same_constituent ((k, q) ∷ t) k)
unfolding find
kept_same vault tokens t k q rest =
    let same : same_constituent k k ≡ true = (same_constituent_iff k k).1 refl in
    elim (Bool-cases (is_dropped vault tokens (k, q))) [
      | inl d ↦ rw (same, d) (rest ∙ rw d refl)
      | inr d ↦ rw (d, same) refl
    ]

-- What is deleted is found no more.
kept-find :
    (vault : String) (tokens : List String) (t : Table ConstituentKey ℕ) (k : ConstituentKey)
    → find same_constituent (filter (λ r. not (is_dropped vault tokens r)) t) k ≡ (
        if str_eq k.vault_address vault && not (any (λ x. str_eq x k.token) tokens)
        then none
        else find same_constituent t k)
unfolding find
kept-find vault tokens [] k = ground arith
kept-find vault tokens ((j, q) ∷ t) k =
    let rest = kept-find vault tokens t k in
    elim (Bool-cases (same_constituent j k)) [
      | inl e ↦
          subst
            (λ i.
              find same_constituent (filter (λ r. not (is_dropped vault tokens r)) ((i, q) ∷ t)) k
              ≡ (if str_eq k.vault_address vault && not (any (λ x. str_eq x k.token) tokens)
                  then none
                  else find same_constituent ((i, q) ∷ t) k))
            (sym ((same_constituent_iff j k).0 e)) (kept_same vault tokens t k q rest)
      | inr e ↦ elim (Bool-cases (is_dropped vault tokens (j, q))) [
        | inl d ↦ rw (d, e) rest
        | inr d ↦ rw (d, e) rest
      ]
    ]

abbrev tokens_of : List Constituent → List String
tokens_of = map (λ (c : Constituent). c.token)

-- Where the recipe names the token, what was before does not matter.
quantity_named :
    (cs : List Constituent) (token : String) (p q : Option ℕ)
    → any (λ x. str_eq x token) (tokens_of cs) ≡ true
    → quantity_or p cs token ≡ quantity_or q cs token
quantity_named [] token p q h = cc
quantity_named (c ∷ cs) token p q h = elim (Bool-cases (str_eq c.token token)) [
  | inl e ↦ rw e refl
  | inr e ↦ rw e (
      quantity_named cs token p q
        (sym (ap (λ b. b || any (λ x. str_eq x token) (tokens_of cs)) e) ∙ h))
]

own_lem :
    (vault : String) (cs : List Constituent) (t : Table ConstituentKey ℕ) (token : String)
    → find same_constituent
        (upsert_constituents vault cs (filter (λ r. not (is_dropped vault (tokens_of cs) r)) t))
        (record { vault_address = vault; token = token })
      ≡ quantity_or none cs token
own_lem vault cs t token =
    let k : ConstituentKey = record { vault_address = vault; token = token } in
    let kept = filter (λ r. not (is_dropped vault (tokens_of cs) r)) t in
    let named = any (λ x. str_eq x token) (tokens_of cs) in
    let before = kept-find vault (tokens_of cs) t k in
    upsert_constituents-find vault cs kept k
    ∙ ap
        (λ b.
          if b
          then quantity_or (find same_constituent kept k) cs token
          else find same_constituent kept k)
        (eq_refl vault)
    ∙ elim (Bool-cases named) [
      | inl e ↦ quantity_named cs token (find same_constituent kept k) none e
      | inr e ↦
          ap (λ q. quantity_or q cs token)
            (before
              ∙ ap (λ b. if b && not named then none else find same_constituent t k) (eq_refl vault)
              ∙ ap (λ b. if not b then none else find same_constituent t k) e)
    ]

others_lem :
    (vault : String) (cs : List Constituent) (t : Table ConstituentKey ℕ) (k : ConstituentKey)
    → k.vault_address ≢ vault
    → find same_constituent
        (upsert_constituents vault cs (filter (λ r. not (is_dropped vault (tokens_of cs) r)) t))
        k
      ≡ find same_constituent t k
others_lem vault cs t k other =
    let kept = filter (λ r. not (is_dropped vault (tokens_of cs) r)) t in
    let there : str_eq vault k.vault_address ≡ false =
      differs vault k.vault_address (λ e. other (sym e)) in
    let back : str_eq k.vault_address vault ≡ false = differs k.vault_address vault other in
    upsert_constituents-find vault cs kept k
    ∙ ap
        (λ b.
          if b
          then quantity_or (find same_constituent kept k) cs k.token
          else find same_constituent kept k)
        there
    ∙ kept-find vault (tokens_of cs) t k
    ∙ ap
        (λ b.
          if b && not (any (λ x. str_eq x k.token) (tokens_of cs))
          then none
          else find same_constituent t k)
        back

-- The constituents of an indexed registry vault, once a recipe is written: each token of the recipe with
-- its quantity, the last one if it is named twice, and no other token, whatever was there; the
-- constituents of every other vault stay.
pub replace_registry_constituents_lem :
    (u : RegistryConstituentsUpdate) (s : Store)
    → is_indexed s u.vault_address ≡ true
    → (t : Store) × (replace_registry_constituents u s ≡ ok t)
      × ((token : String)
          → find same_constituent t.constituents
              (record { vault_address = u.vault_address; token = token })
            ≡ quantity_or none u.constituents token)
      × ((k : ConstituentKey)
          → k.vault_address ≢ u.vault_address
          → find same_constituent t.constituents k ≡ find same_constituent s.constituents k)
unfolding replace_registry_constituents
replace_registry_constituents_lem u s h =
    let tokens = map (λ (c : Constituent). c.token) u.constituents in
    let kept = filter (λ r. not (is_dropped u.vault_address tokens r)) s.constituents in
    let t : Store = record s {
      constituents = upsert_constituents u.vault_address u.constituents kept;
    } in
    (
      t,
      ap (λ b. replaced b u.constituents t (record s { constituents = kept })) h,
      (λ token. own_lem u.vault_address u.constituents s.constituents token),
      (λ k other. others_lem u.vault_address u.constituents s.constituents k other),
    )
