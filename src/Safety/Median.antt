-- ===== src/Safety/Median.antt =====
-- The weighted median is in the middle of the capped depths.
use etf.Base.{
  ℕ, zero, suc, ◌+◌, ◌*◌, ◌/◌, ◌≤◌, ◌<◌, ◌≡◌, ◌≢◌, ◌⊎◌, ◌∙◌, refl, sym, ap, subst, List, [], ◌∷◌,
  ◌++◌, map, any, ltb, leb, ◌==◌, All, All-map_of, Bool-cases, inl, inr, arith,
}
use mathlib.Core.List.{Perm, perm_middle, append-nil}
use mathlib.Core.List.Perm
use etf.Safety.Capped.{IsCapped, cap-IsCapped}
use etf.Safety.{
  Weighted, insert, sort_from, total_depth, cap_one, cap_depths, capped, pick_from, weighted_median,
}

abbrev pub price_of : Weighted → ℕ
price_of w = w.price

abbrev pub prices : List Weighted → List ℕ
prices = map price_of

abbrev IsSorted : List ℕ → Type 0
IsSorted [] = Unit
IsSorted (x ∷ xs) = All (λ y. x ≤ y) xs × IsSorted xs

insert_all :
    (m : ℕ) (x : Weighted) (ys : List Weighted)
    → m ≤ x.price
    → All (λ y. m ≤ y) (prices ys)
    → All (λ y. m ≤ y) (prices (insert x ys))
unfolding insert
insert_all m x [] h k = (h, tt)
insert_all m x (y ∷ ys) h k = elim (Bool-cases (ltb x.price y.price)) [
  | inl e ↦ rw e (h, k)
  | inr e ↦ rw e (k.0, insert_all m x ys h k.1)
]

insert-IsSorted :
    (x : Weighted) (ys : List Weighted) → IsSorted (prices ys) → IsSorted (prices (insert x ys))
unfolding insert
insert-IsSorted x [] s = (tt, tt)
insert-IsSorted x (y ∷ ys) s = elim (Bool-cases (ltb x.price y.price)) [
  | inl e ↦
      let lt : x.price ≤ y.price = ground arith in
      rw e ((lt, All-map_of (prices ys) (λ z h. omega (arith, lt, h)) s.0), s)
  | inr e ↦
      let le : y.price ≤ x.price = ground arith in
      rw e (insert_all y.price x ys le s.0, insert-IsSorted x ys s.1)
]

sort-IsSorted :
    (sorted xs : List Weighted) → IsSorted (prices sorted) → IsSorted (prices (sort_from sorted xs))
unfolding sort_from
sort-IsSorted sorted [] s = s
sort-IsSorted sorted (x ∷ xs) s = sort-IsSorted (insert x sorted) xs (insert-IsSorted x sorted s)

insert-perm : (x : Weighted) (ys : List Weighted) → Perm (insert x ys) (x ∷ ys)
unfolding insert
insert-perm x [] = Perm.rfl
insert-perm x (y ∷ ys) = elim (Bool-cases (ltb x.price y.price)) [
  | inl e ↦ rw e Perm.rfl
  | inr e ↦ rw e (Perm.trans (Perm.cons y (insert-perm x ys)) (Perm.swap x y ys))
]

sort-perm : (sorted xs : List Weighted) → Perm (sort_from sorted xs) (xs ++ sorted)
unfolding sort_from
sort-perm sorted [] = Perm.rfl
sort-perm sorted (x ∷ xs) =
    Perm.trans (sort-perm (insert x sorted) xs)
      (Perm.trans (Perm.append (Perm.refl xs) (insert-perm x sorted)) (perm_middle xs sorted))

prices-cap : (cap : ℕ) (ws : List Weighted) → prices (map (cap_one cap) ws) ≡ prices ws
prices-cap cap [] = refl
prices-cap cap (w ∷ ws) = ap (◌∷◌ w.price) (prices-cap cap ws)

prices-cap_depths :
    (k passes : ℕ) (ws : List Weighted) → prices (cap_depths k passes ws) ≡ prices ws
unfolding cap_depths
prices-cap_depths k zero ws = refl
prices-cap_depths k (suc passes) ws =
    let cap = total_depth ws * k / 10_000 in
    let again = prices-cap_depths k passes (map (cap_one cap) ws) ∙ prices-cap cap ws in
    elim (Bool-cases (total_depth ws == 0)) [
      | inl e ↦ rw e refl
      | inr e ↦ elim (Bool-cases (any (λ (w : Weighted). ltb cap w.depth) ws)) [
        | inl e1 ↦ rw e (rw e1 again)
        | inr e1 ↦ rw e (rw e1 refl)
      ]
    ]

cons≢nil : {A : Type 0} {x : A} {xs : List A} → (x ∷ xs) ≢ []
cons≢nil e = cc

no_price : (ws : List Weighted) → prices ws ≡ [] → ws ≡ []
no_price [] e = refl
no_price (w ∷ ws) e = absurd (cons≢nil e)

-- Where a list is parted by the price that was returned.
abbrev pub IsParted : ℕ → ℕ → ℕ → List Weighted → Type 0
IsParted total cum m ws =
    (pre : List Weighted) × (w : Weighted) × (post : List Weighted) × (ws ≡ pre ++ (w ∷ post))
    × (m ≡ w.price)
    × ((pre ≡ []) ⊎ ((cum + total_depth pre) * 2 < total))
    × (total ≤ (cum + total_depth pre + w.depth) * 2)

IsParted-later :
    (total cum m : ℕ) (x : Weighted) (ws : List Weighted)
    → (cum + x.depth) * 2 < total
    → IsParted total (cum + x.depth) m ws
    → IsParted total cum m (x ∷ ws)
IsParted-later total cum m x ws less (pre, w, post, e, same, before, upto) = (
  x ∷ pre,
  w,
  post,
  ap (◌∷◌ x) e,
  same,
  inr (elim before [ inl none ↦ rw none (omega (arith, less)) | inr some ↦ omega (arith, some) ]),
  omega (arith, upto),
)

pick-IsParted :
    (total cum last : ℕ) (x : Weighted) (ws : List Weighted)
    → total ≤ (cum + total_depth (x ∷ ws)) * 2
    → IsParted total cum (pick_from total cum last (x ∷ ws)) (x ∷ ws)
unfolding pick_from
pick-IsParted total cum last x [] h = elim (Bool-cases (leb total ((cum + x.depth) * 2))) [
  | inl e ↦ rw e ([], x, [], refl, refl, inl refl, ground arith)
  | inr e ↦ absurd (ground (arith, h))
]
pick-IsParted total cum last x (y ∷ ws) h = elim (Bool-cases (leb total ((cum + x.depth) * 2))) [
  | inl e ↦ rw e ([], x, y ∷ ws, refl, refl, inl refl, ground arith)
  | inr e ↦
      let later = pick-IsParted total (cum + x.depth) x.price y ws (omega (arith, h)) in
      rw e (IsParted-later total cum _ x (y ∷ ws) (ground arith) later)
]

at_place :
    (m : ℕ) (pre : List Weighted) (w : Weighted) (post : List Weighted)
    → All (λ y. m ≤ y) (prices (pre ++ (w ∷ post)))
    → m ≤ w.price
at_place m [] w post h = h.0
at_place m (x ∷ pre) w post h = at_place m pre w post h.1

-- The prices before and after a place of a sorted list.
around :
    (pre : List Weighted) (w : Weighted) (post : List Weighted)
    → IsSorted (prices (pre ++ (w ∷ post)))
    → All (λ (v : Weighted). v.price ≤ w.price) pre × All (λ (v : Weighted). w.price ≤ v.price) post
around [] w post s = (tt, after post s.0)
  where
    after :
        (vs : List Weighted)
        → All (λ y. w.price ≤ y) (prices vs)
        → All (λ (v : Weighted). w.price ≤ v.price) vs
    after [] h = tt
    after (v ∷ vs) h = (h.0, after vs h.1)
around (x ∷ pre) w post s =
    let (below, above) = around pre w post s.1 in ((at_place x.price pre w post s.0, below), above)

-- The capped depths are the given pairs in some order, capped, and the median parts them in the middle.
abbrev pub IsMedian : ℕ → ℕ → List Weighted → List Weighted → Type 0
IsMedian k m ws cs =
    ((sorted : List Weighted) × Perm sorted ws × IsCapped k sorted cs)
    × (pre : List Weighted) × (w : Weighted) × (post : List Weighted) × (cs ≡ pre ++ (w ∷ post))
    × (m ≡ w.price)
    × (All (λ (v : Weighted). v.price ≤ m) pre × All (λ (v : Weighted). m ≤ v.price) post)
    × ((pre ≡ []) ⊎ (total_depth pre * 2 < total_depth cs))
    × (total_depth cs ≤ (total_depth pre + w.depth) * 2)

parted-IsMedian :
    (k m : ℕ) (ws cs : List Weighted)
    → (sorted : List Weighted) × Perm sorted ws × IsCapped k sorted cs
    → IsSorted (prices cs)
    → IsParted (total_depth cs) 0 m cs
    → IsMedian k m ws cs
parted-IsMedian k m ws cs p s (pre, w, post, e, same, before, upto) =
    let first : (pre ≡ []) ⊎ (total_depth pre * 2 < total_depth cs) = elim before [
      | inl none ↦ inl none
      | inr less ↦ inr (omega (arith, less))
    ] in
    let (below, above) = around pre w post (subst (λ xs. IsSorted (prices xs)) e s) in
    (
      p,
      pre,
      w,
      post,
      e,
      same,
      (
        subst (λ y. All (λ (v : Weighted). v.price ≤ y) pre) (sym same) below,
        subst (λ y. All (λ (v : Weighted). y ≤ v.price) post) (sym same) above,
      ),
      first,
      omega (arith, upto),
    )

IsParted-all :
    (cs : List Weighted)
    → prices cs ≢ []
    → IsParted (total_depth cs) 0 (pick_from (total_depth cs) 0 0 cs) cs
IsParted-all [] h = absurd (h refl)
IsParted-all (c ∷ cs) h = pick-IsParted (total_depth (c ∷ cs)) 0 0 c cs (omega arith)

-- The weighted median of prices with depths, for a largest share of k basis points on a single depth.
-- The pairs are put in order and their depths capped: nothing is changed where no depth is above its
-- share of the total, or the total is 0; else each depth is brought down to one limit, which is at most
-- the share of the total and at least the share of what is left of it. The median is one of the prices:
-- the pairs below it hold less than half of the capped depth, unless there is none, and with its own
-- depth they hold at least half.
pub weighted_median_halves :
    (k : ℕ) (x : Weighted) (xs : List Weighted)
    → IsMedian k (weighted_median (x ∷ xs) k) (x ∷ xs) (capped k (x ∷ xs))
unfolding weighted_median
weighted_median_halves k x xs =
    let ss = sort_from [] (x ∷ xs) in
    let cs = capped k (x ∷ xs) in
    let same = prices-cap_depths k 20 ss in
    let perm : Perm ss (x ∷ xs) = subst (Perm ss) (append-nil (x ∷ xs)) (sort-perm [] (x ∷ xs)) in
    let some_pair : ss ≢ [] =
      λ none. cons≢nil (Perm.eq-nil (Perm.symm (subst (λ ps. Perm ps (x ∷ xs)) none perm))) in
    let some_price : prices cs ≢ [] = λ none. some_pair (no_price ss (sym same ∙ none)) in
    let sorted = subst IsSorted (sym same) (sort-IsSorted [] (x ∷ xs) tt) in
    parted-IsMedian k (weighted_median (x ∷ xs) k) (x ∷ xs) cs (ss, perm, cap-IsCapped k 19 ss)
      sorted (IsParted-all cs some_price)

module _ {κ} (P : ℕ → Type κ) where
  insert_keeps :
      (x : Weighted) (ys : List Weighted)
      → P x.price
      → All P (prices ys)
      → All P (prices (insert x ys))
  unfolding insert
  insert_keeps x [] h k = (h, tt)
  insert_keeps x (y ∷ ys) h k = elim (Bool-cases (ltb x.price y.price)) [
    | inl e ↦ rw e (h, k)
    | inr e ↦ rw e (k.0, insert_keeps x ys h k.1)
  ]

  sort_keeps :
      (sorted xs : List Weighted)
      → All P (prices sorted)
      → All P (prices xs)
      → All P (prices (sort_from sorted xs))
  unfolding sort_from
  sort_keeps sorted [] h k = h
  sort_keeps sorted (x ∷ xs) h k =
      sort_keeps (insert x sorted) xs (insert_keeps x sorted (k.0) h) k.1

  here :
      (pre : List Weighted) (w : Weighted) (post : List Weighted)
      → All P (prices (pre ++ (w ∷ post)))
      → P w.price
  here [] w post h = h.0
  here (v ∷ pre) w post h = here pre w post h.1

  -- What holds of every price holds of the median.
  pub weighted_median-all :
      (k : ℕ) (x : Weighted) (xs : List Weighted)
      → All P (prices (x ∷ xs))
      → P (weighted_median (x ∷ xs) k)
  weighted_median-all k x xs h =
      let (perm, pre, w, post, e, same, around_it, before, upto) = weighted_median_halves k x xs in
      let kept : All P (prices (capped k (x ∷ xs))) =
        subst (All P) (sym (prices-cap_depths k 20 (sort_from [] (x ∷ xs))))
          (sort_keeps [] (x ∷ xs) tt h) in
      subst P (sym same) (here pre w post (subst (λ ws. All P (prices ws)) e kept))
