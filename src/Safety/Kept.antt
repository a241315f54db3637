-- ===== src/Safety/Kept.antt =====
-- Which sources the aggregate keeps.
use etf.Base.{
  ℕ, zero, suc, Any, ap, ◌↔◌, ◌+◌, ◌*◌, ◌≤◌, ◌≡◌, ◌≢◌, ◌∙◌, refl, sym, subst, Bool, true, false,
  some, List, [], ◌∷◌, map, filter, get_elem?, All, All-map_of, Bool-cases, inl, inr, arith,
}
use etf.Safety.{
  AggParams, SourceInput, Usable, is_usable, is_near, gap, usable_from, weighted, provisional,
  near_of, judge, judge_or_none, weighted_median, aggregate_usable, aggregate,
}
use etf.Safety.Median.{prices, weighted_median-all}

-- The source that a usable one stands for, a number of places after the first.
abbrev IsSourceFrom : AggParams → ℕ → List SourceInput → Usable → Type 0
IsSourceFrom p i ss u =
    (n : ℕ) × (s : SourceInput) × (u.index ≡ i + n)
    × (get_elem? ss n ≡ some s)
    × (is_usable p s ≡ true)
    × (u.price ≡ s.price)
    × (u.depth ≡ s.depth)

source_later :
    (p : AggParams) (i : ℕ) (s : SourceInput) (ss : List SourceInput) (u : Usable)
    → IsSourceFrom p (suc i) ss u
    → IsSourceFrom p i (s ∷ ss) u
source_later p i s ss u (n, t, e, found, ok_t, same, deep) =
    (suc n, t, omega (arith, e), found, ok_t, same, deep)

usable_lem :
    (p : AggParams) (i : ℕ) (ss : List SourceInput) → All (IsSourceFrom p i ss) (usable_from p i ss)
unfolding usable_from
usable_lem p i [] = tt
usable_lem p i (s ∷ ss) =
    let rest =
      All-map_of (usable_from p (suc i) ss) (source_later p i s ss) (usable_lem p (suc i) ss) in
    elim (Bool-cases (is_usable p s)) [
      | inl e ↦ rw e ((0, s, omega arith, refl, e, refl, refl), rest)
      | inr e ↦ rw e rest
    ]

All-filter {κ} :
    {A : Type 0} (P : A → Type κ) (test : A → Bool) (xs : List A)
    → All P xs
    → All (λ (x : A). P x × (test x ≡ true)) (filter test xs)
All-filter P test [] h = tt
All-filter P test (x ∷ xs) h = elim (Bool-cases (test x)) [
  | inl e ↦ rw e ((h.0, e), All-filter P test xs h.1)
  | inr e ↦ rw e (All-filter P test xs h.1)
]

filter_taken :
    {A : Type 0} (test : A → Bool) (x : A) (xs : List A)
    → test x ≡ true
    → filter test (x ∷ xs) ≡ x ∷ filter test xs
filter_taken test x xs e = rw e refl

filter_left :
    {A : Type 0} (test : A → Bool) (x : A) (xs : List A)
    → test x ≡ false
    → filter test (x ∷ xs) ≡ filter test xs
filter_left test x xs e = rw e refl

cons≢nil : {A : Type 0} {x : A} {xs : List A} → (x ∷ xs) ≢ []
cons≢nil e = cc

near_self : (p : AggParams) (m : ℕ) (u : Usable) → u.price ≡ m → is_near p m u ≡ true
near_self p m u same =
    let gone : gap u.price m ≡ 0 = rw same (ground arith) in rw gone (ground arith)

-- A source whose price is the given one is near it, so only other prices are filtered away.
none_near :
    (p : AggParams) (m : ℕ) (us : List Usable)
    → filter (is_near p m) us ≡ []
    → All (λ (x : ℕ). x ≢ m) (prices (weighted us))
none_near p m [] h = tt
none_near p m (u ∷ us) h = elim (Bool-cases (is_near p m u)) [
  | inl e ↦ absurd (cons≢nil (sym (filter_taken (is_near p m) u us e) ∙ h))
  | inr e ↦ (
    (λ same. let k = near_self p m u same in cc),
    none_near p m us (sym (filter_left (is_near p m) u us e) ∙ h),
  )
]

near_some : (p : AggParams) (u : Usable) (us : List Usable) → near_of p (u ∷ us) ≢ []
near_some p u us none =
    let m = provisional p (u ∷ us) in
    weighted_median-all (λ (x : ℕ). x ≢ m) p.max_weight_bps
      (record { price = u.price; depth = u.depth }) (weighted us) (none_near p m (u ∷ us) none) refl

-- A source that may be counted: it is healthy, has a price, and is not older than the horizon.
abbrev pub IsFresh : AggParams → SourceInput → Type 0
IsFresh p s = (s.healthy ≡ true) × (s.price ≢ 0) × (p.now_sec ≤ s.last_update + p.stale_horizon)

IsFresh-iff : (p : AggParams) (s : SourceInput) → (is_usable p s ≡ true) ↔ IsFresh p s
IsFresh-iff p s =
    ((λ h. (ground arith, ground arith, ground arith)), (λ h. ground (arith, h.0, h.1, h.2)))

-- The source at a place is among those of a list, with its price and its depth.
abbrev pub IsListed : ℕ → SourceInput → List Usable → Type 0
IsListed i s = Any (λ (u : Usable). (u.index ≡ i) × (u.price ≡ s.price) × (u.depth ≡ s.depth))

fresh-IsListed :
    (p : AggParams) (i n : ℕ) (s : SourceInput) (ss : List SourceInput)
    → get_elem? ss n ≡ some s
    → is_usable p s ≡ true
    → IsListed (i + n) s (usable_from p i ss)
unfolding usable_from
fresh-IsListed p i n s [] at h = cc
fresh-IsListed p i zero s (t ∷ ss) at h =
    let same : t ≡ s = cc in
    let e : is_usable p t ≡ true = ap (is_usable p) same ∙ h in
    rw e (
      inl (
        omega arith,
        ap (λ (x : SourceInput). x.price) same,
        ap (λ (x : SourceInput). x.depth) same,
      ))
fresh-IsListed p i (suc n) s (t ∷ ss) at h =
    let rest =
      subst (λ j. IsListed j s (usable_from p (suc i) ss)) (omega arith)
        (fresh-IsListed p (suc i) n s ss at h) in
    elim (Bool-cases (is_usable p t)) [ inl e ↦ rw e (inr rest) | inr e ↦ rw e rest ]

-- What the aggregate says of the sources that it keeps, by their places.
abbrev pub IsKept : AggParams → List SourceInput → ℕ → ℕ → Type 0
IsKept p sources prov i =
    (s : SourceInput) × (get_elem? sources i ≡ some s)
    × IsFresh p s
    × (gap s.price prov * 10_000 ≤ p.divergence_bps * prov)

kept_lem :
    (p : AggParams) (sources : List SourceInput) (prov : ℕ) (u : Usable)
    → IsSourceFrom p 0 sources u × (is_near p prov u ≡ true)
    → IsKept p sources prov u.index
kept_lem p sources prov u ((n, s, at, found, good, same, deep), near) =
    let e : n ≡ u.index = omega (arith, at) in
    (
      s,
      subst (λ (j : ℕ). get_elem? sources j ≡ some s) e found,
      (IsFresh-iff p s).0 good,
      rw (← same) (ground (arith, near)),
    )

All-map :
    (P : ℕ → Type 0) (us : List Usable)
    → All (λ (u : Usable). P u.index) us
    → All P (map (λ (u : Usable). u.index) us)
All-map P [] h = tt
All-map P (u ∷ us) h = (h.0, All-map P us h.1)

judged_kept :
    (p : AggParams) (prov oldest : ℕ) (dropped : List ℕ) (us : List Usable)
    → (judge_or_none p prov oldest dropped us).kept ≡ map (λ (u : Usable). u.index) us
unfolding judge
judged_kept p prov oldest dropped [] = refl
judged_kept p prov oldest dropped (u ∷ us) = refl

pub judged_all :
    (P : ℕ → Type 0) (p : AggParams) (prov oldest : ℕ) (dropped : List ℕ) (us : List Usable)
    → All (λ (u : Usable). P u.index) us
    → All P (judge_or_none p prov oldest dropped us).kept
judged_all P p prov oldest dropped us h =
    subst (All P) (sym (judged_kept p prov oldest dropped us)) (All-map P us h)

judged_none :
    (p : AggParams) (prov oldest : ℕ) (dropped : List ℕ) (us : List Usable)
    → (judge_or_none p prov oldest dropped us).kept ≡ []
    → us ≡ []
judged_none p prov oldest dropped [] e = refl
judged_none p prov oldest dropped (u ∷ us) e =
    absurd (cons≢nil (sym (judged_kept p prov oldest dropped (u ∷ us)) ∙ e))

-- The sources that the aggregate starts from: those that may be counted, each with its place.
abbrev pub IsUsableList : AggParams → List SourceInput → List Usable → Type 0
IsUsableList p sources us =
    All
      (λ (u : Usable).
        (s : SourceInput) × (get_elem? sources u.index ≡ some s)
        × IsFresh p s
        × (u.price ≡ s.price)
        × (u.depth ≡ s.depth))
      us
    × ((i : ℕ) (s : SourceInput) → get_elem? sources i ≡ some s → IsFresh p s → IsListed i s us)

usable-IsUsableList :
    (p : AggParams) (sources : List SourceInput) → IsUsableList p sources (usable_from p 0 sources)
usable-IsUsableList p sources = (
  All-map_of (usable_from p 0 sources)
      (λ u h.
        let (n, s, at, found, good, same, deep) = h in
        let e : n ≡ u.index = omega (arith, at) in
        (
          s,
          subst (λ (j : ℕ). get_elem? sources j ≡ some s) e found,
          (IsFresh-iff p s).0 good,
          same,
          deep,
        ))
      (usable_lem p 0 sources),
  (λ i s at fresh.
      let zero_first : 0 + i ≡ i = omega arith in
      subst (λ (j : ℕ). IsListed j s (usable_from p 0 sources)) zero_first
        (fresh-IsListed p 0 i s sources at ((IsFresh-iff p s).1 fresh))),
)

kept_nearby :
    (p : AggParams) (sources : List SourceInput) (us : List Usable)
    → All (IsSourceFrom p 0 sources) us
    → All (IsKept p sources (provisional p us)) (aggregate_usable p sources us).kept
kept_nearby p sources [] h = tt
kept_nearby p sources (u ∷ us) h =
    let m = provisional p (u ∷ us) in
    let kept = near_of p (u ∷ us) in
    let near = All-filter (IsSourceFrom p 0 sources) (is_near p m) (u ∷ us) h in
    judged_all (IsKept p sources m) p m _ _ kept
      (All-map_of kept (λ v k. kept_lem p sources m v k) near)

some_kept :
    (p : AggParams) (sources : List SourceInput) (i : ℕ) (s : SourceInput) (us : List Usable)
    → IsListed i s us
    → (aggregate_usable p sources us).kept ≢ []
some_kept p sources i s [] h e = h
some_kept p sources i s (u ∷ us) h e =
    near_some p u us (judged_none p (provisional p (u ∷ us)) _ _ (near_of p (u ∷ us)) e)

-- The aggregate takes a weighted median of the sources that are healthy, have a price and are not older
-- than the horizon, of all of them and no other, and keeps only such sources, those that are within the
-- divergence of that median. If there is one such source, one is kept, so the result that is returned
-- for none kept is never returned.
pub aggregate_kept :
    (sources : List SourceInput) (p : AggParams)
    → (us : List Usable) × IsUsableList p sources us
      × All
          (IsKept p sources (weighted_median (weighted us) p.max_weight_bps))
          (aggregate sources p).kept
      × ((i : ℕ) (s : SourceInput)
          → get_elem? sources i ≡ some s
          → IsFresh p s
          → (aggregate sources p).kept ≢ [])
unfolding aggregate
aggregate_kept sources p =
    let us = usable_from p 0 sources in
    let all_us = usable-IsUsableList p sources in
    (
      us,
      all_us,
      kept_nearby p sources us (usable_lem p 0 sources),
      (λ i s at fresh. some_kept p sources i s us (all_us.1 i s at fresh)),
    )
