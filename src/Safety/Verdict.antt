-- ===== src/Safety/Verdict.antt =====
-- What a safe aggregate promises.
use etf.Base.{
  ℕ, suc, ◌+◌, ◌*◌, ◌/◌, ◌≤◌, ◌<◌, ◌≡◌, ◌∙◌, refl, sym, ap, subst, Bool, true, false, ◌&&◌, List,
  [], ◌∷◌, map, filter, length, leb, ◌==◌, All, Bool-cases, inl, inr, arith, if◌then◌else◌,
}
use native.Mathlib.Nat.{div-lt_iff_lt-mul}
use etf.Safety.{
  AggParams, SourceInput, AggResult, Usable, is_usable, is_near, usable_from, weighted, provisional,
  near_of, judge, judge_or_none, aggregate_usable, aggregate,
}
use etf.Safety.Median.{prices, weighted_median-all}

abbrev IsPriced : Usable → Type 0
IsPriced u = 0 < u.price

usable-IsPriced :
    (p : AggParams) (i : ℕ) (ss : List SourceInput) → All IsPriced (usable_from p i ss)
unfolding usable_from
usable-IsPriced p i [] = tt
usable-IsPriced p i (s ∷ ss) = elim (Bool-cases (is_usable p s)) [
  | inl e ↦ rw e (ground (arith, e), usable-IsPriced p (suc i) ss)
  | inr e ↦ rw e (usable-IsPriced p (suc i) ss)
]

filter_keeps {κ} :
    {A : Type 0} (P : A → Type κ) (test : A → Bool) (xs : List A)
    → All P xs
    → All P (filter test xs)
filter_keeps P test [] h = tt
filter_keeps P test (x ∷ xs) h = elim (Bool-cases (test x)) [
  | inl e ↦ rw e (h.0, filter_keeps P test xs h.1)
  | inr e ↦ rw e (filter_keeps P test xs h.1)
]

priced_weights :
    (us : List Usable) → All IsPriced us → All (λ (x : ℕ). 0 < x) (prices (weighted us))
priced_weights [] h = tt
priced_weights (u ∷ us) h = (h.0, priced_weights us h.1)

-- A safe aggregate: enough sources are kept, the median is a price above 0, and the band is at most the
-- configured part of the median, to within one basis point.
abbrev pub IsSafe : AggParams → AggResult → Type 0
IsSafe p out =
    (p.min_safe_sources ≤ length out.kept)
    × (0 < out.median)
    × (out.band_bps ≤ p.max_safe_band_bps)
    × (out.band * 10_000 < (p.max_safe_band_bps + 1) * out.median)

length-indexes : (us : List Usable) → length (map (λ (u : Usable). u.index) us) ≡ length us
length-indexes [] = refl
length-indexes (u ∷ us) = ap suc (length-indexes us)

band_bound :
    (band med most : ℕ) → 0 < med → band * 10_000 / med ≤ most → band * 10_000 < (most + 1) * med
band_bound band med most h k = (div-lt_iff_lt-mul h).0 (omega (arith, k))

both : (x y : Bool) → (x && y) ≡ true → (x ≡ true) × (y ≡ true)
both true y h = (refl, h)
both false y h = cc

percent :
    (med band : ℕ) → 0 < med → (if med == 0 then 0 else band * 10_000 / med) ≡ band * 10_000 / med
percent med band h = let e : (med == 0) ≡ false = ground (arith, h) in rw e refl

verdict :
    (n n' least med band bps most : ℕ)
    → n ≡ n'
    → 0 < med
    → bps ≡ (if med == 0 then 0 else band * 10_000 / med)
    → (leb least n && leb bps most) ≡ true
    → (least ≤ n') × (0 < med) × (bps ≤ most) × (band * 10_000 < (most + 1) * med)
verdict n n' least med band bps most same pos e safe =
    let (enough, narrow) = both (leb least n) (leb bps most) safe in
    let le : bps ≤ most = ground (arith, narrow) in
    let k : band * 10_000 / med ≤ most =
      subst (λ (x : ℕ). x ≤ most) (e ∙ percent med band pos) le in
    (ground (arith, enough, same), pos, le, band_bound band med most pos k)

judge_safe :
    (p : AggParams) (oldest : ℕ) (dropped : List ℕ) (u : Usable) (us : List Usable)
    → All IsPriced (u ∷ us)
    → (judge p oldest dropped (u ∷ us)).safe ≡ true
    → IsSafe p (judge p oldest dropped (u ∷ us))
unfolding judge
judge_safe p oldest dropped u us h safe =
    let out = judge p oldest dropped (u ∷ us) in
    verdict (length (u ∷ us)) (length out.kept) p.min_safe_sources out.median out.band out.band_bps
      p.max_safe_band_bps (sym (length-indexes (u ∷ us)))
      (weighted_median-all (λ (x : ℕ). 0 < x) p.max_weight_bps
        (record { price = u.price; depth = u.depth }) (weighted us) (priced_weights (u ∷ us) h))
      refl safe

judged_safe :
    (p : AggParams) (prov oldest : ℕ) (dropped : List ℕ) (us : List Usable)
    → All IsPriced us
    → (judge_or_none p prov oldest dropped us).safe ≡ true
    → IsSafe p (judge_or_none p prov oldest dropped us)
judged_safe p prov oldest dropped [] h safe = cc
judged_safe p prov oldest dropped (u ∷ us) h safe = judge_safe p oldest dropped u us h safe

-- An aggregate that is called safe keeps at least the configured number of sources; its median is above
-- 0, its band in basis points is at most the configured one, and so the band itself is below one basis
-- point more than that part of the median.
pub aggregate_safe :
    (sources : List SourceInput) (p : AggParams)
    → (aggregate sources p).safe ≡ true
    → IsSafe p (aggregate sources p)
unfolding aggregate
aggregate_safe sources p = go (usable_from p 0 sources) (usable-IsPriced p 0 sources)
  where
    go :
        (us : List Usable)
        → All IsPriced us
        → (aggregate_usable p sources us).safe ≡ true
        → IsSafe p (aggregate_usable p sources us)
    go [] h safe = cc
    go (u ∷ us) h safe =
        judged_safe p _ _ _ (near_of p (u ∷ us))
          (filter_keeps IsPriced (is_near p (provisional p (u ∷ us))) (u ∷ us) h) safe
