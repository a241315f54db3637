-- ===== src/Signals/Fusion/Band.antt =====
-- The rest of a fused reading: its time and status, its source and the width of its band.
use etf.Base.{
  ℕ, ◌+◌, ◌-◌, ◌*◌, ◌/◌, ◌≤◌, ◌<◌, ◌≡◌, refl, subst, inl, inr, true, List, [], ◌∷◌, arith, All, Any,
  All-map_of, ltb, Bool-cases,
}
use etf.Base.Results.{ok}
use etf.Oracle.{OracleReading}
use etf.Signals.Fusion.{
  bps, deviation_bps, max_deviation, Picks, pick_step, pick, base_confidence, FusionOutput, fuse_at,
  fuse_readings,
}
use etf.Signals.Fusion.Choice.{
  max_deviation-le, base_confidence-le, freshest-le, freshest-Any, canonical-le, canonical-Any,
}
use etf.Signals.Fusion.Guard.{fused, prices, start, fuse_readings_inv, not-fused_nil, All-prices}

Any-of_eq {ℓ} :
    {A : Type ℓ} (P : A → Type 0) (x : A) (rs : List A) (same : A → Type 0)
    → ((r : A) → same r → P r)
    → Any same rs
    → Any P rs
Any-of_eq P x (r ∷ rs) same f (inl e) = inl (f r e)
Any-of_eq P x (r ∷ rs) same f (inr e) = inr (Any-of_eq P x rs same f e)
Any-of_eq P x [] same f e = e

-- A reading that the list holds, with what it is.
abbrev Holds : (OracleReading → Type 0) → OracleReading → List OracleReading → Type 0
Holds P x rs = P x → Any P rs

-- The time and the status are those of one reading, and none is fresher; the source is that of one
-- reading whose price is the closest to `f`'s.
abbrev pub IsChosen : List OracleReading → OracleReading → Type 0
IsChosen rs f =
    All (λ r. r.timestamp ≤ f.timestamp) rs
    × Any (λ r. (r.timestamp ≡ f.timestamp) × (r.market_status ≡ f.market_status)) rs
    × Any
        (λ r.
          (r.source ≡ f.source)
          × All (λ q. deviation_bps r.price f.price ≤ deviation_bps q.price f.price) rs)
        rs

-- Every price is within the confidence of `f`'s price, a basis point of it and 1 apart.
abbrev pub IsCovered : List OracleReading → OracleReading → Type 0
IsCovered rs f =
    All
      (λ r.
        (r.price ≤ f.price + f.confidence + f.price / bps + 1)
        × (f.price ≤ r.price + f.confidence + f.price / bps + 1))
      rs

module _ (m : ℕ) (first : OracleReading) (rest : List OracleReading) where
  abbrev picks : Picks
  picks = pick m (start first) (first ∷ rest)

  fresh : All (λ r. r.timestamp ≤ picks.freshest.timestamp) (first ∷ rest)
  fresh = (freshest-le m (start first) (first ∷ rest)).1

  fresh-Holds : (P : OracleReading → Type 0) → Holds P picks.freshest (first ∷ rest)
  fresh-Holds P h = elim (freshest-Any m (start first) (first ∷ rest)) [
    | inl e ↦ inl (subst P e h)
    | inr a ↦ Any-of_eq P first (first ∷ rest) (λ r. picks.freshest ≡ r) (λ r e. subst P e h) a
  ]

  closest :
      All (λ r. deviation_bps picks.canonical.price m ≤ deviation_bps r.price m) (first ∷ rest)
  unfolding pick
  closest = canonical-le m (pick_step m (start first) first) rest refl

  closest-Holds : (P : OracleReading → Type 0) → Holds P picks.canonical (first ∷ rest)
  closest-Holds P h = elim (canonical-Any m (start first) (first ∷ rest)) [
    | inl e ↦ inl (subst P e h)
    | inr a ↦ Any-of_eq P first (first ∷ rest) (λ r. picks.canonical ≡ r) (λ r e. subst P e h) a
  ]

-- A fused reading has the time and the market status of one of the readings, and none is fresher. Its
-- source is that of one of them, and no price is closer to the fused price than that one's.
pub fuse_readings_choice :
    (rs : List OracleReading) (limit : ℕ) (out : FusionOutput)
    → fuse_readings rs limit ≡ ok out
    → IsChosen rs (fused out)
unfolding fuse_at
fuse_readings_choice [] limit out e = absurd (not-fused_nil limit out e)
fuse_readings_choice (first ∷ rest) limit out e =
    let (m, median, built) = fuse_readings_inv first rest limit out e in
    subst (λ (o : FusionOutput). IsChosen (first ∷ rest) (fused o)) built
      (
        fresh m first rest,
        fresh-Holds m first rest _ (refl, refl),
        closest-Holds m first rest _ (refl, closest m first rest),
      )

floor_lt : (n m q : ℕ) → 0 < m → n / m ≤ q → n < m * q + m
floor_lt n m q h k = grind (arith)

-- A deviation of at most d basis points of m is at most m * d / 10000, a basis point and 1 apart.
deviation_cover :
    (p m most : ℕ)
    → 0 < m
    → deviation_bps p m ≤ most
    → (p ≤ m + m * most / bps + m / bps + 1) × (m ≤ p + m * most / bps + m / bps + 1)
unfolding deviation_bps
deviation_cover p m most h k = elim (Bool-cases (ltb m p)) [
  | inl above ↦
      let b : (p - m) * bps < m * most + m = floor_lt ((p - m) * bps) m most h (ground arith) in
      (ground arith, ground arith)
  | inr below ↦
      let b : (m - p) * bps < m * most + m = floor_lt ((m - p) * bps) m most h (ground arith) in
      (ground arith, ground arith)
]

-- The statement below, of a fused output.
abbrev IsHonest : List OracleReading → FusionOutput → Type 0
IsHonest rs out =
    0 < (fused out).price
    → All (λ r. r.confidence ≤ (fused out).confidence) rs
      × (out.diverged ≡ true → IsCovered rs (fused out))

fuse_at-IsHonest :
    (m : ℕ) (first : OracleReading) (rest : List OracleReading) (limit : ℕ)
    → IsHonest (first ∷ rest) (fuse_at m first (first ∷ rest) limit)
unfolding fuse_at
fuse_at-IsHonest m first rest limit h =
    let rs = first ∷ rest in
    let most = max_deviation m 0 (prices rs) in
    let (_, base) = base_confidence-le 0 rs in
    let (_, tops) = max_deviation-le m 0 (prices rs) in
    (
      All-map_of rs (λ r b. omega arith) base,
      λ d.
          let out = fuse_at m first rs limit in
          let wide : (fused out).confidence ≡ base_confidence 0 rs + m * most / bps = rw d in
          All-map_of rs
            (λ r k.
              let (over, under) = deviation_cover r.price m most h k in (omega arith, omega arith))
            (All-prices (λ p. deviation_bps p m ≤ most) rs tops),
    )

-- The band of a reading that diverged covers every reading's price, but for one basis point of the
-- fused price and one unit of rounding; every reading's own confidence is within the band's. The
-- fused price must not be 0.
pub fuse_readings_band :
    (rs : List OracleReading) (limit : ℕ) (out : FusionOutput)
    → fuse_readings rs limit ≡ ok out
    → 0 < (fused out).price
    → All (λ r. r.confidence ≤ (fused out).confidence) rs
      × (out.diverged ≡ true → IsCovered rs (fused out))
fuse_readings_band [] limit out e = absurd (not-fused_nil limit out e)
fuse_readings_band (first ∷ rest) limit out e =
    let (m, median, built) = fuse_readings_inv first rest limit out e in
    subst (IsHonest (first ∷ rest)) built (fuse_at-IsHonest m first rest limit)
