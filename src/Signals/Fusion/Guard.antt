-- ===== src/Signals/Fusion/Guard.antt =====
-- What a fused reading promises.
use etf.Base.{
  ℕ, ◌≤◌, ◌<◌, ◌≡◌, ◌↔◌, refl, subst, inl, inr, true, List, [], ◌∷◌, map, none, some, arith, All,
  Any, ltb, length, Bool-cases,
}
use etf.Base.Results.{ok, >>=-eq-ok}
use etf.Oracle.{OracleReading}
use etf.Signals.Fusion.{
  robust_median, deviation_bps, max_deviation, Picks, FusionOutput, fuse_at, fuse_readings,
}
use etf.Signals.Fusion.Choice.{max_deviation-le, max_deviation-Any}

abbrev pub fused : FusionOutput → OracleReading
fused out = out.judged.reading

abbrev pub prices : List OracleReading → List ℕ
prices = map (λ r. r.price)

abbrev pub start : OracleReading → Picks
start r = record { canonical = r; best_delta = none; freshest = r }

-- A run that returns fused its readings at their median.
pub fuse_readings_inv :
    (r : OracleReading) (rs : List OracleReading) (limit : ℕ) (out : FusionOutput)
    → fuse_readings (r ∷ rs) limit ≡ ok out
    → (m : ℕ) × (robust_median (prices (r ∷ rs)) ≡ ok m) × (fuse_at m r (r ∷ rs) limit ≡ out)
unfolding fuse_readings
fuse_readings_inv r rs limit out e =
    let (m, h, k) =
      >>=-eq-ok (robust_median (prices (r ∷ rs))) (λ n. ok (fuse_at n r (r ∷ rs) limit)) e in
    (m, h, cc)

-- An empty list is an error.
pub not-fused_nil : (limit : ℕ) (out : FusionOutput) → fuse_readings [] limit ≡ ok out → ⊥
unfolding fuse_readings
not-fused_nil limit out e = cc

pub All-prices :
    (P : ℕ → Type 0) (rs : List OracleReading) → All P (prices rs) → All (λ r. P r.price) rs
All-prices P [] h = tt
All-prices P (r ∷ rs) h = (h.0, All-prices P rs h.1)

Any-prices :
    (P : ℕ → Type 0) (rs : List OracleReading) → Any P (prices rs) → Any (λ r. P r.price) rs
Any-prices P [] h = h
Any-prices P (r ∷ rs) (inl h) = inl h
Any-prices P (r ∷ rs) (inr h) = inr (Any-prices P rs h)

-- A price of the list is not above the largest deviation's.
not-Any-far :
    (limit most m : ℕ) (rs : List OracleReading)
    → most ≤ limit
    → All (λ r. deviation_bps r.price m ≤ most) rs
    → Any (λ r. limit < deviation_bps r.price m) rs
    → ⊥
not-Any-far limit most m [] h a x = x
not-Any-far limit most m (r ∷ rs) h a (inl x) = omega arith
not-Any-far limit most m (r ∷ rs) h a (inr x) = not-Any-far limit most m rs h a.1 x

module _ (m : ℕ) (first : OracleReading) (rest : List OracleReading) (limit : ℕ) where
  abbrev readings : List OracleReading
  readings = first ∷ rest

  abbrev Far : OracleReading → Type 0
  Far r = limit < deviation_bps r.price m

  fuse_at-diverged :
      ((fuse_at m first readings limit).diverged ≡ true)
      ↔ ((1 < length readings) × Any Far readings)
  unfolding fuse_at
  fuse_at-diverged =
      let most = max_deviation m 0 (prices readings) in
      let (_, tops) = max_deviation-le m 0 (prices readings) in
      (
        (λ h. (
          ground arith,
          Any-prices (λ p. limit < deviation_bps p m) readings
              (max_deviation-Any m 0 limit (prices readings) (omega arith) (ground arith)),
        )),
        (λ h. elim (Bool-cases (ltb limit most)) [
          | inl far ↦ ground arith
          | inr near ↦ absurd (
              not-Any-far limit most m readings (ground arith)
                (All-prices (λ p. deviation_bps p m ≤ most) readings tops) h.1)
        ]),
      )

-- A fused reading has the median price. It is marked as an estimate exactly when there are at least
-- two readings and the price of one deviates from the median by more than the limit; the mark is
-- always there.
pub fuse_readings_guard :
    (rs : List OracleReading) (limit : ℕ) (out : FusionOutput)
    → fuse_readings rs limit ≡ ok out
    → (robust_median (prices rs) ≡ ok (fused out).price)
      × (out.judged.estimated ≡ some out.diverged)
      × ((out.diverged ≡ true)
          ↔ ((1 < length rs) × Any (λ r. limit < deviation_bps r.price (fused out).price) rs))
unfolding fuse_at
fuse_readings_guard [] limit out e = absurd (not-fused_nil limit out e)
fuse_readings_guard (first ∷ rest) limit out e =
    let rs = first ∷ rest in
    let (m, median, built) = fuse_readings_inv first rest limit out e in
    subst
      (λ (o : FusionOutput).
        (robust_median (prices rs) ≡ ok (fused o).price)
        × (o.judged.estimated ≡ some o.diverged)
        × ((o.diverged ≡ true)
            ↔ ((1 < length rs) × Any (λ r. limit < deviation_bps r.price (fused o).price) rs)))
      built (median, refl, fuse_at-diverged m first rest limit)
