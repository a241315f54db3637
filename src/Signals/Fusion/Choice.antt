-- ===== src/Signals/Fusion/Choice.antt =====
-- What the loops of `fuseReadings` find: the largest deviation and confidence, the freshest reading
-- and the one closest to the median.
use etf.Base.{
  ℕ, ◌≤◌, ◌<◌, ◌≡◌, refl, ◌⊎◌, inl, inr, List, [], ◌∷◌, some, arith, All, Any, ltb, Bool-cases,
  if◌then◌else◌,
}
use etf.Oracle.{OracleReading}
use etf.Signals.Fusion.{deviation_bps, max_deviation, Picks, pick_step, pick, base_confidence}

pub max_deviation-le :
    (m most : ℕ) (ps : List ℕ)
    → (most ≤ max_deviation m most ps) × All (λ p. deviation_bps p m ≤ max_deviation m most ps) ps
unfolding max_deviation
max_deviation-le m most [] = (omega arith, tt)
max_deviation-le m most (p ∷ ps) =
    let d = deviation_bps p m in
    let (up, rest) = max_deviation-le m (if ltb most d then d else most) ps in
    (ground (arith, up), (ground (arith, up), rest))

-- The largest deviation is a reading's, or the start's.
pub max_deviation-Any :
    (m most limit : ℕ) (ps : List ℕ)
    → most ≤ limit
    → limit < max_deviation m most ps
    → Any (λ p. limit < deviation_bps p m) ps
unfolding max_deviation
max_deviation-Any m most limit [] h k = absurd (omega arith)
max_deviation-Any m most limit (p ∷ ps) h k = elim (Bool-cases (ltb limit (deviation_bps p m))) [
  | inl far ↦ inl (ground arith)
  | inr near ↦ inr (
      max_deviation-Any m (if ltb most (deviation_bps p m) then deviation_bps p m else most) limit
        ps (ground arith) k)
]

pub base_confidence-le :
    (m : ℕ) (rs : List OracleReading)
    → (m ≤ base_confidence m rs) × All (λ r. r.confidence ≤ base_confidence m rs) rs
unfolding base_confidence
base_confidence-le m [] = (omega arith, tt)
base_confidence-le m (r ∷ rs) =
    let (up, rest) = base_confidence-le (if ltb m r.confidence then r.confidence else m) rs in
    (ground (arith, up), (ground (arith, up), rest))

module _ (median : ℕ) where
  abbrev delta : OracleReading → ℕ
  delta r = deviation_bps r.price median

  pub freshest-le :
      (s : Picks) (rs : List OracleReading)
      → (s.freshest.timestamp ≤ (pick median s rs).freshest.timestamp)
        × All (λ r. r.timestamp ≤ (pick median s rs).freshest.timestamp) rs
  unfolding pick
  freshest-le s [] = (omega arith, tt)
  freshest-le s (r ∷ rs) =
      let (up, rest) = freshest-le (pick_step median s r) rs in
      (ground (arith, up), (ground (arith, up), rest))

  pub freshest-Any :
      (s : Picks) (rs : List OracleReading)
      → ((pick median s rs).freshest ≡ s.freshest) ⊎ Any (λ r. (pick median s rs).freshest ≡ r) rs
  unfolding pick
  freshest-Any s [] = inl refl
  freshest-Any s (r ∷ rs) = ground (arith, freshest-Any (pick_step median s r) rs)

  pub canonical-le :
      (s : Picks) (rs : List OracleReading)
      → s.best_delta ≡ some (delta s.canonical)
      → (delta (pick median s rs).canonical ≤ delta s.canonical)
        × All (λ r. delta (pick median s rs).canonical ≤ delta r) rs
  unfolding pick
  canonical-le s [] h = (omega arith, tt)
  canonical-le s (r ∷ rs) h =
      let (up, rest) = canonical-le (pick_step median s r) rs (ground arith) in
      (ground (arith, up), (ground (arith, up), rest))

  pub canonical-Any :
      (s : Picks) (rs : List OracleReading)
      → ((pick median s rs).canonical ≡ s.canonical)
        ⊎ Any (λ r. (pick median s rs).canonical ≡ r) rs
  unfolding pick
  canonical-Any s [] = inl refl
  canonical-Any s (r ∷ rs) = ground (arith, canonical-Any (pick_step median s r) rs)
