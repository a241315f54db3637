-- ===== src/Signals/Fusion.antt =====
-- fusion.ts: the median of the healthy readings with a divergence guard.
pub mod Median
pub mod Choice
pub mod Guard
pub mod Band
use etf.Base.{
  ℕ, ◌+◌, ◌-◌, ◌*◌, ◌/◌, ◌%◌, Bool, true, false, ◌&&◌, List, [], ◌∷◌, map, Option, none, some, ltb,
  leb, ◌==◌, if◌then◌else◌, length, get_or,
}
use etf.Base.Results.{Result, ok, err, ◌>>=◌}
use etf.Oracle.{OracleReading}

abbrev pub bps : ℕ
bps = 10_000

-- `values.sort(ascending)`: any stable sort returns this list; numbers that compare equal are equal.
unfoldable pub insert : ℕ → List ℕ → List ℕ
insert x [] = x ∷ []
insert x (y ∷ ys) = let rest = insert x ys in if leb x y then x ∷ y ∷ ys else y ∷ rest

unfoldable pub sort : List ℕ → List ℕ
unfolding insert
sort [] = []
sort (x ∷ xs) = insert x (sort xs)

-- The median of a sorted list; the read past its end cannot happen, and would read 0.
unfoldable pub middle : List ℕ → ℕ
middle sorted =
    let mid = length sorted / 2 in
    if length sorted % 2 == 1
    then get_or sorted mid 0
    else (get_or sorted (mid - 1) 0 + get_or sorted mid 0) / 2

unfoldable pub robust_median : List ℕ → Result ℕ
unfolding middle
robust_median [] = err "robustMedian: empty input"
robust_median (x ∷ xs) = ok (middle (sort (x ∷ xs)))

unfoldable pub deviation_bps : ℕ → ℕ → ℕ
deviation_bps price median =
    if median == 0
    then 0
    else (let diff = if ltb median price then price - median else median - price in
        diff * bps / median)

-- The first loop: the largest deviation from the median.
unfoldable pub max_deviation : ℕ → ℕ → List ℕ → ℕ
max_deviation median most [] = most
max_deviation median most (p ∷ prices) =
    let d = deviation_bps p median in max_deviation median (if ltb most d then d else most) prices

-- The variables of the second loop.
pub record Picks : Type 0 where
  pub canonical : OracleReading
  pub best_delta : Option ℕ
  pub freshest : OracleReading

abbrev pub closer : ℕ → Option ℕ → Bool
closer delta none = true
closer delta (some best) = ltb delta best

abbrev pub pick_step : ℕ → Picks → OracleReading → Picks
pick_step median s r =
    let delta = deviation_bps r.price median in
    record {
      canonical = if closer delta s.best_delta then r else s.canonical;
      best_delta = if closer delta s.best_delta then some delta else s.best_delta;
      freshest = if ltb s.freshest.timestamp r.timestamp then r else s.freshest;
    }

unfoldable pub pick : ℕ → Picks → List OracleReading → Picks
pick median s [] = s
pick median s (r ∷ rs) = pick median (pick_step median s r) rs

-- `readings.reduce(max of the confidences, 0n)`.
unfoldable pub base_confidence : ℕ → List OracleReading → ℕ
base_confidence m [] = m
base_confidence m (r ∷ rs) = base_confidence (if ltb m r.confidence then r.confidence else m) rs

-- A reading with the optional verdict `estimated`.
pub record JudgedReading : Type 0 where
  pub reading : OracleReading
  pub estimated : Option Bool

pub record FusionOutput : Type 0 where
  pub judged : JudgedReading
  pub diverged : Bool
  pub max_deviation_bps : ℕ

-- `fuseReadings` once its input is known not to be empty: `first` is `readings[0]`.
unfoldable pub fuse_at : ℕ → OracleReading → List OracleReading → ℕ → FusionOutput
fuse_at median first readings max_divergence_bps =
    let most = max_deviation median 0 (map (λ r. r.price) readings) in
    let diverged = ltb 1 (length readings) && ltb max_divergence_bps most in
    let picks =
      pick median (record { canonical = first; best_delta = none; freshest = first }) readings in
    let widen = if diverged then median * most / bps else 0 in
    record {
      judged = record {
        reading = record {
          price = median;
          confidence = base_confidence 0 readings + widen;
          timestamp = picks.freshest.timestamp;
          market_status = picks.freshest.market_status;
          source = picks.canonical.source;
        };
        estimated = some diverged;
      };
      diverged = diverged;
      max_deviation_bps = most;
    }

unfoldable pub fuse_readings : List OracleReading → ℕ → Result FusionOutput
fuse_readings [] limit = err "fuseReadings: no readings"
fuse_readings (r ∷ rs) limit = do
  median ← robust_median (map (λ q. q.price) (r ∷ rs))
  ok (fuse_at median r (r ∷ rs) limit)
