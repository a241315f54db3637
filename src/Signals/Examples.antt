-- ===== src/Signals/Examples.antt =====
-- The signals at concrete values: a router over four adapters, and the functions below it.
use etf.Base.{
  ℕ, ◌+◌, ◌≤◌, ◌<◌, ◌≡◌, ◌≢◌, ◌↔◌, refl, String, true, false, Option, none, some, List, [], ◌∷◌,
  All, Any, length, arith,
}
use etf.Base.Results.{Result, ok, err}
use etf.Oracle.{MarketStatus, OracleSource, OracleReading}
use etf.Signals.Status.{StatusResolution, resolve}
use etf.Signals.Status.Laws.{resolve_iff}
use etf.Signals.Calendar.{WallClock}
use etf.Signals.Fusion.{
  FusionOutput, JudgedReading, deviation_bps, robust_median, fuse_readings, fuse_at, sort, middle,
  insert, max_deviation, pick, base_confidence,
}
use etf.Signals.Fusion.Median.{IsHalved, robust_median_halves, robust_median_majority}
use etf.Signals.Fusion.Guard.{fused, prices, fuse_readings_guard}
use etf.Signals.Fusion.Band.{IsCovered, fuse_readings_band}
use etf.Signals.Router.{
  Adapter, SignalRouter, NavReading, fallback_order, walk, attempt, find_adapter, gate, get_reading,
  gather, fuse_to_reading,
}
use etf.Signals.Router.Walk.{IsFirst, get_reading_iff}
use etf.Signals.Router.Grade.{IsFresh, get_reading_grade}
use etf.Signals.Router.Fused.{fuse_to_reading_agreeing}
use etf.Signals.Adapters.{Twap, Mark, Anchor, perp_mark_read, dex_twap_read, last_close_read}
use etf.Signals.Adapters.Verdict.{input_of}

abbrev reading : ℕ → ℕ → MarketStatus → OracleSource → OracleReading
reading price timestamp status source = record {
  price = price;
  confidence = 1;
  timestamp = timestamp;
  market_status = status;
  source = source;
}

abbrev feed : OracleReading
feed = reading 1_000 950 MarketStatus.regular OracleSource.chainlink

abbrev pool : OracleReading
pool = reading 1_002 990 MarketStatus.regular OracleSource.dex_twap

abbrev thin : OracleReading
thin = reading 1_500 990 MarketStatus.closed OracleSource.dex_twap

abbrev answer : OracleSource → Result (Option OracleReading) → Adapter
answer source r = record { source = source; read = λ t. r }

-- The first source fails, the second has no price, and the pool is on the chain.
abbrev router : SignalRouter
router = record {
  adapters =
      answer OracleSource.chainlink (err "timeout")
      ∷ answer OracleSource.pyth (ok none)
      ∷ answer OracleSource.dex_twap (ok (some pool))
      ∷ [];
  stale_threshold_seconds = 60;
  check = ok true;
  now = 1_000;
  on_chain = λ s. true;
  max_divergence_bps = some 100;
}

abbrev from_pool : NavReading
from_pool = record {
  price = 1_002;
  confidence = 1;
  timestamp = 990;
  market_status = MarketStatus.regular;
  source = OracleSource.dex_twap;
  estimated = false;
}

reading_found : get_reading router "0xa" ≡ ok from_pool
unfolding get_reading walk attempt find_adapter gate resolve
reading_found = refl

get_reading_iff_example :
    (get_reading router "0xa" ≡ ok from_pool) ↔ IsFirst router "0xa" fallback_order from_pool
get_reading_iff_example = get_reading_iff router "0xa" true from_pool refl

get_reading_grade_example : IsFresh router "0xa" from_pool
get_reading_grade_example = get_reading_grade router "0xa" from_pool reading_found refl

resolve_iff_example :
    (((resolve 60 (input_of 1_000 feed)).degraded ≡ false)
      ↔ ((feed.market_status ≡ MarketStatus.regular) × (1_000 ≤ feed.timestamp + 60)))
    × (((resolve 60 (input_of 1_000 feed)).degraded ≡ false)
        ↔ ((resolve 60 (input_of 1_000 feed)).status ≡ MarketStatus.regular))
    × (feed.market_status ≢ MarketStatus.regular
        → (resolve 60 (input_of 1_000 feed)).status ≡ feed.market_status)
    × (feed.market_status ≡ MarketStatus.regular
        → feed.timestamp + 60 < 1_000
        → (resolve 60 (input_of 1_000 feed)).status ≡ MarketStatus.unknown)
resolve_iff_example = resolve_iff 60 (input_of 1_000 feed)

abbrev parts : List StatusResolution
parts =
    record { status = MarketStatus.regular; degraded = false }
    ∷ record { status = MarketStatus.closed; degraded = true }
    ∷ []

abbrev tuesday : WallClock
tuesday = record { weekday = "Tue"; hour = 9; minute = 30 }

-- Three readings, one of them far away.
abbrev readings : List OracleReading
readings = feed ∷ pool ∷ thin ∷ []

abbrev fused_readings : FusionOutput
fused_readings = record {
  judged = record {
    reading = record {
      price = 1_002;
      confidence = 498;
      timestamp = 990;
      market_status = MarketStatus.regular;
      source = OracleSource.dex_twap;
    };
    estimated = some true;
  };
  diverged = true;
  max_deviation_bps = 4_970;
}

readings_fuse : fuse_readings readings 100 ≡ ok fused_readings
unfolding fuse_readings robust_median sort middle insert fuse_at max_deviation pick base_confidence
    deviation_bps
readings_fuse = refl

median_found : robust_median (prices readings) ≡ ok 1_002
unfolding robust_median sort middle insert
median_found = refl

robust_median_majority_example : (1_000 ≤ 1_002) × (1_002 ≤ 1_002)
robust_median_majority_example =
    robust_median_majority (prices readings) 1_000 1_002 1_002 median_found (omega arith)

robust_median_halves_example :
    (prices readings ≢ []
      → (m : ℕ) × (robust_median (prices readings) ≡ ok m) × IsHalved (prices readings) m)
    × ((m : ℕ) → robust_median (prices readings) ≡ ok m → prices readings ≢ [])
robust_median_halves_example = robust_median_halves (prices readings)

fuse_readings_guard_example :
    (robust_median (prices readings) ≡ ok (fused fused_readings).price)
    × (fused_readings.judged.estimated ≡ some fused_readings.diverged)
    × ((fused_readings.diverged ≡ true) ↔ (
        (1 < length readings)
        × Any (λ r. 100 < deviation_bps r.price (fused fused_readings).price) readings))
fuse_readings_guard_example = fuse_readings_guard readings 100 fused_readings readings_fuse

fuse_readings_band_example :
    All (λ r. r.confidence ≤ (fused fused_readings).confidence) readings
    × (fused_readings.diverged ≡ true → IsCovered readings (fused fused_readings))
fuse_readings_band_example =
    fuse_readings_band readings 100 fused_readings readings_fuse (omega arith)

-- Two sources that agree after the close, and no limit configured.
abbrev shut : OracleReading
shut = reading 1_000 900 MarketStatus.closed OracleSource.chainlink

abbrev agreeing : SignalRouter
agreeing = record router {
  adapters =
      answer OracleSource.chainlink (ok (some shut))
      ∷ answer OracleSource.pyth (ok (some shut))
      ∷ [];
  max_divergence_bps = none;
}

both_gathered : gather agreeing "0xa" agreeing.adapters ≡ shut ∷ shut ∷ []
unfolding gather
both_gathered = refl

fuse_to_reading_agreeing_example :
    (j : JudgedReading) × (fuse_to_reading agreeing "0xa" ≡ ok j)
    × (j.estimated ≡ some false)
    × (j.reading.price ≡ 1_000)
    × (j.reading.market_status ≢ MarketStatus.regular)
fuse_to_reading_agreeing_example =
    fuse_to_reading_agreeing agreeing "0xa" shut shut [] both_gathered (refl, (refl, tt))
      ((λ e. cc), ((λ e. cc), tt))

abbrev mark_reading : OracleReading
mark_reading = record {
  price = 1_000;
  confidence = 4;
  timestamp = 990;
  market_status = MarketStatus.overnight;
  source = OracleSource.perp_mark;
}

abbrev mark_of : String → Result Mark
mark_of t = ok (record { mark = 1_000; funding_stale = false; updated_at = 990 })

mark_read : perp_mark_read mark_of "0xa" ≡ ok mark_reading
unfolding perp_mark_read
mark_read = refl

abbrev twap : Twap
twap = record { twap = 1_000; liquidity = 7; updated_at = 990 }

abbrev twap_reading : OracleReading
twap_reading = record {
  price = 1_000;
  confidence = 5;
  timestamp = 990;
  market_status = MarketStatus.regular;
  source = OracleSource.dex_twap;
}

twap_read : dex_twap_read (λ t. ok twap) 5 "0xa" ≡ ok twap_reading
unfolding dex_twap_read
twap_read = refl

abbrev close : Anchor
close = record { price = 1_000; timestamp_sec = 990 }

abbrev close_reading : OracleReading
close_reading = record {
  price = 1_000;
  confidence = 10;
  timestamp = 990;
  market_status = MarketStatus.regular;
  source = OracleSource.last_close;
}

close_read :
    last_close_read (λ t. ok (some close)) MarketStatus.regular 1_000 (λ c t. 10_000) 100 "0xa"
    ≡ ok (some close_reading)
unfolding last_close_read
close_read = refl
