-- ===== src/Signals/Router.antt =====
-- signal-router.ts: the walk down the fallback order and the fusion of all healthy sources. An
-- adapter's `read` is its call under the router's policy (retries, a breaker, a timeout), which is
-- cockatiel's: `err` is a call that the policy gave up.
pub mod Walk
pub mod Grade
pub mod Fused
use etf.Base.{
  ℕ, String, Bool, true, false, Option, none, some, List, [], ◌∷◌, ◌==◌, not, if◌then◌else◌,
}
use mathlib.Core.Option
use etf.Base.Results.{Result, ok, err, ◌>>=◌}
use etf.Oracle.{MarketStatus, OracleSource, OracleReading}
use etf.Signals.Status.{resolve, is_regular}
use etf.Signals.Fusion.{JudgedReading, fuse_readings}

pub record Adapter : Type 0 where
  pub source : OracleSource
  pub read : String → Result (Option OracleReading)

-- `check` is the sequencer gate's answer during one call, `now` the clock's.
pub record SignalRouter : Type 0 where
  pub adapters : List Adapter
  pub stale_threshold_seconds : ℕ
  pub check : Result Bool
  pub now : ℕ
  pub on_chain : OracleSource → Bool
  pub max_divergence_bps : Option ℕ

pub record NavReading : Type 0 where
  pub price : ℕ
  pub confidence : ℕ
  pub timestamp : ℕ
  pub market_status : MarketStatus
  pub source : OracleSource
  pub estimated : Bool

abbrev pub fallback_order : List OracleSource
fallback_order =
    OracleSource.chainlink ∷ OracleSource.pyth ∷ OracleSource.red_stone ∷ OracleSource.dex_twap
    ∷ OracleSource.perp_mark ∷ OracleSource.last_close ∷ []

-- The place of a source in that order.
abbrev pub source_rank : OracleSource → ℕ
source_rank OracleSource.chainlink = 0
source_rank OracleSource.pyth = 1
source_rank OracleSource.red_stone = 2
source_rank OracleSource.dex_twap = 3
source_rank OracleSource.perp_mark = 4
source_rank OracleSource.last_close = 5

abbrev pub same_source : OracleSource → OracleSource → Bool
same_source a b = source_rank a == source_rank b

-- `adapterList.findIndex`, with the adapter found.
unfoldable pub find_adapter : OracleSource → List Adapter → Option Adapter
find_adapter source [] = none
find_adapter source (a ∷ as') =
    if same_source a.source source then some a else find_adapter source as'

-- `sequencerOk ??= (await check()).ok`.
abbrev pub memoized : Option Bool → Result Bool → Result Bool
memoized (some b) check = ok b
memoized none check = check

-- Whether a source may be read, and what is known of the sequencer afterwards.
unfoldable pub gate : Bool → Option Bool → Result Bool → Result (Bool × Option Bool)
gate false memo check = ok (true, memo)
gate true memo check = do b ← memoized memo check; ok (b, some b)

abbrev pub usable : Result (Option OracleReading) → Option OracleReading
usable (err e) = none
usable (ok none) = none
usable (ok (some r)) = some r

-- After a round the loop returns, goes on, or lets the sequencer's error through.
abbrev pub next_round :
    Result (Option NavReading × Option Bool) → (Option Bool → Result NavReading) → Result NavReading
next_round (err e) more = err e
next_round (ok (some reading, memo)) more = ok reading
next_round (ok (none, memo)) more = more memo

module _ (router : SignalRouter) (token : String) where
  abbrev pub resolved : OracleReading → NavReading
  resolved reading =
      let res = resolve router.stale_threshold_seconds (record {
        feed_status = reading.market_status;
        reading_timestamp = reading.timestamp;
        now = router.now;
      }) in
      record {
        price = reading.price;
        confidence = reading.confidence;
        timestamp = reading.timestamp;
        market_status = res.status;
        source = reading.source;
        estimated = res.degraded;
      }

  -- Nothing was usable.
  abbrev pub synthesized : NavReading
  synthesized = record {
    price = 0;
    confidence = 0;
    timestamp = router.now;
    market_status = MarketStatus.unknown;
    source = OracleSource.last_close;
    estimated = true;
  }

  -- One round of the loop of `getReading`: the answer of a source, if it has one, and what is known
  -- of the sequencer afterwards.
  unfoldable pub attempt :
      Option Adapter → Bool → Option Bool → Result (Option NavReading × Option Bool)
  unfolding gate
  attempt none onchain memo = ok (none, memo)
  attempt (some adapter) onchain memo = do
    verdict ← gate onchain memo router.check
    ok (if verdict.0 then Option.map resolved (usable (adapter.read token)) else none, verdict.1)

  unfoldable pub walk : List OracleSource → Option Bool → Result NavReading
  unfolding attempt find_adapter
  walk [] memo = ok synthesized
  walk (source ∷ rest) memo =
      next_round (attempt (find_adapter source router.adapters) (router.on_chain source) memo)
        (walk rest)

  unfoldable pub get_reading : Result NavReading
  unfolding walk
  get_reading = walk fallback_order none

  -- The readings that the loop of `fuseToReading` gathers.
  unfoldable pub gather : List Adapter → List OracleReading
  gather [] = []
  gather (a ∷ as') =
      let rest = gather as' in elim (usable (a.read token)) [ none ↦ rest | some r ↦ r ∷ rest ]

  abbrev pub limit_or_zero : Option ℕ → ℕ
  limit_or_zero none = 0
  limit_or_zero (some n) = n

  unfoldable pub fuse_healthy : List OracleReading → Result JudgedReading
  fuse_healthy [] = err "SignalRouter.fuseToReading: no healthy sources"
  fuse_healthy (r ∷ []) =
      ok (record { reading = r; estimated = some (not (is_regular r.market_status)) })
  fuse_healthy healthy = do
    out ← fuse_readings healthy (limit_or_zero router.max_divergence_bps)
    ok out.judged

  pub fuse_to_reading : Result JudgedReading
  unfolding gather fuse_healthy
  fuse_to_reading = fuse_healthy (gather router.adapters)
