-- ===== src/Oracle.antt =====
-- The domain types of prices and NAVs: backend/src/domain/oracle.ts and market-status.ts. A `bigint`
-- that is a uint256 on the chain (a price, an amount, a NAV) is a native number, and so is a time in
-- seconds.
pub mod Wire
pub mod Scale
pub mod Tables
mod Examples
use etf.Base.{ℕ, ◌-◌, ◌*◌, ◌/◌, ◌+◌, ◌^◌, String, Bool, Option, ltb, ◌==◌, if◌then◌else◌}
use etf.Base.Int.{ℤ, pos, negsuc}

pub data MarketStatus : Type 0 where
  unknown pre_market regular post_market overnight closed : MarketStatus

-- `opened` is the source's `Open`.
pub data OracleSeverity : Type 0 where
  opened degraded halted closed unknown : OracleSeverity

pub data OracleSource : Type 0 where
  chainlink pyth red_stone dex_twap perp_mark last_close : OracleSource

pub record OracleReading : Type 0 where
  pub price : ℕ
  pub confidence : ℕ
  pub timestamp : ℕ
  pub market_status : MarketStatus
  pub source : OracleSource

pub record NavResult : Type 0 where
  pub nav : ℕ
  pub confidence_lower : ℕ
  pub confidence_upper : ℕ
  pub market_status : MarketStatus
  pub source : OracleSource
  pub estimated : Bool
  pub timestamp : ℕ
  pub severity : Option OracleSeverity
  pub safe : Option Bool

unfoldable pub market_status_from_feed_code : ℕ → MarketStatus
market_status_from_feed_code code =
    if code == 0
    then MarketStatus.unknown
    else if code == 1
    then MarketStatus.pre_market
    else if code == 2
    then MarketStatus.regular
    else if code == 3
    then MarketStatus.post_market
    else if code == 4
    then MarketStatus.overnight
    else if code == 5
    then MarketStatus.closed
    else MarketStatus.unknown

abbrev pub is_tradeable : MarketStatus → Bool
is_tradeable MarketStatus.regular = Bool.true
is_tradeable _ = Bool.false

unfoldable pub severity_from_code : ℕ → OracleSeverity
severity_from_code code =
    if code == 0
    then OracleSeverity.opened
    else if code == 1
    then OracleSeverity.degraded
    else if code == 2
    then OracleSeverity.halted
    else if code == 3
    then OracleSeverity.closed
    else OracleSeverity.unknown

unfoldable pub severity_to_venue_status : OracleSeverity → MarketStatus
severity_to_venue_status OracleSeverity.opened = MarketStatus.regular
severity_to_venue_status OracleSeverity.degraded = MarketStatus.regular
severity_to_venue_status OracleSeverity.halted = MarketStatus.closed
severity_to_venue_status OracleSeverity.closed = MarketStatus.closed
severity_to_venue_status OracleSeverity.unknown = MarketStatus.unknown

abbrev pub scale_18 : ℕ
scale_18 = 18

-- `decimals` may be negative: Pyth's exponent is negated.
unfoldable pub normalize_to_18 : ℕ → ℤ → ℕ
normalize_to_18 value (pos decimals) =
    if decimals == scale_18
    then value
    else if ltb decimals scale_18
    then value * 10 ^ (scale_18 - decimals)
    else value / 10 ^ (decimals - scale_18)
normalize_to_18 value (negsuc n) = value * 10 ^ (scale_18 + (n + 1))

-- The row of a NAV snapshot. Decimal strings are the numbers they spell; `recorded_at` is the wall
-- clock when the row is written.
pub record NavSnapshotInput : Type 0 where
  pub vault_address : String
  pub nav : ℕ
  pub confidence_lower : ℕ
  pub confidence_upper : ℕ
  pub market_status : MarketStatus
  pub source : OracleSource
  pub estimated : Bool
  pub recorded_at : ℕ
  pub severity : Option OracleSeverity
  pub safe : Option Bool

unfoldable pub nav_result_to_snapshot_input : ℕ → String → NavResult → NavSnapshotInput
nav_result_to_snapshot_input clock vault_address r = record {
  vault_address = vault_address;
  nav = r.nav;
  confidence_lower = r.confidence_lower;
  confidence_upper = r.confidence_upper;
  market_status = r.market_status;
  source = r.source;
  estimated = r.estimated;
  recorded_at = clock;
  severity = r.severity;
  safe = r.safe;
}
