-- ===== src/Signals/Status.antt =====
-- market-status.service.ts: a feed's status and a reading's age become a status and a verdict.
pub mod Laws
use etf.Base.{ℕ, ◌-◌, Bool, true, false, not, List, [], ◌∷◌, ltb, if◌then◌else◌}
use etf.Oracle.{MarketStatus}

pub record StatusResolution : Type 0 where
  pub status : MarketStatus
  pub degraded : Bool

pub record ResolveInput : Type 0 where
  pub feed_status : MarketStatus
  pub reading_timestamp : ℕ
  pub now : ℕ

abbrev pub is_regular : MarketStatus → Bool
is_regular MarketStatus.regular = true
is_regular _ = false

abbrev pub is_unknown : MarketStatus → Bool
is_unknown MarketStatus.unknown = true
is_unknown _ = false

-- The age of a reading that is ahead of the clock is negative in the source, and 0 here: neither is
-- above a threshold.
unfoldable pub resolve : ℕ → ResolveInput → StatusResolution
resolve stale_threshold_seconds input =
    let age = input.now - input.reading_timestamp in
    if is_unknown input.feed_status
    then record { status = MarketStatus.unknown; degraded = true }
    else if not (is_regular input.feed_status)
    then record { status = input.feed_status; degraded = true }
    else if ltb stale_threshold_seconds age
    then record { status = MarketStatus.unknown; degraded = true }
    else record { status = MarketStatus.regular; degraded = false }

-- One round of the loop of `fold`.
abbrev fold_step : StatusResolution → StatusResolution → StatusResolution
fold_step acc p = record {
  status = if not (is_regular p.status) then p.status else acc.status;
  degraded = if p.degraded then true else acc.degraded;
}

fold_from : StatusResolution → List StatusResolution → StatusResolution
fold_from acc [] = acc
fold_from acc (p ∷ parts) = fold_from (fold_step acc p) parts

unfoldable pub fold : List StatusResolution → StatusResolution
unfolding fold_from
fold [] = record { status = MarketStatus.unknown; degraded = true }
fold (p ∷ parts) =
    fold_from (record { status = MarketStatus.regular; degraded = false }) (p ∷ parts)
