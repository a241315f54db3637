-- ===== src/Signals/Calendar.antt =====
-- market-calendar.ts: the NYSE session by the New York wall clock. The conversion of a date to
-- New York's weekday, hour and minute is Intl.DateTimeFormat's, and is the argument here.
use etf.Base.{
  ℕ, ◌+◌, ◌*◌, ◌<◌, ◌≤◌, ◌≡◌, ◌≢◌, ◌↔◌, String, ◌&&◌, ◌||◌, ltb, leb, if◌then◌else◌, arith,
}
use etf.Base.Text.{str_eq, eq_iff}
use etf.Oracle.{MarketStatus}

pub record WallClock : Type 0 where
  pub weekday : String
  pub hour : ℕ
  pub minute : ℕ

unfoldable pub market_status_now : WallClock → MarketStatus
market_status_now parts =
    let mins = parts.hour * 60 + parts.minute in
    if str_eq parts.weekday "Sat" || str_eq parts.weekday "Sun"
    then MarketStatus.closed
    else if leb 570 mins && ltb mins 960
    then MarketStatus.regular
    else if leb 240 mins && ltb mins 570
    then MarketStatus.pre_market
    else if leb 960 mins && ltb mins 1200
    then MarketStatus.post_market
    else MarketStatus.closed

-- The market is Regular exactly on a weekday from 9:30 to before 16:00 New York time, and the calendar
-- answers neither Unknown nor Overnight.
pub market_status_now_iff :
    (c : WallClock)
    → ((market_status_now c ≡ MarketStatus.regular) ↔ (
        (c.weekday ≢ "Sat")
        × (c.weekday ≢ "Sun")
        × (9 * 60 + 30 ≤ c.hour * 60 + c.minute)
        × (c.hour * 60 + c.minute < 16 * 60)))
      × (market_status_now c ≢ MarketStatus.unknown)
      × (market_status_now c ≢ MarketStatus.overnight)
unfolding market_status_now
market_status_now_iff c = (
  (
    (λ h. ground (arith, eq_iff c.weekday "Sat", eq_iff c.weekday "Sun")),
    (λ h. ground (arith, eq_iff c.weekday "Sat", eq_iff c.weekday "Sun")),
  ),
  (λ h. ground arith),
  (λ h. ground arith),
)
