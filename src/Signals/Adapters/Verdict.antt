-- ===== src/Signals/Adapters/Verdict.antt =====
-- What the status rule makes of the readings of the weaker sources.
use etf.Base.{ℕ, ◌+◌, ◌≤◌, ◌≡◌, ◌↔◌, String, true, false, Option, some, arith, inl, inr}
use etf.Base.Results.{Result, ok, Result-cases}
use etf.Oracle.{MarketStatus, OracleReading}
use etf.Signals.Status.{ResolveInput, resolve}
use etf.Signals.Adapters.{Mark, perp_mark_read, Twap, dex_twap_read, Anchor, last_close_read}

abbrev pub input_of : ℕ → OracleReading → ResolveInput
input_of now r = record {
  feed_status = r.market_status;
  reading_timestamp = r.timestamp;
  now = now;
}

-- A perpetual's mark is never settlement grade, whatever its age and funding.
pub perp_mark_degraded :
    (read_mark : String → Result Mark) (token : String) (limit now : ℕ) (r : OracleReading)
    → perp_mark_read read_mark token ≡ ok r
    → (resolve limit (input_of now r)).degraded ≡ true
unfolding perp_mark_read resolve
perp_mark_degraded read_mark token limit now r e = elim (Result-cases (read_mark token)) [
  | inl (msg, x) ↦ cc (rw x at e)
  | inr (m, x) ↦ ground arith
]

-- A pool's price is settlement grade exactly when the pool has the least liquidity that is asked for
-- and was updated within the threshold.
pub dex_twap_grade :
    (read_twap : String → Result Twap) (least : ℕ) (token : String) (limit now : ℕ) (t : Twap)
    (r : OracleReading)
    → read_twap token ≡ ok t
    → dex_twap_read read_twap least token ≡ ok r
    → ((resolve limit (input_of now r)).degraded ≡ false)
      ↔ ((least ≤ t.liquidity) × (now ≤ t.updated_at + limit))
unfolding dex_twap_read resolve
dex_twap_grade read_twap least token limit now t r x e = ((λ h. ground arith), (λ h. ground arith))

-- The last close is settlement grade only while the calendar says Regular and the close itself is
-- within the threshold; its band is then `band_bps` basis points of the close.
pub last_close_grade :
    (last_regular : String → Result (Option Anchor)) (status : MarketStatus) (clock : ℕ)
    (factor : ℕ → String → ℕ) (band_bps : ℕ) (token : String) (limit : ℕ) (a : Anchor)
    (r : OracleReading)
    → last_regular token ≡ ok (some a)
    → last_close_read last_regular status clock factor band_bps token ≡ ok (some r)
    → ((resolve limit (input_of clock r)).degraded ≡ false)
      ↔ ((status ≡ MarketStatus.regular) × (clock ≤ a.timestamp_sec + limit))
unfolding last_close_read resolve
last_close_grade last_regular status clock factor band_bps token limit a r x e =
    ((λ h. ground arith), (λ h. ground arith))
