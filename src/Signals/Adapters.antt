-- ===== src/Signals/Adapters.antt =====
-- The adapters of backend/src/signals. What an adapter reads (a contract, Hermes, the data streams, a
-- pool, a perpetual venue, the last close) is code outside the repository or I/O, and is an argument:
-- `err` is a rejected call, `none` a source without a price.
pub mod Verdict
use etf.Base.{
  ℕ, ◌+◌, ◌-◌, ◌*◌, ◌/◌, String, Bool, true, false, Option, none, some, List, [], ◌∷◌, ltb,
  if◌then◌else◌,
}
use etf.Base.Int.{ℤ, pos, neg}
use etf.Base.Dict
use etf.Base.Dict.{Dict}
use etf.Base.Results.{Result, ok, err, ◌>>=◌}
use etf.Base.Text.{to_lower}
use etf.Oracle.{
  MarketStatus, OracleSource, OracleReading, market_status_from_feed_code, normalize_to_18,
}
use etf.Signals.Status.{is_regular}

-- `TokenFeedConfig`. A field that is the empty text counts as absent where the source tests it.
pub record TokenFeedConfig : Type 0 where
  pub token : String
  pub data_streams_feed_id : Option String
  pub chainlink_feed_address : Option String
  pub chainlink_feed_decimals : Option ℕ
  pub pyth_price_id : Option String

abbrev pub get_or_default : Option ℕ → ℕ → ℕ
get_or_default none d = d
get_or_default (some n) d = n

-- chainlink-feed.adapter.ts
pub record EquityFeedData : Type 0 where
  pub price : ℕ
  pub market_status_code : ℕ
  pub last_seen_timestamp_ns : ℕ

pub record FeedRoute : Type 0 where
  pub address : String
  pub decimals : ℕ

abbrev feed_entry : TokenFeedConfig → Dict FeedRoute → Dict FeedRoute
feed_entry f d = elim f.chainlink_feed_address [
  | none ↦ d
  | some a ↦
      Dict.put d f.token
        (record { address = a; decimals = get_or_default f.chainlink_feed_decimals 8 })
]

chainlink_routes : Dict FeedRoute → List TokenFeedConfig → Dict FeedRoute
chainlink_routes d [] = d
chainlink_routes d (f ∷ feeds) = chainlink_routes (feed_entry f d) feeds

-- A call of the feed that is rejected is no reading.
unfoldable pub chainlink_feed_read :
    (String → Result EquityFeedData) → List TokenFeedConfig → String → Result (Option OracleReading)
unfolding chainlink_routes
chainlink_feed_read latest_data feeds token = elim (Dict.get (chainlink_routes [] feeds) token) [
  | none ↦ ok none
  | some cfg ↦ elim (latest_data cfg.address) [
    | err e ↦ ok none
    | ok answer ↦ ok (
        some (record {
          price = normalize_to_18 answer.price (pos cfg.decimals);
          confidence = 0;
          timestamp = answer.last_seen_timestamp_ns / 1_000_000_000;
          market_status = market_status_from_feed_code answer.market_status_code;
          source = OracleSource.chainlink;
        }))
  ]
]

-- pyth.adapter.ts; the tokens of the configuration and of the call are lowered.
pub record PythPrice : Type 0 where
  pub price : ℕ
  pub conf : ℕ
  pub expo : ℤ
  pub publish_time : ℕ

abbrev text_entry : String → Option String → Dict String → Dict String
text_entry token none d = d
text_entry token (some a) d = Dict.put d token a

pyth_ids : Dict String → List TokenFeedConfig → Dict String
pyth_ids d [] = d
pyth_ids d (f ∷ feeds) = pyth_ids (text_entry (to_lower f.token) f.pyth_price_id d) feeds

abbrev pyth_reading : MarketStatus → PythPrice → OracleReading
pyth_reading status p = record {
  price = normalize_to_18 p.price (neg p.expo);
  confidence = normalize_to_18 p.conf (neg p.expo);
  timestamp = p.publish_time;
  market_status = status;
  source = OracleSource.pyth;
}

unfoldable pub pyth_read :
    (String → Result (Option PythPrice))
    → List TokenFeedConfig
    → MarketStatus
    → String
    → Result (Option OracleReading)
unfolding pyth_ids
pyth_read get_latest_price feeds status token =
    elim (Dict.get (pyth_ids [] feeds) (to_lower token)) [
      | none ↦ ok none
      | some price_id ↦ do
        found ← get_latest_price price_id
        ok (elim found [ none ↦ none | some p ↦ some (pyth_reading status p) ])
    ]

-- chainlink-data-streams.adapter.ts
pub record DataStreamsReport : Type 0 where
  pub price : ℕ
  pub confidence : ℕ
  pub observations_timestamp : ℕ
  pub market_status_code : ℕ

data_stream_ids : Dict String → List TokenFeedConfig → Dict String
data_stream_ids d [] = d
data_stream_ids d (f ∷ feeds) = data_stream_ids (text_entry f.token f.data_streams_feed_id d) feeds

abbrev report_reading : DataStreamsReport → OracleReading
report_reading report = record {
  price = report.price;
  confidence = report.confidence;
  timestamp = report.observations_timestamp;
  market_status = market_status_from_feed_code report.market_status_code;
  source = OracleSource.chainlink;
}

unfoldable pub data_streams_read :
    (String → Result (Option DataStreamsReport))
    → List TokenFeedConfig
    → String
    → Result (Option OracleReading)
unfolding data_stream_ids
data_streams_read fetch_latest feeds token = elim (Dict.get (data_stream_ids [] feeds) token) [
  | none ↦ ok none
  | some feed_id ↦ do
    found ← fetch_latest feed_id
    ok (elim found [ none ↦ none | some r ↦ some (report_reading r) ])
]

-- adapters/dex-twap.adapter.ts
pub record Twap : Type 0 where
  pub twap : ℕ
  pub liquidity : ℕ
  pub updated_at : ℕ

unfoldable pub dex_twap_read : (String → Result Twap) → ℕ → String → Result OracleReading
dex_twap_read read_twap min_liquidity token = do
  t ← read_twap token
  let thin = ltb t.liquidity min_liquidity
  ok (record {
    price = t.twap;
    confidence = if thin then t.twap / 20 else t.twap / 200;
    timestamp = t.updated_at;
    market_status = if thin then MarketStatus.closed else MarketStatus.regular;
    source = OracleSource.dex_twap;
  })

-- adapters/perp-mark.adapter.ts
pub record Mark : Type 0 where
  pub mark : ℕ
  pub funding_stale : Bool
  pub updated_at : ℕ

unfoldable pub perp_mark_read : (String → Result Mark) → String → Result OracleReading
perp_mark_read read_mark token = do
  m ← read_mark token
  ok (record {
    price = m.mark;
    confidence = if m.funding_stale then m.mark / 25 else m.mark / 250;
    timestamp = m.updated_at;
    market_status = if m.funding_stale then MarketStatus.closed else MarketStatus.overnight;
    source = OracleSource.perp_mark;
  })

-- adapters/last-close.adapter.ts. `walk_factor` is `10_000 + walkBps(clock, token, maxDriftBps)`: a
-- sum of sines in floating point, which the source rounds to whole basis points, at most maxDriftBps.
pub record Anchor : Type 0 where
  pub price : ℕ
  pub timestamp_sec : ℕ

abbrev last_close_reading : ℕ → MarketStatus → ℕ → ℕ → Anchor → OracleReading
last_close_reading band_bps status clock walk_factor anchor =
    if is_regular status
    then record {
      price = anchor.price;
      confidence = anchor.price * band_bps / 10_000;
      timestamp = anchor.timestamp_sec;
      market_status = status;
      source = OracleSource.last_close;
    }
    else (let price = anchor.price * walk_factor / 10_000 in
        record {
          price = price;
          confidence = price * band_bps / 10_000;
          timestamp = clock;
          market_status = status;
          source = OracleSource.last_close;
        })

unfoldable pub last_close_read :
    (String → Result (Option Anchor))
    → MarketStatus
    → ℕ
    → (ℕ → String → ℕ)
    → ℕ
    → String
    → Result (Option OracleReading)
last_close_read last_regular status clock walk_factor band_bps token = do
  found ← last_regular token
  ok (elim found [
    | none ↦ none
    | some anchor ↦ some (last_close_reading band_bps status clock (walk_factor clock token) anchor)
  ])
