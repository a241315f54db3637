-- ===== src/Nav/Examples.antt =====
-- The NAV engine at a concrete basket.
use etf.Base.{◌≡◌, ◌↔◌, refl, true, false, none, some, [], ◌∷◌}
use etf.Base.Results.{ok, Holds}
use etf.Oracle.{MarketStatus, OracleSource, NavResult}
use etf.Signals.Router.{NavReading}
use etf.Nav.Onchain.{NavResultRaw, Chain, map_nav_result, payloads, read_l4_holdings}
use etf.Nav.Onchain.Laws.{IsPerShare, map_nav_result_iff, read_l4_holdings_lem}
use etf.Nav.Engine.{BasketDefinition, NavEngine, definition, compute_from_signals, compute_nav}
use etf.Nav.Engine.Signals.{IsSignalNav, compute_from_signals_lem}
use etf.Nav.Engine.Rule.{IsHonest, compute_nav-IsHonest}

abbrev raw : NavResultRaw
raw = record {
  nav = 2_000;
  conf_lower = 1_990;
  conf_upper = 2_010;
  market_status = 1;
  safe = true;
  timestamp = 900;
}

abbrev chain : Chain
chain = record {
  fair_value_nav = some "0xfa1";
  payloads_for = λ t. ok (t ∷ []);
  nav_of = λ v r p. ok raw;
  held_tokens = λ v. ok ("0xa" ∷ "0xb" ∷ []);
  nav_of_holdings = λ v ts p. ok raw;
  total_supply = λ v. ok 10;
}

abbrev basket : BasketDefinition
basket = record {
  basket_id = "0xba5";
  name = "Two";
  symbol = "TWO";
  holdings =
      record { token = "0xa"; amount = 300; decimals = 2 }
      ∷ record { token = "0xb"; amount = 5_000_000_000_000_000_000; decimals = 18 }
      ∷ [];
}

abbrev good : NavReading
good = record {
  price = 1_000_000_000_000_000_000;
  confidence = 10;
  timestamp = 950;
  market_status = MarketStatus.regular;
  source = OracleSource.pyth;
  estimated = false;
}

abbrev engine : NavEngine
engine = record {
  demo_nav = false;
  nav_source = "signals";
  bootstrap = basket;
  estimated_band_bps = 100;
  now = 1_000;
  get_reading = λ t. ok good;
  chain = chain;
  find_basket = λ v. none;
  catalog_price = λ t. none;
  latest_snapshot = λ t. none;
  drift = λ n v. 10_000;
}

compute_nav-IsHonest_example : Holds IsHonest (compute_nav engine "0xba5")
compute_nav-IsHonest_example = compute_nav-IsHonest engine "0xba5"

basket_known : definition basket "0xba5" ≡ some basket
unfolding definition
basket_known = refl

compute_from_signals_lem_example :
    (out : NavResult) × ((compute_from_signals engine "0xba5" ≡ ok out)
      × IsSignalNav engine basket.holdings (good ∷ good ∷ []) out)
compute_from_signals_lem_example =
    compute_from_signals_lem engine "0xba5" (good ∷ good ∷ []) basket_known (refl, (refl, tt))

map_nav_result_iff_example :
    (((map_nav_result raw).estimated ≡ false) ↔ ((raw.market_status ≡ 0) × (raw.safe ≡ true)))
    × (((map_nav_result raw).estimated ≡ false)
        → (map_nav_result raw).market_status ≡ MarketStatus.regular)
    × (raw.market_status ≡ 1
        → ((map_nav_result raw).market_status ≡ MarketStatus.regular)
          × ((map_nav_result raw).estimated ≡ true))
map_nav_result_iff_example = map_nav_result_iff raw

payloads_read :
    payloads chain.payloads_for ("0xa" ∷ "0xb" ∷ []) ≡ ok (("0xa" ∷ []) ∷ ("0xb" ∷ []) ∷ [])
unfolding payloads
payloads_read = refl

read_l4_holdings_lem_example :
    (out : NavResult) × (read_l4_holdings chain "0xba5" ≡ ok out) × IsPerShare 10 raw out
read_l4_holdings_lem_example =
    read_l4_holdings_lem chain "0xba5" "0xfa1" ("0xa" ∷ "0xb" ∷ [])
      (("0xa" ∷ []) ∷ ("0xb" ∷ []) ∷ []) raw 10 refl refl payloads_read refl refl
