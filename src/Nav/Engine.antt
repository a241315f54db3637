-- ===== src/Nav/Engine.antt =====
-- nav-engine.service.ts
pub mod Signals
pub mod Rule
use etf.Base.{
  ℕ, ◌+◌, ◌-◌, ◌*◌, ◌/◌, min, String, Bool, true, false, not, ◌&&◌, ◌||◌, Option, none, some, List,
  [], ◌∷◌, map, ltb, ◌==◌, if◌then◌else◌,
}
use etf.Base.Int.{pos}
use etf.Base.Results.{Result, ok, err, ◌>>=◌, or_throw}
use etf.Base.Text.{str_eq, to_lower}
use etf.Oracle.{MarketStatus, OracleSource, NavResult, normalize_to_18}
use etf.Signals.Router.{NavReading, source_rank}
use etf.Signals.Status.{is_regular}
use etf.Nav.Band.{band}
use etf.Nav.Onchain.{Recipe, Chain, scale, scaled, read_l4_per_unit, read_l4_holdings}

-- basket-source.ts
pub record BasketHolding : Type 0 where
  pub token : String
  pub amount : ℕ
  pub decimals : ℕ

pub record BasketDefinition : Type 0 where
  pub basket_id : String
  pub name : String
  pub symbol : String
  pub holdings : List BasketHolding

-- `definition` of the bootstrap basket: its own id, or none given.
unfoldable pub definition : BasketDefinition → String → Option BasketDefinition
definition basket basket_id =
    if str_eq basket_id "" || str_eq basket_id basket.basket_id then some basket else none

-- The variables of the loop over the holdings.
pub record Tally : Type 0 where
  pub nav : ℕ
  pub summed_band : ℕ
  pub estimated : Bool
  pub worst_status : MarketStatus
  pub source : OracleSource
  pub timestamp : ℕ

-- `r.timestamp || timestamp`
abbrev pub time_or : ℕ → ℕ → ℕ
time_or t d = if t == 0 then d else t

abbrev pub is_estimate : NavReading → Bool
is_estimate r = r.estimated || not (is_regular r.market_status)

abbrev pub tally_step : Tally → BasketHolding → NavReading → Tally
tally_step s h r =
    let held = normalize_to_18 h.amount (pos h.decimals) in
    record {
      nav = s.nav + held * r.price / scale;
      summed_band = s.summed_band + held * r.confidence / scale;
      estimated = if is_estimate r then true else s.estimated;
      worst_status = if is_estimate r then r.market_status else s.worst_status;
      source = if ltb (source_rank s.source) (source_rank r.source) then r.source else s.source;
      timestamp = min s.timestamp (time_or r.timestamp s.timestamp);
    }

unfoldable pub tally : (String → Result NavReading) → Tally → List BasketHolding → Result Tally
tally get_reading s [] = ok s
tally get_reading s (h ∷ hs) = do r ← get_reading h.token; tally get_reading (tally_step s h r) hs

abbrev pub opening : ℕ → Tally
opening clock = record {
  nav = 0;
  summed_band = 0;
  estimated = false;
  worst_status = MarketStatus.regular;
  source = OracleSource.chainlink;
  timestamp = clock;
}

abbrev pub closing : ℕ → Tally → NavResult
closing estimated_band_bps s =
    let b =
      band estimated_band_bps
        (record { nav = s.nav; summed_band = s.summed_band; estimated = s.estimated }) in
    record {
      nav = s.nav;
      confidence_lower = b.lower;
      confidence_upper = b.upper;
      market_status = s.worst_status;
      source = s.source;
      estimated = s.estimated;
      timestamp = s.timestamp;
      severity = none;
      safe = none;
    }

-- A constituent and a basket as the database keeps them; the decimal columns are whole numbers.
pub record Constituent : Type 0 where
  pub token : String
  pub unit_qty : ℕ

pub record BasketRow : Type 0 where
  pub vault_type : String
  pub unit_size : ℕ
  pub constituents : List Constituent

-- What the engine is built over. `drift now vault` is `10_000 + bps` of `applyDrift`, a sum of sines
-- in floating point that stays within 150 basis points.
pub record NavEngine : Type 0 where
  pub demo_nav : Bool
  pub nav_source : String
  pub bootstrap : BasketDefinition
  pub estimated_band_bps : ℕ
  pub now : ℕ
  pub get_reading : String → Result NavReading
  pub chain : Chain
  pub find_basket : String → Option BasketRow
  pub catalog_price : String → Option ℕ
  pub latest_snapshot : String → Option ℕ
  pub drift : ℕ → String → ℕ

abbrev unknown_basket : String → String
unknown_basket id = Prim.Native.String.◌++◌ "NAV: unknown basket " id

abbrev pub is_holdings_based : String → Bool
is_holdings_based t = str_eq t "Rebalance" || str_eq t "Registry"

abbrev pub has_fair_value : Option String → Bool
has_fair_value none = false
has_fair_value (some a) = true

abbrev first_some : Option ℕ → Option ℕ → Option ℕ
first_some (some n) m = some n
first_some none m = m

abbrev or_zero : Option ℕ → ℕ
or_zero none = 0
or_zero (some n) = n

module _ (engine : NavEngine) where
  unfoldable pub compute_from_signals : String → Result NavResult
  unfolding definition
  compute_from_signals basket_id = do
    def ← or_throw (definition engine.bootstrap basket_id) (unknown_basket basket_id)
    s ← tally engine.get_reading (opening engine.now) def.holdings
    ok (closing engine.estimated_band_bps s)

  -- The total of a recipe vault: the value of a unit times the whole units outstanding.
  unfoldable pub l4_total : String → BasketRow → Result NavResult
  l4_total vault basket = do
    let recipe : Recipe = record {
      tokens = map (λ (c : Constituent). c.token) basket.constituents;
      unit_qty = map (λ (c : Constituent). c.unit_qty) basket.constituents;
      unit_size = basket.unit_size;
    }
    per_unit ← read_l4_per_unit engine.chain vault recipe
    supply ← engine.chain.total_supply vault
    ok (scaled (λ x. x * (if basket.unit_size == 0 then 0 else supply / basket.unit_size)) per_unit)

  unfoldable pub compute_on_chain : String → Result NavResult
  unfolding l4_total
  compute_on_chain vault = do
    basket ← or_throw (engine.find_basket vault) (unknown_basket vault)
    elim (is_holdings_based basket.vault_type) [
      | true ↦ read_l4_holdings engine.chain vault
      | false ↦ l4_total vault basket
    ]

  unfoldable pub demo_price : String → ℕ
  demo_price token = or_zero (
      first_some (engine.catalog_price token)
        (first_some (engine.latest_snapshot token) (engine.latest_snapshot (to_lower token))))

  unfoldable pub apply_drift : ℕ → String → ℕ
  apply_drift base vault = if base == 0 then base else base * engine.drift engine.now vault / 10_000

  unit_value : List Constituent → ℕ
  unit_value [] = 0
  unit_value (c ∷ cs) = c.unit_qty * demo_price c.token / scale + unit_value cs

  unfoldable pub compute_demo : String → Result NavResult
  unfolding unit_value demo_price apply_drift
  compute_demo vault = do
    basket ← or_throw (engine.find_basket vault) (unknown_basket vault)
    let value_per_unit = unit_value basket.constituents
    let base =
        if ltb 0 basket.unit_size then value_per_unit * scale / basket.unit_size else value_per_unit
    let nav = apply_drift base vault
    let width = nav / 200
    ok (record {
      nav = nav;
      confidence_lower = if ltb width nav then nav - width else 0;
      confidence_upper = nav + width;
      market_status = MarketStatus.regular;
      source = OracleSource.last_close;
      estimated = false;
      timestamp = engine.now;
      severity = none;
      safe = some true;
    })

  unfoldable pub compute_nav : String → Result NavResult
  unfolding compute_from_signals compute_on_chain compute_demo
  compute_nav vault_address =
      if engine.demo_nav
      then compute_demo vault_address
      else if str_eq engine.nav_source "onchain" && has_fair_value engine.chain.fair_value_nav
      then compute_on_chain vault_address
      else compute_from_signals vault_address
