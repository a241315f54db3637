-- ===== src/Nav/Onchain.antt =====
-- onchain-nav.reader.ts: the on-chain engine's answers in the domain's terms. The chain's calls are
-- arguments; `err` is a call that reverts.
pub mod Laws
use etf.Base.{
  ℕ, ◌*◌, ◌/◌, String, Bool, not, ◌||◌, Option, none, some, List, [], ◌∷◌, ◌==◌, if◌then◌else◌,
}
use etf.Base.Results.{Result, ok, err, ◌>>=◌, or_throw}
use etf.Oracle.{
  OracleSeverity, OracleSource, NavResult, severity_from_code, severity_to_venue_status,
}

pub record Recipe : Type 0 where
  pub tokens : List String
  pub unit_qty : List ℕ
  pub unit_size : ℕ

pub record NavResultRaw : Type 0 where
  pub nav : ℕ
  pub conf_lower : ℕ
  pub conf_upper : ℕ
  pub market_status : ℕ
  pub safe : Bool
  pub timestamp : ℕ

abbrev pub is_opened : OracleSeverity → Bool
is_opened OracleSeverity.opened = Bool.true
is_opened _ = Bool.false

unfoldable pub map_nav_result : NavResultRaw → NavResult
map_nav_result res =
    let severity = severity_from_code res.market_status in
    record {
      nav = res.nav;
      confidence_lower = res.conf_lower;
      confidence_upper = res.conf_upper;
      market_status = severity_to_venue_status severity;
      source = OracleSource.chainlink;
      estimated = not (is_opened severity) || not res.safe;
      timestamp = res.timestamp;
      severity = some severity;
      safe = some res.safe;
    }

-- The NAV and its band, each through one function.
unfoldable pub scaled : (ℕ → ℕ) → NavResult → NavResult
scaled f r = record r {
  nav = f r.nav;
  confidence_lower = f r.confidence_lower;
  confidence_upper = f r.confidence_upper;
}

abbrev pub scale : ℕ
scale = 1_000_000_000_000_000_000

unfoldable pub per_share : ℕ → ℕ → ℕ
per_share supply x = if supply == 0 then 0 else x * scale / supply

-- What the reader calls: the address of FairValueNAV, the signer's payloads and the contracts' views.
pub record Chain : Type 0 where
  pub fair_value_nav : Option String
  pub payloads_for : String → Result (List String)
  pub nav_of : String → Recipe → List (List String) → Result NavResultRaw
  pub held_tokens : String → Result (List String)
  pub nav_of_holdings : String → List String → List (List String) → Result NavResultRaw
  pub total_supply : String → Result ℕ

-- `Promise.all` of the payloads: the first call that fails makes the whole fail.
unfoldable pub payloads :
    (String → Result (List String)) → List String → Result (List (List String))
payloads f [] = ok []
payloads f (t ∷ ts) = do p ← f t; rest ← payloads f ts; ok (p ∷ rest)

module _ (chain : Chain) where
  unfoldable pub read_l4_per_unit : String → Recipe → Result NavResult
  unfolding payloads
  read_l4_per_unit vault recipe = do
    fv ← or_throw chain.fair_value_nav "FairValueNAV address not configured"
    p ← payloads chain.payloads_for recipe.tokens
    res ← chain.nav_of vault recipe p
    ok (map_nav_result res)

  unfoldable pub read_l4_holdings : String → Result NavResult
  unfolding payloads
  read_l4_holdings vault = do
    fv ← or_throw chain.fair_value_nav "FairValueNAV address not configured"
    held ← chain.held_tokens vault
    p ← payloads chain.payloads_for held
    res ← chain.nav_of_holdings vault held p
    supply ← chain.total_supply vault
    ok (scaled (per_share supply) (map_nav_result res))
