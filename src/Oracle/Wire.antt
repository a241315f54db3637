-- ===== src/Oracle/Wire.antt =====
-- The names that the database and the wire give to the domain's enums: backend/src/domain/wire.ts.
-- A lookup of a name that is not in its table throws.
use etf.Base.{String, if◌then◌else◌}
use etf.Base.Results.{Result, ok, err}
use etf.Base.Text.{str_eq}
use etf.Oracle.{MarketStatus, OracleSeverity, OracleSource}

-- The enum members' own values, which are also Prisma's.
abbrev pub market_status_to_prisma : MarketStatus → String
market_status_to_prisma MarketStatus.unknown = "Unknown"
market_status_to_prisma MarketStatus.pre_market = "PreMarket"
market_status_to_prisma MarketStatus.regular = "Regular"
market_status_to_prisma MarketStatus.post_market = "PostMarket"
market_status_to_prisma MarketStatus.overnight = "Overnight"
market_status_to_prisma MarketStatus.closed = "Closed"

abbrev pub oracle_source_to_prisma : OracleSource → String
oracle_source_to_prisma OracleSource.chainlink = "Chainlink"
oracle_source_to_prisma OracleSource.pyth = "Pyth"
oracle_source_to_prisma OracleSource.red_stone = "RedStone"
oracle_source_to_prisma OracleSource.dex_twap = "DexTwap"
oracle_source_to_prisma OracleSource.perp_mark = "PerpMark"
oracle_source_to_prisma OracleSource.last_close = "LastClose"

abbrev pub severity_to_prisma : OracleSeverity → String
severity_to_prisma OracleSeverity.opened = "Open"
severity_to_prisma OracleSeverity.degraded = "Degraded"
severity_to_prisma OracleSeverity.halted = "Halted"
severity_to_prisma OracleSeverity.closed = "Closed"
severity_to_prisma OracleSeverity.unknown = "Unknown"

abbrev quoted : String → String → String
quoted what s = Prim.Native.String.◌++◌ what s

unfoldable pub market_status_to_wire : String → Result String
market_status_to_wire s =
    if str_eq s "Unknown"
    then ok "unknown"
    else if str_eq s "PreMarket"
    then ok "preMarket"
    else if str_eq s "Regular"
    then ok "regular"
    else if str_eq s "PostMarket"
    then ok "postMarket"
    else if str_eq s "Overnight"
    then ok "overnight"
    else if str_eq s "Closed"
    then ok "closed"
    else err (quoted "unknown MarketStatus: " s)

unfoldable pub oracle_source_to_wire : String → Result String
oracle_source_to_wire s =
    if str_eq s "Chainlink"
    then ok "chainlink"
    else if str_eq s "Pyth"
    then ok "pyth"
    else if str_eq s "RedStone"
    then ok "redstone"
    else if str_eq s "DexTwap"
    then ok "dexTwap"
    else if str_eq s "PerpMark"
    then ok "perpMark"
    else if str_eq s "LastClose"
    then ok "lastClose"
    else err (quoted "unknown OracleSource: " s)

unfoldable pub severity_to_wire : String → Result String
severity_to_wire s =
    if str_eq s "Open"
    then ok "open"
    else if str_eq s "Degraded"
    then ok "degraded"
    else if str_eq s "Halted"
    then ok "halted"
    else if str_eq s "Closed"
    then ok "closed"
    else if str_eq s "Unknown"
    then ok "unknown"
    else err (quoted "unknown OracleSeverity: " s)

unfoldable pub severity_to_venue : String → Result String
severity_to_venue s =
    if str_eq s "Open"
    then ok "regular"
    else if str_eq s "Degraded"
    then ok "regular"
    else if str_eq s "Halted"
    then ok "closed"
    else if str_eq s "Closed"
    then ok "closed"
    else if str_eq s "Unknown"
    then ok "unknown"
    else err (quoted "unknown OracleSeverity: " s)

unfoldable pub vault_type_to_wire : String → Result String
vault_type_to_wire s =
    if str_eq s "Basket"
    then ok "basket"
    else if str_eq s "Managed"
    then ok "managed"
    else if str_eq s "Committed"
    then ok "committed"
    else if str_eq s "Rebalance"
    then ok "rebalance"
    else if str_eq s "Registry"
    then ok "registry"
    else err (quoted "unknown VaultType: " s)
