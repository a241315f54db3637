-- ===== src/Oracle/Tables.antt =====
-- The tables of domain/wire.ts against the enums and against one another.
use etf.Base.{◌≡◌, refl}
use etf.Oracle.{OracleSeverity, severity_to_venue_status}
use etf.Oracle.Wire.{
  market_status_to_prisma, severity_to_prisma, market_status_to_wire, severity_to_venue,
}

-- The venue status that the wire table gives a severity is the one that the domain's own function
-- gives, sent over the wire: the two tables agree at every severity.
severity_to_venue-agrees :
    (s : OracleSeverity)
    → severity_to_venue (severity_to_prisma s)
      ≡ market_status_to_wire (market_status_to_prisma (severity_to_venue_status s))
unfolding severity_to_venue market_status_to_wire severity_to_venue_status
severity_to_venue-agrees OracleSeverity.opened = refl
severity_to_venue-agrees OracleSeverity.degraded = refl
severity_to_venue-agrees OracleSeverity.halted = refl
severity_to_venue-agrees OracleSeverity.closed = refl
severity_to_venue-agrees OracleSeverity.unknown = refl
