-- ===== src/Nav/Band.antt =====
-- confidence.service.ts
use etf.Base.{ℕ, ◌+◌, ◌-◌, ◌*◌, ◌/◌, ◌≤◌, ◌≡◌, Bool, true, false, ltb, arith, if◌then◌else◌}

pub record BandInput : Type 0 where
  pub nav : ℕ
  pub summed_band : ℕ
  pub estimated : Bool

pub record Band : Type 0 where
  pub lower : ℕ
  pub upper : ℕ

unfoldable pub band : ℕ → BandInput → Band
band estimated_band_bps input =
    let width =
      if input.estimated
      then input.summed_band + input.nav * estimated_band_bps / 10_000
      else input.summed_band in
    record {
      lower = if ltb width input.nav then input.nav - width else 0;
      upper = input.nav + width;
    }

-- The band holds the NAV. An estimate's band holds the band of the same NAV that is not an estimate,
-- and is wider above by the configured part of the NAV.
pub band_holds :
    (e n s : ℕ)
    → ((est : Bool)
        → ((band e (record { nav = n; summed_band = s; estimated = est })).lower ≤ n)
          × (n ≤ (band e (record { nav = n; summed_band = s; estimated = est })).upper))
      × ((band e (record { nav = n; summed_band = s; estimated = true })).lower
          ≤ (band e (record { nav = n; summed_band = s; estimated = false })).lower)
      × ((band e (record { nav = n; summed_band = s; estimated = true })).upper
          ≡ (band e (record { nav = n; summed_band = s; estimated = false })).upper
            + n * e / 10_000)
unfolding band
band_holds e n s = ((λ est. (ground arith, ground arith)), ground arith, ground arith)
