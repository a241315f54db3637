-- ===== src/Safety/Examples.antt =====
-- The client's aggregate at three sources.
use etf.Base.{ℕ, ◌*◌, ◌^◌, ◌≡◌, ◌≢◌, refl, Bool, true, List, [], ◌∷◌, All, some, get_elem?}
use etf.Safety.{
  AggParams, SourceInput, default_params, capped, weighted_median, usable_from, weighted, Usable,
  aggregate, insert, sort_from, cap_depths, pick_from, oldest_of, judge, spread_of,
}
use etf.Safety.Median.{IsMedian, weighted_median_halves}
use etf.Safety.Kept.{IsKept, IsFresh, IsUsableList, aggregate_kept}
use etf.Safety.Verdict.{IsSafe, aggregate_safe}

abbrev source : ℕ → ℕ → Bool → SourceInput
source price last_update healthy = record {
  price = price;
  depth = 100_000 * 10 ^ 18;
  last_update = last_update;
  healthy = healthy;
}

abbrev sources : List SourceInput
sources =
    source 10_000 10_000 true
    ∷ source 10_010 10_000 true
    ∷ source 20_000 10_000 true
    ∷ source 9_990 1_000 true
    ∷ []

abbrev params : AggParams
params = default_params 10_000

weighted_median_halves_example :
    IsMedian 4_000
      (weighted_median
        (record { price = 12; depth = 5 } ∷ record { price = 10; depth = 90 } ∷ [])
        4_000)
      (record { price = 12; depth = 5 } ∷ record { price = 10; depth = 90 } ∷ [])
      (capped 4_000 (record { price = 12; depth = 5 } ∷ record { price = 10; depth = 90 } ∷ []))
weighted_median_halves_example =
    weighted_median_halves 4_000 (record { price = 12; depth = 5 })
      (record { price = 10; depth = 90 } ∷ [])

sources_safe : (aggregate sources params).safe ≡ true
unfolding aggregate usable_from weighted_median insert sort_from cap_depths pick_from oldest_of
    judge spread_of
sources_safe = refl

aggregate_safe_example : IsSafe params (aggregate sources params)
aggregate_safe_example = aggregate_safe sources params sources_safe

aggregate_kept_example :
    (us : List Usable) × IsUsableList params sources us
    × All
        (IsKept params sources (weighted_median (weighted us) params.max_weight_bps))
        (aggregate sources params).kept
    × ((i : ℕ) (s : SourceInput)
        → get_elem? sources i ≡ some s
        → IsFresh params s
        → (aggregate sources params).kept ≢ [])
aggregate_kept_example = aggregate_kept sources params
