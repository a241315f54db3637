-- ===== src/Safety.antt =====
-- packages/sdk/src/price-safety.ts: the client's aggregate of price sources, weighted by their depth. Its
-- integers are `bigint`s that are never negative, and the parameters are numbers of basis points,
-- seconds and 18-decimal dollars.
mod Capped
pub mod Median
pub mod Kept
pub mod Verdict
mod Examples
use etf.Base.{
  ℕ, zero, suc, ◌+◌, ◌-◌, ◌*◌, ◌/◌, ◌^◌, Bool, true, false, ◌&&◌, ◌||◌, not, List, [], ◌∷◌, map,
  length, filter, any, total_by, ltb, leb, ◌==◌, if◌then◌else◌,
}

pub record AggParams : Type 0 where
  pub max_weight_bps : ℕ
  pub divergence_bps : ℕ
  pub stale_horizon : ℕ
  pub d_min : ℕ
  pub w_disp : ℕ
  pub w_depth : ℕ
  pub w_stale : ℕ
  pub max_safe_band_bps : ℕ
  pub min_safe_sources : ℕ
  pub now_sec : ℕ

pub record SourceInput : Type 0 where
  pub price : ℕ
  pub depth : ℕ
  pub last_update : ℕ
  pub healthy : Bool

pub record AggResult : Type 0 where
  pub median : ℕ
  pub band_bps : ℕ
  pub band : ℕ
  pub safe : Bool
  pub kept : List ℕ
  pub dropped : List ℕ

-- `DEFAULT_PARAMS`, at a time.
abbrev pub default_params : ℕ → AggParams
default_params now = record {
  max_weight_bps = 4_000;
  divergence_bps = 200;
  stale_horizon = 3_600;
  d_min = 100_000 * 10 ^ 18;
  w_disp = 10_000;
  w_depth = 10_000;
  w_stale = 10_000;
  max_safe_band_bps = 500;
  min_safe_sources = 2;
  now_sec = now;
}

-- One place of the two arrays.
pub record Weighted : Type 0 where
  pub price : ℕ
  pub depth : ℕ

-- A round of the insertion sort: the element moves left over the larger prices of the sorted part.
unfoldable pub insert : Weighted → List Weighted → List Weighted
insert x [] = x ∷ []
insert x (y ∷ ys) = let rest = insert x ys in if ltb x.price y.price then x ∷ y ∷ ys else y ∷ rest

unfoldable pub sort_from : List Weighted → List Weighted → List Weighted
unfolding insert
sort_from sorted [] = sorted
sort_from sorted (x ∷ xs) = sort_from (insert x sorted) xs

abbrev pub total_depth : List Weighted → ℕ
total_depth = total_by (λ (w : Weighted). w.depth)

abbrev pub cap_one : ℕ → Weighted → Weighted
cap_one cap w = record { price = w.price; depth = if ltb cap w.depth then cap else w.depth }

-- The passes: the fuel is the number of passes left, 20 in the source.
unfoldable pub cap_depths : ℕ → ℕ → List Weighted → List Weighted
cap_depths max_weight_bps zero ws = ws
cap_depths max_weight_bps (suc passes) ws =
    let total = total_depth ws in
    let cap = total * max_weight_bps / 10_000 in
    let rest = cap_depths max_weight_bps passes (map (cap_one cap) ws) in
    if total == 0 then ws else if any (λ (w : Weighted). ltb cap w.depth) ws then rest else ws

-- The last loop, and the return after it; `last` is the last price looked at.
unfoldable pub pick_from : ℕ → ℕ → ℕ → List Weighted → ℕ
pick_from total cum last [] = last
pick_from total cum last (w ∷ ws) =
    let rest = pick_from total (cum + w.depth) w.price ws in
    if leb total ((cum + w.depth) * 2) then w.price else rest

abbrev pub capped : ℕ → List Weighted → List Weighted
capped max_weight_bps ws = cap_depths max_weight_bps 20 (sort_from [] ws)

-- Both callers give a list that is not empty; of an empty one this is 0.
unfoldable pub weighted_median : List Weighted → ℕ → ℕ
unfolding sort_from cap_depths pick_from
weighted_median ws max_weight_bps =
    let cs = cap_depths max_weight_bps 20 (sort_from [] ws) in pick_from (total_depth cs) 0 0 cs

-- A source that passes the first filter, with its place.
pub record Usable : Type 0 where
  pub index : ℕ
  pub price : ℕ
  pub depth : ℕ
  pub last_update : ℕ

abbrev pub is_stale : AggParams → SourceInput → Bool
is_stale p s = ltb s.last_update p.now_sec && ltb p.stale_horizon (p.now_sec - s.last_update)

abbrev pub is_usable : AggParams → SourceInput → Bool
is_usable p s = s.healthy && not (s.price == 0) && not (is_stale p s)

unfoldable pub usable_from : AggParams → ℕ → List SourceInput → List Usable
usable_from p i [] = []
usable_from p i (s ∷ ss) =
    let rest = usable_from p (suc i) ss in
    if is_usable p s
    then record { index = i; price = s.price; depth = s.depth; last_update = s.last_update } ∷ rest
    else rest

unfoldable pub oldest_of : ℕ → List Usable → ℕ
oldest_of oldest [] = oldest
oldest_of oldest (u ∷ us) =
    oldest_of (if ltb u.last_update oldest then u.last_update else oldest) us

abbrev pub gap : ℕ → ℕ → ℕ
gap a b = if ltb b a then a - b else b - a

abbrev pub is_near : AggParams → ℕ → Usable → Bool
is_near p prov u = leb (gap u.price prov * 10_000) (p.divergence_bps * prov)

abbrev pub weighted : List Usable → List Weighted
weighted = map (λ (u : Usable). record { price = u.price; depth = u.depth })

-- The places 0, 1, … of a list.
abbrev pub places_from : ℕ → List SourceInput → List ℕ
places_from i [] = []
places_from i (s ∷ ss) = i ∷ places_from (suc i) ss

abbrev pub is_in : List ℕ → ℕ → Bool
is_in xs i = any (λ x. x == i) xs

-- The sum of the gaps to the median, each times its depth.
unfoldable pub spread_of : ℕ → List Usable → ℕ
spread_of med [] = 0
spread_of med (u ∷ us) = gap u.price med * u.depth + spread_of med us

abbrev pub stale_penalty : AggParams → ℕ → ℕ
stale_penalty p oldest =
    if ltb oldest p.now_sec
    then (let age = p.now_sec - oldest in
        if leb p.stale_horizon age then 10_000 else age * 10_000 / p.stale_horizon)
    else 0

abbrev pub depth_penalty : AggParams → ℕ → ℕ
depth_penalty p total = if leb p.d_min total then 0 else (p.d_min - total) * 10_000 / p.d_min

abbrev pub dispersion : ℕ → ℕ → ℕ → ℕ
dispersion total spread med = if total == 0 then 0 else spread * 10_000 / (total * med)

-- The end of `aggregate`, once the sources kept are known.
unfoldable pub judge : AggParams → ℕ → List ℕ → List Usable → AggResult
unfolding weighted_median spread_of
judge p oldest dropped kept =
    let med = weighted_median (weighted kept) p.max_weight_bps in
    let total = total_depth (weighted kept) in
    let combined =
      (p.w_disp * dispersion total (spread_of med kept) med
        + p.w_depth * depth_penalty p total
        + p.w_stale * stale_penalty p oldest)
      / 10_000 in
    let band = med * combined / 10_000 in
    let band_bps = if med == 0 then 0 else band * 10_000 / med in
    record {
      median = med;
      band_bps = band_bps;
      band = band;
      safe = leb p.min_safe_sources (length kept) && leb band_bps p.max_safe_band_bps;
      kept = map (λ (u : Usable). u.index) kept;
      dropped = dropped;
    }

abbrev pub provisional : AggParams → List Usable → ℕ
provisional p us = weighted_median (weighted us) p.max_weight_bps

abbrev pub near_of : AggParams → List Usable → List Usable
near_of p us = filter (is_near p (provisional p us)) us

-- What is dropped when the sources kept are known.
abbrev pub dropped_of : List SourceInput → List Usable → List ℕ
dropped_of sources kept =
    filter (λ i. not (is_in (map (λ (u : Usable). u.index) kept) i)) (places_from 0 sources)

-- The two last branches: whether a source is near the provisional median.
abbrev pub judge_or_none : AggParams → ℕ → ℕ → List ℕ → List Usable → AggResult
judge_or_none p prov oldest dropped [] = record {
  median = prov;
  band_bps = 10_000;
  band = prov;
  safe = false;
  kept = [];
  dropped = dropped;
}
judge_or_none p prov oldest dropped (u ∷ us) = judge p oldest dropped (u ∷ us)

abbrev pub aggregate_usable : AggParams → List SourceInput → List Usable → AggResult
aggregate_usable p sources [] = record {
  median = 0;
  band_bps = 0;
  band = 0;
  safe = false;
  kept = [];
  dropped = places_from 0 sources;
}
aggregate_usable p sources (u ∷ us) =
    let kept = near_of p (u ∷ us) in
    judge_or_none p (provisional p (u ∷ us)) (oldest_of (2 ^ 64) (u ∷ us)) (dropped_of sources kept)
      kept

unfoldable pub aggregate : List SourceInput → AggParams → AggResult
unfolding usable_from oldest_of judge weighted_median
aggregate sources p = aggregate_usable p sources (usable_from p 0 sources)
