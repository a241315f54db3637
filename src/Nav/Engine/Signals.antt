-- ===== src/Nav/Engine/Signals.antt =====
-- The NAV from the signals of the holdings, and what may be called settlement grade.
use etf.Base.{
  ℕ, ◌+◌, ◌*◌, ◌/◌, ◌≤◌, ◌≡◌, ◌↔◌, ◌⊎◌, refl, ◌∙◌, String, false, List, [], ◌∷◌, some, arith, All,
  All-map_of, Bool-cases, inl, inr, ◌==◌,
}
use etf.Base.Int.{pos}
use etf.Base.Results.{Result, ok}
use etf.Oracle.{MarketStatus, NavResult, normalize_to_18}
use etf.Signals.Router.{NavReading, source_rank}
use etf.Nav.Band.{band_holds}
use etf.Nav.Onchain.{scale}
use etf.Nav.Engine.{
  BasketHolding, NavEngine, Tally, definition, is_estimate, tally_step, tally, closing, opening,
  compute_from_signals,
}

-- The readings that the router returns for the holdings, in their order.
abbrev pub Reads : (String → Result NavReading) → List BasketHolding → List NavReading → Type 0
Reads get [] [] = Unit
Reads get [] (r ∷ rs) = ⊥
Reads get (h ∷ hs) [] = ⊥
Reads get (h ∷ hs) (r ∷ rs) = (get h.token ≡ ok r) × Reads get hs rs

-- The value of the holdings: each in 18 decimals, times its price, rounded down.
abbrev pub value_of : List BasketHolding → List NavReading → ℕ
value_of [] rs = 0
value_of (h ∷ hs) [] = 0
value_of (h ∷ hs) (r ∷ rs) =
    normalize_to_18 h.amount (pos h.decimals) * r.price / scale + value_of hs rs

abbrev pub IsSound : NavReading → Type 0
IsSound r = is_estimate r ≡ false

abbrev IsCounted : Tally → List BasketHolding → List NavReading → Tally → Type 0
IsCounted s hs rs out =
    (out.nav ≡ s.nav + value_of hs rs)
    × ((out.estimated ≡ false) ↔ ((s.estimated ≡ false) × All IsSound rs))
    × (out.estimated ≡ false → out.worst_status ≡ s.worst_status)
    × ((source_rank s.source ≤ source_rank out.source)
        × All (λ (r : NavReading). source_rank r.source ≤ source_rank out.source) rs)
    × ((out.timestamp ≤ s.timestamp)
        × All (λ (r : NavReading). (r.timestamp ≡ 0) ⊎ (out.timestamp ≤ r.timestamp)) rs)

pub step_estimated :
    (s : Tally) (b : BasketHolding) (r : NavReading)
    → (((tally_step s b r).estimated ≡ false) ↔ ((s.estimated ≡ false) × IsSound r))
      × ((tally_step s b r).estimated ≡ false → (tally_step s b r).worst_status ≡ s.worst_status)
step_estimated s b r = elim (Bool-cases (is_estimate r)) [
  | inl e ↦ rw e (((λ h. cc), (λ h. cc)), (λ h. cc))
  | inr e ↦ rw e (((λ h. (h, refl)), (λ h. h.0)), (λ h. refl))
]

step_time :
    (s : Tally) (b : BasketHolding) (r : NavReading) (t : ℕ)
    → t ≤ (tally_step s b r).timestamp
    → (r.timestamp ≡ 0) ⊎ (t ≤ r.timestamp)
step_time s b r t h = elim (Bool-cases (r.timestamp == 0)) [
  | inl e ↦ inl (ground arith)
  | inr e ↦ inr (ground arith)
]

tally_lem :
    (get : String → Result NavReading) (s : Tally) (hs : List BasketHolding) (rs : List NavReading)
    → Reads get hs rs
    → (out : Tally) × ((tally get s hs ≡ ok out) × IsCounted s hs rs out)
unfolding tally
tally_lem get s [] [] h = (
  s,
  (
    refl,
    (omega arith, ((λ e. (e, tt)), (λ e. e.0)), (λ e. refl), (omega arith, tt), (omega arith, tt)),
  ),
)
tally_lem get s [] (r ∷ rs) h = absurd h
tally_lem get s (b ∷ hs) [] h = absurd h
tally_lem get s (b ∷ hs) (r ∷ rs) (e, h) =
    let (out, (run, (n, (to, from), w, (k, ks), (t, ts)))) =
      tally_lem get (tally_step s b r) hs rs h in
    let (est, keeps) = step_estimated s b r in
    (
      out,
      (
        simp e run,
        (
          omega (arith, n),
          (
            (λ g. ((est.0 (to g).0).0, ((est.0 (to g).0).1, (to g).1))),
            (λ g. from ((est.1 (g.0, g.1.0)), g.1.1)),
          ),
          (λ g. w g ∙ keeps (to g).0),
          (ground (arith, k), (ground (arith, k), ks)),
          (omega (arith, t), (step_time s b r out.timestamp t, ts)),
        ),
      ),
    )

-- A reading of settlement grade: it is no estimate, and it is of a Regular market.
abbrev pub IsGrade : NavReading → Type 0
IsGrade r = (r.estimated ≡ false) × (r.market_status ≡ MarketStatus.regular)

IsGrade-iff : (r : NavReading) → IsSound r ↔ IsGrade r
IsGrade-iff r = ((λ h. (ground arith, ground arith)), (λ h. ground (arith, h.0, h.1)))

abbrev pub IsSignalNav : NavEngine → List BasketHolding → List NavReading → NavResult → Type 0
IsSignalNav engine hs rs out =
    (out.nav ≡ value_of hs rs)
    × ((out.confidence_lower ≤ out.nav) × (out.nav ≤ out.confidence_upper))
    × ((out.estimated ≡ false) ↔ All IsGrade rs)
    × (out.estimated ≡ false → out.market_status ≡ MarketStatus.regular)
    × All (λ (r : NavReading). source_rank r.source ≤ source_rank out.source) rs
    × ((out.timestamp ≤ engine.now)
        × All (λ (r : NavReading). (r.timestamp ≡ 0) ⊎ (out.timestamp ≤ r.timestamp)) rs)

-- For the bootstrap basket, whenever the router reads every holding, the engine returns a NAV. It is
-- the sum of the holdings' values, inside its band; it is settlement grade exactly when every reading
-- is and is Regular, and then it is Regular itself; its source is no better than any reading's; and
-- its time is not after the clock or after any reading's time that is known.
pub compute_from_signals_lem :
    (engine : NavEngine) (basket_id : String) (rs : List NavReading)
    → definition engine.bootstrap basket_id ≡ some engine.bootstrap
    → Reads engine.get_reading engine.bootstrap.holdings rs
    → (out : NavResult) × ((compute_from_signals engine basket_id ≡ ok out)
        × IsSignalNav engine engine.bootstrap.holdings rs out)
unfolding compute_from_signals
compute_from_signals_lem engine basket_id rs known h =
    let hs = engine.bootstrap.holdings in
    let (s, (run, (n, (to, from), w, (k, ks), t))) =
      tally_lem engine.get_reading (opening engine.now) hs rs h in
    let e : s.nav ≡ value_of hs rs = omega (arith, n) in
    let held = (band_holds engine.estimated_band_bps s.nav s.summed_band).0 s.estimated in
    (
      closing engine.estimated_band_bps s,
      (
        simp (known, run) refl,
        (
          e,
          held,
          (
            (λ g. All-map_of rs (λ r k. (IsGrade-iff r).0 k) (to g).1),
            (λ g. from (refl, All-map_of rs (λ r k. (IsGrade-iff r).1 k) g)),
          ),
          w,
          ks,
          t,
        ),
      ),
    )
