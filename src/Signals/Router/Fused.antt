-- ===== src/Signals/Router/Fused.antt =====
-- `fuseToReading` and the verdict on the readings that it fuses.
use etf.Base.{
  ℕ, ◌<◌, ◌≡◌, ◌≢◌, ◌↔◌, refl, sym, ap, ◌∙◌, subst, inl, inr, true, false, String, none, some, List,
  [], ◌∷◌, arith, All, Any, All-map_of, length, Bool-cases,
}
use etf.Base.Results.{ok}
use etf.Oracle.{MarketStatus, OracleReading}
use etf.Signals.Fusion.{JudgedReading, FusionOutput, deviation_bps, robust_median, fuse_readings}
use etf.Signals.Fusion.Median.{within, robust_median_majority}
use etf.Signals.Fusion.Guard.{fused, prices, fuse_readings_guard}
use etf.Signals.Fusion.Band.{fuse_readings_choice}
use etf.Signals.Router.{SignalRouter, limit_or_zero, gather, fuse_healthy, fuse_to_reading}

-- Fusing two or more readings always returns.
fuse_readings_total :
    (r : OracleReading) (rs : List OracleReading) (limit : ℕ)
    → (out : FusionOutput) × (fuse_readings (r ∷ rs) limit ≡ ok out)
unfolding fuse_readings robust_median
fuse_readings_total r rs limit = (_, refl)

within-all :
    (p : ℕ) (rs : List OracleReading)
    → All (λ r. r.price ≡ p) rs
    → within p p (prices rs) ≡ length (prices rs)
within-all p [] h = refl
within-all p (r ∷ rs) h = ground (arith, within-all p rs h.1)

Any-All :
    (P Q : OracleReading → Type 0) (rs : List OracleReading)
    → ((r : OracleReading) → P r → Q r → ⊥)
    → All P rs
    → Any Q rs
    → ⊥
Any-All P Q [] f h a = a
Any-All P Q (r ∷ rs) f h (inl a) = f r h.0 a
Any-All P Q (r ∷ rs) f h (inr a) = Any-All P Q rs f h.1 a

Any-status :
    (P : OracleReading → Type 0) (s : MarketStatus) (rs : List OracleReading)
    → All (λ r. P r → s ≢ MarketStatus.regular) rs
    → Any P rs
    → s ≢ MarketStatus.regular
Any-status P s [] h a = absurd a
Any-status P s (r ∷ rs) h (inl a) = h.0 a
Any-status P s (r ∷ rs) h (inr a) = Any-status P s rs h.1 a

deviation_same : (p : ℕ) → deviation_bps p p ≡ 0
unfolding deviation_bps
deviation_same p = ground arith

module _ (router : SignalRouter) (token : String) where
  -- With two healthy readings or more, the verdict is `fuseReadings`'s on all of them.
  fuse_healthy_pool :
      (r q : OracleReading) (rs : List OracleReading)
      → (out : FusionOutput) × (fuse_readings
            (r ∷ q ∷ rs)
            (limit_or_zero router token router.max_divergence_bps)
          ≡ ok out)
        × (fuse_healthy router token (r ∷ q ∷ rs) ≡ ok out.judged)
  unfolding fuse_healthy
  fuse_healthy_pool r q rs =
      let (out, e) =
        fuse_readings_total r (q ∷ rs) (limit_or_zero router token router.max_divergence_bps) in
      (out, e, rw e refl)

  fuse_to_reading_gathered :
      (rs : List OracleReading)
      → gather router token router.adapters ≡ rs
      → fuse_to_reading router token ≡ fuse_healthy router token rs
  unfolding fuse_to_reading
  fuse_to_reading_gathered rs e = ap (fuse_healthy router token) e

  -- Where no divergence limit is configured and at least two sources are healthy, the fused reading is
  -- an estimate exactly when some price deviates from the fused price by a basis point or more.
  pub fuse_to_reading_unset :
      (r q : OracleReading) (rs : List OracleReading)
      → gather router token router.adapters ≡ r ∷ q ∷ rs
      → router.max_divergence_bps ≡ none
      → (j : JudgedReading) × (fuse_to_reading router token ≡ ok j)
        × ((j.estimated ≡ some true)
            ↔ Any (λ x. 0 < deviation_bps x.price j.reading.price) (r ∷ q ∷ rs))
  fuse_to_reading_unset r q rs g unset =
      let (out, e, h) = fuse_healthy_pool r q rs in
      let limit = limit_or_zero router token router.max_divergence_bps in
      let zero_limit : limit ≡ 0 = ap (limit_or_zero router token) unset in
      let (_, mark, diverged) = fuse_readings_guard (r ∷ q ∷ rs) limit out e in
      let P : ℕ → Type 0 =
        λ l. Any (λ x. l < deviation_bps x.price out.judged.reading.price) (r ∷ q ∷ rs) in
      (
        out.judged,
        fuse_to_reading_gathered _ g ∙ h,
        (
          (λ m. subst P zero_limit (diverged.0 (cc)).1),
          (λ a. mark ∙ ap some (diverged.1 (omega arith, subst P (sym zero_limit) a))),
        ),
      )

  -- Where two sources or more are healthy, agree in price and none reports a Regular market, the fused
  -- reading is not marked as an estimate, though its own status is not Regular.
  pub fuse_to_reading_agreeing :
      (r q : OracleReading) (rs : List OracleReading)
      → gather router token router.adapters ≡ r ∷ q ∷ rs
      → All (λ x. x.price ≡ r.price) (r ∷ q ∷ rs)
      → All (λ x. x.market_status ≢ MarketStatus.regular) (r ∷ q ∷ rs)
      → (j : JudgedReading) × (fuse_to_reading router token ≡ ok j)
        × (j.estimated ≡ some false)
        × (j.reading.price ≡ r.price)
        × (j.reading.market_status ≢ MarketStatus.regular)
  fuse_to_reading_agreeing r q rs g same shut =
      let healthy = r ∷ q ∷ rs in
      let (out, e, h) = fuse_healthy_pool r q rs in
      let limit = limit_or_zero router token router.max_divergence_bps in
      let (median, mark, diverged) = fuse_readings_guard healthy limit out e in
      let (_, status, _) = fuse_readings_choice healthy limit out e in
      let all_in : within r.price r.price (prices healthy) ≡ length (prices healthy) =
        within-all r.price healthy same in
      let (low, high) =
        robust_median_majority (prices healthy) r.price r.price (fused out).price median
          (omega arith) in
      let price : (fused out).price ≡ r.price = omega arith in
      let calm : out.diverged ≡ false = elim (Bool-cases out.diverged) [
        | inr no' ↦ no'
        | inl far ↦ absurd (
            Any-All (λ x. x.price ≡ r.price) (λ x. limit < deviation_bps x.price (fused out).price)
              healthy
              (λ x eq lt.
                let at : deviation_bps x.price (fused out).price ≡ 0 =
                  rw (eq ∙ sym price) (deviation_same (fused out).price) in
                omega arith)
              same (diverged.0 far).1)
      ] in
      (
        out.judged,
        fuse_to_reading_gathered _ g ∙ h,
        mark ∙ ap some calm,
        price,
        Any-status _ _ healthy (All-map_of healthy (λ x n p eq. n (p.1 ∙ eq)) shut) status,
      )
