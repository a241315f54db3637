-- ===== src/Signals/Status/Laws.antt =====
-- When a status is settlement grade.
use etf.Base.{ℕ, ◌+◌, ◌≤◌, ◌<◌, ◌≡◌, refl, ◌≢◌, ◌↔◌, false, List, [], ◌∷◌, arith, All}
use etf.Oracle.{MarketStatus}
use etf.Signals.Status.{StatusResolution, ResolveInput, resolve, fold_step, fold_from, fold}

-- A resolution is not degraded exactly when the feed says Regular and the reading is not older than
-- the threshold; its status is then Regular, and it is Regular in no other case. A feed that reports
-- another status keeps it, and a stale Regular becomes Unknown.
pub resolve_iff :
    (limit : ℕ) (i : ResolveInput)
    → (((resolve limit i).degraded ≡ false)
        ↔ ((i.feed_status ≡ MarketStatus.regular) × (i.now ≤ i.reading_timestamp + limit)))
      × (((resolve limit i).degraded ≡ false) ↔ ((resolve limit i).status ≡ MarketStatus.regular))
      × (i.feed_status ≢ MarketStatus.regular → (resolve limit i).status ≡ i.feed_status)
      × (i.feed_status ≡ MarketStatus.regular
          → i.reading_timestamp + limit < i.now
          → (resolve limit i).status ≡ MarketStatus.unknown)
unfolding resolve
resolve_iff limit i = (
  ((λ h. ground arith), (λ h. ground arith)),
  ((λ h. ground arith), (λ h. ground arith)),
  (λ h. ground arith),
  (λ h k. ground arith),
)

abbrev IsGrade : StatusResolution → Type 0
IsGrade p = p.degraded ≡ false

fold_from_iff :
    (acc : StatusResolution) (parts : List StatusResolution)
    → ((fold_from acc parts).degraded ≡ false)
      ↔ ((acc.degraded ≡ false) × All (λ p. p.degraded ≡ false) parts)
unfolding fold_from
fold_from_iff acc [] = ((λ h. (h, tt)), (λ h. h.0))
fold_from_iff acc (p ∷ parts) =
    let (to, from) = fold_from_iff (fold_step acc p) parts in
    ((λ h. ground (arith, to h)), (λ h. from (ground arith, h.1.1)))

fold_from_status :
    (acc : StatusResolution) (parts : List StatusResolution)
    → ((fold_from acc parts).status ≡ MarketStatus.regular)
      ↔ ((acc.status ≡ MarketStatus.regular) × All (λ p. p.status ≡ MarketStatus.regular) parts)
unfolding fold_from
fold_from_status acc [] = ((λ h. (h, tt)), (λ h. h.0))
fold_from_status acc (p ∷ parts) =
    let (to, from) = fold_from_status (fold_step acc p) parts in
    ((λ h. ground (arith, to h)), (λ h. from (ground arith, h.1.1)))

-- A basket's folded status is settlement grade exactly when it has a part and every part is, and it
-- is Regular exactly when it has a part and every part is Regular.
pub fold_iff :
    (parts : List StatusResolution)
    → (((fold parts).degraded ≡ false) ↔ ((parts ≢ []) × All (λ p. p.degraded ≡ false) parts))
      × (((fold parts).status ≡ MarketStatus.regular)
          ↔ ((parts ≢ []) × All (λ p. p.status ≡ MarketStatus.regular) parts))
unfolding fold
fold_iff [] = (((λ h. cc), (λ h. absurd (h.0 refl))), ((λ h. cc), (λ h. absurd (h.0 refl))))
fold_iff (p ∷ parts) =
    let start : StatusResolution = record { status = MarketStatus.regular; degraded = false } in
    let (g, g') = fold_from_iff start (p ∷ parts) in
    let (s, s') = fold_from_status start (p ∷ parts) in
    (
      ((λ h. ((λ e. cc), (g h).1)), (λ h. g' (refl, h.1))),
      ((λ h. ((λ e. cc), (s h).1)), (λ h. s' (refl, h.1))),
    )
