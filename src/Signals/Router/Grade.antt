-- ===== src/Signals/Router/Grade.antt =====
-- Which readings of the router are settlement grade.
use etf.Base.{◌+◌, ◌≤◌, ◌≡◌, sym, ap, ◌∙◌, inl, inr, true, false, String, some, List, [], ◌∷◌}
use etf.Base.Results.{ok}
use etf.Oracle.{MarketStatus, OracleSource, OracleReading}
use etf.Signals.Status.{ResolveInput, resolve}
use etf.Signals.Status.Laws.{resolve_iff}
use etf.Signals.Router.{
  Adapter, SignalRouter, NavReading, find_adapter, usable, resolved, fallback_order, get_reading,
}
use etf.Signals.Router.Walk.{IsFirst, get_reading-IsFirst}

module _ (router : SignalRouter) (token : String) where
  -- The adapter of a source gave this Regular and fresh reading, through a sequencer that is up.
  abbrev pub IsFresh : NavReading → Type 0
  IsFresh r =
      (s : OracleSource) × (a : Adapter) × (q : OracleReading) × (find_adapter s router.adapters
        ≡ some a)
      × (usable (a.read token) ≡ some q)
      × (router.on_chain s ≡ true → router.check ≡ ok true)
      × (q.market_status ≡ MarketStatus.regular)
      × (router.now ≤ q.timestamp + router.stale_threshold_seconds)
      × (r ≡ resolved router token q)
      × (r.market_status ≡ MarketStatus.regular)

  IsFirst-IsFresh :
      (order : List OracleSource) (r : NavReading)
      → IsFirst router token order r
      → r.estimated ≡ false
      → IsFresh r
  IsFirst-IsFresh [] r e g =
      let e' : r.estimated ≡ true = ap (λ (t : NavReading). t.estimated) e in cc
  IsFirst-IsFresh (s ∷ rest) r (inl (a, q, f, y, u, e)) g =
      let input : ResolveInput = record {
        feed_status = q.market_status;
        reading_timestamp = q.timestamp;
        now = router.now;
      } in
      let (grade, status, _, _) = resolve_iff router.stale_threshold_seconds input in
      let fine : (resolve router.stale_threshold_seconds input).degraded ≡ false =
        sym (ap (λ (t : NavReading). t.estimated) e) ∙ g in
      let (regular, young) = grade.0 fine in
      (
        s,
        a,
        q,
        f,
        u,
        y,
        regular,
        young,
        e,
        ap (λ (t : NavReading). t.market_status) e ∙ status.0 fine,
      )
  IsFirst-IsFresh (s ∷ rest) r (inr (k, h)) g = IsFirst-IsFresh rest r h g

  -- A reading that the router does not mark as an estimate is the Regular reading of an adapter, not
  -- older than the threshold, and was not read from the chain past a sequencer that is down.
  pub get_reading_grade :
      (r : NavReading) → get_reading router token ≡ ok r → r.estimated ≡ false → IsFresh r
  get_reading_grade r h g =
      IsFirst-IsFresh fallback_order r (get_reading-IsFirst router token r h) g
