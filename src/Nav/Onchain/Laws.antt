-- ===== src/Nav/Onchain/Laws.antt =====
-- What a NAV read from the chain says of itself, and that scaling it keeps its band around it.
use etf.Base.{
  ℕ, ◌+◌, ◌*◌, ◌/◌, ◌≤◌, ◌<◌, List, ◌≡◌, ◌≢◌, ◌↔◌, refl, String, true, false, arith, some,
  Bool-cases, inl, inr, ◌==◌, leb,
}
use etf.Base.Results.{ok}
use etf.Oracle.{MarketStatus, NavResult, severity_from_code, severity_to_venue_status}
use native.Mathlib.Nat.{le-div_iff_mul-le, div-mul-le_self}
use etf.Nav.Onchain.{
  NavResultRaw, Chain, map_nav_result, scaled, per_share, payloads, read_l4_holdings,
}

-- An on-chain NAV is settlement grade exactly when the engine's severity is Open and the engine calls
-- it safe. Its venue status is then Regular, but a Degraded NAV has that status too and is an estimate.
pub map_nav_result_iff :
    (r : NavResultRaw)
    → (((map_nav_result r).estimated ≡ false) ↔ ((r.market_status ≡ 0) × (r.safe ≡ true)))
      × (((map_nav_result r).estimated ≡ false)
          → (map_nav_result r).market_status ≡ MarketStatus.regular)
      × (r.market_status ≡ 1
          → ((map_nav_result r).market_status ≡ MarketStatus.regular)
            × ((map_nav_result r).estimated ≡ true))
unfolding map_nav_result severity_from_code severity_to_venue_status
map_nav_result_iff r = (
  ((λ h. ground arith), (λ h. ground arith)),
  (λ h. ground arith),
  (λ h. (ground arith, ground arith)),
)

div_mono : (s a b : ℕ) → 0 < s → a ≤ b → a / s ≤ b / s
div_mono s a b p h =
    let q : (a / s ≤ b / s) ↔ (a / s * s ≤ b) = le-div_iff_mul-le p in
    q.1 (omega (arith, div-mul-le_self a s))

per_share_mono : (s a b : ℕ) → a ≤ b → per_share s a ≤ per_share s b
unfolding per_share
per_share_mono s a b h = elim (Bool-cases (s == 0)) [
  | inl e ↦ rw e (omega arith)
  | inr e ↦ rw e (
      div_mono s (a * 1_000_000_000_000_000_000) (b * 1_000_000_000_000_000_000) (ground arith)
        (omega arith))
]

-- A figure per share of a total, at 18 decimals and rounded down; of no shares it is 0.
abbrev pub IsRounded : ℕ → ℕ → ℕ → Type 0
IsRounded supply total x =
    (supply ≡ 0 → x ≡ 0)
    × (supply ≢ 0
        → (x * supply ≤ total * 1_000_000_000_000_000_000)
          × (total * 1_000_000_000_000_000_000 < (x + 1) * supply))

div_upper : (s a : ℕ) → 0 < s → a < (a / s + 1) * s
div_upper s a p =
    let q : (a / s + 1 ≤ a / s) ↔ ((a / s + 1) * s ≤ a) = le-div_iff_mul-le p in
    elim (Bool-cases (leb ((a / s + 1) * s) a)) [
      | inl e ↦ let k = q.1 (ground (arith, e)) in absurd (omega (arith, k))
      | inr e ↦ ground (arith, e)
    ]

per_share-IsRounded : (s a : ℕ) → IsRounded s a (per_share s a)
unfolding per_share
per_share-IsRounded s a = elim (Bool-cases (s == 0)) [
  | inl e ↦ rw e ((λ z. refl), (λ h. absurd (h (ground arith))))
  | inr e ↦ rw e (
    (λ z. absurd (ground arith)),
    (λ h. (
      div-mul-le_self (a * 1_000_000_000_000_000_000) s,
      div_upper s (a * 1_000_000_000_000_000_000) (ground arith),
    )),
  )
]

-- The figures of a NAV per share: each of the three is its total's share, in the totals' order, and the
-- rest is as the totals have it.
abbrev pub IsPerShare : ℕ → NavResultRaw → NavResult → Type 0
IsPerShare supply raw out =
    IsRounded supply raw.nav out.nav
    × IsRounded supply raw.conf_lower out.confidence_lower
    × IsRounded supply raw.conf_upper out.confidence_upper
    × (raw.conf_lower ≤ raw.nav → out.confidence_lower ≤ out.nav)
    × (raw.nav ≤ raw.conf_upper → out.nav ≤ out.confidence_upper)
    × ((out.estimated ≡ false) ↔ ((raw.market_status ≡ 0) × (raw.safe ≡ true)))
    × (out.safe ≡ some raw.safe)
    × (out.timestamp ≡ raw.timestamp)

-- The NAV per share of a vault that lists its holdings: its figure and both ends of its band are the
-- chain's total and the ends of its band for the tokens held now, each times 10^18 over the same share
-- supply, rounded down; of no shares all are 0. If the chain's band holds its total, the band holds the
-- NAV. It is settlement grade exactly when the engine's severity is Open and the engine calls the total
-- safe, and it has the total's time. The deployment has a fair-value engine, and each of the chain's
-- calls answers.
pub read_l4_holdings_lem :
    (chain : Chain) (vault fv : String) (held : List String) (p : List (List String))
    (raw : NavResultRaw) (supply : ℕ)
    → chain.fair_value_nav ≡ some fv
    → chain.held_tokens vault ≡ ok held
    → payloads chain.payloads_for held ≡ ok p
    → chain.nav_of_holdings vault held p ≡ ok raw
    → chain.total_supply vault ≡ ok supply
    → (out : NavResult) × (read_l4_holdings chain vault ≡ ok out) × IsPerShare supply raw out
unfolding read_l4_holdings scaled map_nav_result payloads
read_l4_holdings_lem chain vault fv held p raw supply e0 e1 e2 e3 e4 =
    let run : read_l4_holdings chain vault ≡ ok (scaled (per_share supply) (map_nav_result raw)) =
      simp (e0, e1, e2, e3, e4) refl in
    (
      scaled (per_share supply) (map_nav_result raw),
      run,
      (
        per_share-IsRounded supply raw.nav,
        per_share-IsRounded supply raw.conf_lower,
        per_share-IsRounded supply raw.conf_upper,
        per_share_mono supply raw.conf_lower raw.nav,
        per_share_mono supply raw.nav raw.conf_upper,
        (map_nav_result_iff raw).0,
        refl,
        refl,
      ),
    )
