-- ===== src/Enable.antt =====
-- Enabling cash settlement: backend/src/api/forward-enable.params.ts, and in the child
-- backend/src/jobs/forward-enable.handler.ts.
pub mod Handler
pub mod Keeps
pub mod Resume
pub mod Ends
pub mod Request
pub mod Accepts
pub mod Nonces
pub mod Again
pub mod Jobs
mod Examples
use etf.Base.{
  ℕ, ◌*◌, ◌^◌, ◌≤◌, ◌≡◌, ◌↔◌, refl, ap, All, String, Bool, true, false, ◌&&◌, Option, none, some,
  List, [], ◌∷◌, leb, arith, Bool-cases, inl, inr, if◌then◌else◌,
}
use etf.Base.Int.{ℤ, pos, negsuc}

-- A JavaScript number: a whole one, or one that `Number.isInteger` refuses.
pub data Number : Type 0 where
  int : ℤ → Number
  other : Number

-- `keeper_tip` is what `BigInt` makes of the text: none where it throws.
pub record EnableParams : Type 0 where
  pub min_prints : Number
  pub twap_window_sec : Number
  pub twap_band_bps : Number
  pub peg_band_bps : Number
  pub peg_max_age_sec : Number
  pub cutoff_delay_sec : Number
  pub spread_bps : Number
  pub capacity_bps : Number
  pub keeper_tip : Option ℤ
  pub keeper_bps : Number

abbrev pub in_range : ℕ → ℕ → Number → Bool
in_range lo hi (int (pos n)) = leb lo n && leb n hi
in_range lo hi (int (negsuc n)) = false
in_range lo hi other = false

abbrev pub keeper_tip_max : ℕ
keeper_tip_max = 100 * 10 ^ 18

abbrev pub tip_in_range : Option ℤ → Bool
tip_in_range none = false
tip_in_range (some (pos n)) = leb n keeper_tip_max
tip_in_range (some (negsuc n)) = false

-- The tests in the order of the source: a field's name, and whether the field is in its bounds.
abbrev pub checks : EnableParams → List (String × Bool)
checks p =
    ("minPrints", in_range 2 1_000 p.min_prints)
    ∷ ("twapWindowSec", in_range 60 86_400 p.twap_window_sec)
    ∷ ("twapBandBps", in_range 10 2_000 p.twap_band_bps)
    ∷ ("pegBandBps", in_range 10 2_000 p.peg_band_bps)
    ∷ ("pegMaxAgeSec", in_range 60 86_400 p.peg_max_age_sec)
    ∷ ("cutoffDelaySec", in_range 600 604_800 p.cutoff_delay_sec)
    ∷ ("spreadBps", in_range 0 200 p.spread_bps)
    ∷ ("capacityBps", in_range 0 10_000 p.capacity_bps)
    ∷ ("keeperBps", in_range 0 2_000 p.keeper_bps)
    ∷ ("keeperTip", tip_in_range p.keeper_tip)
    ∷ []

unfoldable pub first_bad : List (String × Bool) → Option String
first_bad [] = none
first_bad ((field, good) ∷ rest) = let later = first_bad rest in if good then later else some field

-- The field that is out of bounds, or none.
unfoldable pub validate_enable_params : EnableParams → Option String
unfolding first_bad
validate_enable_params p = first_bad (checks p)

-- The numbers of the parameters, all whole.
abbrev pub IsWhole : ℕ → ℕ → Number → Type 0
IsWhole lo hi v = (n : ℕ) × ((v ≡ int (pos n)) × ((lo ≤ n) × (n ≤ hi)))

abbrev magnitude : Number → ℕ
magnitude (int (pos n)) = n
magnitude (int (negsuc n)) = 0
magnitude other = 0

in_range_iff : (lo hi : ℕ) (v : Number) → (in_range lo hi v ≡ true) ↔ IsWhole lo hi v
in_range_iff lo hi (int (pos n)) = (
  (λ h. (n, (refl, (ground (arith, h), ground (arith, h))))),
  (λ h. let e : n ≡ h.0 = ap magnitude h.1.0 in ground (arith, e, h.1.1.0, h.1.1.1)),
)
in_range_iff lo hi (int (negsuc n)) = ((λ h. cc), (λ h. let e = h.1.0 in cc))
in_range_iff lo hi other = ((λ h. cc), (λ h. let e = h.1.0 in cc))

abbrev pub IsTip : Option ℤ → Type 0
IsTip tip = (n : ℕ) × ((tip ≡ some (pos n)) × (n ≤ 100 * 10 ^ 18))

abbrev tip_of : Option ℤ → ℕ
tip_of (some (pos n)) = n
tip_of (some (negsuc n)) = 0
tip_of none = 0

IsTip-iff : (tip : Option ℤ) → (tip_in_range tip ≡ true) ↔ IsTip tip
IsTip-iff none = ((λ h. cc), (λ h. let e = h.1.0 in cc))
IsTip-iff (some (pos n)) = (
  (λ h. (n, (refl, ground (arith, h)))),
  (λ h. let e : n ≡ h.0 = ap tip_of h.1.0 in ground (arith, e, h.1.1)),
)
IsTip-iff (some (negsuc n)) = ((λ h. cc), (λ h. let e = h.1.0 in cc))

first_bad_iff :
    (cs : List (String × Bool)) → (first_bad cs ≡ none) ↔ All (λ (c : String × Bool). c.1 ≡ true) cs
unfolding first_bad
first_bad_iff [] = ((λ h. tt), (λ h. refl))
first_bad_iff ((field, good) ∷ cs) =
    let (to, from) = first_bad_iff cs in
    elim (Bool-cases good) [
      | inl e ↦ rw e ((λ h. (refl, to h)), (λ h. from h.1))
      | inr e ↦ rw e ((λ h. cc), (λ h. let f = h.0 in cc))
    ]

-- The documented bounds of the parameters.
abbrev pub IsInBounds : EnableParams → Type 0
IsInBounds p =
    IsWhole 2 1_000 p.min_prints
    × IsWhole 60 86_400 p.twap_window_sec
    × IsWhole 10 2_000 p.twap_band_bps
    × IsWhole 10 2_000 p.peg_band_bps
    × IsWhole 60 86_400 p.peg_max_age_sec
    × IsWhole 600 604_800 p.cutoff_delay_sec
    × IsWhole 0 200 p.spread_bps
    × IsWhole 0 10_000 p.capacity_bps
    × IsWhole 0 2_000 p.keeper_bps
    × IsTip p.keeper_tip

-- Parameters are accepted exactly when each of the numbers is whole and in its bounds, and the tip is a
-- whole number of base units up to 100 tokens of 18 decimals.
pub validate_enable_params_iff :
    (p : EnableParams) → (validate_enable_params p ≡ none) ↔ IsInBounds p
unfolding validate_enable_params
validate_enable_params_iff p =
    let (to, from) = first_bad_iff (checks p) in
    (
      (λ h.
          let (a, (b, (c, (d, (e, (f, (g, (i, (j, (k, z)))))))))) = to h in
          (
            (in_range_iff 2 1_000 p.min_prints).0 a,
            (in_range_iff 60 86_400 p.twap_window_sec).0 b,
            (in_range_iff 10 2_000 p.twap_band_bps).0 c,
            (in_range_iff 10 2_000 p.peg_band_bps).0 d,
            (in_range_iff 60 86_400 p.peg_max_age_sec).0 e,
            (in_range_iff 600 604_800 p.cutoff_delay_sec).0 f,
            (in_range_iff 0 200 p.spread_bps).0 g,
            (in_range_iff 0 10_000 p.capacity_bps).0 i,
            (in_range_iff 0 2_000 p.keeper_bps).0 j,
            (IsTip-iff p.keeper_tip).0 k,
          )),
      (λ (a, b, c, d, e, f, g, i, j, k). from (
        (in_range_iff 2 1_000 p.min_prints).1 a,
        (
          (in_range_iff 60 86_400 p.twap_window_sec).1 b,
          (
            (in_range_iff 10 2_000 p.twap_band_bps).1 c,
            (
              (in_range_iff 10 2_000 p.peg_band_bps).1 d,
              (
                (in_range_iff 60 86_400 p.peg_max_age_sec).1 e,
                (
                  (in_range_iff 600 604_800 p.cutoff_delay_sec).1 f,
                  (
                    (in_range_iff 0 200 p.spread_bps).1 g,
                    (
                      (in_range_iff 0 10_000 p.capacity_bps).1 i,
                      ((in_range_iff 0 2_000 p.keeper_bps).1 j, ((IsTip-iff p.keeper_tip).1 k, tt)),
                    ),
                  ),
                ),
              ),
            ),
          ),
        ),
      )),
    )
