-- ===== src/Oracle/Scale.antt =====
-- Scaling to 18 decimals: `normalizeTo18` of domain/oracle.ts.
use etf.Base.{
  ℕ, zero, suc, ◌+◌, ◌-◌, ◌*◌, ◌/◌, ◌^◌, ◌≤◌, ◌<◌, ◌≡◌, refl, ap, sym, ◌∙◌, arith, Bool-cases, ltb,
  inl, inr, ◌==◌,
}
use etf.Base.Int.{pos}
use etf.Oracle.{normalize_to_18}
use native.Mathlib.Nat.{pow-suc, one-le-pow, mul_assoc}

pow_add : (m n : ℕ) → 10 ^ (m + n) ≡ 10 ^ m * 10 ^ n
pow_add m zero = let e : m + 0 ≡ m = omega arith in rw e (omega arith)
pow_add m (suc n) =
    let e : m + suc n ≡ suc (m + n) = omega arith in
    let p : 10 ^ (m + n) * 10 ≡ 10 ^ m * 10 ^ n * 10 = ap (λ (t : ℕ). t * 10) (pow_add m n) in
    rw e (
      pow-suc 10 (m + n)
      ∙ p
      ∙ mul_assoc (10 ^ m) (10 ^ n) 10
      ∙ ap (λ (t : ℕ). 10 ^ m * t) (sym (pow-suc 10 n)))

pow_split : (m n k : ℕ) → m + n ≡ k → 10 ^ k ≡ 10 ^ m * 10 ^ n
pow_split m n k h = rw (← h) (pow_add m n)

pow_pos : (n : ℕ) → 0 < 10 ^ n
pow_pos n = one-le-pow n 10 (omega arith)

div_floor : (v q : ℕ) → 0 < q → (v / q * q ≤ v) × (v < (v / q + 1) * q)
div_floor v q h = grind arith

-- The three things that the statement below says of a result `r`.
abbrev IsFloor18 : ℕ → ℕ → ℕ → Type 0
IsFloor18 v d r =
    (r * 10 ^ d ≤ v * 10 ^ 18)
    × (v * 10 ^ 18 < (r + 1) * 10 ^ d)
    × (d ≤ 18 → r * 10 ^ d ≡ v * 10 ^ 18)

up : (v d p : ℕ) → p * 10 ^ d ≡ 10 ^ 18 → IsFloor18 v d (v * p)
up v d p e =
    let same : v * p * 10 ^ d ≡ v * 10 ^ 18 = mul_assoc v p (10 ^ d) ∙ ap (λ (t : ℕ). v * t) e in
    (omega (arith, same), omega (arith, same, pow_pos d), λ _. same)

down : (v d p : ℕ) → 18 < d → 0 < p → 10 ^ d ≡ p * 10 ^ 18 → IsFloor18 v d (v / p)
down v d p h k e =
    rw e (omega (arith, div_floor v p k), omega (arith, div_floor v p k), λ l. absurd (omega arith))

-- The scaled number is the largest whose value is not above the input's: r / 10^18 is v / 10^d rounded
-- down to 18 decimals, and with at most 18 decimals nothing is lost.
pub normalize_to_18_floor :
    (v d : ℕ)
    → (normalize_to_18 v (pos d) * 10 ^ d ≤ v * 10 ^ 18)
      × (v * 10 ^ 18 < (normalize_to_18 v (pos d) + 1) * 10 ^ d)
      × (d ≤ 18 → normalize_to_18 v (pos d) * 10 ^ d ≡ v * 10 ^ 18)
unfolding normalize_to_18
normalize_to_18_floor v d = elim (Bool-cases (d == 18)) [
  | inl e ↦ rw e (let f : d ≡ 18 = ground arith in rw f (omega arith, omega arith, λ _. refl))
  | inr ne ↦ elim (Bool-cases (ltb d 18)) [
    | inl lt ↦ rw (ne, lt) (up v d (10 ^ (18 - d)) (sym (pow_split (18 - d) d 18 (ground arith))))
    | inr gt ↦
        rw (ne, gt)
          (down v d (10 ^ (d - 18)) (ground arith) (pow_pos (d - 18))
            (pow_split (d - 18) 18 d (ground arith)))
  ]
]
