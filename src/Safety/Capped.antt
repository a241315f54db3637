-- ===== src/Safety/Capped.antt =====
-- What the passes that cap the depths make of them.
use etf.Base.{
  ℕ, zero, suc, ◌*◌, ◌/◌, ◌≤◌, ◌≡◌, ◌≢◌, ◌⊎◌, ◌∙◌, refl, sym, ap, subst, true, false, List, [], ◌∷◌,
  map, any, min, ltb, ◌==◌, if◌then◌else◌, All, Bool-cases, inl, inr, arith,
}
use native.Mathlib.Nat.{mul-le-mul_right}
use etf.Safety.{Weighted, total_depth, cap_one, cap_depths}

-- Every depth above a limit is brought down to it; the prices stay, each with its own depth.
abbrev pub at_limit : ℕ → List Weighted → List Weighted
at_limit c = map (λ (w : Weighted). record { price = w.price; depth = min w.depth c })

-- No depth is above its share of the total, of k basis points.
abbrev pub IsFair : ℕ → List Weighted → Type 0
IsFair k ws = All (λ (w : Weighted). w.depth ≤ total_depth ws * k / 10_000) ws

-- Every depth is limited by one number, which is at most the share of what there was and at least the
-- share of what is left.
abbrev pub IsLimited : ℕ → List Weighted → List Weighted → Type 0
IsLimited k ws cs =
    (c : ℕ) × (cs ≡ at_limit c ws)
    × (c ≤ total_depth ws * k / 10_000)
    × (total_depth cs * k / 10_000 ≤ c)

-- The depths are as they were where no depth is above its share or the total is 0, and are limited by
-- one number where one is above.
abbrev pub IsCapped : ℕ → List Weighted → List Weighted → Type 0
IsCapped k ws cs =
    ((cs ≡ ws) × ((total_depth ws ≡ 0) ⊎ IsFair k ws)) ⊎ ((¬ IsFair k ws) × IsLimited k ws cs)

cap-at_limit : (c : ℕ) (ws : List Weighted) → map (cap_one c) ws ≡ at_limit c ws
cap-at_limit c [] = refl
cap-at_limit c (w ∷ ws) =
    let e : (if ltb c w.depth then c else w.depth) ≡ min w.depth c = ground arith in
    rw e (ap (◌∷◌ (record { price = w.price; depth = min w.depth c })) (cap-at_limit c ws))

total-at_limit : (c : ℕ) (ws : List Weighted) → total_depth (at_limit c ws) ≤ total_depth ws
total-at_limit c [] = omega arith
total-at_limit c (w ∷ ws) = let h = total-at_limit c ws in omega (arith, h)

at_limit_twice : (c d : ℕ) (ws : List Weighted) → c ≤ d → at_limit c (at_limit d ws) ≡ at_limit c ws
at_limit_twice c d [] h = refl
at_limit_twice c d (w ∷ ws) h =
    let e : min (min w.depth d) c ≡ min w.depth c = omega (arith, h) in
    rw e (ap (◌∷◌ (record { price = w.price; depth = min w.depth c })) (at_limit_twice c d ws h))

share_mono : (k a b : ℕ) → a ≤ b → a * k / 10_000 ≤ b * k / 10_000
share_mono k a b h = let m : a * k ≤ b * k = mul-le-mul_right k h in omega (arith, m)

-- A pass, and what the passes after it do.
again-IsLimited :
    (k : ℕ) (ws cs : List Weighted)
    → (cs ≡ at_limit (total_depth ws * k / 10_000) ws)
      ⊎ IsLimited k (at_limit (total_depth ws * k / 10_000) ws) cs
    → IsLimited k ws cs
again-IsLimited k ws cs (inl same) =
    let c = total_depth ws * k / 10_000 in
    let less = share_mono k (total_depth (at_limit c ws)) (total_depth ws) (total-at_limit c ws) in
    (c, same, omega arith, rw same less)
again-IsLimited k ws cs (inr (d, same, most, least)) =
    let c = total_depth ws * k / 10_000 in
    let less = share_mono k (total_depth (at_limit c ws)) (total_depth ws) (total-at_limit c ws) in
    let upto : d ≤ c = omega (arith, most, less) in
    (d, same ∙ at_limit_twice d c ws upto, upto, least)

none_above :
    (c : ℕ) (ws : List Weighted)
    → All (λ (w : Weighted). w.depth ≤ c) ws
    → any (λ (w : Weighted). ltb c w.depth) ws ≡ false
none_above c [] h = refl
none_above c (w ∷ ws) h =
    let e : ltb c w.depth ≡ false = ground (arith, h.0) in rw e (none_above c ws h.1)

true≢false : true ≢ false
true≢false e = cc

all_upto :
    (c : ℕ) (ws : List Weighted)
    → any (λ (w : Weighted). ltb c w.depth) ws ≡ false
    → All (λ (w : Weighted). w.depth ≤ c) ws
all_upto c [] h = tt
all_upto c (w ∷ ws) h = elim (Bool-cases (ltb c w.depth)) [
  | inl e ↦
      let yes_one : any (λ (v : Weighted). ltb c v.depth) (w ∷ ws) ≡ true = rw e refl in
      absurd (true≢false (sym yes_one ∙ h))
  | inr e ↦
      let rest : any (λ (v : Weighted). ltb c v.depth) (w ∷ ws)
          ≡ any (λ (v : Weighted). ltb c v.depth) ws =
        rw e refl in
      (ground (arith, e), all_upto c ws (sym rest ∙ h))
]

cap-IsLimited :
    (k passes : ℕ) (ws : List Weighted)
    → (cap_depths k passes ws ≡ ws) ⊎ IsLimited k ws (cap_depths k passes ws)
unfolding cap_depths
cap-IsLimited k zero ws = inl refl
cap-IsLimited k (suc passes) ws =
    let cap = total_depth ws * k / 10_000 in
    elim (Bool-cases (total_depth ws == 0)) [
      | inl e ↦ rw e (inl refl)
      | inr e ↦ elim (Bool-cases (any (λ (w : Weighted). ltb cap w.depth) ws)) [
        | inl e1 ↦
            let ws' = map (cap_one cap) ws in
            rw e (
              rw e1 (
                inr (
                  again-IsLimited k ws (cap_depths k passes ws') (
                    subst
                      (λ vs.
                        (cap_depths k passes ws' ≡ vs) ⊎ IsLimited k vs (cap_depths k passes ws'))
                      (cap-at_limit cap ws) (cap-IsLimited k passes ws')))))
        | inr e1 ↦ rw e (rw e1 (inl refl))
      ]
    ]

pub cap-IsCapped :
    (k passes : ℕ) (ws : List Weighted) → IsCapped k ws (cap_depths k (suc passes) ws)
unfolding cap_depths
cap-IsCapped k passes ws =
    let cap = total_depth ws * k / 10_000 in
    elim (Bool-cases (total_depth ws == 0)) [
      | inl e ↦ rw e (inl (refl, inl (ground (arith, e))))
      | inr e ↦ elim (Bool-cases (any (λ (w : Weighted). ltb cap w.depth) ws)) [
        | inl e1 ↦
            let ws' = map (cap_one cap) ws in
            let unfair : ¬ IsFair k ws = λ h. true≢false (sym e1 ∙ none_above cap ws h) in
            let limited = again-IsLimited k ws (cap_depths k passes ws') (
              subst
                (λ vs. (cap_depths k passes ws' ≡ vs) ⊎ IsLimited k vs (cap_depths k passes ws'))
                (cap-at_limit cap ws) (cap-IsLimited k passes ws')) in
            rw e (rw e1 (inr (unfair, limited)))
        | inr e1 ↦ rw e (rw e1 (inl (refl, inr (all_upto cap ws e1))))
      ]
    ]
