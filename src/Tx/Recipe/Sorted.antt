-- ===== src/Tx/Recipe/Sorted.antt =====
-- The order of the recipe's tokens.
use etf.Base.{
  ℕ, String, ◌≡◌, refl, ap, length, ◌++◌, ◌<◌, ◌≢◌, List, [], ◌∷◌, ltb, All, All-map_of, Bool-cases,
  inl, inr, arith,
}
use mathlib.Core.List.{Perm}
use mathlib.Core.List.Perm
use etf.Base.Results.{Result, ok, err, ◌>>=◌}
use etf.Base.Text.{address_value}
use etf.Tx.{Need}
use etf.Tx.Recipe.{zipped, tokens_of, amounts_of, insert_token, sort_by_token}

abbrev pub value : Need → ℕ
value n = address_value n.token

-- Strictly ascending by the numbers of the addresses.
abbrev pub IsAscending : List Need → Type 0
IsAscending [] = Unit
IsAscending (n ∷ ns) = All (λ (m : Need). value n < value m) ns × IsAscending ns

-- No two of the addresses are one number.
abbrev pub IsAllOther : List Need → Type 0
IsAllOther [] = Unit
IsAllOther (n ∷ ns) = All (λ (m : Need). value m ≢ value n) ns × IsAllOther ns

insert-perm : (x : Need) (ys : List Need) → Perm (insert_token x ys) (x ∷ ys)
unfolding insert_token
insert-perm x [] = Perm.rfl
insert-perm x (y ∷ ys) = elim (Bool-cases (ltb (value y) (value x))) [
  | inl e ↦ rw e (Perm.trans (Perm.cons y (insert-perm x ys)) (Perm.swap x y ys))
  | inr e ↦ rw e Perm.rfl
]

sort-perm : (xs : List Need) → Perm (sort_by_token xs) xs
unfolding sort_by_token
sort-perm [] = Perm.rfl
sort-perm (x ∷ xs) = Perm.trans (insert-perm x (sort_by_token xs)) (Perm.cons x (sort-perm xs))

insert_all {κ} :
    (P : Need → Type κ) (x : Need) (ys : List Need) → P x → All P ys → All P (insert_token x ys)
unfolding insert_token
insert_all P x [] h k = (h, tt)
insert_all P x (y ∷ ys) h k = elim (Bool-cases (ltb (value y) (value x))) [
  | inl e ↦ rw e (k.0, insert_all P x ys h k.1)
  | inr e ↦ rw e (h, k)
]

sort_all {κ} : (P : Need → Type κ) (xs : List Need) → All P xs → All P (sort_by_token xs)
unfolding sort_by_token
sort_all P [] h = tt
sort_all P (x ∷ xs) h = insert_all P x (sort_by_token xs) (h.0) (sort_all P xs h.1)

insert-IsAscending :
    (x : Need) (ys : List Need)
    → All (λ (m : Need). value m ≢ value x) ys
    → IsAscending ys
    → IsAscending (insert_token x ys)
unfolding insert_token
insert-IsAscending x [] f s = (tt, tt)
insert-IsAscending x (y ∷ ys) f s = elim (Bool-cases (ltb (value y) (value x))) [
  | inl e ↦
      let lt : value y < value x = ground (arith) in
      rw e
        (insert_all (λ (m : Need). value y < value m) x ys lt s.0, insert-IsAscending x ys f.1 s.1)
  | inr e ↦
      let lt : value x < value y = ground (arith, f.0) in
      rw e ((lt, All-map_of ys (λ m h. omega (arith, lt, h)) s.0), s)
]

sort-IsAscending : (xs : List Need) → IsAllOther xs → IsAscending (sort_by_token xs)
unfolding sort_by_token
sort-IsAscending [] h = tt
sort-IsAscending (x ∷ xs) h =
    insert-IsAscending x (sort_by_token xs) (sort_all (λ (m : Need). value m ≢ value x) xs (h.0))
      (sort-IsAscending xs h.1)

-- The order of the genesis recipe: the pairs of a token and its quantity are the given ones, each with
-- its own quantity still; and of addresses that all differ as numbers it is strictly ascending.
pub sort_by_token_lem :
    (xs : List Need) → Perm (sort_by_token xs) xs × (IsAllOther xs → IsAscending (sort_by_token xs))
sort_by_token_lem xs = (sort-perm xs, sort-IsAscending xs)

-- Each token gets the quantity at its place; more quantities than tokens change nothing.
pub zipped_lem :
    (pairs : List Need) (extra : List ℕ)
    → zipped (tokens_of pairs) (amounts_of pairs ++ extra) ≡ ok pairs
unfolding zipped
zipped_lem [] extra = refl
zipped_lem (n ∷ pairs) extra =
    ap (λ (r : Result (List Need)). r >>= (λ rest. ok (n ∷ rest))) (zipped_lem pairs extra)

-- A token without a quantity makes the whole throw.
pub zipped_short :
    (tokens : List String) (unit_qty : List ℕ)
    → length unit_qty < length tokens
    → (message : String) × (zipped tokens unit_qty ≡ err message)
unfolding zipped
zipped_short [] qty h = absurd (omega (arith, h))
zipped_short (t ∷ tokens) [] h = (_, refl)
zipped_short (t ∷ tokens) (q ∷ qty) h =
    let (message, e) = zipped_short tokens qty (omega (arith, h)) in
    (
      message,
      ap (λ (r : Result (List Need)). r >>= (λ rest. ok (record { token = t; amount = q } ∷ rest)))
          e,
    )
