-- ===== src/Indexer/Reader/Order.antt =====
-- The events of one ticket come in the chain's order, though the reader asks for one kind after another.
use etf.Base.{
  ℕ, ◌≤◌, ◌<◌, ◌≡◌, ◌∙◌, refl, ap, Bool, false, List, [], ◌∷◌, ◌++◌, filter, All, All-map_of,
  Bool-cases, inl, inr, arith, if◌then◌else◌, ◌==◌,
}
use etf.Indexer.{ForwardEventKind}
use etf.Indexer.Reader.{ForwardLog, id_of, kind_of}

-- The place of a kind in a ticket's life, which is the reader's order too.
abbrev pub rank : ForwardEventKind → ℕ
rank ForwardEventKind.create_requested = 0
rank ForwardEventKind.redeem_requested = 1
rank ForwardEventKind.partial_fill = 2
rank ForwardEventKind.settled = 3
rank ForwardEventKind.cancelled = 4

abbrev pub has_rank : ℕ → ForwardLog → Bool
has_rank n log = rank (kind_of log.args) == n

-- The logs of a chain, one rank after another.
abbrev pub by_rank : List ForwardLog → List ForwardLog
by_rank logs =
    filter (has_rank 0) logs
    ++ (filter (has_rank 1) logs
        ++ (filter (has_rank 2) logs ++ (filter (has_rank 3) logs ++ filter (has_rank 4) logs)))

-- No event of the list stands before one that comes earlier in a ticket's life.
abbrev pub InOrder : List ForwardLog → Type 0
InOrder [] = Unit
InOrder (log ∷ logs) =
    All (λ (l : ForwardLog). rank (kind_of log.args) ≤ rank (kind_of l.args)) logs × InOrder logs

module _ {A : Type 0} where
  filter_none : (p : A → Bool) (xs : List A) → All (λ x. p x ≡ false) xs → filter p xs ≡ []
  filter_none p [] h = refl
  filter_none p (x ∷ xs) h = rw (h.0, filter_none p xs h.1) refl

  filter-append : (p : A → Bool) (xs ys : List A) → filter p (xs ++ ys) ≡ filter p xs ++ filter p ys
  filter-append p [] ys = refl
  filter-append p (x ∷ xs) ys = elim (Bool-cases (p x)) [
    | inl e ↦ rw e (ap (λ (zs : List A). x ∷ zs) (filter-append p xs ys))
    | inr e ↦ rw e (filter-append p xs ys)
  ]

  filter-filter_comm :
      (p q : A → Bool) (xs : List A) → filter p (filter q xs) ≡ filter q (filter p xs)
  filter-filter_comm p q [] = refl
  filter-filter_comm p q (x ∷ xs) = ground (arith, filter-filter_comm p q xs)

-- A rank below the first event's has nothing.
no_rank :
    (n r : ℕ) (logs : List ForwardLog)
    → n < r
    → All (λ (l : ForwardLog). r ≤ rank (kind_of l.args)) logs
    → filter (has_rank n) logs ≡ []
no_rank n r logs h k = filter_none (has_rank n) logs (All-map_of logs (λ l e. ground arith) k)

-- `by_rank` of a list whose first event has rank `r`.
abbrev ranked : ℕ → ForwardLog → List ForwardLog → List ForwardLog
ranked r log logs =
    (if r == 0 then log ∷ filter (has_rank 0) logs else filter (has_rank 0) logs)
    ++ ((if r == 1 then log ∷ filter (has_rank 1) logs else filter (has_rank 1) logs)
        ++ ((if r == 2 then log ∷ filter (has_rank 2) logs else filter (has_rank 2) logs)
            ++ ((if r == 3 then log ∷ filter (has_rank 3) logs else filter (has_rank 3) logs)
                ++ (if r == 4 then log ∷ filter (has_rank 4) logs else filter (has_rank 4) logs))))

abbrev AtLeast : ℕ → List ForwardLog → Type 0
AtLeast r = All (λ (l : ForwardLog). r ≤ rank (kind_of l.args))

ranked_lem :
    (k : ForwardEventKind) (log : ForwardLog) (logs : List ForwardLog)
    → AtLeast (rank k) logs
    → by_rank logs ≡ logs
    → ranked (rank k) log logs ≡ log ∷ logs
ranked_lem ForwardEventKind.create_requested log logs h ih =
    ap (λ (l : List ForwardLog). log ∷ l) ih
ranked_lem ForwardEventKind.redeem_requested log logs h ih =
    let z = no_rank 0 1 logs (ground arith) h in
    rw z (ap (λ (l : List ForwardLog). log ∷ l) (rw z at ih))
ranked_lem ForwardEventKind.partial_fill log logs h ih =
    let z = no_rank 0 2 logs (ground arith) h in
    let o = no_rank 1 2 logs (ground arith) h in
    rw (z, o) (ap (λ (l : List ForwardLog). log ∷ l) (rw (z, o) at ih))
ranked_lem ForwardEventKind.settled log logs h ih =
    let z = no_rank 0 3 logs (ground arith) h in
    let o = no_rank 1 3 logs (ground arith) h in
    let t = no_rank 2 3 logs (ground arith) h in
    rw (z, o, t) (ap (λ (l : List ForwardLog). log ∷ l) (rw (z, o, t) at ih))
ranked_lem ForwardEventKind.cancelled log logs h ih =
    let z = no_rank 0 4 logs (ground arith) h in
    let o = no_rank 1 4 logs (ground arith) h in
    let t = no_rank 2 4 logs (ground arith) h in
    let s = no_rank 3 4 logs (ground arith) h in
    rw (z, o, t, s) (ap (λ (l : List ForwardLog). log ∷ l) (rw (z, o, t, s) at ih))

by_rank_same : (logs : List ForwardLog) → InOrder logs → by_rank logs ≡ logs
by_rank_same [] h = refl
by_rank_same (log ∷ logs) h = ranked_lem (kind_of log.args) log logs h.0 (by_rank_same logs h.1)

abbrev pub is_of : ℕ → ForwardLog → Bool
is_of id log = id_of log.args == id

-- The logs of a ticket, one rank after another, are as the chain has them.
pub is_of-by_rank :
    (id : ℕ) (chain : List ForwardLog)
    → InOrder (filter (is_of id) chain)
    → filter (is_of id) (by_rank chain) ≡ filter (is_of id) chain
is_of-by_rank id chain h =
    let p = is_of id in
    let f : ℕ → List ForwardLog = λ n. filter (has_rank n) chain in
    let g : ℕ → List ForwardLog = λ n. filter (has_rank n) (filter p chain) in
    let swap : (n : ℕ) → filter p (f n) ≡ g n = λ n. filter-filter_comm p (has_rank n) chain in
    filter-append p (f 0) (f 1 ++ (f 2 ++ (f 3 ++ f 4)))
    ∙ ap (λ (xs : List ForwardLog). filter p (f 0) ++ xs)
        (filter-append p (f 1) (f 2 ++ (f 3 ++ f 4)))
    ∙ ap (λ (xs : List ForwardLog). filter p (f 0) ++ (filter p (f 1) ++ xs))
        (filter-append p (f 2) (f 3 ++ f 4))
    ∙ ap (λ (xs : List ForwardLog). filter p (f 0) ++ (filter p (f 1) ++ (filter p (f 2) ++ xs)))
        (filter-append p (f 3) (f 4))
    ∙ rw (swap 0, swap 1, swap 2, swap 3, swap 4) (by_rank_same (filter p chain) h)
