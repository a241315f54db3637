-- ===== src/Keeper/Due.antt =====
-- The tickets of a queue that can be settled, and that the filters take them and no other.
use etf.Base.{
  ℕ, ◌≤◌, ◌<◌, ◌≡◌, ◌≢◌, refl, ap, subst, String, true, ◌&&◌, List, [], ◌∷◌, map, filter, All, Any,
  Bool-cases, inl, inr, arith,
}
use etf.Base.Results.{or_else}
use etf.Keeper.Forward.{TicketKind, PendingTicket, ForwardService, Batch, is_settleable, is_past}

-- A ticket that may be in a batch: past its cutoff, and not a create whose cash the fee takes whole.
abbrev pub IsDue : ForwardService → String → ℕ → Type 0
IsDue svc vault id =
    Any
      (λ (t : PendingTicket).
        (t.ticket_id ≡ id)
        × (t.cutoff ≤ svc.now)
        × (t.kind ≡ TicketKind.create → or_else (svc.flat_create_fee vault) 0 < t.remaining))
      (svc.tickets vault)

-- A pending ticket that can be settled at a time, against a fee.
abbrev pub IsReady : ℕ → ℕ → PendingTicket → Type 0
IsReady fee now t = (t.cutoff ≤ now) × (t.kind ≡ TicketKind.create → fee < t.remaining)

-- Each ticket of a vault that can be settled is among the ids.
abbrev pub IsComplete : ForwardService → String → List ℕ → Type 0
IsComplete svc vault is =
    All
      (λ (t : PendingTicket).
        IsReady (or_else (svc.flat_create_fee vault) 0) svc.now t
        → Any (λ (i : ℕ). i ≡ t.ticket_id) is)
      (svc.tickets vault)

-- No ticket of a vault can be settled.
abbrev pub IsQuiet : ForwardService → String → Type 0
IsQuiet svc vault =
    All (λ (t : PendingTicket). ¬ IsReady (or_else (svc.flat_create_fee vault) 0) svc.now t)
      (svc.tickets vault)

-- A batch is not empty, goes to the configured filler, and holds the due tickets of its vault, all of
-- them and no other.
abbrev pub IsGoodBatch : ForwardService → String → Batch → Type 0
IsGoodBatch svc ap b =
    (b.ids ≢ []) × (b.ap ≡ ap) × All (IsDue svc b.vault) b.ids × IsComplete svc b.vault b.ids

-- What a ticket's place in a batch says of it.
abbrev IsPicked : ℕ → ℕ → ℕ → PendingTicket → Type 0
IsPicked fee now id t =
    (t.ticket_id ≡ id) × (t.cutoff ≤ now) × (t.kind ≡ TicketKind.create → fee < t.remaining)

abbrev pub ids : ℕ → ℕ → List PendingTicket → List ℕ
ids fee now ts =
    map (λ (t : PendingTicket). t.ticket_id) (filter (is_settleable fee) (filter (is_past now) ts))

abbrev ArePicked : ℕ → ℕ → List PendingTicket → List ℕ → Type 0
ArePicked fee now ts = All (λ (i : ℕ). Any (IsPicked fee now i) ts)

weaken :
    (fee now : ℕ) (t : PendingTicket) (ts : List PendingTicket) (is : List ℕ)
    → ArePicked fee now ts is
    → ArePicked fee now (t ∷ ts) is
weaken fee now t ts [] h = tt
weaken fee now t ts (i ∷ is) h = (inr (h.0), weaken fee now t ts is h.1)

settleable_lem :
    (fee : ℕ) (t : PendingTicket)
    → is_settleable fee t ≡ true
    → t.kind ≡ TicketKind.create
    → fee < t.remaining
settleable_lem fee t e k = ground (arith, e, k)

pub picked : (fee now : ℕ) (ts : List PendingTicket) → ArePicked fee now ts (ids fee now ts)
picked fee now [] = tt
picked fee now (t ∷ ts) = elim (Bool-cases (is_past now t)) [
  | inr n ↦
      let left : ids fee now ts ≡ ids fee now (t ∷ ts) = rw n refl in
      subst (ArePicked fee now (t ∷ ts)) left
        (weaken fee now t ts (ids fee now ts) (picked fee now ts))
  | inl y ↦ elim (Bool-cases (is_settleable fee t)) [
    | inr n ↦
        let left : ids fee now ts ≡ ids fee now (t ∷ ts) = rw y (rw n refl) in
        subst (ArePicked fee now (t ∷ ts)) left
          (weaken fee now t ts (ids fee now ts) (picked fee now ts))
    | inl z ↦
        let taken : t.ticket_id ∷ ids fee now ts ≡ ids fee now (t ∷ ts) = rw y (rw z refl) in
        subst (ArePicked fee now (t ∷ ts)) taken (
          inl (refl, ground (arith, y), settleable_lem fee t z),
          weaken fee now t ts (ids fee now ts) (picked fee now ts),
        )
  ]
]

ready_lem :
    (fee now : ℕ) (t : PendingTicket)
    → IsReady fee now t
    → is_settleable fee t && is_past now t ≡ true
ready_lem fee now t (past, more) = kind t.kind refl
  where
    kind : (k : TicketKind) → t.kind ≡ k → is_settleable fee t && is_past now t ≡ true
    kind TicketKind.create e = let m : fee < t.remaining = more e in rw e (ground (arith, m, past))
    kind TicketKind.redeem e = rw e (ground (arith, past))

abbrev pub AreFound : ℕ → ℕ → List PendingTicket → List ℕ → Type 0
AreFound fee now ts is =
    All (λ (t : PendingTicket). IsReady fee now t → Any (λ (i : ℕ). i ≡ t.ticket_id) is) ts

more_found :
    (fee now n : ℕ) (ts : List PendingTicket) (is : List ℕ)
    → AreFound fee now ts is
    → AreFound fee now ts (n ∷ is)
more_found fee now n [] is h = tt
more_found fee now n (t ∷ ts) is h = ((λ d. inr (h.0 d)), more_found fee now n ts is h.1)

-- The filters leave no ticket out that can be settled.
pub all_found : (fee now : ℕ) (ts : List PendingTicket) → AreFound fee now ts (ids fee now ts)
all_found fee now [] = tt
all_found fee now (t ∷ ts) =
    let rest = all_found fee now ts in
    elim (Bool-cases (is_past now t)) [
      | inr n ↦
          let left : ids fee now ts ≡ ids fee now (t ∷ ts) = rw n refl in
          subst (AreFound fee now (t ∷ ts)) left ((λ d. absurd (ground (arith, n, d.0))), rest)
      | inl y ↦ elim (Bool-cases (is_settleable fee t)) [
        | inr n ↦
            let left : ids fee now ts ≡ ids fee now (t ∷ ts) = rw y (rw n refl) in
            subst (AreFound fee now (t ∷ ts)) left
              ((λ d. absurd (ground (arith, n, ready_lem fee now t d))), rest)
        | inl z ↦
            let taken : t.ticket_id ∷ ids fee now ts ≡ ids fee now (t ∷ ts) = rw y (rw z refl) in
            subst (AreFound fee now (t ∷ ts)) taken
              ((λ d. inl refl), more_found fee now t.ticket_id ts (ids fee now ts) rest)
      ]
    ]

pub quiet_lem :
    (fee now : ℕ) (ts : List PendingTicket)
    → AreFound fee now ts []
    → All (λ (t : PendingTicket). ¬ IsReady fee now t) ts
quiet_lem fee now [] h = tt
quiet_lem fee now (t ∷ ts) h = ((λ d. h.0 d), quiet_lem fee now ts h.1)
