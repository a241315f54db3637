-- ===== src/Keeper/Drain.antt =====
-- What a pass over a vault's entries leaves behind.
use etf.Base.{
  ℕ, ◌≡◌, ◌≢◌, ◌∙◌, refl, sym, ap, subst, String, true, false, ◌&&◌, Option, none, some, List, [],
  ◌∷◌, filter, All, All-map_of, Any, Bool-cases, inl, inr, arith,
}
use etf.Base.Text.{str_eq, eq_iff, eq_refl}
use etf.Keeper.{Outcome, skipped_for}
use etf.Keeper.Settle.{
  QueueEntry, Pass, SettleService, is_pending_of, select, update, mark_settled, mark_failed,
  apply_outcome, settle_one, settle_all, unless_stopped, opening, settle_run, settle_selected,
}

abbrev IsOf : QueueEntry → QueueEntry → Type 0
IsOf e s = str_eq e.id s.id ≡ true

-- Every pending entry of the vault is still to be looked at.
abbrev pub IsAhead : String → List QueueEntry → List QueueEntry → Type 0
IsAhead vault selected table =
    All (λ (e : QueueEntry). is_pending_of vault e ≡ true → Any (IsOf e) selected) table

later :
    (e s : QueueEntry) (es : List QueueEntry)
    → str_eq e.id s.id ≡ false
    → Any (IsOf e) (s ∷ es)
    → Any (IsOf e) es
later e s es n (inl y) = cc
later e s es n (inr a) = a

-- After the entry's row is marked as not pending, only the later ones are ahead; `update` changes the
-- first row of the id, which is the only one.
abbrev pub IsKeyed : List QueueEntry → Type 0
IsKeyed [] = Unit
IsKeyed (e ∷ es) = All (λ (d : QueueEntry). str_eq d.id e.id ≡ false) es × IsKeyed es

-- A change to a row that keeps its id and its vault, and takes it out of the pending ones.
abbrev IsDone : (QueueEntry → QueueEntry) → Type 0
IsDone f = (e : QueueEntry) → ((f e).id ≡ e.id) × ((v : String) → is_pending_of v (f e) ≡ false)

others-IsAhead :
    (vault : String) (s : QueueEntry) (es table : List QueueEntry) (e : QueueEntry)
    → str_eq e.id s.id ≡ true
    → All (λ (d : QueueEntry). str_eq d.id e.id ≡ false) table
    → IsAhead vault (s ∷ es) table
    → IsAhead vault es table
others-IsAhead vault s es [] e same k h = tt
others-IsAhead vault s es (d ∷ table) e same k h =
    let other : str_eq d.id s.id ≡ false =
      grind (arith, eq_iff d.id s.id, eq_iff e.id s.id, eq_iff d.id e.id, k.0) in
    ((λ p. later d s es other (h.0 p)), others-IsAhead vault s es table e same k.1 h.1)

update-IsAhead :
    (vault : String) (f : QueueEntry → QueueEntry) (s : QueueEntry) (es table : List QueueEntry)
    → IsDone f
    → IsKeyed table
    → IsAhead vault (s ∷ es) table
    → IsAhead vault es (update s.id f table)
unfolding update
update-IsAhead vault f s es [] done k h = tt
update-IsAhead vault f s es (e ∷ table) done k h = elim (Bool-cases (str_eq e.id s.id)) [
  | inl y ↦
      rw y ((λ p. let q = (done e).1 vault in cc), others-IsAhead vault s es table e y k.0 h.1)
  | inr n ↦ rw n ((λ p. later e s es n (h.0 p)), update-IsAhead vault f s es table done k.1 h.1)
]

update_no_id :
    (id i : String) (f : QueueEntry → QueueEntry) (table : List QueueEntry)
    → IsDone f
    → All (λ (d : QueueEntry). str_eq d.id i ≡ false) table
    → All (λ (d : QueueEntry). str_eq d.id i ≡ false) (update id f table)
unfolding update
update_no_id id i f [] done h = tt
update_no_id id i f (d ∷ table) done h = elim (Bool-cases (str_eq d.id id)) [
  | inl y ↦ rw y (ap (λ (x : String). str_eq x i) ((done d).0) ∙ h.0, h.1)
  | inr n ↦ rw n (h.0, update_no_id id i f table done h.1)
]

update-IsKeyed :
    (id : String) (f : QueueEntry → QueueEntry) (table : List QueueEntry)
    → IsDone f
    → IsKeyed table
    → IsKeyed (update id f table)
unfolding update
update-IsKeyed id f [] done k = tt
update-IsKeyed id f (e ∷ table) done k = elim (Bool-cases (str_eq e.id id)) [
  | inl y ↦ rw y (
    subst (λ i. All (λ (d : QueueEntry). str_eq d.id i ≡ false) table) (sym ((done e).0)) (k.0),
    k.1,
  )
  | inr n ↦ rw n (update_no_id id e.id f table done (k.0), update-IsKeyed id f table done k.1)
]

pending_off : (v w : String) → (str_eq w v && false) ≡ false
pending_off v w = elim (Bool-cases (str_eq w v)) [ inl e ↦ rw e refl | inr e ↦ rw e refl ]

settled-IsDone : (tx : String) (now : ℕ) → IsDone (mark_settled tx now)
settled-IsDone tx now e = (refl, (λ v. pending_off v e.vault_address))

failed-IsDone : IsDone mark_failed
failed-IsDone e = (refl, (λ v. pending_off v e.vault_address))

-- One entry looked at: only the later ones are ahead, and the pass goes on.
abbrev IsOn : String → List QueueEntry → Pass → Type 0
IsOn vault es s = (s.stopped ≡ none) × IsKeyed s.table × IsAhead vault es s.table

outcome-IsOn :
    (vault : String) (now : ℕ) (s : Pass) (entry : QueueEntry) (es : List QueueEntry) (o : Outcome)
    → ((message : String) → o ≢ Outcome.unavailable message)
    → IsOn vault (entry ∷ es) s
    → IsOn vault es (apply_outcome now s entry o)
outcome-IsOn vault now s entry es (Outcome.sent tx) there (on, k, h) = (
  on,
  update-IsKeyed entry.id (mark_settled tx now) s.table (settled-IsDone tx now) k,
  update-IsAhead vault (mark_settled tx now) entry es s.table (settled-IsDone tx now) k h,
)
outcome-IsOn vault now s entry es (Outcome.unavailable message) there h =
    absurd (there message refl)
outcome-IsOn vault now s entry es (Outcome.thrown message) there (on, k, h) = (
  on,
  update-IsKeyed entry.id mark_failed s.table failed-IsDone k,
  update-IsAhead vault mark_failed entry es s.table failed-IsDone k h,
)

-- A writer whose capability is there.
abbrev pub IsThere : (String → String → ℕ → Outcome) → Type 0
IsThere settle =
    (v o : String) (n : ℕ) (message : String) → settle v o n ≢ Outcome.unavailable message

settle_all-IsOn :
    (settle : String → String → ℕ → Outcome) (now : ℕ) (bv vault : String) (s : Pass)
    (entries : List QueueEntry)
    → IsThere settle
    → IsOn vault entries s
    → IsOn vault [] (settle_all settle now bv s entries)
unfolding settle_all
settle_all-IsOn settle now bv vault s [] there h = h
settle_all-IsOn settle now bv vault s (e ∷ es) there h =
    let next = settle_one settle now bv s e in
    let on =
      outcome-IsOn vault now s e es (settle bv e.owner e.nonce) (there bv e.owner e.nonce) h in
    let run : unless_stopped next next.stopped (λ t. settle_all settle now bv t es)
        ≡ settle_all settle now bv next es =
      ap (λ (o : Option String). unless_stopped next o (λ t. settle_all settle now bv t es))
        (on.0) in
    subst (IsOn vault []) (sym run) (settle_all-IsOn settle now bv vault next es there on)

IsAhead-all :
    (vault : String) (table : List QueueEntry)
    → IsAhead vault (filter (is_pending_of vault) table) table
IsAhead-all vault [] = tt
IsAhead-all vault (e ∷ table) = elim (Bool-cases (is_pending_of vault e)) [
  | inl y ↦
      let taken : e ∷ filter (is_pending_of vault) table
          ≡ filter (is_pending_of vault) (e ∷ table) =
        rw y refl in
      subst (λ es. IsAhead vault es (e ∷ table)) taken
        ((λ p. inl (eq_refl e.id)), All-map_of table (λ d h p. inr (h p)) (IsAhead-all vault table))
  | inr n ↦
      let left : filter (is_pending_of vault) table ≡ filter (is_pending_of vault) (e ∷ table) =
        rw n refl in
      subst (λ es. IsAhead vault es (e ∷ table)) left ((λ p. cc), IsAhead-all vault table)
]

abbrev pub IsDrained : String → List QueueEntry → Type 0
IsDrained vault table = All (λ (e : QueueEntry). is_pending_of vault e ≡ false) table

IsDrained-of :
    (vault : String) (table : List QueueEntry) → IsAhead vault [] table → IsDrained vault table
IsDrained-of vault [] h = tt
IsDrained-of vault (e ∷ table) h = elim (Bool-cases (is_pending_of vault e)) [
  | inl y ↦ absurd (h.0 y)
  | inr n ↦ (n, IsDrained-of vault table h.1)
]

select_none :
    (vault : String) (table : List QueueEntry)
    → IsDrained vault table
    → filter (is_pending_of vault) table ≡ []
select_none vault [] h = refl
select_none vault (e ∷ table) h = rw h.0 (select_none vault table h.1)

found_drains :
    (svc : SettleService) (vault bv : String) (table selected : List QueueEntry)
    → svc.find_basket vault ≡ some bv
    → IsThere svc.settle
    → IsKeyed table
    → IsAhead vault selected table
    → IsDrained vault (settle_selected svc vault table selected).1
found_drains svc vault bv table [] known there k h = IsDrained-of vault table h
found_drains svc vault bv table (e ∷ es) known there k h =
    let on =
      settle_all-IsOn svc.settle svc.now bv vault (opening table) (e ∷ es) there (refl, k, h) in
    rw known
      (IsDrained-of vault (settle_all svc.settle svc.now bv (opening table) (e ∷ es)).table on.2)

-- A run without a limit, of an enabled keeper with a wallet, on a basket that is known, whose writer's
-- capability is there: whichever of its transactions fail, no entry of the vault is pending afterwards,
-- so that a second run, over the table that the first one left, has nothing to do and changes nothing.
pub settle_run_drains :
    (svc : SettleService) (vault bv : String) (table : List QueueEntry)
    → svc.enabled ≡ true
    → svc.wallet ≡ true
    → svc.find_basket vault ≡ some bv
    → IsThere svc.settle
    → IsKeyed table
    → IsDrained vault (settle_run svc vault none table).1
      × (settle_run svc vault none (settle_run svc vault none table).1
          ≡ (skipped_for "no pending entries", (settle_run svc vault none table).1))
unfolding settle_run select
settle_run_drains svc vault bv table on wallet known there keyed =
    let selected = filter (is_pending_of vault) table in
    let end : List QueueEntry = (settle_selected svc vault table selected).1 in
    let drained : IsDrained vault end =
      found_drains svc vault bv table selected known there keyed (IsAhead-all vault table) in
    let none_left = select_none vault end drained in
    simp (on, wallet) (drained, ap (settle_selected svc vault end) none_left)
