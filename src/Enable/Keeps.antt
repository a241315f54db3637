-- ===== src/Enable/Keeps.antt =====
-- What the statements of the job keep, of the row and of what was done on the chain.
use etf.Base.{
  ◌≡◌, refl, String, Bool, true, false, Option, none, some, List, [], ◌∷◌, ◌++◌, Bool-cases, All,
  All-append, inl, inr,
}
use etf.Base.Results.{Result, ok, err}
use etf.Enable.Handler.{
  QueueConfig, Event, deployed, wired, sourced, World, Stmt, write, call, added, run_stmts,
  wiring_at,
}

-- A statement keeps a property of the world, whatever its call answers.
abbrev pub IsKeeping : (World → Type 0) → Stmt → Type 0
IsKeeping P (write f) = (w : World) → P w → P (record w { row = f w.hashes w.row })
IsKeeping P (call e r) =
    (w : World) (h : Option String)
    → P w
    → P (record w { log = w.log ++ (e ∷ []); hashes = added w.hashes h })

pub run_keeps :
    (landed : Event → Bool) (P : World → Type 0) (ss : List Stmt) (w : World)
    → All (IsKeeping P) ss
    → P w
    → P (run_stmts landed ss w).0
unfolding run_stmts
run_keeps landed P [] w k h = h
run_keeps landed P (write f ∷ rest) w k h =
    run_keeps landed P rest (record w { row = f w.hashes w.row }) k.1 (k.0 w h)
run_keeps landed P (call e (err m) ∷ rest) w k h = elim (Bool-cases (landed e)) [
  | inl y ↦ rw y (k.0 w none h)
  | inr n ↦ rw n h
]
run_keeps landed P (call e (ok r) ∷ rest) w k h =
    run_keeps landed P rest (record w { log = w.log ++ (e ∷ []); hashes = added w.hashes r }) k.1
      (k.0 w r h)

-- What an event says when it may only be about one queue, which `may_deploy` allows to be deployed.
abbrev pub IsAbout : Bool → String → Event → Type 0
IsAbout true q (deployed d) = d ≡ q
IsAbout false q (deployed d) = ⊥
IsAbout may_deploy q (wired x name) = x ≡ q
IsAbout may_deploy q (sourced t) = Unit

-- The row keeps the queue, and everything done on the chain is about it.
abbrev pub IsBound : Bool → String → World → Type 0
IsBound may_deploy q w = (w.row.queue_address ≡ some q) × All (IsAbout may_deploy q) w.log

-- Nothing but the sources of prices was touched.
abbrev pub IsSource : Event → Type 0
IsSource (deployed d) = ⊥
IsSource (wired x name) = ⊥
IsSource (sourced t) = Unit

-- No queue yet.
abbrev pub IsUnbound : World → Type 0
IsUnbound w = (w.row.queue_address ≡ none) × All IsSource w.log

-- What the statements before the queue is known may do.
abbrev pub IsSourcing : (World → Type 0) → Type 0
IsSourcing P =
    ((step : String) → IsKeeping P (write (wiring_at step)))
    × ((t : String) (r : Result (Option String)) → IsKeeping P (call (sourced t) r))

pub IsUnbound-sourcing : IsSourcing IsUnbound
IsUnbound-sourcing =
    ((λ step w h. h), (λ t r w a h. (h.0, All-append IsSource w.log (sourced t ∷ []) h.1 (tt, tt))))

pub IsBound-sourcing : (m : Bool) (q : String) → IsSourcing (IsBound m q)
IsBound-sourcing true q = (
  (λ step w h. h),
  (λ t r w a h. (h.0, All-append (IsAbout true q) w.log (sourced t ∷ []) h.1 (tt, tt))),
)
IsBound-sourcing false q = (
  (λ step w h. h),
  (λ t r w a h. (h.0, All-append (IsAbout false q) w.log (sourced t ∷ []) h.1 (tt, tt))),
)

module _ (m : Bool) (q : String) where
  pub write-IsBound :
      (f : List String → QueueConfig → QueueConfig)
      → ((hs : List String) (row : QueueConfig)
          → row.queue_address ≡ some q
          → (f hs row).queue_address ≡ some q)
      → IsKeeping (IsBound m q) (write f)
  write-IsBound f k w h = (k w.hashes w.row (h.0), h.1)

  pub call-IsBound :
      (e : Event) (r : Result (Option String)) → IsAbout m q e → IsKeeping (IsBound m q) (call e r)
  call-IsBound e r k w h b = (b.0, All-append (IsAbout m q) w.log (e ∷ []) b.1 (k, tt))

pub IsAbout-wired : (m : Bool) (q name : String) → IsAbout m q (wired q name)
IsAbout-wired true q name = refl
IsAbout-wired false q name = refl
