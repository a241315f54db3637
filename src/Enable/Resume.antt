-- ===== src/Enable/Resume.antt =====
-- What a run of the job leaves: its row, and what it did on the chain.
use etf.Base.{
  ◌≡◌, ◌⊎◌, refl, sym, subst, String, Bool, true, false, Option, none, some, List, [], ◌∷◌, ◌++◌,
  map, ltb, All, All-append, inl, inr,
}
use etf.Base.Results.{Result, ok, err, Result-cases}
use etf.Enable.Handler.{
  QueueConfig, Event, deployed, wired, sourced, World, Stmt, write, call, run_stmts, wiring_at,
  wiring_queue, live_with, Inputs, EnableServices, when, inputs, source_stmts, wire_stmts,
  deploy_or, lost_log, finish, wire, after_sources, with_inputs, catch, enable_run,
}
use etf.Enable.Keeps.{
  IsKeeping, run_keeps, IsAbout, IsBound, IsSource, IsUnbound, IsSourcing, IsUnbound-sourcing,
  IsBound-sourcing, IsAbout-wired, write-IsBound, call-IsBound,
}

module _ (svc : EnableServices) where
  source_keeps :
      (P : World → Type 0) (held : List String)
      → IsSourcing P
      → All (IsKeeping P) (source_stmts svc held)
  unfolding source_stmts
  source_keeps P held s = (s.0 "sources", each held)
    where
      each :
          (ts : List String)
          → All (IsKeeping P) (
              map (λ (t : String). call (sourced t) (svc.ensure_sources t)) ts
              ++ (write (wiring_at "deploy") ∷ []))
      each [] = (s.0 "deploy", tt)
      each (t ∷ ts) = (s.1 t (svc.ensure_sources t), each ts)

  when_keeps :
      (P : World → Type 0) (b : Bool) (xs ys : List Stmt)
      → All (IsKeeping P) xs
      → All (IsKeeping P) ys
      → All (IsKeeping P) (when b xs ++ ys)
  when_keeps P true xs ys h k = All-append (IsKeeping P) xs ys h k
  when_keeps P false xs ys h k = k

  wire_keeps :
      (m : Bool) (q : String) (i : Inputs) → All (IsKeeping (IsBound m q)) (wire_stmts svc i q)
  unfolding wire_stmts
  wire_keeps m q i =
      let c : (name : String) → IsKeeping (IsBound m q) (call (wired q name) (ok none)) =
        λ name. call-IsBound m q (wired q name) (ok none) (IsAbout-wired m q name) in
      let a : (step : String) → IsKeeping (IsBound m q) (write (wiring_queue q step)) =
        λ step. write-IsBound m q (wiring_queue q step) (λ hs row h. refl) in
      let P = IsBound m q in
      (
        c "setGateParams",
        (
          c "setG1Refs",
          (
            c "setKeeperTip",
            (
              c "setSpreadBps",
              (
                c "setCapacity",
                (
                  c "setCutoffDelay",
                  (
                    a "executor",
                    (
                      c "ensureExecutor",
                      when_keeps P i.is_registry _ _ (a "settler", (c "ensureSettler", tt))
                          (when_keeps P (ltb 0 svc.keeper_bps) _ _
                            (a "keeperBps", (c "setKeeperBps", tt))
                            (write-IsBound m q (live_with q) (λ hs row h. refl), tt)),
                    ),
                  ),
                ),
              ),
            ),
          ),
        ),
      )

  catch-IsBound :
      (m : Bool) (q : String) (r : World × Option String)
      → IsBound m q r.0
      → IsBound m q (catch svc r)
  catch-IsBound m q (w, none) h = h
  catch-IsBound m q (w, some message) h = h

  catch-IsUnbound : (r : World × Option String) → IsUnbound r.0 → IsUnbound (catch svc r)
  catch-IsUnbound (w, none) h = h
  catch-IsUnbound (w, some message) h = h

  pub finish_world : (r : World × Option String) → (finish svc r).0 ≡ r.0
  finish_world (w, some message) = refl
  finish_world (w, none) = elim (Result-cases svc.refresh) [
    | inl (e, h) ↦ rw h refl
    | inr (u, h) ↦ rw h refl
  ]

  wire-IsBound :
      (m : Bool) (q : String) (i : Inputs) (w : World)
      → IsBound m q w
      → IsBound m q (wire svc i (w, ok q)).0
  wire-IsBound m q i w h =
      subst (IsBound m q) (sym (finish_world (run_stmts svc.landed (wire_stmts svc i q) w)))
        (run_keeps svc.landed (IsBound m q) (wire_stmts svc i q) w (wire_keeps m q i) h)

  -- A run that has its queue already.
  existing-IsBound :
      (q : String) (i : Inputs) (r : World × Option String)
      → IsBound false q r.0
      → IsBound false q (after_sources svc (some q) i r).0
  unfolding deploy_or
  existing-IsBound q i (w, some message) h = h
  existing-IsBound q i (w, none) h = wire-IsBound false q i w h

  -- The deployment threw and left a queue on the chain: the row has none, and nothing was wired.
  abbrev pub IsLost : String → World → Type 0
  IsLost q w =
      (w.row.queue_address ≡ none)
      × ((before : List Event) × All IsSource before × (w.log ≡ before ++ (deployed q ∷ [])))

  -- A run that has none: it ends without one, or with the one that it deployed, or with one that its
  -- deployment lost.
  abbrev pub IsFirstRun : World → Type 0
  IsFirstRun w =
      IsUnbound w
      ⊎ ((q : String) × ((svc.deploy_queue ≡ ok q) × IsBound true q w))
      ⊎ ((q : String) × (m : String) × ((svc.deploy_queue ≡ err m)
            × (svc.lost_queue ≡ some q)
            × IsLost q w))

  lost_run :
      (w : World) (m : String) (lost : Option String)
      → svc.deploy_queue ≡ err m
      → svc.lost_queue ≡ lost
      → IsUnbound w
      → IsFirstRun (record w { log = lost_log lost w.log })
  lost_run w m none k e h = inl h
  lost_run w m (some q) k e h = inr (inr (q, m, (k, e, (h.0, (w.log, h.1, refl)))))

  source-IsAbout : (q : String) (log : List Event) → All IsSource log → All (IsAbout true q) log
  source-IsAbout q [] h = tt
  source-IsAbout q (deployed d ∷ log) h = absurd h.0
  source-IsAbout q (wired x name ∷ log) h = absurd h.0
  source-IsAbout q (sourced t ∷ log) h = (tt, source-IsAbout q log h.1)

  first_run :
      (i : Inputs) (r : World × Option String)
      → IsUnbound r.0
      → IsFirstRun (after_sources svc none i r).0
  unfolding deploy_or
  first_run i (w, some message) h = inl h
  first_run i (w, none) h = elim (Result-cases svc.deploy_queue) [
    | inl (e, k) ↦
        let w' : World = record w { log = lost_log svc.lost_queue w.log } in
        let run : (after_sources svc none i (w, none)).0 ≡ w' = rw k refl in
        subst IsFirstRun (sym run) (lost_run w e svc.lost_queue k refl h)
    | inr (q, k) ↦
        let w' : World = record w {
          row = wiring_queue q "config" w.hashes w.row;
          log = w.log ++ (deployed q ∷ []);
        } in
        let start : IsBound true q w' = (
          refl,
          All-append (IsAbout true q) w.log (deployed q ∷ []) (source-IsAbout q w.log h.1)
              (refl, tt),
        ) in
        let run : (after_sources svc none i (w, none)).0 ≡ (wire svc i (w', ok q)).0 = rw k refl in
        inr (inl (q, (k, subst (IsBound true q) (sym run) (wire-IsBound true q i w' start))))
  ]

  catch-IsLost : (q : String) (r : World × Option String) → IsLost q r.0 → IsLost q (catch svc r)
  catch-IsLost q (w, none) h = h
  catch-IsLost q (w, some message) h = h

  catch_first : (r : World × Option String) → IsFirstRun r.0 → IsFirstRun (catch svc r)
  catch_first r (inl h) = inl (catch-IsUnbound r h)
  catch_first r (inr (inl (q, (k, h)))) = inr (inl (q, (k, catch-IsBound true q r h)))
  catch_first r (inr (inr (q, m, (k, e, h)))) = inr (inr (q, m, (k, e, catch-IsLost q r h)))

  existing_run :
      (q : String) (w : World) (i : Result Inputs)
      → IsBound false q w
      → IsBound false q (with_inputs svc (some q) w i).0
  existing_run q w (err message) h = h
  existing_run q w (ok i) h =
      existing-IsBound q i (run_stmts svc.landed (source_stmts svc i.held_tokens) w) (
        run_keeps svc.landed (IsBound false q) (source_stmts svc i.held_tokens) w
          (source_keeps (IsBound false q) i.held_tokens (IsBound-sourcing false q)) h)

  none_run : (w : World) (i : Result Inputs) → IsUnbound w → IsFirstRun (with_inputs svc none w i).0
  none_run w (err message) h = inl h
  none_run w (ok i) h = first_run i (run_stmts svc.landed (source_stmts svc i.held_tokens) w) (
      run_keeps svc.landed IsUnbound (source_stmts svc i.held_tokens) w
        (source_keeps IsUnbound i.held_tokens IsUnbound-sourcing) h)

-- A run never replaces a queue. If the row has one, no queue is deployed, every call that wires a queue
-- is about that one, and the row keeps it, whichever call fails and whether or not it took effect. If it
-- has none, there are three ends. The run ends without a queue and has touched only the sources of
-- prices. Or its deployment answered with a queue, the row keeps its address whatever failed after that,
-- and only that one is wired. Or its deployment threw after it had put a queue on the chain: that queue
-- is in no row and is not wired.
pub enable_run_keeps_queue :
    (svc : EnableServices) (cfg : QueueConfig)
    → ((q : String) → cfg.queue_address ≡ some q → IsBound false q (enable_run svc cfg))
      × (cfg.queue_address ≡ none → IsFirstRun svc (enable_run svc cfg))
unfolding enable_run
enable_run_keeps_queue svc cfg = (
  (λ q e.
      let w : World = record { row = wiring_at "start" [] cfg; log = []; hashes = [] } in
      let kept =
        catch-IsBound svc false q (with_inputs svc (some q) w (inputs svc))
          (existing_run svc q w (inputs svc) (e, tt)) in
      subst (λ (o : Option String). IsBound false q (catch svc (with_inputs svc o w (inputs svc))))
        (sym e) kept),
  (λ e.
      let w : World = record { row = wiring_at "start" [] cfg; log = []; hashes = [] } in
      let run = none_run svc w (inputs svc) (e, tt) in
      subst (λ (o : Option String). IsFirstRun svc (catch svc (with_inputs svc o w (inputs svc))))
        (sym e) (catch_first svc (with_inputs svc none w (inputs svc)) run)),
)
