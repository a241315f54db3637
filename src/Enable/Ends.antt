-- ===== src/Enable/Ends.antt =====
-- How a run of the job ends: with its row failed, or with the queue live and every step of it done.
use mathlib.Core.List.{append_assoc, append-nil}
use etf.Base.{
  ◌≡◌, ◌≢◌, ◌⊎◌, ◌∙◌, refl, sym, ap, subst, String, Bool, Option, none, some, List, [], ◌∷◌, ◌++◌,
  map, ltb, if◌then◌else◌, Bool-cases, inl, inr,
}
use etf.Base.Results.{Result, ok, err, Result-cases}
use etf.Enable.Resume.{finish_world}
use etf.Enable.Handler.{
  EnableStatus, QueueConfig, Event, deployed, wired, sourced, World, Stmt, write, call, added,
  run_stmts, wiring_at, wiring_queue, Inputs, EnableServices, inputs, source_stmts, wire_stmts,
  deploy_or, finish, wire, after_sources, with_inputs, catch, enable_run,
}

-- The calls among statements.
abbrev events_of : List Stmt → List Event
events_of [] = []
events_of (write f ∷ rest) = events_of rest
events_of (call e r ∷ rest) = e ∷ events_of rest

none-ne-some : (m : String) → none ≢ some m
none-ne-some m h = cc

-- Statements that do not throw have made all their calls, in order.
run_stmts_log :
    (landed : Event → Bool) (ss : List Stmt) (w : World)
    → (run_stmts landed ss w).1 ≡ none
    → (run_stmts landed ss w).0.log ≡ w.log ++ events_of ss
unfolding run_stmts
run_stmts_log landed [] w h = sym (append-nil w.log)
run_stmts_log landed (write f ∷ rest) w h =
    run_stmts_log landed rest (record w { row = f w.hashes w.row }) h
run_stmts_log landed (call e (err m) ∷ rest) w h = cc
run_stmts_log landed (call e (ok r) ∷ rest) w h =
    run_stmts_log landed rest (record w { log = w.log ++ (e ∷ []); hashes = added w.hashes r }) h
    ∙ append_assoc w.log (e ∷ []) (events_of rest)

-- The last statement writes the row, and what it writes has the property, with the hashes so far.
abbrev EndsIn : (List String → QueueConfig → Type 0) → List Stmt → Type 0
EndsIn P [] = ⊥
EndsIn P (write f ∷ []) = (hs : List String) (row : QueueConfig) → P hs (f hs row)
EndsIn P (call e r ∷ []) = ⊥
EndsIn P (s ∷ t ∷ rest) = EndsIn P (t ∷ rest)

run_stmts_last :
    (landed : Event → Bool) (P : List String → QueueConfig → Type 0) (ss : List Stmt) (w : World)
    → EndsIn P ss
    → (run_stmts landed ss w).1 ≡ none
    → P (run_stmts landed ss w).0.hashes (run_stmts landed ss w).0.row
unfolding run_stmts
run_stmts_last landed P [] w k h = absurd k
run_stmts_last landed P (write f ∷ []) w k h = k w.hashes w.row
run_stmts_last landed P (call e r ∷ []) w k h = absurd k
run_stmts_last landed P (write f ∷ t ∷ rest) w k h =
    run_stmts_last landed P (t ∷ rest) (record w { row = f w.hashes w.row }) k h
run_stmts_last landed P (call e (err m) ∷ t ∷ rest) w k h = cc
run_stmts_last landed P (call e (ok r) ∷ t ∷ rest) w k h =
    run_stmts_last landed P (t ∷ rest)
      (record w { log = w.log ++ (e ∷ []); hashes = added w.hashes r }) k h

-- The calls that wire a queue, in order: a registry vault's queue is also made a settler, and the
-- keeper's share is set where there is one.
abbrev pub wiring : Bool → Bool → String → List Event
wiring is_registry shared q =
    wired q "setGateParams"
    ∷ wired q "setG1Refs"
    ∷ wired q "setKeeperTip"
    ∷ wired q "setSpreadBps"
    ∷ wired q "setCapacity"
    ∷ wired q "setCutoffDelay"
    ∷ wired q "ensureExecutor"
    ∷ ((if is_registry then wired q "ensureSettler" ∷ [] else [])
        ++ (if shared then wired q "setKeeperBps" ∷ [] else []))

-- The deployment of the queue, unless the row had one.
abbrev pub deployment : Option String → String → List Event
deployment none q = deployed q ∷ []
deployment (some existing) q = []

-- The row of a live queue, with the hashes of the run.
abbrev pub IsLiveRow : String → List String → QueueConfig → Type 0
IsLiveRow q hs row =
    (row.status ≡ EnableStatus.live) × (row.queue_address ≡ some q) × (row.tx_hashes ≡ hs)

-- The queue is live: the row names it, with the hashes of the run, and everything was done, in order.
abbrev pub IsLive : EnableServices → Option String → Inputs → String → World → Type 0
IsLive svc existing i q w =
    IsLiveRow q w.hashes w.row
    × (w.log
        ≡ map sourced i.held_tokens
          ++ (deployment existing q ++ wiring i.is_registry (ltb 0 svc.keeper_bps) q))

-- The queue that the row has, or the one that is deployed.
abbrev pub IsItsQueue : EnableServices → Option String → String → Type 0
IsItsQueue svc none q = svc.deploy_queue ≡ ok q
IsItsQueue svc (some existing) q = existing ≡ q

module _ (svc : EnableServices) where
  source_events : (held : List String) → events_of (source_stmts svc held) ≡ map sourced held
  unfolding source_stmts
  source_events [] = refl
  source_events (t ∷ held) = ap (λ rest. sourced t ∷ rest) (source_events held)

  finish-none : (r : World × Option String) → (finish svc r).1 ≡ none → r.1 ≡ none
  finish-none (w, none) h = refl
  finish-none (w, some message) h = h

  -- The wiring's calls, and that it ends with the row made live.
  wire_calls :
      (i : Inputs) (q : String)
      → (events_of (wire_stmts svc i q) ≡ wiring i.is_registry (ltb 0 svc.keeper_bps) q)
        × EndsIn (IsLiveRow q) (wire_stmts svc i q)
  unfolding wire_stmts
  wire_calls i q = elim (Bool-cases i.is_registry) [
    | inl e ↦ elim (Bool-cases (ltb 0 svc.keeper_bps)) [
      | inl k ↦ rw (e, k) (refl, (λ hs row. (refl, refl, refl)))
      | inr k ↦ rw (e, k) (refl, (λ hs row. (refl, refl, refl)))
    ]
    | inr e ↦ elim (Bool-cases (ltb 0 svc.keeper_bps)) [
      | inl k ↦ rw (e, k) (refl, (λ hs row. (refl, refl, refl)))
      | inr k ↦ rw (e, k) (refl, (λ hs row. (refl, refl, refl)))
    ]
  ]

  -- Once the queue is known: its wiring, if nothing throws.
  wire-IsLive :
      (existing : Option String) (i : Inputs) (q : String) (w : World)
      → w.log ≡ map sourced i.held_tokens ++ deployment existing q
      → (wire svc i (w, ok q)).1 ≡ none
      → IsLive svc existing i q (wire svc i (w, ok q)).0
  wire-IsLive existing i q w start h =
      let r = run_stmts svc.landed (wire_stmts svc i q) w in
      let returned : r.1 ≡ none = finish-none r h in
      let calls = wire_calls i q in
      let log : r.0.log
          ≡ map sourced i.held_tokens
            ++ (deployment existing q ++ wiring i.is_registry (ltb 0 svc.keeper_bps) q) =
        run_stmts_log svc.landed (wire_stmts svc i q) w returned
        ∙ ap (λ es. w.log ++ es) calls.0
        ∙ ap (λ es. es ++ wiring i.is_registry (ltb 0 svc.keeper_bps) q) start
        ∙ append_assoc (map sourced i.held_tokens) (deployment existing q)
            (wiring i.is_registry (ltb 0 svc.keeper_bps) q) in
      subst (IsLive svc existing i q) (sym (finish_world svc r))
        (run_stmts_last svc.landed (IsLiveRow q) (wire_stmts svc i q) w calls.1 returned, log)

  -- What holds of a run that nothing stopped.
  abbrev pub HasEnded : Option String → World → Type 0
  HasEnded existing w =
      (i : Inputs) × (q : String) × ((inputs svc ≡ ok i)
        × (IsItsQueue svc existing q × IsLive svc existing i q w))

  after_sources_live :
      (existing : Option String) (i : Inputs) (r : World × Option String)
      → inputs svc ≡ ok i
      → (r.1 ≡ none → r.0.log ≡ map sourced i.held_tokens)
      → (after_sources svc existing i r).1 ≡ none
      → HasEnded existing (after_sources svc existing i r).0
  unfolding deploy_or
  after_sources_live existing i (w, some m) read s h = cc
  after_sources_live (some q) i (w, none) read s h = (
    i,
    q,
    (
      read,
      (refl, wire-IsLive (some q) i q w (s refl ∙ sym (append-nil (map sourced i.held_tokens))) h),
    ),
  )
  after_sources_live none i (w, none) read s h = elim (Result-cases svc.deploy_queue) [
    | inl (m, k) ↦
        let run : (after_sources svc none i (w, none)).1 ≡ some m = rw k refl in
        absurd (none-ne-some m (sym h ∙ run))
    | inr (q, k) ↦
        let w' : World = record w {
          row = wiring_queue q "config" w.hashes w.row;
          log = w.log ++ (deployed q ∷ []);
        } in
        let run : after_sources svc none i (w, none) ≡ wire svc i (w', ok q) = rw k refl in
        let start : w'.log ≡ map sourced i.held_tokens ++ (deployed q ∷ []) =
          ap (λ es. es ++ (deployed q ∷ [])) (s refl) in
        subst (λ (r : World × Option String). HasEnded none r.0) (sym run)
          (i, q, (read, (k, wire-IsLive none i q w' start (ap (λ r. r.1) (sym run) ∙ h))))
  ]

  with_inputs_live :
      (existing : Option String) (w : World) (read : Result Inputs)
      → w.log ≡ []
      → inputs svc ≡ read
      → (with_inputs svc existing w read).1 ≡ none
      → HasEnded existing (with_inputs svc existing w read).0
  with_inputs_live existing w (err m) start e h = cc
  with_inputs_live existing w (ok i) start e h =
      let sources = source_stmts svc i.held_tokens in
      after_sources_live existing i (run_stmts svc.landed sources w) e
        (λ k.
          run_stmts_log svc.landed sources w k
          ∙ ap (λ es. es ++ events_of sources) start
          ∙ source_events i.held_tokens)
        h

  -- The row is failed, with the message of what threw.
  abbrev pub HasFailed : World → Type 0
  HasFailed w = (w.row.status ≡ EnableStatus.failed) × ((m : String) × (w.row.error ≡ some m))

  catch_ends :
      (existing : Option String) (r : World × Option String)
      → (r.1 ≡ none → HasEnded existing r.0)
      → HasEnded existing (catch svc r) ⊎ HasFailed (catch svc r)
  catch_ends existing (w, none) k = inl (k refl)
  catch_ends existing (w, some m) k = inr (refl, (m, refl))

-- A run of the job leaves no row in the middle: the row is failed, with a message, or it is live. It is
-- live only when every step was done, in the order of the code: the sources of every token that the vault
-- holds, the queue's deployment if the row had none, and each of the calls that wire it, on that queue.
-- The row then names the queue, with the hashes of the run.
pub enable_run_ends :
    (svc : EnableServices) (cfg : QueueConfig)
    → HasEnded svc cfg.queue_address (enable_run svc cfg) ⊎ HasFailed svc (enable_run svc cfg)
unfolding enable_run
enable_run_ends svc cfg =
    let w : World = record { row = wiring_at "start" [] cfg; log = []; hashes = [] } in
    catch_ends svc cfg.queue_address (with_inputs svc cfg.queue_address w (inputs svc))
      (with_inputs_live svc cfg.queue_address w (inputs svc) refl refl)
