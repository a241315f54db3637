-- ===== src/Enable/Handler.antt =====
-- jobs/forward-enable.handler.ts: the job that deploys and wires a queue. The database's writes and the
-- log do not fail here; every other call may, and its answer during the run is in the services.
use etf.Base.{
  ℕ, String, Bool, true, false, Option, none, some, List, [], ◌∷◌, ◌++◌, map, ltb, if◌then◌else◌,
}
use etf.Base.Results.{Result, ok, err, ◌>>=◌, or_throw}
use etf.Base.Text.{◌<>◌}

pub data EnableStatus : Type 0 where
  pending wiring live failed : EnableStatus

pub record QueueConfig : Type 0 where
  pub status : EnableStatus
  pub queue_address : Option String
  pub step : Option String
  pub error : Option String
  pub tx_hashes : List String

-- What the writer sent to the chain: the deployment of a queue, and a call that is about a queue. Only the
-- deployment waits for its receipt.
pub data Event : Type 0 where
  deployed : String → Event
  wired : String → String → Event
  sourced : String → Event

-- The row, what was done on the chain, and the hashes gathered.
pub record World : Type 0 where
  pub row : QueueConfig
  pub log : List Event
  pub hashes : List String

-- One statement of the job after the queue is known or before it: a write of the row, or a writer's call
-- with the event it is and its answer, a hash or, where nothing was to do, none.
pub data Stmt : Type 0 where
  write : (List String → QueueConfig → QueueConfig) → Stmt
  call : Event → Result (Option String) → Stmt

abbrev pub added : List String → Option String → List String
added hs none = hs
added hs (some h) = hs ++ (h ∷ [])

-- What a call that threw leaves on the chain: its event, if a transaction of it was sent all the same. The
-- client may throw after the broadcast, and some calls send two transactions.
abbrev pub thrown_log : (Event → Bool) → Event → List Event → List Event
thrown_log landed e log = if landed e then log ++ (e ∷ []) else log

abbrev pub lost_log : Option String → List Event → List Event
lost_log none log = log
lost_log (some q) log = log ++ (deployed q ∷ [])

-- Runs statements until one throws; `landed` says of a call that throws whether it took effect.
unfoldable pub run_stmts : (Event → Bool) → List Stmt → World → World × Option String
run_stmts landed [] w = (w, none)
run_stmts landed (write f ∷ rest) w = run_stmts landed rest (record w { row = f w.hashes w.row })
run_stmts landed (call e (err message) ∷ rest) w =
    (record w { log = thrown_log landed e w.log }, some message)
run_stmts landed (call e (ok h) ∷ rest) w =
    run_stmts landed rest (record w { log = w.log ++ (e ∷ []); hashes = added w.hashes h })

-- `setForwardQueueStatus` with the fields that each statement gives.
abbrev pub wiring_at : String → List String → QueueConfig → QueueConfig
wiring_at step hs row = record row { status = EnableStatus.wiring; step = some step }

abbrev pub wiring_queue : String → String → List String → QueueConfig → QueueConfig
wiring_queue queue step hs row = record row {
  status = EnableStatus.wiring;
  queue_address = some queue;
  step = some step;
  tx_hashes = hs;
}

abbrev pub live_with : String → List String → QueueConfig → QueueConfig
live_with queue hs row = record row {
  status = EnableStatus.live;
  queue_address = some queue;
  tx_hashes = hs;
}

abbrev pub failed_with : String → QueueConfig → QueueConfig
failed_with message row = record row { status = EnableStatus.failed; error = some message }

-- What is read before the first call of the writer.
pub record Inputs : Type 0 where
  pub is_registry : Bool
  pub held_tokens : List String

-- The services' answers during a run. `required` is the addresses of the capabilities, in the order in
-- which they are required; `keeper_bps` is the parameter that the last step depends on. Where a call
-- throws, `landed` says whether it took effect, and `lost_queue` is the queue that stands on the chain
-- when the deployment throws after it has sent.
pub record EnableServices : Type 0 where
  pub required : List (String × Option String)
  pub router : Result String
  pub peg_feed : Result String
  pub owner : Option String
  pub is_registry : Bool
  pub registry_tokens : Result (List String)
  pub registry_fee_token : Result String
  pub managed_tokens : Result (List String)
  pub ensure_sources : String → Result (Option String)
  pub deploy_queue : Result String
  pub lost_queue : Option String
  pub landed : Event → Bool
  pub set_gate_params : String → Result String
  pub set_g1_refs : String → Result String
  pub set_keeper_tip : String → Result String
  pub set_spread_bps : String → Result String
  pub set_capacity : String → Result String
  pub set_cutoff_delay : String → Result String
  pub ensure_executor : String → Result (Option String)
  pub ensure_settler : String → Result (Option String)
  pub set_keeper_bps : Result String
  pub keeper_bps : ℕ
  pub refresh : Result (Unit {0})

require_all : List (String × Option String) → Result (Unit {0})
require_all [] = ok tt
require_all ((capability, address) ∷ rest) = do
  _ ← or_throw address ("missing capability " <> capability)
  require_all rest

abbrev pub some_hash : Result String → Result (Option String)
some_hash (err message) = err message
some_hash (ok h) = ok (some h)

abbrev pub when : Bool → List Stmt → List Stmt
when true ss = ss
when false ss = []

module _ (svc : EnableServices) where
  unfoldable pub held_of : Bool → Result (List String)
  held_of false = svc.managed_tokens
  held_of true = do held ← svc.registry_tokens; _ ← svc.registry_fee_token; ok held

  unfoldable pub inputs : Result Inputs
  unfolding require_all held_of
  inputs = do
    _ ← require_all svc.required
    _ ← svc.router
    _ ← svc.peg_feed
    _ ← or_throw svc.owner "no signer account (KEEPER_PRIVATE_KEY)"
    held ← held_of svc.is_registry
    ok (record { is_registry = svc.is_registry; held_tokens = held })

  unfoldable pub source_stmts : List String → List Stmt
  source_stmts held =
      write (wiring_at "sources")
      ∷ (map (λ (t : String). call (sourced t) (svc.ensure_sources t)) held
          ++ (write (wiring_at "deploy") ∷ []))

  -- Everything after the queue is deployed and its address is kept.
  unfoldable pub wire_stmts : Inputs → String → List Stmt
  wire_stmts i q =
      call (wired q "setGateParams") (some_hash (svc.set_gate_params q))
      ∷ call (wired q "setG1Refs") (some_hash (svc.set_g1_refs q))
      ∷ call (wired q "setKeeperTip") (some_hash (svc.set_keeper_tip q))
      ∷ call (wired q "setSpreadBps") (some_hash (svc.set_spread_bps q))
      ∷ call (wired q "setCapacity") (some_hash (svc.set_capacity q))
      ∷ call (wired q "setCutoffDelay") (some_hash (svc.set_cutoff_delay q))
      ∷ write (wiring_queue q "executor")
      ∷ call (wired q "ensureExecutor") (svc.ensure_executor q)
      ∷ (when i.is_registry (
            write (wiring_queue q "settler")
            ∷ call (wired q "ensureSettler") (svc.ensure_settler q)
            ∷ [])
          ++ (when (ltb 0 svc.keeper_bps) (
                write (wiring_queue q "keeperBps")
                ∷ call (wired q "setKeeperBps") (some_hash svc.set_keeper_bps)
                ∷ [])
              ++ (write (live_with q) ∷ [])))

  -- `existing ?? deployQueue(…)`, and the address kept at once when it is new. An address that the row
  -- has is not the empty text. A deployment that throws may have put a queue on the chain, which is not
  -- kept.
  unfoldable pub deploy_or : Option String → World → World × Result String
  deploy_or (some q) w = (w, ok q)
  deploy_or none w = elim svc.deploy_queue [
    | err message ↦ (record w { log = lost_log svc.lost_queue w.log }, err message)
    | ok q ↦ (
      record w { row = wiring_queue q "config" w.hashes w.row; log = w.log ++ (deployed q ∷ []) },
      ok q,
    )
  ]

  abbrev pub finish : World × Option String → World × Option String
  finish (w, some message) = (w, some message)
  finish (w, none) = elim svc.refresh [ ok u ↦ (w, none) | err message ↦ (w, some message) ]

  abbrev pub wire : Inputs → World × Result String → World × Option String
  wire i (w, err message) = (w, some message)
  wire i (w, ok q) = finish (run_stmts svc.landed (wire_stmts i q) w)

  abbrev pub after_sources : Option String → Inputs → World × Option String → World × Option String
  after_sources existing i (w, some message) = (w, some message)
  after_sources existing i (w, none) = wire i (deploy_or existing w)

  abbrev pub with_inputs : Option String → World → Result Inputs → World × Option String
  with_inputs existing w (err message) = (w, some message)
  with_inputs existing w (ok i) =
      after_sources existing i (run_stmts svc.landed (source_stmts i.held_tokens) w)

  abbrev pub catch : World × Option String → World
  catch (w, none) = w
  catch (w, some message) = record w { row = failed_with message w.row }

  -- A run on a row: the row afterwards, with what was done on the chain.
  unfoldable pub enable_run : QueueConfig → World
  unfolding run_stmts source_stmts wire_stmts deploy_or inputs
  enable_run cfg = catch (
      with_inputs cfg.queue_address
        (record { row = wiring_at "start" [] cfg; log = []; hashes = [] }) inputs)
