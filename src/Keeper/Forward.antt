-- ===== src/Keeper/Forward.antt =====
-- forward-settle.service.ts: one pass over the queues' tickets that are past their cutoff. The messages
-- that are only logged are left out.
use etf.Base.{
  ℕ, ◌+◌, String, Bool, true, false, ◌&&◌, not, Option, none, some, List, [], ◌∷◌, ◌++◌, map,
  filter, ltb, leb, ◌==◌, if◌then◌else◌,
}
use etf.Base.Results.{Result, ok, err, or_else}
use etf.Base.Text.{◌<>◌, show_nat}
use etf.Keeper.{
  KeeperStatus, KeeperResult, Outcome, Operator, prepare, noop_for, skipped_for, no_wallet,
}

pub data TicketKind : Type 0 where
  create redeem : TicketKind

pub record PendingTicket : Type 0 where
  pub ticket_id : ℕ
  pub cutoff : ℕ
  pub kind : TicketKind
  pub remaining : ℕ

abbrev pub is_create : TicketKind → Bool
is_create TicketKind.create = true
is_create TicketKind.redeem = false

-- `!(t.kind === "Create" && remaining <= fee)`
abbrev pub is_settleable : ℕ → PendingTicket → Bool
is_settleable fee t = not (is_create t.kind && leb t.remaining fee)

abbrev pub is_past : ℕ → PendingTicket → Bool
is_past now t = leb t.cutoff now

-- The service during a pass. `flat_create_fee` is `err` where the vault has no such getter.
pub record ForwardService : Type 0 where
  pub operator : Operator
  pub now : ℕ
  pub vaults : List String
  pub tickets : String → List PendingTicket
  pub flat_create_fee : String → Result ℕ
  pub approve : String → String → Outcome
  pub settle : String → List ℕ → String → Outcome

-- A call of the writer's `settle`.
pub record Batch : Type 0 where
  pub vault : String
  pub ids : List ℕ
  pub ap : String

-- The loop's variables, the batches sent so far, and the reason when it returned early.
pub record ForwardPass : Type 0 where
  pub batches : List Batch
  pub last_tx : Option String
  pub settled_batches : ℕ
  pub found_batches : ℕ
  pub last_error : Option String
  pub stopped : Option String

abbrev pub unless_stopped : ForwardPass → Option String → (ForwardPass → ForwardPass) → ForwardPass
unless_stopped s none f = f s
unless_stopped s (some m) f = s

abbrev pub error_or : Option String → String → String
error_or none d = d
error_or (some e) d = e

abbrev pub forward_report : ForwardPass → Option String → KeeperResult
forward_report s (some message) = noop_for message
forward_report s none =
    if ltb 0 s.settled_batches
    then record {
      status = KeeperStatus.submitted;
      tx_hash = s.last_tx;
      detail = some ("settled " <> (show_nat s.settled_batches <> " batch(es)"));
    }
    else if s.found_batches == 0
    then skipped_for "no past-cutoff tickets"
    else record {
      status = KeeperStatus.failed;
      tx_hash = none;
      detail = some (
          error_or s.last_error
            ("all " <> (show_nat s.found_batches <> " settle attempt(s) reverted")));
    }

abbrev pub idle : ForwardPass
idle = record {
  batches = [];
  last_tx = none;
  settled_batches = 0;
  found_batches = 0;
  last_error = none;
  stopped = none;
}

module _ (svc : ForwardService) where
  unfoldable pub ids_of : String → List ℕ
  ids_of vault =
      map (λ (t : PendingTicket). t.ticket_id)
        (filter (is_settleable (or_else (svc.flat_create_fee vault) 0))
          (filter (is_past svc.now) (svc.tickets vault)))

  -- The writer's call, and what its outcome does to the variables.
  abbrev pub after_settle : ForwardPass → Outcome → ForwardPass
  after_settle s (Outcome.sent tx) = record s {
    last_tx = some tx;
    settled_batches = s.settled_batches + 1;
  }
  after_settle s (Outcome.unavailable message) = record s { stopped = some message }
  after_settle s (Outcome.thrown message) = record s { last_error = some message }

  abbrev pub after_prepare : ForwardPass → Batch → Result KeeperResult → ForwardPass
  after_prepare s b (err message) = record s { last_error = some message }
  after_prepare s b (ok r) =
      after_settle (record s { batches = s.batches ++ (b ∷ []) }) (svc.settle b.vault b.ids b.ap)

  abbrev pub settle_batch : String → ForwardPass → String → List ℕ → ForwardPass
  settle_batch ap s vault [] = s
  settle_batch ap s vault (i ∷ ids) =
      after_prepare (record s { found_batches = s.found_batches + 1 })
        (record { vault = vault; ids = i ∷ ids; ap = ap })
        (prepare svc.operator svc.approve vault (i ∷ ids))

  unfoldable pub settle_queues : String → ForwardPass → List String → ForwardPass
  unfolding ids_of
  settle_queues ap s [] = s
  settle_queues ap s (vault ∷ vaults) =
      let next = settle_batch ap s vault (ids_of vault) in
      unless_stopped next next.stopped (λ t. settle_queues ap t vaults)

  abbrev pub settle_for : Option String → KeeperResult × List Batch
  settle_for none = (noop_for "no AP filler — FORWARD_AP_FILLER_ADDRESS not set", [])
  settle_for (some ap) =
      let s = settle_queues ap idle svc.vaults in (forward_report s s.stopped, s.batches)

  -- The result of a pass, and the batches that it sent to the writer, in order.
  unfoldable pub forward_settle_run : KeeperResult × List Batch
  unfolding settle_queues
  forward_settle_run =
      if svc.operator.enabled
      then if svc.operator.wallet
        then settle_for svc.operator.ap_filler
        else (noop_for no_wallet, [])
      else (noop_for "forward operator disabled", [])
