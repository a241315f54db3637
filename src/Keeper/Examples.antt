-- ===== src/Keeper/Examples.antt =====
-- The keeper's passes over a small table and two vaults.
use etf.Base.{
  ℕ, zero, suc, ◌≡◌, ◌≢◌, refl, String, true, ◌<◌, ◌↔◌, Any, if◌then◌else◌, Bool-cases, inl, inr,
  none, some, List, [], ◌∷◌, All,
}
use etf.Base.Results.{ok}
use etf.Keeper.{KeeperStatus, Outcome, skipped_for}
use etf.Keeper.Settle.{QueueStatus, QueueEntry, SettleService, settle_run}
use etf.Keeper.Drain.{IsDrained, settle_run_drains}
use etf.Keeper.Forward.{TicketKind, PendingTicket, ForwardService, forward_settle_run}
use etf.Keeper.Record.{Pair, RecordService, forward_record_run}
use etf.Keeper.Feeds.{IsIn, IsDistinct, IsNamed}
use etf.Keeper.Pegs.{forward_record_run_feeds}
use etf.Base.Text.{str_eq}
use etf.Keeper.Due.{IsGoodBatch, IsQuiet}
use etf.Keeper.Batches.{forward_settle_run_lem}

abbrev entry : String → ℕ → QueueStatus → QueueEntry
entry id nonce status = record {
  id = id;
  vault_address = "0xba5";
  owner = "0xacc";
  nonce = nonce;
  status = status;
  settled_tx_hash = none;
  settled_at = none;
}

abbrev table : List QueueEntry
table =
    entry "a" 0 QueueStatus.pending
    ∷ entry "b" 2 QueueStatus.settled
    ∷ entry "c" 3 QueueStatus.pending
    ∷ []

-- The first nonce's transaction fails.
abbrev outcome : ℕ → Outcome
outcome zero = Outcome.thrown "reverted"
outcome (suc n) = Outcome.sent "0x1"

outcome_there : (n : ℕ) (message : String) → outcome n ≢ Outcome.unavailable message
outcome_there zero message e = cc
outcome_there (suc n) message e = cc

abbrev service : SettleService
service = record {
  enabled = true;
  wallet = true;
  find_basket = λ v. some v;
  settle = λ v o n. outcome n;
  now = 1_000;
}

settle_run_drains_example :
    IsDrained "0xba5" (settle_run service "0xba5" none table).1
    × (settle_run service "0xba5" none (settle_run service "0xba5" none table).1
        ≡ (skipped_for "no pending entries", (settle_run service "0xba5" none table).1))
settle_run_drains_example =
    settle_run_drains service "0xba5" "0xba5" table refl refl refl
      (λ v o n message. outcome_there n message) ((refl, (refl, tt)), ((refl, tt), (tt, tt)))

abbrev ticket : ℕ → ℕ → TicketKind → ℕ → PendingTicket
ticket id cutoff kind remaining = record {
  ticket_id = id;
  cutoff = cutoff;
  kind = kind;
  remaining = remaining;
}

-- One ticket can be settled, one's cash goes to the fee, and one is not past its cutoff.
abbrev forward : ForwardService
forward = record {
  operator = record { enabled = true; wallet = true; ap_filler = some "0xa9" };
  now = 1_000;
  vaults = "0xba5" ∷ "0xba6" ∷ [];
  tickets = λ v.
      ticket 1 900 TicketKind.redeem 5
      ∷ ticket 2 900 TicketKind.create 20
      ∷ ticket 3 1_100 TicketKind.create 50
      ∷ [];
  flat_create_fee = λ v. ok 20;
  approve = λ v a. Outcome.sent "0x1";
  settle = λ v is a. Outcome.sent "0x2";
}

forward_settle_run_lem_example :
    All (IsGoodBatch forward "0xa9") (forward_settle_run forward).1
    × ((forward_settle_run forward).0.status ≡ KeeperStatus.skipped
        → All (IsQuiet forward) forward.vaults)
forward_settle_run_lem_example = forward_settle_run_lem forward "0xa9" refl refl refl

-- Two vaults with pending tickets share a feed; the transaction of one fails.
abbrev recording : RecordService
recording = record {
  operator = record { enabled = true; wallet = true; ap_filler = none };
  pairs =
      record { vault = "0xba5"; queue = "0x9" }
      ∷ record { vault = "0xba6"; queue = "0x8" }
      ∷ record { vault = "0xba7"; queue = "0x7" }
      ∷ [];
  pending = λ v. if str_eq v "0xba7" then 0 else 2;
  record_nav = λ v. if str_eq v "0xba5" then Outcome.thrown "reverted" else Outcome.sent "0x1";
  peg_feed = λ q. ok "0xFeed";
}

recording-available : (v m : String) → recording.record_nav v ≢ Outcome.unavailable m
recording-available v m h = elim (Bool-cases (str_eq v "0xba5")) [
  | inl e ↦ cc (h, e)
  | inr e ↦ cc (h, e)
]

forward_record_run_feeds_example :
    IsDistinct (forward_record_run recording).1
    × ((f : String)
        → IsIn f (forward_record_run recording).1
          ↔ Any
              (λ (p : Pair).
                (0 < recording.pending p.vault) × IsNamed f (recording.peg_feed p.queue))
              recording.pairs)
forward_record_run_feeds_example = forward_record_run_feeds recording refl refl recording-available
