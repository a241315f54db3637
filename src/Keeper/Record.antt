-- ===== src/Keeper/Record.antt =====
-- forward-record.service.ts: a NAV observation for every vault with a pending ticket, and the refresh of
-- the peg feeds of their queues.
use etf.Base.{
  ℕ, ◌+◌, String, ◌||◌, Option, none, some, List, [], ◌∷◌, ◌++◌, any, ◌==◌, if◌then◌else◌,
}
use etf.Base.Results.{Result, ok, err}
use etf.Base.Text.{◌<>◌, show_nat, str_eq, to_lower}
use etf.Keeper.{KeeperStatus, KeeperResult, Outcome, Operator, noop_for, skipped_for, no_wallet}

pub record Pair : Type 0 where
  pub vault : String
  pub queue : String

-- `pending` is the number of pending tickets, `peg_feed` the queue's getter.
pub record RecordService : Type 0 where
  pub operator : Operator
  pub pairs : List Pair
  pub pending : String → ℕ
  pub record_nav : String → Outcome
  pub peg_feed : String → Result String

pub record RecordPass : Type 0 where
  pub poked : ℕ
  pub active_queues : List String
  pub stopped : Option String

abbrev pub after_record : RecordPass → Outcome → RecordPass
after_record s (Outcome.sent tx) = record s { poked = s.poked + 1 }
after_record s (Outcome.unavailable message) = record s { stopped = some message }
after_record s (Outcome.thrown message) = s

abbrev pub unless_stopped : RecordPass → Option String → (RecordPass → RecordPass) → RecordPass
unless_stopped s none f = f s
unless_stopped s (some m) f = s

module _ (svc : RecordService) where
  abbrev pub record_one : RecordPass → Pair → RecordPass
  record_one s p =
      if svc.pending p.vault == 0
      then s
      else after_record (record s { active_queues = s.active_queues ++ (p.queue ∷ []) })
          (svc.record_nav p.vault)

  unfoldable pub record_all : RecordPass → List Pair → RecordPass
  record_all s [] = s
  record_all s (p ∷ pairs) =
      let next = record_one s p in unless_stopped next next.stopped (λ t. record_all t pairs)

  abbrev pub add_feed : List String → Result String → List String
  add_feed feeds (err e) = feeds
  add_feed feeds (ok feed) =
      if str_eq feed "" || str_eq feed "0x0000000000000000000000000000000000000000"
      then feeds
      else if any (λ f. str_eq f (to_lower feed)) feeds
      then feeds
      else feeds ++ (to_lower feed ∷ [])

  -- The feeds that `refreshPegFeeds` pokes, each once, in the order of the set.
  unfoldable pub peg_feeds : List String → List String → List String
  peg_feeds feeds [] = feeds
  peg_feeds feeds (q ∷ queues) = peg_feeds (add_feed feeds (svc.peg_feed q)) queues

  abbrev pub poke_report : RecordPass → Option String → KeeperResult × List String
  poke_report s (some message) = (noop_for message, [])
  poke_report s none = (
    (if s.poked == 0 then skipped_for "no vaults with pending tickets" else record {
      status = KeeperStatus.submitted;
      tx_hash = none;
      detail = some ("poked " <> (show_nat s.poked <> " vault(s)"));
    }),
    peg_feeds [] s.active_queues,
  )

  -- The result of a run, and the feeds that it refreshes.
  unfoldable pub forward_record_run : KeeperResult × List String
  unfolding record_all peg_feeds
  forward_record_run =
      if svc.operator.enabled
      then if svc.operator.wallet
        then (let s =
              record_all (record { poked = 0; active_queues = []; stopped = none }) svc.pairs in
            poke_report s s.stopped)
        else (noop_for no_wallet, [])
      else (noop_for "forward operator disabled", [])
