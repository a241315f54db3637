-- ===== src/Keeper/Settle.antt =====
-- settle.service.ts: one pass over the pending entries of a vault. The table of entries is a list in the
-- order of `submittedAt`.
use etf.Base.{
  ℕ, zero, suc, ◌+◌, String, Bool, true, false, ◌&&◌, Option, none, some, List, [], ◌∷◌, filter,
  ◌==◌, if◌then◌else◌,
}
use etf.Base.Text.{str_eq, ◌<>◌, show_nat}
use etf.Keeper.{KeeperStatus, KeeperResult, Outcome, noop_for, skipped_for}

pub data QueueStatus : Type 0 where
  pending settled failed cancelled : QueueStatus

pub record QueueEntry : Type 0 where
  pub id : String
  pub vault_address : String
  pub owner : String
  pub nonce : ℕ
  pub status : QueueStatus
  pub settled_tx_hash : Option String
  pub settled_at : Option ℕ

abbrev pub is_pending : QueueStatus → Bool
is_pending QueueStatus.pending = true
is_pending _ = false

abbrev pub is_pending_of : String → QueueEntry → Bool
is_pending_of vault e = str_eq e.vault_address vault && is_pending e.status

abbrev pub take : ℕ → List QueueEntry → List QueueEntry
take n [] = []
take zero (e ∷ es) = []
take (suc n) (e ∷ es) = e ∷ take n es

-- `findMany` with the optional `take`.
unfoldable pub select : Option ℕ → String → List QueueEntry → List QueueEntry
select none vault table = filter (is_pending_of vault) table
select (some n) vault table = take n (filter (is_pending_of vault) table)

-- `update({ where: { id } })`
unfoldable pub update : String → (QueueEntry → QueueEntry) → List QueueEntry → List QueueEntry
update id f [] = []
update id f (e ∷ es) = let rest = update id f es in if str_eq e.id id then f e ∷ es else e ∷ rest

abbrev pub mark_settled : String → ℕ → QueueEntry → QueueEntry
mark_settled tx now e = record e {
  status = QueueStatus.settled;
  settled_tx_hash = some tx;
  settled_at = some now;
}

abbrev pub mark_failed : QueueEntry → QueueEntry
mark_failed e = record e { status = QueueStatus.failed }

-- The loop's variables, with the table, and the reason when it returned early.
pub record Pass : Type 0 where
  pub table : List QueueEntry
  pub last_tx : Option String
  pub settled : ℕ
  pub stopped : Option String

-- One entry, by what its call came to; an absent capability stops the pass.
abbrev pub apply_outcome : ℕ → Pass → QueueEntry → Outcome → Pass
apply_outcome now s entry (Outcome.sent tx) = record s {
  table = update entry.id (mark_settled tx now) s.table;
  last_tx = some tx;
  settled = s.settled + 1;
}
apply_outcome now s entry (Outcome.unavailable message) = record s { stopped = some message }
apply_outcome now s entry (Outcome.thrown message) = record s {
  table = update entry.id mark_failed s.table;
}

abbrev pub unless_stopped : Pass → Option String → (Pass → Pass) → Pass
unless_stopped s none f = f s
unless_stopped s (some m) f = s

module _ (settle : String → String → ℕ → Outcome) (now : ℕ) (vault : String) where
  abbrev pub settle_one : Pass → QueueEntry → Pass
  settle_one s entry = apply_outcome now s entry (settle vault entry.owner entry.nonce)

  unfoldable pub settle_all : Pass → List QueueEntry → Pass
  settle_all s [] = s
  settle_all s (entry ∷ entries) =
      let next = settle_one s entry in unless_stopped next next.stopped (λ t. settle_all t entries)

abbrev pub opening : List QueueEntry → Pass
opening table = record { table = table; last_tx = none; settled = 0; stopped = none }

abbrev pub report_of : Pass → Option String → KeeperResult
report_of s (some message) = noop_for message
report_of s none =
    if s.settled == 0 then skipped_for "no entries settled (all failed)" else record {
      status = KeeperStatus.submitted;
      tx_hash = s.last_tx;
      detail = some ("settled " <> show_nat s.settled);
    }

-- The services of a run: whether the keeper is on and has a wallet, the baskets' own addresses, the
-- writer and the clock.
pub record SettleService : Type 0 where
  pub enabled : Bool
  pub wallet : Bool
  pub find_basket : String → Option String
  pub settle : String → String → ℕ → Outcome
  pub now : ℕ

abbrev pub settle_found :
    SettleService
    → String
    → List QueueEntry
    → List QueueEntry
    → Option String
    → KeeperResult × List QueueEntry
settle_found svc vault table selected none =
    (noop_for ("basket " <> (vault <> " not found")), table)
settle_found svc vault table selected (some basket_vault) =
    let s = settle_all svc.settle svc.now basket_vault (opening table) selected in
    (report_of s s.stopped, s.table)

abbrev pub settle_selected :
    SettleService → String → List QueueEntry → List QueueEntry → KeeperResult × List QueueEntry
settle_selected svc vault table [] = (skipped_for "no pending entries", table)
settle_selected svc vault table (e ∷ es) =
    settle_found svc vault table (e ∷ es) (svc.find_basket vault)

-- The result of a run and the table that it leaves.
unfoldable pub settle_run :
    SettleService → String → Option ℕ → List QueueEntry → KeeperResult × List QueueEntry
unfolding settle_all select
settle_run svc vault limit table =
    if svc.enabled
    then if svc.wallet
      then settle_selected svc vault table (select limit vault table)
      else (noop_for "no walletClient — KEEPER_PRIVATE_KEY not configured", table)
    else (noop_for "keeper disabled", table)
