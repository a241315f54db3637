-- ===== src/Keeper.antt =====
-- backend/src/keeper: the jobs that settle queues, record observations and rebalance. Each run takes what
-- the services answer during it and returns its result, with the changes it made. The database answers.
pub mod Settle
pub mod Forward
pub mod Record
pub mod Feeds
pub mod Pegs
pub mod Drain
pub mod Due
pub mod Batches
mod Examples
use etf.Base.{
  ℕ, String, Bool, true, false, Option, none, some, List, [], ◌∷◌, length, ◌==◌, if◌then◌else◌,
}
use etf.Base.Results.{Result, ok, err, ◌>>=◌}
use etf.Base.Text.{◌<>◌, show_nat}

-- keeper.types.ts
pub data KeeperStatus : Type 0 where
  submitted skipped failed noop : KeeperStatus

pub record KeeperResult : Type 0 where
  pub status : KeeperStatus
  pub tx_hash : Option String
  pub detail : Option String

-- What a writer's call comes to: a transaction, the error of a capability that is absent, or another
-- error.
pub data Outcome : Type 0 where
  sent : String → Outcome
  unavailable : String → Outcome
  thrown : String → Outcome

abbrev pub noop_for : String → KeeperResult
noop_for detail = record { status = KeeperStatus.noop; tx_hash = none; detail = some detail }

abbrev pub skipped_for : String → KeeperResult
skipped_for detail = record { status = KeeperStatus.skipped; tx_hash = none; detail = some detail }

-- forward-ap.provider.ts. What the forward operator is configured with.
pub record Operator : Type 0 where
  pub enabled : Bool
  pub wallet : Bool
  pub ap_filler : Option String

abbrev pub no_wallet : String
no_wallet = "no walletClient — FORWARD_OPERATOR_PRIVATE_KEY not set"

abbrev pub prepare_with :
    (String → String → Outcome) → String → List ℕ → Option String → Result KeeperResult
prepare_with approve vault ids none =
    ok (noop_for "no AP filler — FORWARD_AP_FILLER_ADDRESS not set")
prepare_with approve vault [] (some ap) = ok (skipped_for "no tickets to prepare")
prepare_with approve vault (i ∷ ids) (some ap) = elim (approve vault ap) [
  | Outcome.sent tx ↦ ok (record {
    status = KeeperStatus.submitted;
    tx_hash = some tx;
    detail = some ("prepared AP for " <> (show_nat (length (i ∷ ids)) <> " ticket(s)"));
  })
  | Outcome.unavailable message ↦ ok (noop_for message)
  | Outcome.thrown message ↦ err message
]

unfoldable pub prepare :
    Operator → (String → String → Outcome) → String → List ℕ → Result KeeperResult
prepare op approve vault ids =
    if op.enabled
    then if op.wallet then prepare_with approve vault ids op.ap_filler else ok (noop_for no_wallet)
    else ok (noop_for "forward operator disabled")

-- rebalance.service.ts: `found` is the basket's own address, if the basket is known.
abbrev pub rebalance_with : (String → Outcome) → String → Option String → Result KeeperResult
rebalance_with trigger vault none = ok (noop_for ("basket " <> (vault <> " not found")))
rebalance_with trigger vault (some basket_vault) = elim (trigger basket_vault) [
  | Outcome.sent tx ↦
      ok (record { status = KeeperStatus.submitted; tx_hash = some tx; detail = none })
  | Outcome.unavailable message ↦ ok (noop_for message)
  | Outcome.thrown message ↦ err message
]

unfoldable pub rebalance_run :
    Bool → Bool → (String → Option String) → (String → Outcome) → String → Result KeeperResult
rebalance_run enabled wallet find_reference trigger vault =
    if enabled
    then if wallet
      then rebalance_with trigger vault (find_reference vault)
      else ok (noop_for "no walletClient — KEEPER_PRIVATE_KEY not configured")
    else ok (noop_for "keeper disabled")

-- idempotency.ts: `day` is the UTC day, "YYYY-MM-DD".
abbrev pub rebalance_key : String → String → String
rebalance_key vault day = "rebalance:" <> (vault <> (":" <> day))

abbrev pub settle_entry_key : String → ℕ → String
settle_entry_key vault nonce = "settle:" <> (vault <> (":" <> show_nat nonce))
