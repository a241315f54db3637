-- ===== src/Indexer/Tick.antt =====
-- IndexerService of indexer.service.ts: one tick over a range of blocks. A tick is not one transaction:
-- when a call of the reader or a write throws, what was written before stays.
pub mod Triples
pub mod Parts
pub mod Checkpoint
pub mod CatchUp
pub mod Goes
pub mod Listed
pub mod Answered
pub mod Returns
use etf.Base.{
  ℕ, suc, ◌+◌, ◌-◌, String, Bool, true, false, Option, none, some, List, [], ◌∷◌, length, ltb,
  if◌then◌else◌,
}
use etf.Base.Results.{Result, ok, err}
use etf.Base.Text.{to_lower}
use etf.Base.Dict.{Dict, get, put}
use etf.Tx.Mint.{VaultType, Constituent}
use etf.Keeper.Record.{Pair}
use etf.Indexer.{
  BasketCreatedEvent, ManagedBasketCreatedEvent, RebalanceBasketCreatedEvent,
  RegistryConstituentsUpdate, RebalancedEvent, TargetChangeEvent, KeeperPayoutEvent,
  ForwardTicketEvent, ActivityEventRecord, Store,
}
use etf.Indexer.Repository.{
  Write, replace_registry_constituents, apply_basket_created, apply_managed_basket_created,
  apply_committed_basket_created, apply_keeper_basket_created, apply_rebalanced,
  apply_target_change, apply_keeper_payout, apply_forward_event, apply_activity_event,
  set_checkpoint, vaults_of, get_all_vault_addresses, get_registry_vaults_needing_genesis,
  get_genesis_constituents,
}

-- The methods of the abstract class: `err` is a call that throws.
pub record ChainLogReader : Type 0 where
  pub is_ready : Bool
  pub head_block : Result ℕ
  pub basket_created : ℕ → ℕ → Result (List BasketCreatedEvent)
  pub managed_basket_created : ℕ → ℕ → Result (List ManagedBasketCreatedEvent)
  pub committed_basket_created : ℕ → ℕ → Result (List BasketCreatedEvent)
  pub rebalance_basket_created : ℕ → ℕ → Result (List RebalanceBasketCreatedEvent)
  pub registry_index_created : ℕ → ℕ → Result (List RebalanceBasketCreatedEvent)
  pub vault_lifecycle_logs :
      List String → ℕ → ℕ → Result (List RebalancedEvent × List TargetChangeEvent)
  pub registry_recipe_logs : List String → ℕ → ℕ → Result (List RegistryConstituentsUpdate)
  pub registry_genesis : String → Result (List Constituent)
  pub keeper_payout_logs : ℕ → ℕ → Result (List KeeperPayoutEvent)
  pub forward_queue_logs : String → String → ℕ → ℕ → Result (List ForwardTicketEvent)
  pub vault_activity_logs : List String → ℕ → ℕ → Result (List ActivityEventRecord)

-- A part of a tick: the tables after it, and its value or the error that ends the tick.
abbrev pub Run {ℓ} : Type ℓ → Type ℓ
Run A = Store → Store × Result A

abbrev pub after {ℓ κ} :
    {A : Type ℓ} {B : Type κ} → Store × Result A → (A → Run B) → Store × Result B
after (s, ok a) f = f a s
after (s, err e) f = (s, err e)

infixl 5 ◌>>=◌ ◌>>◌
abbrev pub ◌>>=◌ {ℓ κ} : {A : Type ℓ} {B : Type κ} → Run A → (A → Run B) → Run B
◌>>=◌ m f s = after (m s) f

abbrev pub ◌>>◌ {κ} : {B : Type κ} → Run (Unit {0}) → Run B → Run B
m >> rest = m >>= (λ u. rest)

abbrev pub ret {ℓ} : {A : Type ℓ} → A → Run A
ret a s = (s, ok a)

abbrev pub call {ℓ} : {A : Type ℓ} → Result A → Run A
call answer s = (s, answer)

abbrev pub stored : Store → Result Store → Store × Result (Unit {0})
stored s (ok s') = (s', ok tt)
stored s (err e) = (s, err e)

unfoldable pub write : Write → Run (Unit {0})
write w s = stored s (w s)

-- Whether a write that may fail without harm was made.
abbrev pub tried : Store → Result Store → Store × Result Bool
tried s (ok s') = (s', ok true)
tried s (err e) = (s, ok false)

unfoldable pub try_write : Write → Run Bool
try_write w s = tried s (w s)

-- `for (const e of events) await apply(e)`.
unfoldable pub each : {A : Type 0} → (A → Write) → List A → Run (Unit {0})
each apply [] = ret tt
each apply (e ∷ es) = write (apply e) >> each apply es

-- `from`, which is one more than the checkpoint, and without one the configured start or the head.
abbrev pub next_block : ℕ → ℕ → Option ℕ → ℕ
next_block start_block head none = if ltb 0 start_block then start_block else head
next_block start_block head (some last) = suc last

-- `to`.
abbrev pub last_block : ℕ → ℕ → ℕ
last_block head from = if ltb 9_000 (head - from) then from + 9_000 else head

-- `byCase`: the stored spelling of an address in lower case.
abbrev pub by_case : List String → Dict String → Dict String
by_case [] d = d
by_case (a ∷ rest) d = by_case rest (put d (to_lower a) a)

module _ (reader : ChainLogReader) where
  unfoldable pub index_baskets : ℕ → ℕ → Run ℕ
  index_baskets from to = do
    basic ← call (reader.basket_created from to)
    managed ← call (reader.managed_basket_created from to)
    committed ← call (reader.committed_basket_created from to)
    rebalance ← call (reader.rebalance_basket_created from to)
    registry ← call (reader.registry_index_created from to)
    each apply_basket_created basic
    each apply_managed_basket_created managed
    each apply_committed_basket_created committed
    each (apply_keeper_basket_created VaultType.rebalance) rebalance
    each (apply_keeper_basket_created VaultType.registry) registry
    ret (length basic + length managed + length committed + length rebalance + length registry)

  unfoldable pub index_lifecycle : List String → ℕ → ℕ → Run ℕ
  index_lifecycle [] from to = ret 0
  index_lifecycle (v ∷ vs) from to = do
    logs ← call (reader.vault_lifecycle_logs (v ∷ vs) from to)
    each apply_rebalanced logs.0
    each apply_target_change logs.1
    payouts ← call (reader.keeper_payout_logs from to)
    each apply_keeper_payout payouts
    ret (length logs.0 + length logs.1 + length payouts)

  -- A recipe without a constituent is skipped.
  unfoldable pub populate : String → List Constituent → ℕ → Run ℕ
  populate vault [] n = ret n
  populate vault (c ∷ cs) n = do
    write (replace_registry_constituents (record { vault_address = vault; constituents = c ∷ cs }))
    ret (suc n)

  unfoldable pub index_updates : List RegistryConstituentsUpdate → ℕ → Run ℕ
  index_updates [] n = ret n
  index_updates (u ∷ us) n = do m ← populate u.vault_address u.constituents n; index_updates us m

  unfoldable pub index_recipes : List String → ℕ → ℕ → Run ℕ
  index_recipes [] from to = ret 0
  index_recipes (v ∷ vs) from to = do
    updates ← call (reader.registry_recipe_logs (v ∷ vs) from to)
    index_updates updates 0

  -- The recipe that was kept at the deployment, or else what the chain says.
  abbrev pub genesis_or : String → List Constituent → Run (List Constituent)
  genesis_or vault [] = call (reader.registry_genesis vault)
  genesis_or vault (c ∷ cs) = ret (c ∷ cs)

  unfoldable pub genesis_of : String → Run (List Constituent)
  genesis_of vault s = genesis_or vault (get_genesis_constituents vault s) s

  unfoldable pub index_genesis : List String → ℕ → Run ℕ
  index_genesis [] n = ret n
  index_genesis (vault ∷ vaults) n = do
    constituents ← genesis_of vault
    m ← populate vault constituents n
    index_genesis vaults m

  -- A queue whose vault is not indexed is skipped.
  unfoldable pub index_queue : String → Option String → ℕ → ℕ → ℕ → Run ℕ
  index_queue queue none from to n = ret n
  index_queue queue (some vault) from to n = do
    events ← call (reader.forward_queue_logs queue vault from to)
    each apply_forward_event events
    ret (n + length events)

  unfoldable pub index_queues : List Pair → Dict String → ℕ → ℕ → ℕ → Run ℕ
  index_queues [] cases from to n = ret n
  index_queues (p ∷ pairs) cases from to n = do
    m ← index_queue p.queue (get cases (to_lower p.vault)) from to n
    index_queues pairs cases from to m

  unfoldable pub index_activity : List ActivityEventRecord → ℕ → Run ℕ
  index_activity [] n = ret n
  index_activity (e ∷ es) n = do
    done ← try_write (apply_activity_event e)
    index_activity es (if done then suc n else n)

  -- The parts that begin by reading the tables.
  unfoldable pub index_rebalance_vaults : ℕ → ℕ → Run ℕ
  index_rebalance_vaults from to s =
      index_lifecycle (vaults_of VaultType.rebalance s.baskets) from to s

  unfoldable pub index_registry_vaults : ℕ → ℕ → Run ℕ
  index_registry_vaults from to s = index_recipes (vaults_of VaultType.registry s.baskets) from to s

  unfoldable pub index_waiting_vaults : ℕ → Run ℕ
  index_waiting_vaults n s = index_genesis (get_registry_vaults_needing_genesis s) n s

  unfoldable pub index_accounts : List Pair → List String → ℕ → ℕ → Run ℕ
  index_accounts pairs vaults from to = do
    tickets ← index_queues pairs (by_case vaults []) from to 0
    activity ← call (reader.vault_activity_logs vaults from to)
    shown ← index_activity activity 0
    ret (tickets + shown)

  unfoldable pub index_all_vaults : List Pair → ℕ → ℕ → Run ℕ
  index_all_vaults pairs from to s = index_accounts pairs (get_all_vault_addresses s) from to s

  -- The work of a tick on the blocks of a range, both included.
  unfoldable pub index_range : List Pair → ℕ → ℕ → Run ℕ
  index_range pairs from to = do
    baskets ← index_baskets from to
    lifecycle ← index_rebalance_vaults from to
    recipes ← index_registry_vaults from to
    filled ← index_waiting_vaults recipes
    accounts ← index_all_vaults pairs from to
    write (set_checkpoint to)
    ret (baskets + lifecycle + filled + accounts)

  unfoldable pub tick_at : ℕ → List Pair → ℕ → Run ℕ
  tick_at start_block pairs head s =
      let from = next_block start_block head s.checkpoint in
      if ltb head from then (s, ok 0) else index_range pairs from (last_block head from) s

  -- `pairs` is the registry of queues after its refresh.
  unfoldable pub tick : ℕ → List Pair → Run ℕ
  tick start_block pairs =
      if reader.is_ready
      then (do head ← call reader.head_block; tick_at start_block pairs head)
      else ret 0
