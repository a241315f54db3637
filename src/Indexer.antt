-- ===== src/Indexer.antt =====
-- backend/src/indexer: the events that the indexer reads from the chain, and the tables of its read model.
-- A decimal of the database and a time in milliseconds are numbers. A column that no write of the indexer
-- names, and the time of a row's creation, are left out.
pub mod Repository
pub mod Reader
pub mod Tick
mod Examples
use etf.Base.{ℕ, String, Bool, ◌&&◌, Option, List, ◌==◌}
use etf.Base.Text.{str_eq}
use etf.Base.Table.{Table}
use etf.Tx.Mint.{VaultType, Constituent}

-- The fields that the five events share, with those that only some carry: a manager and its fee, and the
-- keeper's fee and escrow.
pub record BasketCreatedEvent : Type 0 where
  pub vault_address : String
  pub creator : String
  pub unit_size : ℕ
  pub name : String
  pub symbol : String
  pub constituents : List Constituent
  pub recipe_commitment : String

pub record ManagedBasketCreatedEvent : Type 0 where
  pub created : BasketCreatedEvent
  pub manager : String
  pub manager_fee_bps : ℕ
  pub platform_fee_bps : Option ℕ

pub record RebalanceBasketCreatedEvent : Type 0 where
  pub managed : ManagedBasketCreatedEvent
  pub keeper_bps : ℕ
  pub keeper_escrow : String

pub record RegistryConstituentsUpdate : Type 0 where
  pub vault_address : String
  pub constituents : List Constituent

-- `txHash` and `logIndex`, by which an event's row is unique.
pub record LogKey : Type 0 where
  pub tx_hash : String
  pub log_index : ℕ

pub record RebalancedEvent : Type 0 where
  pub log : LogKey
  pub vault_address : String
  pub block_number : ℕ
  pub recipient : String
  pub acquire : List String
  pub acquire_in : List ℕ
  pub release : List String
  pub release_out : List ℕ
  pub timestamp_ms : ℕ

pub data TargetChangeKind : Type 0 where
  scheduled activated : TargetChangeKind

pub record TargetChangeEvent : Type 0 where
  pub log : LogKey
  pub vault_address : String
  pub kind : TargetChangeKind
  pub tokens : List String
  pub unit_qty : List ℕ
  pub effective_at_ms : Option ℕ
  pub block_number : ℕ
  pub timestamp_ms : ℕ

pub record KeeperPayoutEvent : Type 0 where
  pub log : LogKey
  pub vault_address : String
  pub to : String
  pub amount : ℕ
  pub block_number : ℕ
  pub timestamp_ms : ℕ

pub data ForwardEventKind : Type 0 where
  create_requested redeem_requested cancelled settled partial_fill : ForwardEventKind

-- `queueAddress` and `ticketId`, by which a ticket's row is unique.
pub record TicketKey : Type 0 where
  pub queue_address : String
  pub ticket_id : ℕ

pub record ForwardTicketEvent : Type 0 where
  pub log : LogKey
  pub ticket : TicketKey
  pub vault_address : String
  pub kind : ForwardEventKind
  pub owner : String
  pub amount : ℕ
  pub remaining : ℕ
  pub cutoff_ms : ℕ
  pub block_number : ℕ
  pub timestamp_ms : ℕ
  pub payload : List (String × String)

pub data ActivityKind : Type 0 where
  mint redeem : ActivityKind
  forward : ForwardEventKind → ActivityKind

pub record ActivityEventRecord : Type 0 where
  pub log : LogKey
  pub owner : String
  pub vault_address : String
  pub kind : ActivityKind
  pub payload : List (String × String)
  pub block_number : ℕ
  pub timestamp_ms : ℕ

-- The rows.
pub record Basket : Type 0 where
  pub unit_size : ℕ
  pub name : String
  pub symbol : String
  pub vault_type : VaultType
  pub manager : Option String
  pub manager_fee_bps : Option ℕ
  pub platform_fee_bps : Option ℕ
  pub keeper_bps : Option ℕ
  pub keeper_escrow : Option String
  pub recipe_commitment : Option String

pub data TicketKind : Type 0 where
  create redeem : TicketKind

pub data TicketStatus : Type 0 where
  pending partial settled cancelled : TicketStatus

pub record ForwardTicket : Type 0 where
  pub vault_address : String
  pub owner : String
  pub kind : TicketKind
  pub amount : ℕ
  pub remaining : ℕ
  pub status : TicketStatus
  pub cutoff_ms : ℕ

pub record GenesisRecipe : Type 0 where
  pub tokens : List String
  pub unit_qty : List ℕ

-- `vaultAddress` and `token`, by which a constituent's row is unique.
pub record ConstituentKey : Type 0 where
  pub vault_address : String
  pub token : String

-- The tables that the indexer writes, and the recipes that a deployment keeps for it. An event's row is
-- the event.
pub record Store : Type 0 where
  pub baskets : Table String Basket
  pub constituents : Table ConstituentKey ℕ
  pub rebalance_events : Table LogKey RebalancedEvent
  pub target_changes : Table LogKey TargetChangeEvent
  pub keeper_payouts : Table LogKey KeeperPayoutEvent
  pub forward_tickets : Table TicketKey ForwardTicket
  pub forward_events : Table LogKey ForwardTicketEvent
  pub activity_events : Table LogKey ActivityEventRecord
  pub genesis_recipes : Table String GenesisRecipe
  pub checkpoint : Option ℕ

abbrev pub same_log : LogKey → LogKey → Bool
same_log a b = str_eq a.tx_hash b.tx_hash && (a.log_index == b.log_index)

abbrev pub same_ticket : TicketKey → TicketKey → Bool
same_ticket a b = str_eq a.queue_address b.queue_address && (a.ticket_id == b.ticket_id)

abbrev pub same_constituent : ConstituentKey → ConstituentKey → Bool
same_constituent a b = str_eq a.vault_address b.vault_address && str_eq a.token b.token
