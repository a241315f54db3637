-- ===== src/Indexer/Repository.antt =====
-- indexer.repository.ts: the writes. A transaction whose row names a vault without a row in `Basket` is
-- rejected by the foreign key, and changes nothing; every other write succeeds. The cache of token
-- metadata that two of the writes warm is left out.
pub mod Replay
pub mod Retry
pub mod Recipe
use etf.Base.{
  ℕ, String, Bool, true, false, not, ◌&&◌, Option, none, some, List, [], ◌∷◌, map, any, filter,
  if◌then◌else◌, get_or,
}
use etf.Base.Results.{Result, ok, err}
use etf.Base.Text.{str_eq, to_lower}
use etf.Base.Table.{Table, find, upsert}
use etf.Tx.Mint.{VaultType, Constituent}
use etf.Indexer.{
  BasketCreatedEvent, ManagedBasketCreatedEvent, RebalanceBasketCreatedEvent,
  RegistryConstituentsUpdate, LogKey, RebalancedEvent, TargetChangeEvent, KeeperPayoutEvent,
  ForwardEventKind, TicketKey, ForwardTicketEvent, ActivityKind, ActivityEventRecord, Basket,
  TicketKind, TicketStatus, ForwardTicket, GenesisRecipe, ConstituentKey, Store, same_log,
  same_ticket, same_constituent,
}

-- A transaction.
abbrev pub Write : Type 0
Write = Store → Result Store

abbrev pub is_some : Option Basket → Bool
is_some none = false
is_some (some b) = true

abbrev pub is_listed : Table String Basket → String → Bool
is_listed baskets vault = is_some (find str_eq baskets vault)

abbrev pub is_indexed : Store → String → Bool
is_indexed s vault = is_listed s.baskets vault

-- The foreign key of a row to its basket.
abbrev pub with_basket : String → Store → Store → Result Store
with_basket vault s s' = if is_indexed s vault then ok s' else err "Foreign key constraint violated"

-- The upserts of the constituents of one vault.
unfoldable pub upsert_constituents :
    String → List Constituent → Table ConstituentKey ℕ → Table ConstituentKey ℕ
upsert_constituents vault [] t = t
upsert_constituents vault (c ∷ cs) t = upsert_constituents vault cs (
    upsert same_constituent (record { vault_address = vault; token = c.token }) c.unit_qty
      (λ q. c.unit_qty) t)

-- `token: { notIn: tokens }` of one vault.
abbrev pub is_dropped : String → List String → ConstituentKey × ℕ → Bool
is_dropped vault tokens (k, q) =
    str_eq k.vault_address vault && not (any (λ t. str_eq t k.token) tokens)

-- The transaction of a recipe, whose upserts need the basket; without one it only deletes.
abbrev pub replaced : Bool → List Constituent → Store → Store → Result Store
replaced true cs all pruned = ok all
replaced false [] all pruned = ok pruned
replaced false (c ∷ cs) all pruned = err "Foreign key constraint violated"

unfoldable pub replace_registry_constituents : RegistryConstituentsUpdate → Write
unfolding upsert_constituents
replace_registry_constituents u s =
    let tokens = map (λ (c : Constituent). c.token) u.constituents in
    let kept = filter (λ r. not (is_dropped u.vault_address tokens r)) s.constituents in
    replaced (is_indexed s u.vault_address) u.constituents
      (record s { constituents = upsert_constituents u.vault_address u.constituents kept })
      (record s { constituents = kept })

unfoldable pub upsert_basket_with_constituents :
    BasketCreatedEvent
    → VaultType
    → Option String
    → Option ℕ
    → Option ℕ
    → Option ℕ
    → Option String
    → Write
unfolding upsert_constituents
upsert_basket_with_constituents e vault_type manager manager_fee platform_fee keeper keeper_escrow
      s =
    let base : Basket = record {
      unit_size = e.unit_size;
      name = e.name;
      symbol = e.symbol;
      vault_type = vault_type;
      manager = manager;
      manager_fee_bps = manager_fee;
      platform_fee_bps = platform_fee;
      keeper_bps = keeper;
      keeper_escrow = keeper_escrow;
      recipe_commitment = some e.recipe_commitment;
    } in
    ok (record s {
      baskets = upsert str_eq e.vault_address base (λ b. base) s.baskets;
      constituents = upsert_constituents e.vault_address e.constituents s.constituents;
    })

abbrev pub apply_basket_created : BasketCreatedEvent → Write
apply_basket_created e = upsert_basket_with_constituents e VaultType.basket none none none none none

abbrev pub apply_managed_basket_created : ManagedBasketCreatedEvent → Write
apply_managed_basket_created e =
    upsert_basket_with_constituents e.created VaultType.managed (some e.manager)
      (some e.manager_fee_bps) e.platform_fee_bps none none

abbrev pub apply_committed_basket_created : BasketCreatedEvent → Write
apply_committed_basket_created e =
    upsert_basket_with_constituents e VaultType.committed none none none none none

-- `applyRebalanceBasketCreated` and `applyRegistryIndexCreated`.
abbrev pub apply_keeper_basket_created : VaultType → RebalanceBasketCreatedEvent → Write
apply_keeper_basket_created vault_type e =
    upsert_basket_with_constituents e.managed.created vault_type (some e.managed.manager)
      (some e.managed.manager_fee_bps) e.managed.platform_fee_bps (some e.keeper_bps)
      (some e.keeper_escrow)

unfoldable pub apply_rebalanced : RebalancedEvent → Write
apply_rebalanced e s =
    with_basket e.vault_address s
      (record s { rebalance_events = upsert same_log e.log e (λ r. e) s.rebalance_events })

unfoldable pub apply_target_change : TargetChangeEvent → Write
apply_target_change e s =
    with_basket e.vault_address s
      (record s { target_changes = upsert same_log e.log e (λ r. e) s.target_changes })

unfoldable pub apply_keeper_payout : KeeperPayoutEvent → Write
apply_keeper_payout e s =
    with_basket e.vault_address s
      (record s { keeper_payouts = upsert same_log e.log e (λ r. e) s.keeper_payouts })

-- `kindToStatus`.
abbrev pub kind_to_status : ForwardEventKind → TicketStatus
kind_to_status ForwardEventKind.create_requested = TicketStatus.pending
kind_to_status ForwardEventKind.redeem_requested = TicketStatus.pending
kind_to_status ForwardEventKind.partial_fill = TicketStatus.partial
kind_to_status ForwardEventKind.settled = TicketStatus.settled
kind_to_status ForwardEventKind.cancelled = TicketStatus.cancelled

abbrev pub is_request : ForwardEventKind → Bool
is_request ForwardEventKind.create_requested = true
is_request ForwardEventKind.redeem_requested = true
is_request ForwardEventKind.partial_fill = false
is_request ForwardEventKind.settled = false
is_request ForwardEventKind.cancelled = false

abbrev pub ticket_kind : ForwardEventKind → TicketKind
ticket_kind ForwardEventKind.redeem_requested = TicketKind.redeem
ticket_kind ForwardEventKind.create_requested = TicketKind.create
ticket_kind ForwardEventKind.partial_fill = TicketKind.create
ticket_kind ForwardEventKind.settled = TicketKind.create
ticket_kind ForwardEventKind.cancelled = TicketKind.create

abbrev pub remaining_of : ForwardEventKind → ℕ → ℕ
remaining_of ForwardEventKind.settled n = 0
remaining_of ForwardEventKind.cancelled n = 0
remaining_of ForwardEventKind.create_requested n = n
remaining_of ForwardEventKind.redeem_requested n = n
remaining_of ForwardEventKind.partial_fill n = n

abbrev pub ticket_create : ForwardTicketEvent → ForwardTicket
ticket_create e = record {
  vault_address = e.vault_address;
  owner = e.owner;
  kind = ticket_kind e.kind;
  amount = e.amount;
  remaining = remaining_of e.kind e.remaining;
  status = kind_to_status e.kind;
  cutoff_ms = e.cutoff_ms;
}

-- A request writes the whole row, any other event only what a settlement changes.
abbrev pub ticket_update : ForwardTicketEvent → ForwardTicket → ForwardTicket
ticket_update e t = if is_request e.kind then ticket_create e else record t {
  status = kind_to_status e.kind;
  remaining = remaining_of e.kind e.remaining;
  cutoff_ms = e.cutoff_ms;
}

-- Whose activity the event is: an event that is no request names nobody, and the ticket's row is read.
abbrev pub owner_of : ForwardTicketEvent → Option ForwardTicket → String
owner_of e existing =
    if is_request e.kind then e.owner else elim existing [ none ↦ "" | some t ↦ t.owner ]

abbrev pub forward_activity : ForwardTicketEvent → String → ActivityEventRecord
forward_activity e owner = record {
  log = e.log;
  owner = owner;
  vault_address = e.vault_address;
  kind = ActivityKind.forward e.kind;
  payload = e.payload;
  block_number = e.block_number;
  timestamp_ms = e.timestamp_ms;
}

abbrev pub upsert_activity :
    ActivityEventRecord → Table LogKey ActivityEventRecord → Table LogKey ActivityEventRecord
upsert_activity e t = upsert same_log e.log e (λ r. e) t

-- The tables after the transaction of an event.
abbrev pub with_forward_event : ForwardTicketEvent → Store → Store
with_forward_event e s =
    let owner = owner_of e (find same_ticket s.forward_tickets e.ticket) in
    record s {
      forward_tickets =
          upsert same_ticket e.ticket (ticket_create e) (ticket_update e) s.forward_tickets;
      forward_events = upsert same_log e.log e (λ r. e) s.forward_events;
      activity_events =
          if str_eq owner ""
          then s.activity_events
          else upsert_activity (forward_activity e owner) s.activity_events;
    }

unfoldable pub apply_forward_event : ForwardTicketEvent → Write
apply_forward_event e s = with_basket e.vault_address s (with_forward_event e s)

unfoldable pub apply_activity_event : ActivityEventRecord → Write
apply_activity_event e s =
    with_basket e.vault_address s
      (record s { activity_events = upsert_activity e s.activity_events })

unfoldable pub set_checkpoint : ℕ → Write
set_checkpoint block s = ok (record s { checkpoint = some block })

-- The queries that the indexer makes, in the order of the rows.
abbrev pub is_type : VaultType → VaultType → Bool
is_type VaultType.rebalance VaultType.rebalance = true
is_type VaultType.registry VaultType.registry = true
is_type _ _ = false

unfoldable pub vaults_of : VaultType → Table String Basket → List String
vaults_of vault_type [] = []
vaults_of vault_type ((vault, b) ∷ t) =
    let rest = vaults_of vault_type t in
    if is_type vault_type b.vault_type then vault ∷ rest else rest

abbrev pub get_all_vault_addresses : Store → List String
get_all_vault_addresses s = map (λ (r : String × Basket). r.0) s.baskets

-- Registry vaults without a constituent.
abbrev pub has_constituent : Store → String → Bool
has_constituent s vault =
    any (λ (r : ConstituentKey × ℕ). str_eq r.0.vault_address vault) s.constituents

unfoldable pub get_registry_vaults_needing_genesis : Store → List String
unfolding vaults_of
get_registry_vaults_needing_genesis s =
    filter (λ v. not (has_constituent s v)) (vaults_of VaultType.registry s.baskets)

-- `tokens.map((token, i) => …)`; a quantity that is not there is 0.
abbrev pub recipe_rows : List String → List ℕ → List Constituent
recipe_rows [] qs = []
recipe_rows (t ∷ ts) [] = record { token = t; unit_qty = 0 } ∷ recipe_rows ts []
recipe_rows (t ∷ ts) (q ∷ qs) = record { token = t; unit_qty = q } ∷ recipe_rows ts qs

abbrev pub recipe_of : Store → String → List Constituent
recipe_of s root = elim (find str_eq s.genesis_recipes root) [
  | none ↦ []
  | some r ↦ recipe_rows r.tokens r.unit_qty
]

abbrev pub recipe_at : Store → Option String → List Constituent
recipe_at s none = []
recipe_at s (some root) = if str_eq root "" then [] else recipe_of s (to_lower root)

abbrev pub commitment_of : Option Basket → Option String
commitment_of none = none
commitment_of (some b) = b.recipe_commitment

unfoldable pub get_genesis_constituents : String → Store → List Constituent
get_genesis_constituents vault s = recipe_at s (commitment_of (find str_eq s.baskets vault))
