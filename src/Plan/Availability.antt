-- ===== src/Plan/Availability.antt =====
-- api/availability.service.ts: which actions a vault offers to an account.
use etf.Base.{
  ◌≡◌, ◌≢◌, ◌↔◌, ◌⊎◌, String, Bool, true, false, not, ◌&&◌, Option, none, some, List, [], ◌∷◌, ◌++◌,
  map, if◌then◌else◌,
}
use etf.Base.Text.{str_eq, to_lower}
use etf.Oracle.{OracleSeverity}
use etf.Tx.Mint.{VaultType}

pub data TxAction : Type 0 where
  mint redeem_in_kind deploy forward_create forward_redeem forward_cancel curator_schedule
        curator_activate keeper_record keeper_settle auction_open auction_bid
        auction_set_exec_mode :
      TxAction

pub data Reason : Type 0 where
  ok unsupported_vault_type not_deployed frozen halted manager_mismatch not_authorized : Reason

pub record Item : Type 0 where
  pub action : TxAction
  pub enabled : Bool
  pub reason : Reason

abbrev pub item : TxAction → Bool → Reason → Item
item action enabled reason = record { action = action; enabled = enabled; reason = reason }

-- What is read of the vault's row.
pub record BasketState : Type 0 where
  pub frozen : Bool
  pub vault_type : VaultType
  pub manager : Option String

abbrev pub all_actions : List TxAction
all_actions =
    TxAction.mint ∷ TxAction.redeem_in_kind ∷ TxAction.deploy ∷ TxAction.forward_create
    ∷ TxAction.forward_redeem ∷ TxAction.forward_cancel ∷ TxAction.curator_schedule
    ∷ TxAction.curator_activate ∷ TxAction.keeper_record ∷ TxAction.keeper_settle
    ∷ TxAction.auction_open ∷ TxAction.auction_bid ∷ TxAction.auction_set_exec_mode ∷ []

abbrev pub rebalance_only_actions : List TxAction
rebalance_only_actions =
    TxAction.forward_create ∷ TxAction.forward_redeem ∷ TxAction.forward_cancel
    ∷ TxAction.curator_schedule ∷ TxAction.curator_activate ∷ TxAction.keeper_record
    ∷ TxAction.keeper_settle ∷ TxAction.auction_open ∷ TxAction.auction_bid
    ∷ TxAction.auction_set_exec_mode ∷ []

abbrev pub non_rebalance_items : List Item
non_rebalance_items = map (λ a. item a false Reason.unsupported_vault_type) rebalance_only_actions

-- `!!account`
abbrev pub has_account : Option String → Bool
has_account none = false
has_account (some a) = not (str_eq a "")

-- `!!account && !!basket.manager && account.toLowerCase() === basket.manager.toLowerCase()`
abbrev pub is_manager : Option String → Option String → Bool
is_manager none manager = false
is_manager (some a) none = false
is_manager (some a) (some m) =
    not (str_eq a "") && (not (str_eq m "") && str_eq (to_lower a) (to_lower m))

abbrev pub is_halted : Option OracleSeverity → Bool
is_halted (some OracleSeverity.halted) = true
is_halted _ = false

abbrev pub is_registry : VaultType → Bool
is_registry VaultType.registry = true
is_registry _ = false

abbrev pub has_rebalance_surface : VaultType → Bool
has_rebalance_surface VaultType.rebalance = true
has_rebalance_surface VaultType.registry = true
has_rebalance_surface _ = false

-- `reason: test ? reason : "ok"`
abbrev pub unless : Bool → Reason → Reason
unless true r = Reason.ok
unless false r = r

abbrev pub market_reason : Bool → Bool → Reason
market_reason true halt = Reason.frozen
market_reason false true = Reason.halted
market_reason false false = Reason.ok

abbrev pub rebalance_items : Bool → Bool → Bool → Bool → List Item
rebalance_items freeze halt manager account =
    item TxAction.forward_create (not freeze && not halt) (market_reason freeze halt)
    ∷ item TxAction.forward_redeem (not freeze && not halt) (market_reason freeze halt)
    ∷ item TxAction.forward_cancel true Reason.ok
    ∷ item TxAction.curator_schedule manager (unless manager Reason.manager_mismatch)
    ∷ item TxAction.curator_activate manager (unless manager Reason.manager_mismatch)
    ∷ item TxAction.auction_open manager (unless manager Reason.manager_mismatch)
    ∷ item TxAction.auction_set_exec_mode manager (unless manager Reason.manager_mismatch)
    ∷ item TxAction.keeper_record account (unless account Reason.not_authorized)
    ∷ item TxAction.keeper_settle account (unless account Reason.not_authorized)
    ∷ item TxAction.auction_bid account (unless account Reason.not_authorized)
    ∷ []

abbrev pub in_kind_items : Bool → Bool → List Item
in_kind_items true freeze =
    item TxAction.redeem_in_kind false Reason.unsupported_vault_type
    ∷ item TxAction.mint false Reason.unsupported_vault_type
    ∷ []
in_kind_items false freeze =
    item TxAction.redeem_in_kind true Reason.ok
    ∷ item TxAction.mint (not freeze) (unless (not freeze) Reason.frozen)
    ∷ []

-- `severity` is that of the latest snapshot.
unfoldable pub availability : Option BasketState → Option OracleSeverity → Option String → List Item
availability none severity account = map (λ a. item a false Reason.not_deployed) all_actions
availability (some b) severity account =
    in_kind_items (is_registry b.vault_type) b.frozen
    ++ (item TxAction.deploy true Reason.ok
        ∷ (if has_rebalance_surface b.vault_type
            then rebalance_items b.frozen (is_halted severity) (is_manager account b.manager)
                (has_account account)
            else non_rebalance_items))

-- The name that the response spells.
abbrev pub action_name : TxAction → String
action_name TxAction.mint = "mint"
action_name TxAction.redeem_in_kind = "redeemInKind"
action_name TxAction.deploy = "deploy"
action_name TxAction.forward_create = "forwardCreate"
action_name TxAction.forward_redeem = "forwardRedeem"
action_name TxAction.forward_cancel = "forwardCancel"
action_name TxAction.curator_schedule = "curatorSchedule"
action_name TxAction.curator_activate = "curatorActivate"
action_name TxAction.keeper_record = "keeperRecord"
action_name TxAction.keeper_settle = "keeperSettle"
action_name TxAction.auction_open = "auctionOpen"
action_name TxAction.auction_bid = "auctionBid"
action_name TxAction.auction_set_exec_mode = "auctionSetExecMode"

-- `items.find((i) => i.action === action)`
abbrev pub item_of : TxAction → List Item → Option Item
item_of action [] = none
item_of action (i ∷ items) =
    if str_eq (action_name i.action) (action_name action) then some i else item_of action items

-- The vault runs the rebalance engine and a forward queue.
abbrev pub HasSurface : VaultType → Type 0
HasSurface v = (v ≡ VaultType.rebalance) ⊎ (v ≡ VaultType.registry)

-- The account is the manager's, whatever the case of the letters.
abbrev pub IsManager : Option String → Option String → Type 0
IsManager account manager =
    (a : String) × (m : String) × (account ≡ some a)
    × (manager ≡ some m)
    × (a ≢ "")
    × (m ≢ "")
    × (to_lower a ≡ to_lower m)

-- An account is given.
abbrev pub IsGiven : Option String → Type 0
IsGiven account = (a : String) × (account ≡ some a) × (a ≢ "")

-- Who may do what, and when.
abbrev pub IsOpen : TxAction → BasketState → Option OracleSeverity → Option String → Type 0
IsOpen TxAction.mint b severity account = (b.vault_type ≢ VaultType.registry) × (b.frozen ≡ false)
IsOpen TxAction.redeem_in_kind b severity account = b.vault_type ≢ VaultType.registry
IsOpen TxAction.deploy b severity account = Unit
IsOpen TxAction.forward_cancel b severity account = HasSurface b.vault_type
IsOpen TxAction.forward_create b severity account =
    HasSurface b.vault_type × ((b.frozen ≡ false) × (severity ≢ some OracleSeverity.halted))
IsOpen TxAction.forward_redeem b severity account =
    HasSurface b.vault_type × ((b.frozen ≡ false) × (severity ≢ some OracleSeverity.halted))
IsOpen TxAction.curator_schedule b severity account =
    HasSurface b.vault_type × IsManager account b.manager
IsOpen TxAction.curator_activate b severity account =
    HasSurface b.vault_type × IsManager account b.manager
IsOpen TxAction.auction_open b severity account =
    HasSurface b.vault_type × IsManager account b.manager
IsOpen TxAction.auction_set_exec_mode b severity account =
    HasSurface b.vault_type × IsManager account b.manager
IsOpen TxAction.keeper_record b severity account = HasSurface b.vault_type × IsGiven account
IsOpen TxAction.keeper_settle b severity account = HasSurface b.vault_type × IsGiven account
IsOpen TxAction.auction_bid b severity account = HasSurface b.vault_type × IsGiven account

-- The item is of the action, is enabled exactly under the condition, and gives a reason otherwise.
abbrev pub IsItem : TxAction → Type 0 → Option Item → Type 0
IsItem a P none = ⊥
IsItem a P (some i) =
    (i.action ≡ a) × ((i.enabled ≡ true) ↔ P) × ((i.enabled ≡ true) ↔ (i.reason ≡ Reason.ok))
