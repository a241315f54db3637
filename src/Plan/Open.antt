-- ===== src/Plan/Open.antt =====
-- An action is enabled exactly for whom and when it is open.
use etf.Base.{
  ◌≡◌, ◌≢◌, ◌↔◌, ◌⊎◌, refl, sym, ap, subst, ◌∙◌, arith, String, Bool, true, false, not, ◌&&◌,
  Option, none, some, List, ◌∷◌, ◌++◌, inl, inr, if◌then◌else◌,
}
use etf.Base.Text.{differs, str_eq, to_lower, eq_iff}
use etf.Oracle.{OracleSeverity}
use etf.Tx.Mint.{VaultType}
use etf.Plan.Availability.{
  TxAction, Reason, Item, BasketState, item, has_account, is_manager, is_halted, is_registry,
  has_rebalance_surface, unless, market_reason, availability, item_of, in_kind_items,
  rebalance_items, non_rebalance_items, action_name, HasSurface, IsManager, IsGiven, IsOpen, IsItem,
}

not-str_eq : (a b : String) → (not (str_eq a b) ≡ true) ↔ (a ≢ b)
not-str_eq a b = ((λ h e. let f = (eq_iff a b).1 e in cc), (λ h. ap not (differs a b h)))

-- The text of an account, if one is given.
abbrev text_of : Option String → String
text_of none = ""
text_of (some a) = a

has_account_iff : (account : Option String) → (has_account account ≡ true) ↔ IsGiven account
has_account_iff none = ((λ h. cc), (λ (a, e, n). cc))
has_account_iff (some a) = (
  (λ h. (a, refl, (not-str_eq a "").0 h)),
  (λ (c, e, n). (not-str_eq a "").1 (λ z. n (ap text_of (sym e) ∙ z))),
)

and_true : (p q : Bool) → ((p && q) ≡ true) ↔ ((p ≡ true) × (q ≡ true))
and_true p q = ground arith

is_manager_iff :
    (account manager : Option String)
    → (is_manager account manager ≡ true) ↔ IsManager account manager
is_manager_iff none manager = ((λ h. cc), (λ (a, m, e, f, x, y, z). cc))
is_manager_iff (some a) none = ((λ h. cc), (λ (c, m, e, f, x, y, z). cc))
is_manager_iff (some a) (some m) = (
  (λ h.
      let one =
        (and_true (not (str_eq a "")) (not (str_eq m "") && str_eq (to_lower a) (to_lower m))).0
          h in
      let two = (and_true (not (str_eq m "")) (str_eq (to_lower a) (to_lower m))).0 one.1 in
      (
        a,
        m,
        refl,
        refl,
        (not-str_eq a "").0 one.0,
        (not-str_eq m "").0 two.0,
        (eq_iff _ _).0 two.1,
      )),
  (λ (c, n, e, f, x, y, z).
      let a_is : c ≡ a = ap text_of (sym e) in
      let m_is : n ≡ m = ap text_of (sym f) in
      (and_true (not (str_eq a "")) (not (str_eq m "") && str_eq (to_lower a) (to_lower m))).1 (
        (not-str_eq a "").1 (λ w. x (a_is ∙ w)),
        (and_true (not (str_eq m "")) (str_eq (to_lower a) (to_lower m))).1 (
          (not-str_eq m "").1 (λ w. y (m_is ∙ w)),
          (eq_iff _ _).1 (sym (ap to_lower a_is) ∙ z ∙ ap to_lower m_is),
        ),
      )),
)

market_iff :
    (freeze : Bool) (severity : Option OracleSeverity)
    → ((not freeze && not (is_halted severity)) ≡ true)
      ↔ ((freeze ≡ false) × (severity ≢ some OracleSeverity.halted))
market_iff true severity = ((λ h. cc), (λ (e, n). cc))
market_iff false none = ((λ h. (refl, (λ e. cc))), (λ h. refl))
market_iff false (some OracleSeverity.opened) = ((λ h. (refl, (λ e. cc))), (λ h. refl))
market_iff false (some OracleSeverity.degraded) = ((λ h. (refl, (λ e. cc))), (λ h. refl))
market_iff false (some OracleSeverity.halted) = ((λ h. cc), (λ (e, n). absurd (n refl)))
market_iff false (some OracleSeverity.closed) = ((λ h. (refl, (λ e. cc))), (λ h. refl))
market_iff false (some OracleSeverity.unknown) = ((λ h. (refl, (λ e. cc))), (λ h. refl))

unless_iff : (t : Bool) (r : Reason) → r ≢ Reason.ok → (t ≡ true) ↔ (unless t r ≡ Reason.ok)
unless_iff true r n = ((λ h. refl), (λ h. refl))
unless_iff false r n = ((λ h. cc), (λ h. absurd (n h)))

market_reason_iff :
    (freeze halt : Bool)
    → ((not freeze && not halt) ≡ true) ↔ (market_reason freeze halt ≡ Reason.ok)
market_reason_iff true halt = ((λ h. cc), (λ h. cc))
market_reason_iff false true = ((λ h. cc), (λ h. cc))
market_reason_iff false false = ((λ h. refl), (λ h. refl))

not_iff : (t : Bool) → (not t ≡ true) ↔ (t ≡ false)
not_iff true = ((λ h. cc), (λ h. cc))
not_iff false = ((λ h. refl), (λ h. refl))

always : {P : Type 0} → P → (true ≡ true) ↔ P
always p = ((λ h. p), (λ h. refl))

never : {P : Type 0} → (P → ⊥) → (false ≡ true) ↔ P
never n = ((λ h. cc), (λ p. absurd (n p)))

with_surface :
    {P : Type 0} (v : VaultType) (t : Bool)
    → HasSurface v
    → (t ≡ true) ↔ P
    → (t ≡ true) ↔ (HasSurface v × P)
with_surface v t s (to, from) = ((λ h. (s, to h)), (λ h. from h.1))

-- What an action's item is after the two in-kind items, when it is neither of them.
skip_in_kind :
    (a : TxAction) (registry freeze : Bool) (rest : List Item)
    → str_eq (action_name TxAction.redeem_in_kind) (action_name a) ≡ false
    → str_eq (action_name TxAction.mint) (action_name a) ≡ false
    → item_of a (in_kind_items registry freeze ++ rest) ≡ item_of a rest
skip_in_kind a true freeze rest e f = rw (e, f) refl
skip_in_kind a false freeze rest e f = rw (e, f) refl

surface_cases :
    (v : VaultType)
    → (HasSurface v × (has_rebalance_surface v ≡ true))
      ⊎ ((HasSurface v → ⊥) × (has_rebalance_surface v ≡ false))
surface_cases VaultType.basket = inr ((λ s. elim s [ inl e ↦ cc | inr e ↦ cc ]), refl)
surface_cases VaultType.managed = inr ((λ s. elim s [ inl e ↦ cc | inr e ↦ cc ]), refl)
surface_cases VaultType.committed = inr ((λ s. elim s [ inl e ↦ cc | inr e ↦ cc ]), refl)
surface_cases VaultType.rebalance = inl (inl refl, refl)
surface_cases VaultType.registry = inl (inr refl, refl)

not_registry : (v : VaultType) → (is_registry v ≡ false) ↔ (v ≢ VaultType.registry)
not_registry VaultType.basket = ((λ h e. cc), (λ h. refl))
not_registry VaultType.managed = ((λ h e. cc), (λ h. refl))
not_registry VaultType.committed = ((λ h e. cc), (λ h. refl))
not_registry VaultType.rebalance = ((λ h e. cc), (λ h. refl))
not_registry VaultType.registry = ((λ h. cc), (λ h. absurd (h refl)))

module _ (b : BasketState) (severity : Option OracleSeverity) (account : Option String) where
  -- What follows the in-kind items.
  abbrev engine_part : Bool → List Item
  engine_part surface =
      if surface
      then rebalance_items b.frozen (is_halted severity) (is_manager account b.manager)
          (has_account account)
      else non_rebalance_items

  -- An action of the rebalance engine or the queue.
  engine_item :
      {P : Type 0} (a : TxAction) (t : Bool) (why : Reason)
      → str_eq (action_name TxAction.redeem_in_kind) (action_name a) ≡ false
      → str_eq (action_name TxAction.mint) (action_name a) ≡ false
      → str_eq (action_name TxAction.deploy) (action_name a) ≡ false
      → item_of a (engine_part true) ≡ some (item a t why)
      → item_of a (engine_part false) ≡ some (item a false Reason.unsupported_vault_type)
      → (t ≡ true) ↔ P
      → (t ≡ true) ↔ (why ≡ Reason.ok)
      → IsItem a (HasSurface b.vault_type × P) (item_of a (availability (some b) severity account))
  unfolding availability
  engine_item {P = P} a t why e f g here there gate reason =
      let at : (h : Bool)
          → has_rebalance_surface b.vault_type ≡ h
          → item_of a (availability (some b) severity account) ≡ item_of a (engine_part h) =
        λ h k.
          skip_in_kind a (is_registry b.vault_type) b.frozen
            (item TxAction.deploy true Reason.ok ∷ engine_part (has_rebalance_surface b.vault_type))
            e f
          ∙ ap
              (λ c.
                if c
                then some (item TxAction.deploy true Reason.ok)
                else item_of a (engine_part (has_rebalance_surface b.vault_type)))
              g
          ∙ ap (λ c. item_of a (engine_part c)) k in
      elim (surface_cases b.vault_type) [
        | inl (s, k) ↦
            subst (IsItem a (HasSurface b.vault_type × P)) (sym (at true k ∙ here))
              (refl, with_surface b.vault_type t s gate, reason)
        | inr (n, k) ↦
            subst (IsItem a (HasSurface b.vault_type × P)) (sym (at false k ∙ there))
              (refl, never (λ h. n h.0), never (λ x. cc))
      ]

  mint_item :
      (registry : Bool) (rest : List Item)
      → is_registry b.vault_type ≡ registry
      → IsItem TxAction.mint
          ((b.vault_type ≢ VaultType.registry) × (b.frozen ≡ false))
          (item_of TxAction.mint (in_kind_items registry b.frozen ++ rest))
  mint_item true rest e =
      (refl, never (λ h. let f = (not_registry b.vault_type).1 h.0 in cc), never (λ x. cc))
  mint_item false rest e = (
    refl,
    (
      (λ h. ((not_registry b.vault_type).0 e, (not_iff b.frozen).0 h)),
      (λ h. (not_iff b.frozen).1 h.1),
    ),
    unless_iff (not b.frozen) Reason.frozen (λ x. cc),
  )

  redeem_item :
      (registry : Bool) (rest : List Item)
      → is_registry b.vault_type ≡ registry
      → IsItem TxAction.redeem_in_kind
          (b.vault_type ≢ VaultType.registry)
          (item_of TxAction.redeem_in_kind (in_kind_items registry b.frozen ++ rest))
  redeem_item true rest e =
      (refl, never (λ h. let f = (not_registry b.vault_type).1 h in cc), never (λ x. cc))
  redeem_item false rest e = (refl, always ((not_registry b.vault_type).0 e), always refl)

IsItem-map :
    {P Q : Type 0} (a : TxAction) (o : Option Item)
    → (P → Q)
    → (Q → P)
    → IsItem a P o
    → IsItem a Q o
IsItem-map a none f g h = h
IsItem-map a (some i) f g (e, (to, from), reason) =
    (e, ((λ x. f (to x)), (λ q. from (g q))), reason)

-- Every action has an item at a vault that is deployed. It is enabled exactly for the vaults, the accounts
-- and the states of the market for which the action is open, and it says otherwise what is in the way: an
-- in-kind redemption is open whatever the market, and so is the cancelling of a ticket.
pub availability_iff :
    (a : TxAction) (b : BasketState) (severity : Option OracleSeverity) (account : Option String)
    → IsItem a (IsOpen a b severity account) (item_of a (availability (some b) severity account))
unfolding availability
availability_iff TxAction.mint b s c = mint_item b s c (is_registry b.vault_type) _ refl
availability_iff TxAction.redeem_in_kind b s c = redeem_item b s c (is_registry b.vault_type) _ refl
availability_iff TxAction.deploy b s c =
    subst (IsItem TxAction.deploy Unit)
      (sym (
        skip_in_kind TxAction.deploy (is_registry b.vault_type) b.frozen
          (item TxAction.deploy true Reason.ok
            ∷ engine_part b s c (has_rebalance_surface b.vault_type))
          refl refl))
      (refl, always tt, always refl)
availability_iff TxAction.forward_create b s c =
    engine_item b s c TxAction.forward_create _ _ refl refl refl refl refl (market_iff b.frozen s)
      (market_reason_iff b.frozen (is_halted s))
availability_iff TxAction.forward_redeem b s c =
    engine_item b s c TxAction.forward_redeem _ _ refl refl refl refl refl (market_iff b.frozen s)
      (market_reason_iff b.frozen (is_halted s))
availability_iff TxAction.forward_cancel b s c =
    IsItem-map TxAction.forward_cancel (item_of TxAction.forward_cancel (availability (some b) s c))
      (λ (h : HasSurface b.vault_type × Unit). h.0) (λ h. (h, tt))
      (engine_item b s c TxAction.forward_cancel _ _ refl refl refl refl refl (always tt)
        (always refl))
availability_iff TxAction.curator_schedule b s c =
    engine_item b s c TxAction.curator_schedule _ _ refl refl refl refl refl
      (is_manager_iff c b.manager) (unless_iff _ Reason.manager_mismatch (λ e. cc))
availability_iff TxAction.curator_activate b s c =
    engine_item b s c TxAction.curator_activate _ _ refl refl refl refl refl
      (is_manager_iff c b.manager) (unless_iff _ Reason.manager_mismatch (λ e. cc))
availability_iff TxAction.auction_open b s c =
    engine_item b s c TxAction.auction_open _ _ refl refl refl refl refl
      (is_manager_iff c b.manager) (unless_iff _ Reason.manager_mismatch (λ e. cc))
availability_iff TxAction.auction_set_exec_mode b s c =
    engine_item b s c TxAction.auction_set_exec_mode _ _ refl refl refl refl refl
      (is_manager_iff c b.manager) (unless_iff _ Reason.manager_mismatch (λ e. cc))
availability_iff TxAction.keeper_record b s c =
    engine_item b s c TxAction.keeper_record _ _ refl refl refl refl refl (has_account_iff c)
      (unless_iff _ Reason.not_authorized (λ e. cc))
availability_iff TxAction.keeper_settle b s c =
    engine_item b s c TxAction.keeper_settle _ _ refl refl refl refl refl (has_account_iff c)
      (unless_iff _ Reason.not_authorized (λ e. cc))
availability_iff TxAction.auction_bid b s c =
    engine_item b s c TxAction.auction_bid _ _ refl refl refl refl refl (has_account_iff c)
      (unless_iff _ Reason.not_authorized (λ e. cc))
