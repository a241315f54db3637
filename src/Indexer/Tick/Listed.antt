-- ===== src/Indexer/Tick/Listed.antt =====
-- The vaults that a tick writes about are indexed, for answers about the vaults that were asked for.
use etf.Base.{
  ℕ, ◌≡◌, ◌≢◌, ◌∙◌, refl, sym, ap, subst, String, Bool, true, false, Option, none, some, List, [],
  ◌∷◌, filter, map, All, All-map_of, Any, Bool-cases, inl, inr, if◌then◌else◌,
}
use etf.Base.Results.{ok, err, Result-cases}
use etf.Base.Text.{str_eq, eq_iff, to_lower}
use etf.Base.Dict.{Dict, get, put, get-put}
use etf.Base.Table.{Table, find}
use etf.Tx.Mint.{VaultType, Constituent}
use etf.Indexer.{
  RegistryConstituentsUpdate, RebalancedEvent, TargetChangeEvent, KeeperPayoutEvent,
  ForwardTicketEvent, ActivityEventRecord, Basket, Store,
}
use etf.Indexer.Repository.{
  is_some, is_listed, is_indexed, with_basket, with_forward_event, replaced,
  replace_registry_constituents, apply_rebalanced, apply_target_change, apply_keeper_payout,
  apply_forward_event, is_type, vaults_of,
}
use etf.Indexer.Tick.Triples.{with_basket_ok}
use etf.Indexer.Tick.{ChainLogReader, after, write, stored, each, by_case}
use etf.Indexer.Tick.Goes.{Writes}

-- What the reader answers about the blocks of a range: it answers every call, and the events that it is
-- asked for are of the vaults that it is asked for.
pub record Answers (reader : ChainLogReader) (from to : ℕ) : Type 0 where
  pub lifecycle :
      (vaults : List String)
      → (logs : List RebalancedEvent × List TargetChangeEvent) × ((reader.vault_lifecycle_logs
              vaults from to
            ≡ ok logs)
          × (All (λ (e : RebalancedEvent). Any (λ v. v ≡ e.vault_address) vaults) logs.0
              × All (λ (e : TargetChangeEvent). Any (λ v. v ≡ e.vault_address) vaults) logs.1))
  pub recipes :
      (vaults : List String)
      → (us : List RegistryConstituentsUpdate) × ((reader.registry_recipe_logs vaults from to
            ≡ ok us)
          × All (λ (u : RegistryConstituentsUpdate). Any (λ v. v ≡ u.vault_address) vaults) us)
  pub genesis : (vault : String) → (cs : List Constituent) × (reader.registry_genesis vault ≡ ok cs)
  pub payouts : (ps : List KeeperPayoutEvent) × (reader.keeper_payout_logs from to ≡ ok ps)
  pub tickets :
      (queue vault : String)
      → (es : List ForwardTicketEvent) × ((reader.forward_queue_logs queue vault from to ≡ ok es)
          × All (λ (e : ForwardTicketEvent). e.vault_address ≡ vault) es)
  pub activity :
      (vaults : List String)
      → (es : List ActivityEventRecord) × (reader.vault_activity_logs vaults from to ≡ ok es)

abbrev pub IsListed : Table String Basket → String → Type 0
IsListed b vault = is_listed b vault ≡ true

AreListed : Table String Basket → List String → Type 0
AreListed b = All (IsListed b)

pub IsListed-of_Any :
    (b : Table String Basket) (vaults : List String) (vault : String)
    → All (IsListed b) vaults
    → Any (λ v. v ≡ vault) vaults
    → IsListed b vault
IsListed-of_Any b [] vault h k = absurd k
IsListed-of_Any b (v ∷ vs) vault h (inl e) = subst (IsListed b) e h.0
IsListed-of_Any b (v ∷ vs) vault h (inr k) = IsListed-of_Any b vs vault h.1 k

IsListed-head : (v : String) (r : Basket) (b : Table String Basket) → IsListed ((v, r) ∷ b) v
unfolding find
IsListed-head v r b =
    ap (λ c. is_some (if c then some r else find str_eq b v)) ((eq_iff v v).1 refl)

IsListed-tail :
    (v w : String) (r : Basket) (b : Table String Basket) → IsListed b w → IsListed ((v, r) ∷ b) w
unfolding find
IsListed-tail v w r b h = elim (Bool-cases (str_eq v w)) [
  | inl e ↦ ap (λ c. is_some (if c then some r else find str_eq b w)) e
  | inr e ↦ ap (λ c. is_some (if c then some r else find str_eq b w)) e ∙ h
]

pub vaults_of-IsListed :
    (ty : VaultType) (b : Table String Basket) → All (IsListed b) (vaults_of ty b)
unfolding vaults_of
vaults_of-IsListed ty [] = tt
vaults_of-IsListed ty ((v, r) ∷ b) =
    let rest =
      All-map_of (vaults_of ty b) (λ w h. IsListed-tail v w r b h) (vaults_of-IsListed ty b) in
    elim (Bool-cases (is_type ty r.vault_type)) [
      | inl e ↦ rw e (IsListed-head v r b, rest)
      | inr e ↦ rw e rest
    ]

pub all-IsListed :
    (b : Table String Basket) → All (IsListed b) (map (λ (r : String × Basket). r.0) b)
all-IsListed [] = tt
all-IsListed ((v, r) ∷ b) = (
  IsListed-head v r b,
  All-map_of (map (λ (x : String × Basket). x.0) b) (λ w h. IsListed-tail v w r b h)
      (all-IsListed b),
)

pub filter-IsListed :
    (b : Table String Basket) (p : String → Bool) (vs : List String)
    → All (IsListed b) vs
    → All (IsListed b) (filter p vs)
filter-IsListed b p [] h = tt
filter-IsListed b p (v ∷ vs) h = elim (Bool-cases (p v)) [
  | inl e ↦ rw e (h.0, filter-IsListed b p vs h.1)
  | inr e ↦ rw e (filter-IsListed b p vs h.1)
]

-- The spelling that `byCase` gives is that of a vault.
abbrev pub IsCase : Table String Basket → Option String → Type 0
IsCase b none = Unit
IsCase b (some v) = IsListed b v

pub by_case-listed :
    (b : Table String Basket) (vs : List String) (d : Dict String)
    → All (IsListed b) vs
    → ((k : String) → IsCase b (get d k))
    → (k : String) → IsCase b (get (by_case vs d) k)
by_case-listed b [] d h c k = c k
by_case-listed b (v ∷ vs) d h c k =
    by_case-listed b vs (put d (to_lower v) v) h.1
      (λ j.
        subst (IsCase b) (sym (get-put d (to_lower v) j v))
          (elim (Bool-cases (str_eq (to_lower v) j)) [ inl e ↦ rw e (h.0) | inr e ↦ rw e (c j) ]))
      k

err-ne-ok : (m : String) (u : Unit {0}) → err m ≢ ok u
err-ne-ok m u h = cc

module _ (b : Table String Basket) where
  -- The baskets are those of `b`.
  abbrev pub Over : Store → Type 0
  Over s = s.baskets ≡ b

  -- A row of a listed vault is written.
  row_written :
      (vault : String) (s s' : Store)
      → IsListed b vault
      → Over s
      → s'.baskets ≡ s.baskets
      → (t : Store) × ((with_basket vault s s' ≡ ok t) × Over t)
  row_written vault s s' listed over same =
      let here : is_indexed s vault ≡ true = ap (λ t. is_listed t vault) over ∙ listed in
      (s', (ap (λ c. if c then ok s' else err "Foreign key constraint violated") here, same ∙ over))

  pub rebalanced-Writes :
      (e : RebalancedEvent) → IsListed b e.vault_address → Writes Over (apply_rebalanced e)
  unfolding apply_rebalanced
  rebalanced-Writes e h s over = row_written e.vault_address s _ h over refl

  pub target-Writes :
      (e : TargetChangeEvent) → IsListed b e.vault_address → Writes Over (apply_target_change e)
  unfolding apply_target_change
  target-Writes e h s over = row_written e.vault_address s _ h over refl

  pub payout-Writes :
      (e : KeeperPayoutEvent) → IsListed b e.vault_address → Writes Over (apply_keeper_payout e)
  unfolding apply_keeper_payout
  payout-Writes e h s over = row_written e.vault_address s _ h over refl

  pub ticket-Writes :
      (e : ForwardTicketEvent) → IsListed b e.vault_address → Writes Over (apply_forward_event e)
  unfolding apply_forward_event
  ticket-Writes e h s over = row_written e.vault_address s (with_forward_event e s) h over refl

  replaced_written :
      (c : Bool) (cs : List Constituent) (full pruned : Store)
      → c ≡ true
      → Over full
      → (t : Store) × ((replaced c cs full pruned ≡ ok t) × Over t)
  replaced_written true cs full pruned h over = (full, (refl, over))
  replaced_written false cs full pruned h over = cc

  pub recipe-Writes :
      (u : RegistryConstituentsUpdate)
      → IsListed b u.vault_address
      → Writes Over (replace_registry_constituents u)
  unfolding replace_registry_constituents
  recipe-Writes u h s over =
      let here : is_indexed s u.vault_address ≡ true =
        ap (λ t. is_listed t u.vault_address) over ∙ h in
      replaced_written (is_indexed s u.vault_address) u.constituents _ _ here over

  -- A payout that is written is of a listed vault.
  payout_written :
      (e : KeeperPayoutEvent) (s : Store)
      → Over s
      → (t : Store) → apply_keeper_payout e s ≡ ok t
      → IsListed b e.vault_address × Over t
  unfolding apply_keeper_payout
  payout_written e s over t h =
      let w = with_basket_ok e.vault_address s _ t h in
      (
        ap (λ x. is_listed x e.vault_address) (sym over) ∙ w.0,
        ap (λ (x : Store). x.baskets) (sym w.1) ∙ over,
      )

  pub payouts-IsListed :
      (ps : List KeeperPayoutEvent) (s : Store) (u : Unit {0})
      → Over s
      → (each apply_keeper_payout ps s).1 ≡ ok u
      → All (λ (p : KeeperPayoutEvent). IsListed b p.vault_address) ps
  unfolding each write
  payouts-IsListed [] s u over h = tt
  payouts-IsListed (p ∷ ps) s u over h = elim (Result-cases (apply_keeper_payout p s)) [
    | inl (m, e) ↦ absurd (
        err-ne-ok m u
          (sym (ap (λ r. (after (stored s r) (λ x. each apply_keeper_payout ps)).1) e) ∙ h))
    | inr (t, e) ↦
        let one = payout_written p s over t e in
        (
          one.0,
          payouts-IsListed ps t u one.1
              (sym (ap (λ r. (after (stored s r) (λ x. each apply_keeper_payout ps)).1) e) ∙ h),
        )
  ]
