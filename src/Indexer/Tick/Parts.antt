-- ===== src/Indexer/Tick/Parts.antt =====
-- What the writes of a tick keep, its parts keep.
use etf.Base.{ℕ, suc, String, Option, none, some, List, [], ◌∷◌, if◌then◌else◌}
use etf.Base.Text.{to_lower}
use etf.Base.Dict.{Dict, get}
use etf.Tx.Mint.{VaultType, Constituent}
use etf.Keeper.Record.{Pair}
use etf.Indexer.{
  BasketCreatedEvent, RegistryConstituentsUpdate, RebalancedEvent, TargetChangeEvent,
  KeeperPayoutEvent, ForwardTicketEvent, ActivityEventRecord, Store,
}
use etf.Indexer.Repository.{
  replace_registry_constituents, upsert_basket_with_constituents, apply_basket_created,
  apply_managed_basket_created, apply_committed_basket_created, apply_keeper_basket_created,
  apply_rebalanced, apply_target_change, apply_keeper_payout, apply_forward_event,
  apply_activity_event, get_genesis_constituents,
}
use etf.Indexer.Tick.{
  ChainLogReader, by_case, index_baskets, index_lifecycle, populate, index_updates, index_recipes,
  genesis_of, index_genesis, index_queue, index_queues, index_activity, genesis_or,
  index_rebalance_vaults, index_registry_vaults, index_waiting_vaults, index_accounts,
  index_all_vaults,
}
use etf.Indexer.Tick.Triples.{
  Keeps, KeptBy, seq, then_lem, call-Keeps, write-Keeps, try_write-Keeps, each-Keeps,
}

-- A property that every write keeps but those of a basket and of the checkpoint.
pub record IsKept (P : Store → Type 0) : Type 0 where
  pub recipe : (u : RegistryConstituentsUpdate) → KeptBy P (replace_registry_constituents u)
  pub rebalanced : (e : RebalancedEvent) → KeptBy P (apply_rebalanced e)
  pub target : (e : TargetChangeEvent) → KeptBy P (apply_target_change e)
  pub payout : (e : KeeperPayoutEvent) → KeptBy P (apply_keeper_payout e)
  pub ticket : (e : ForwardTicketEvent) → KeptBy P (apply_forward_event e)
  pub activity : (e : ActivityEventRecord) → KeptBy P (apply_activity_event e)

module _ (reader : ChainLogReader) (P : Store → Type 0) where
  pub index_baskets-Keeps :
      (from to : ℕ)
      → ((e : BasketCreatedEvent) (v : VaultType) (m : Option String) (f p k : Option ℕ)
            (x : Option String)
          → KeptBy P (upsert_basket_with_constituents e v m f p k x))
      → Keeps P (index_baskets reader from to)
  unfolding index_baskets
  index_baskets-Keeps from to k = seq P _ _ (call-Keeps P (reader.basket_created from to)) (λ basic.
      seq P _ _ (call-Keeps P (reader.managed_basket_created from to)) (λ managed.
        seq P _ _ (call-Keeps P (reader.committed_basket_created from to)) (λ committed.
          seq P _ _ (call-Keeps P (reader.rebalance_basket_created from to)) (λ rebalance.
            seq P _ _ (call-Keeps P (reader.registry_index_created from to)) (λ registry.
              then_lem P _ _ (each-Keeps P apply_basket_created basic (λ e. k _ _ _ _ _ _ _)) (
                then_lem P _ _
                  (each-Keeps P apply_managed_basket_created managed (λ e. k _ _ _ _ _ _ _))
                  (then_lem P _ _
                    (each-Keeps P apply_committed_basket_created committed (λ e. k _ _ _ _ _ _ _))
                    (then_lem P _ _
                      (each-Keeps P (apply_keeper_basket_created VaultType.rebalance) rebalance
                        (λ e. k _ _ _ _ _ _ _))
                      (then_lem P _ _
                        (each-Keeps P (apply_keeper_basket_created VaultType.registry) registry
                          (λ e. k _ _ _ _ _ _ _))
                        (λ s p. p))))))))))

  module _ (kept : IsKept P) where
    index_lifecycle-Keeps :
        (vaults : List String) (from to : ℕ) → Keeps P (index_lifecycle reader vaults from to)
    unfolding index_lifecycle
    index_lifecycle-Keeps [] from to = λ s p. p
    index_lifecycle-Keeps (v ∷ vs) from to =
        seq P _ _ (call-Keeps P (reader.vault_lifecycle_logs (v ∷ vs) from to)) (λ logs.
          then_lem P _ _ (each-Keeps P apply_rebalanced logs.0 kept.rebalanced) (
            then_lem P _ _ (each-Keeps P apply_target_change logs.1 kept.target) (
              seq P _ _ (call-Keeps P (reader.keeper_payout_logs from to)) (λ payouts.
                then_lem P _ _ (each-Keeps P apply_keeper_payout payouts kept.payout) (λ s p. p)))))

    populate-Keeps :
        (vault : String) (cs : List Constituent) (n : ℕ) → Keeps P (populate reader vault cs n)
    unfolding populate
    populate-Keeps vault [] n = λ s p. p
    populate-Keeps vault (c ∷ cs) n = then_lem P _ _ (write-Keeps P _ (kept.recipe _)) (λ s p. p)

    index_updates-Keeps :
        (us : List RegistryConstituentsUpdate) (n : ℕ) → Keeps P (index_updates reader us n)
    unfolding index_updates
    index_updates-Keeps [] n = λ s p. p
    index_updates-Keeps (u ∷ us) n =
        seq P _ _ (populate-Keeps u.vault_address u.constituents n) (λ m. index_updates-Keeps us m)

    index_recipes-Keeps :
        (vaults : List String) (from to : ℕ) → Keeps P (index_recipes reader vaults from to)
    unfolding index_recipes
    index_recipes-Keeps [] from to = λ s p. p
    index_recipes-Keeps (v ∷ vs) from to =
        seq P _ _ (call-Keeps P (reader.registry_recipe_logs (v ∷ vs) from to))
          (λ us. index_updates-Keeps us 0)

    genesis_or-Keeps :
        (vault : String) (cs : List Constituent) → Keeps P (genesis_or reader vault cs)
    genesis_or-Keeps vault [] = call-Keeps P (reader.registry_genesis vault)
    genesis_or-Keeps vault (c ∷ cs) = λ s p. p

    genesis_of-Keeps : (vault : String) → Keeps P (genesis_of reader vault)
    unfolding genesis_of
    genesis_of-Keeps vault s p = genesis_or-Keeps vault (get_genesis_constituents vault s) s p

    index_genesis-Keeps : (vaults : List String) (n : ℕ) → Keeps P (index_genesis reader vaults n)
    unfolding index_genesis
    index_genesis-Keeps [] n = λ s p. p
    index_genesis-Keeps (v ∷ vs) n =
        seq P _ _ (genesis_of-Keeps v)
          (λ cs. seq P _ _ (populate-Keeps v cs n) (λ m. index_genesis-Keeps vs m))

    index_queue-Keeps :
        (queue : String) (vault : Option String) (from to n : ℕ)
        → Keeps P (index_queue reader queue vault from to n)
    unfolding index_queue
    index_queue-Keeps queue none from to n = λ s p. p
    index_queue-Keeps queue (some v) from to n =
        seq P _ _ (call-Keeps P (reader.forward_queue_logs queue v from to))
          (λ es. then_lem P _ _ (each-Keeps P apply_forward_event es kept.ticket) (λ s p. p))

    index_queues-Keeps :
        (pairs : List Pair) (cases : Dict String) (from to n : ℕ)
        → Keeps P (index_queues reader pairs cases from to n)
    unfolding index_queues
    index_queues-Keeps [] cases from to n = λ s p. p
    index_queues-Keeps (q ∷ pairs) cases from to n =
        seq P _ _ (index_queue-Keeps q.queue (get cases (to_lower q.vault)) from to n)
          (λ m. index_queues-Keeps pairs cases from to m)

    index_activity-Keeps :
        (es : List ActivityEventRecord) (n : ℕ) → Keeps P (index_activity reader es n)
    unfolding index_activity
    index_activity-Keeps [] n = λ s p. p
    index_activity-Keeps (e ∷ es) n =
        seq P _ _ (try_write-Keeps P (apply_activity_event e) (kept.activity e))
          (λ done. index_activity-Keeps es (if done then suc n else n))

    pub index_rebalance_vaults-Keeps :
        (from to : ℕ) → Keeps P (index_rebalance_vaults reader from to)
    unfolding index_rebalance_vaults
    index_rebalance_vaults-Keeps from to s p = index_lifecycle-Keeps _ from to s p

    pub index_registry_vaults-Keeps : (from to : ℕ) → Keeps P (index_registry_vaults reader from to)
    unfolding index_registry_vaults
    index_registry_vaults-Keeps from to s p = index_recipes-Keeps _ from to s p

    pub index_waiting_vaults-Keeps : (n : ℕ) → Keeps P (index_waiting_vaults reader n)
    unfolding index_waiting_vaults
    index_waiting_vaults-Keeps n s p = index_genesis-Keeps _ n s p

    index_accounts-Keeps :
        (pairs : List Pair) (vaults : List String) (from to : ℕ)
        → Keeps P (index_accounts reader pairs vaults from to)
    unfolding index_accounts
    index_accounts-Keeps pairs vaults from to =
        seq P _ _ (index_queues-Keeps pairs (by_case vaults []) from to 0) (λ n.
          seq P _ _ (call-Keeps P (reader.vault_activity_logs vaults from to))
            (λ es. seq P _ _ (index_activity-Keeps es 0) (λ m s p. p)))

    pub index_all_vaults-Keeps :
        (pairs : List Pair) (from to : ℕ) → Keeps P (index_all_vaults reader pairs from to)
    unfolding index_all_vaults
    index_all_vaults-Keeps pairs from to s p = index_accounts-Keeps pairs _ from to s p
