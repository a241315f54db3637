-- ===== src/Indexer/Tick/Answered.antt =====
-- The parts of a tick that follow its new baskets, for a reader that answers.
use etf.Base.{
  ℕ, suc, ◌+◌, ◌≡◌, ◌⊎◌, ◌∙◌, refl, sym, ap, subst, String, not, Option, none, some, List, [], ◌∷◌,
  All, All-map_of, Any, inl, inr, if◌then◌else◌,
}
use etf.Base.Results.{Result, ok, Result-cases}
use etf.Base.Text.{to_lower}
use etf.Base.Dict.{Dict, get}
use etf.Base.Table.{Table}
use etf.Tx.Mint.{VaultType, Constituent}
use etf.Keeper.Record.{Pair}
use etf.Indexer.{RegistryConstituentsUpdate, KeeperPayoutEvent, ActivityEventRecord, Basket, Store}
use etf.Indexer.Repository.{
  Write, apply_rebalanced, apply_target_change, apply_keeper_payout, apply_forward_event,
  apply_activity_event, set_checkpoint, vaults_of, has_constituent, get_all_vault_addresses,
  get_registry_vaults_needing_genesis, get_genesis_constituents,
}
use etf.Indexer.Tick.Triples.{with_basket_ok}
use etf.Indexer.Tick.{
  ChainLogReader, ◌>>=◌, ◌>>◌, ret, write, try_write, tried, each, by_case, index_lifecycle,
  populate, index_updates, index_recipes, genesis_or, genesis_of, index_genesis, index_queue,
  index_queues, index_activity, index_registry_vaults, index_waiting_vaults, index_accounts,
  index_all_vaults,
}
use etf.Indexer.Tick.Goes.{
  Returned, Goes, Writes, seq, then-Goes, seq_call, write-Goes, each-Goes, call_inv, then_inv,
  bind_inv,
}
use etf.Indexer.Tick.Listed.{
  Answers, IsListed, IsListed-of_Any, vaults_of-IsListed, all-IsListed, filter-IsListed, IsCase,
  by_case-listed, Over, rebalanced-Writes, target-Writes, payout-Writes, ticket-Writes,
  recipe-Writes, payouts-IsListed,
}

module _ (reader : ChainLogReader) (from to : ℕ) (answers : Answers reader from to)
    (b : Table String Basket) where
  -- The payouts of the range are of listed vaults.
  abbrev pub ArePaid : Type 0
  ArePaid = All (λ (p : KeeperPayoutEvent). IsListed b p.vault_address) answers.payouts.0

  Writes-of :
      {A : Type 0} (apply : A → Write) (vault_of : A → String) (vaults : List String) (es : List A)
      → ((e : A) → IsListed b (vault_of e) → Writes (Over b) (apply e))
      → All (IsListed b) vaults
      → All (λ e. Any (λ v. v ≡ vault_of e) vaults) es
      → All (λ e. Writes (Over b) (apply e)) es
  Writes-of apply vault_of vaults es w listed h =
      All-map_of es (λ e k. w e (IsListed-of_Any b vaults (vault_of e) listed k)) h

  pub index_lifecycle-Goes :
      (vaults : List String)
      → All (IsListed b) vaults
      → ((vaults ≡ []) ⊎ ArePaid)
      → Goes (Over b) (index_lifecycle reader vaults from to)
  unfolding index_lifecycle
  index_lifecycle-Goes [] listed paid = λ s p. p
  index_lifecycle-Goes (v ∷ vs) listed (inl empty) = cc
  index_lifecycle-Goes (v ∷ vs) listed (inr paid) =
      let P = Over b in
      let logs = answers.lifecycle (v ∷ vs) in
      seq_call P _ _ logs.0 logs.1.0 (
        then-Goes P _ _
          (each-Goes P apply_rebalanced logs.0.0 (
            Writes-of apply_rebalanced (λ e. e.vault_address) (v ∷ vs) logs.0.0
              (rebalanced-Writes b) listed logs.1.1.0))
          (then-Goes P _ _
            (each-Goes P apply_target_change logs.0.1 (
              Writes-of apply_target_change (λ e. e.vault_address) (v ∷ vs) logs.0.1
                (target-Writes b) listed logs.1.1.1))
            (seq_call P _ _ answers.payouts.0 answers.payouts.1 (
              then-Goes P _ _
                (each-Goes P apply_keeper_payout answers.payouts.0
                  (All-map_of answers.payouts.0 (λ p h. payout-Writes b p h) paid))
                (λ s p. p)))))

  populate-Goes :
      (vault : String) (cs : List Constituent) (n : ℕ)
      → IsListed b vault
      → Goes (Over b) (populate reader vault cs n)
  unfolding populate
  populate-Goes vault [] n h = λ s p. p
  populate-Goes vault (c ∷ cs) n h =
      then-Goes (Over b) _ _ (write-Goes (Over b) _ (recipe-Writes b _ h)) (λ s p. p)

  index_updates-Goes :
      (us : List RegistryConstituentsUpdate) (n : ℕ)
      → All (λ (u : RegistryConstituentsUpdate). IsListed b u.vault_address) us
      → Goes (Over b) (index_updates reader us n)
  unfolding index_updates
  index_updates-Goes [] n h = λ s p. p
  index_updates-Goes (u ∷ us) n h =
      seq (Over b) _ _ (populate-Goes u.vault_address u.constituents n h.0)
        (λ m. index_updates-Goes us m h.1)

  index_recipes-Goes :
      (vaults : List String)
      → All (IsListed b) vaults
      → Goes (Over b) (index_recipes reader vaults from to)
  unfolding index_recipes
  index_recipes-Goes [] listed = λ s p. p
  index_recipes-Goes (v ∷ vs) listed =
      let us = answers.recipes (v ∷ vs) in
      seq_call (Over b) _ _ us.0 us.1.0 (
        index_updates-Goes us.0 0
          (All-map_of us.0 (λ u k. IsListed-of_Any b (v ∷ vs) u.vault_address listed k) us.1.1))

  genesis_or-Goes :
      (vault : String) (cs : List Constituent) → Goes (Over b) (genesis_or reader vault cs)
  genesis_or-Goes vault [] s p =
      subst (λ (r : Result (List Constituent)). Returned (Over b) (s, r))
        (sym (answers.genesis vault).1) p
  genesis_or-Goes vault (c ∷ cs) s p = p

  genesis_of-Goes : (vault : String) → Goes (Over b) (genesis_of reader vault)
  unfolding genesis_of
  genesis_of-Goes vault s p = genesis_or-Goes vault (get_genesis_constituents vault s) s p

  index_genesis-Goes :
      (vaults : List String) (n : ℕ)
      → All (IsListed b) vaults
      → Goes (Over b) (index_genesis reader vaults n)
  unfolding index_genesis
  index_genesis-Goes [] n listed = λ s p. p
  index_genesis-Goes (v ∷ vs) n listed = seq (Over b) _ _ (genesis_of-Goes v) (λ cs.
      seq (Over b) _ _ (populate-Goes v cs n listed.0) (λ m. index_genesis-Goes vs m listed.1))

  index_queue-Goes :
      (queue : String) (vault : Option String) (n : ℕ)
      → IsCase b vault
      → Goes (Over b) (index_queue reader queue vault from to n)
  unfolding index_queue
  index_queue-Goes queue none n h = λ s p. p
  index_queue-Goes queue (some v) n h =
      let es = answers.tickets queue v in
      seq_call (Over b) _ _ es.0 es.1.0 (
        then-Goes (Over b) _ _
          (each-Goes (Over b) apply_forward_event es.0
            (All-map_of es.0 (λ e k. ticket-Writes b e (subst (IsListed b) (sym k) h)) es.1.1))
          (λ s p. p))

  index_queues-Goes :
      (pairs : List Pair) (cases : Dict String) (n : ℕ)
      → ((k : String) → IsCase b (get cases k))
      → Goes (Over b) (index_queues reader pairs cases from to n)
  unfolding index_queues
  index_queues-Goes [] cases n h = λ s p. p
  index_queues-Goes (q ∷ pairs) cases n h =
      seq (Over b) _ _
        (index_queue-Goes q.queue (get cases (to_lower q.vault)) n (h (to_lower q.vault)))
        (λ m. index_queues-Goes pairs cases m h)

  -- A row of the activity feed that is rejected is skipped.
  feed-Goes : (e : ActivityEventRecord) → Goes (Over b) (try_write (apply_activity_event e))
  unfolding try_write apply_activity_event
  feed-Goes e s over = elim (Result-cases (apply_activity_event e s)) [
    | inl (m, h) ↦ subst (λ r. Returned (Over b) (tried s r)) (sym h) over
    | inr (t, h) ↦
        let kept : t.baskets ≡ b =
          ap (λ (x : Store). x.baskets) (sym (with_basket_ok e.vault_address s _ t h).1) ∙ over in
        subst (λ r. Returned (Over b) (tried s r)) (sym h) kept
  ]

  index_activity-Goes :
      (es : List ActivityEventRecord) (n : ℕ) → Goes (Over b) (index_activity reader es n)
  unfolding index_activity
  index_activity-Goes [] n = λ s p. p
  index_activity-Goes (e ∷ es) n =
      seq (Over b) _ _ (feed-Goes e) (λ done. index_activity-Goes es (if done then suc n else n))

  index_accounts-Goes :
      (pairs : List Pair) (vaults : List String)
      → All (IsListed b) vaults
      → Goes (Over b) (index_accounts reader pairs vaults from to)
  unfolding index_accounts get
  index_accounts-Goes pairs vaults listed =
      let es = answers.activity vaults in
      seq (Over b) _ _
        (index_queues-Goes pairs (by_case vaults []) 0
          (by_case-listed b vaults [] listed (λ k. tt)))
        (λ n.
          seq_call (Over b) _ _ es.0 es.1
            (seq (Over b) _ _ (index_activity-Goes es.0 0) (λ m s p. p)))

  pub Over-IsListed :
      (f : Store → List String) (s : Store)
      → Over b s
      → All (IsListed s.baskets) (f s)
      → All (IsListed b) (f s)
  Over-IsListed f s over h = subst (λ x. All (IsListed x) (f s)) over h

  -- What follows the baskets, if every call is answered.
  pub rest-Goes :
      (pairs : List Pair) (baskets lifecycle : ℕ)
      → Goes (Over b) (
          index_registry_vaults reader from to >>= (λ recipes.
            index_waiting_vaults reader recipes >>= (λ filled.
              index_all_vaults reader pairs from to >>= (λ accounts.
                write (set_checkpoint to) >> ret (baskets + lifecycle + filled + accounts)))))
  unfolding index_registry_vaults index_waiting_vaults index_all_vaults
      get_registry_vaults_needing_genesis set_checkpoint write
  rest-Goes pairs n1 n2 =
      let P = Over b in
      seq P _ _
        (λ s p.
          index_recipes-Goes (vaults_of VaultType.registry s.baskets)
            (Over-IsListed (λ t. vaults_of VaultType.registry t.baskets) s p
              (vaults_of-IsListed VaultType.registry s.baskets))
            s p)
        (λ n3.
          seq P _ _
            (λ s p.
              index_genesis-Goes (get_registry_vaults_needing_genesis s) n3
                (Over-IsListed get_registry_vaults_needing_genesis s p (
                  filter-IsListed s.baskets (λ v. not (has_constituent s v))
                    (vaults_of VaultType.registry s.baskets)
                    (vaults_of-IsListed VaultType.registry s.baskets)))
                s p)
            (λ n4.
              seq P _ _
                (λ s p.
                  index_accounts-Goes pairs (get_all_vault_addresses s)
                    (Over-IsListed get_all_vault_addresses s p (all-IsListed s.baskets)) s p)
                (λ n5 s p. p)))

  pub lifecycle_paid :
      (vaults : List String) (s : Store) (n : ℕ)
      → All (IsListed b) vaults
      → Over b s
      → (index_lifecycle reader vaults from to s).1 ≡ ok n
      → (vaults ≡ []) ⊎ ArePaid
  unfolding index_lifecycle
  lifecycle_paid [] s n listed over h = inl refl
  lifecycle_paid (v ∷ vs) s n listed over h =
      let P = Over b in
      let logs = answers.lifecycle (v ∷ vs) in
      let first = each apply_rebalanced logs.0.0 s in
      let over1 =
        each-Goes P apply_rebalanced logs.0.0
          (Writes-of apply_rebalanced (λ e. e.vault_address) (v ∷ vs) logs.0.0 (rebalanced-Writes b)
            listed logs.1.1.0)
          s over in
      let h1 = then_inv P first _ n over1 (call_inv _ _ logs.0 s n logs.1.0 h) in
      let second = each apply_target_change logs.0.1 first.0 in
      let over2 =
        each-Goes P apply_target_change logs.0.1
          (Writes-of apply_target_change (λ e. e.vault_address) (v ∷ vs) logs.0.1 (target-Writes b)
            listed logs.1.1.1)
          first.0 h1.0 in
      let h2 = then_inv P second _ n over2 h1.1 in
      let third = each apply_keeper_payout answers.payouts.0 second.0 in
      let paid =
        bind_inv third _ n (call_inv _ _ answers.payouts.0 second.0 n answers.payouts.1 h2.1) in
      inr (payouts-IsListed b answers.payouts.0 second.0 paid.0 h2.0 paid.1)
