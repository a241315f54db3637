-- ===== src/Indexer/Tick/Returns.antt =====
-- When a tick returns.
use etf.Base.{
  ℕ, ◌+◌, ◌≤◌, ◌≡◌, ◌⊎◌, ◌↔◌, ◌∙◌, refl, sym, ap, subst, String, true, false, List, [], ltb, arith,
  if◌then◌else◌,
}
use etf.Base.Results.{Result, ok, err}
use etf.Base.Table.{Table}
use etf.Tx.Mint.{VaultType}
use etf.Keeper.Record.{Pair}
use etf.Indexer.{Basket, Store}
use etf.Indexer.Repository.{set_checkpoint, vaults_of}
use etf.Indexer.Tick.{
  ChainLogReader, Run, after, ◌>>=◌, ◌>>◌, ret, call, write, next_block, last_block, index_baskets,
  index_rebalance_vaults, index_registry_vaults, index_waiting_vaults, index_all_vaults,
  index_range, tick_at, tick,
}
use etf.Indexer.Tick.Goes.{
  Returned, Goes, seq, bind_inv, CreatedAnswers, Anything, index_baskets-Goes,
}
use etf.Indexer.Tick.Listed.{Answers, vaults_of-IsListed, Over}
use etf.Indexer.Tick.Answered.{
  ArePaid, Over-IsListed, index_lifecycle-Goes, rest-Goes, lifecycle_paid,
}

-- The parts of a tick after its new baskets.
module _ (reader : ChainLogReader) (pairs : List Pair) (from to : ℕ)
    (answers : Answers reader from to) where
  lifecycle-Goes :
      (b : Table String Basket)
      → (vaults_of VaultType.rebalance b ≡ []) ⊎ ArePaid reader from to answers b
      → Goes (Over b) (index_rebalance_vaults reader from to)
  unfolding index_rebalance_vaults
  lifecycle-Goes b paid s over =
      index_lifecycle-Goes reader from to answers b (vaults_of VaultType.rebalance s.baskets)
        (Over-IsListed reader from to answers b (λ t. vaults_of VaultType.rebalance t.baskets) s
          over (vaults_of-IsListed VaultType.rebalance s.baskets))
        (subst (λ c. (vaults_of VaultType.rebalance c ≡ []) ⊎ ArePaid reader from to answers b)
          (sym over) paid)
        s over

  Returned-value :
      {A : Type 0} (P : Store → Type 0) (r : Store × Result A)
      → Returned P r
      → (a : A) × (r.1 ≡ ok a)
  Returned-value P (s, ok a) h = (a, refl)
  Returned-value P (s, err e) h = absurd h

  -- The work of a tick after its new baskets.
  abbrev after_lifecycle : ℕ → ℕ → Run ℕ
  after_lifecycle n1 n2 = index_registry_vaults reader from to >>= (λ n3.
      index_waiting_vaults reader n3 >>= (λ n4.
        index_all_vaults reader pairs from to
        >>= (λ n5. write (set_checkpoint to) >> ret (n1 + n2 + n4 + n5))))

  abbrev after_baskets : ℕ → Run ℕ
  after_baskets n1 = index_rebalance_vaults reader from to >>= after_lifecycle n1

  after_baskets_iff :
      (r : Store × Result ℕ)
      → Returned Anything r
      → ((n : ℕ) × ((after r after_baskets).1 ≡ ok n)) ↔ (
          (vaults_of VaultType.rebalance r.0.baskets ≡ [])
          ⊎ ArePaid reader from to answers r.0.baskets)
  unfolding index_rebalance_vaults
  after_baskets_iff (s, err e) h = absurd h
  after_baskets_iff (s, ok n1) h =
      let b = s.baskets in
      (
        (λ (n, e).
            let part =
              bind_inv (index_rebalance_vaults reader from to s) (after_lifecycle n1) n e in
            lifecycle_paid reader from to answers b (vaults_of VaultType.rebalance b) s part.0
              (vaults_of-IsListed VaultType.rebalance b) refl part.1),
        (λ paid. Returned-value (Over b) (after_baskets n1 s) (
            seq (Over b) (index_rebalance_vaults reader from to) (after_lifecycle n1)
              (lifecycle-Goes b paid) (λ n2. rest-Goes reader from to answers b pairs n1 n2) s
              refl)),
      )

range_iff :
    (reader : ChainLogReader) (pairs : List Pair) (from to : ℕ) (s : Store)
    → CreatedAnswers reader from to
    → (answers : Answers reader from to)
    → ((n : ℕ) × ((index_range reader pairs from to s).1 ≡ ok n)) ↔ (
        (vaults_of VaultType.rebalance (index_baskets reader from to s).0.baskets ≡ [])
        ⊎ ArePaid reader from to answers (index_baskets reader from to s).0.baskets)
unfolding index_range
range_iff reader pairs from to s created answers =
    after_baskets_iff reader pairs from to answers (index_baskets reader from to s)
      (index_baskets-Goes reader from to created s tt)

not_before : (head from : ℕ) → from ≤ head → ltb head from ≡ false
not_before head from h = ground arith

tick_range :
    (reader : ChainLogReader) (start : ℕ) (pairs : List Pair) (head from to : ℕ) (s : Store)
    → reader.is_ready ≡ true
    → reader.head_block ≡ ok head
    → next_block start head s.checkpoint ≡ from
    → from ≤ head
    → last_block head from ≡ to
    → tick reader start pairs s ≡ index_range reader pairs from to s
unfolding tick tick_at
tick_range reader start pairs head from to s ready answered e le e' =
    ap
      (λ c.
        (if c then (call reader.head_block >>= (λ h. tick_at reader start pairs h)) else ret 0) s)
      ready
    ∙ ap (λ r. after (s, r) (λ h. tick_at reader start pairs h)) answered
    ∙ ap (λ c. if ltb head c then (s, ok 0) else index_range reader pairs c (last_block head c) s) e
    ∙ ap (λ c. if c then (s, ok 0) else index_range reader pairs from (last_block head from) s)
        (not_before head from le)
    ∙ ap (λ c. index_range reader pairs from c s) e'

-- For a reader that answers, and answers about the vaults it is asked for, a tick over new blocks returns
-- exactly if there is no Rebalance vault in the tables once the new baskets are, or every keeper payout of
-- those blocks is of a vault in the tables. Otherwise it throws.
pub tick_returns_iff :
    (reader : ChainLogReader) (start : ℕ) (pairs : List Pair) (head from to : ℕ) (s : Store)
    → reader.is_ready ≡ true
    → reader.head_block ≡ ok head
    → next_block start head s.checkpoint ≡ from
    → from ≤ head
    → last_block head from ≡ to
    → CreatedAnswers reader from to
    → (answers : Answers reader from to)
    → ((n : ℕ) × ((tick reader start pairs s).1 ≡ ok n)) ↔ (
        (vaults_of VaultType.rebalance (index_baskets reader from to s).0.baskets ≡ [])
        ⊎ ArePaid reader from to answers (index_baskets reader from to s).0.baskets)
tick_returns_iff reader start pairs head from to s ready answered e le e' created answers =
    subst
      (λ r. ((n : ℕ) × (r.1 ≡ ok n)) ↔ (
        (vaults_of VaultType.rebalance (index_baskets reader from to s).0.baskets ≡ [])
        ⊎ ArePaid reader from to answers (index_baskets reader from to s).0.baskets))
      (sym (tick_range reader start pairs head from to s ready answered e le e'))
      (range_iff reader pairs from to s created answers)
