-- ===== src/Indexer/Tick/Checkpoint.antt =====
-- The checkpoint over a tick.
use etf.Base.{
  ℕ, ◌+◌, ◌≤◌, ◌<◌, ◌≡◌, ◌≢◌, ◌⊎◌, refl, subst, String, Bool, true, false, Option, none, some, List,
  ltb, ltb→lt, arith, Bool-cases, inl, inr, if◌then◌else◌,
}
use etf.Base.Results.{Result, ok, err}
use etf.Tx.Mint.{VaultType}
use etf.Keeper.Record.{Pair}
use etf.Indexer.{BasketCreatedEvent, RegistryConstituentsUpdate, Store}
use etf.Indexer.Repository
use etf.Indexer.Repository.{
  Write, replace_registry_constituents, upsert_basket_with_constituents, apply_basket_created,
  apply_managed_basket_created, apply_committed_basket_created, apply_keeper_basket_created,
  apply_rebalanced, apply_target_change, apply_keeper_payout, apply_forward_event,
  apply_activity_event, set_checkpoint, vaults_of, get_all_vault_addresses,
  get_registry_vaults_needing_genesis, get_genesis_constituents,
}
use etf.Indexer.Tick.{
  ChainLogReader, ◌>>=◌, ret, call, write, next_block, last_block, index_range, tick_at, tick,
}
use etf.Indexer.Tick.Parts.{
  IsKept, index_baskets-Keeps, index_rebalance_vaults-Keeps, index_registry_vaults-Keeps,
  index_waiting_vaults-Keeps, index_all_vaults-Keeps,
}
use etf.Indexer.Tick.Triples.{Meets, Triple, KeptBy, bind, replaced_ok, with_basket_ok}

module _ (c : Option ℕ) where
  -- The checkpoint is `c`.
  abbrev IsAt : Store → Type 0
  IsAt s = s.checkpoint ≡ c

  at_of :
      (vault : String) (s s' t : Store)
      → IsAt s'
      → Repository.with_basket vault s s' ≡ ok t
      → IsAt t
  at_of vault s s' t h e = subst IsAt (with_basket_ok vault s s' t e).1 h

  at_ok : (s t : Store) → IsAt s → ok s ≡ ok t → IsAt t
  at_ok s t h e = cc (h, e)

  basket_at :
      (e : BasketCreatedEvent) (v : VaultType) (m : Option String) (f p k : Option ℕ)
      (x : Option String)
      → KeptBy IsAt (upsert_basket_with_constituents e v m f p k x)
  unfolding upsert_basket_with_constituents
  basket_at e v m f p k x s h t w = at_ok _ t h w

  recipe_at : (u : RegistryConstituentsUpdate) → KeptBy IsAt (replace_registry_constituents u)
  unfolding replace_registry_constituents
  recipe_at u s h t w =
      elim (replaced_ok (Repository.is_indexed s u.vault_address) u.constituents _ _ t w) [
        | inl e ↦ subst IsAt e h
        | inr e ↦ subst IsAt e h
      ]

  IsAt-IsKept : IsKept IsAt
  unfolding apply_rebalanced apply_target_change apply_keeper_payout apply_forward_event
      apply_activity_event
  IsAt-IsKept = record {
    recipe = recipe_at;
    rebalanced = λ e s h t w. at_of e.vault_address s _ t h w;
    target = λ e s h t w. at_of e.vault_address s _ t h w;
    payout = λ e s h t w. at_of e.vault_address s _ t h w;
    ticket = λ e s h t w. at_of e.vault_address s _ t h w;
    activity = λ e s h t w. at_of e.vault_address s _ t h w;
  }

module _ (reader : ChainLogReader) where
  index_range_at :
      (pairs : List Pair) (from to : ℕ) (c : Option ℕ)
      → Triple (IsAt c) (index_range reader pairs from to) (λ n s. s.checkpoint ≡ some to)
  unfolding index_range write set_checkpoint
  index_range_at pairs from to c =
      let P = IsAt c in
      let Q = λ (n : ℕ) (s : Store). s.checkpoint ≡ some to in
      let kept = IsAt-IsKept c in
      bind P _ _ Q (index_baskets-Keeps reader P from to (basket_at c)) (λ n1.
        bind P _ _ Q (index_rebalance_vaults-Keeps reader P kept from to) (λ n2.
          bind P _ _ Q (index_registry_vaults-Keeps reader P kept from to) (λ n3.
            bind P _ _ Q (index_waiting_vaults-Keeps reader P kept n3) (λ n4.
              bind P _ _ Q (index_all_vaults-Keeps reader P kept pairs from to) (λ n5 s p. refl)))))

-- The range of a tick is not empty, ends at the head or before it, and has at most 9001 blocks.
abbrev pub IsRange : ℕ → ℕ → ℕ → Type 0
IsRange from to head =
    (from ≤ to) × (to ≤ head) × (to ≤ from + 9_000) × ((to < head) → to ≡ from + 9_000)

last_block-IsRange : (head from : ℕ) → from ≤ head → IsRange from (last_block head from) head
last_block-IsRange head from h = ground arith

-- The block to start from: the one after the checkpoint, and without one the configured start, or the
-- head where none is configured.
abbrev pub IsNext : ℕ → ℕ → Option ℕ → ℕ → Type 0
IsNext start head (some last) from = from ≡ last + 1
IsNext start head none from = (start ≢ 0 → from ≡ start) × (start ≡ 0 → from ≡ head)

next_block-IsNext :
    (start head : ℕ) (checkpoint : Option ℕ)
    → IsNext start head checkpoint (next_block start head checkpoint)
next_block-IsNext start head none = ((λ h. ground (arith, h)), (λ h. ground (arith, h)))
next_block-IsNext start head (some last) = omega arith

-- A tick had nothing to do: the factory is not configured, or no block is new.
abbrev pub IsIdle : ChainLogReader → ℕ → Store → Type 0
IsIdle reader start s =
    (reader.is_ready ≡ false)
    ⊎ ((head : ℕ) × (from : ℕ) × ((reader.head_block ≡ ok head)
          × (IsNext start head s.checkpoint from × (head < from))))

-- A tick has indexed the blocks from the one after the checkpoint.
abbrev pub HasIndexed : ChainLogReader → ℕ → Store → Store → Type 0
HasIndexed reader start s t =
    (head : ℕ) × (from : ℕ) × (to : ℕ) × ((reader.head_block ≡ ok head)
      × ((t.checkpoint ≡ some to) × (IsNext start head s.checkpoint from × IsRange from to head)))

abbrev pub IsTick : ChainLogReader → ℕ → Store → Store × Result ℕ → Type 0
IsTick reader start s (t, ok n) =
    (reader.is_ready ≡ true) × HasIndexed reader start s t
    ⊎ ((t ≡ s) × ((n ≡ 0) × IsIdle reader start s))
IsTick reader start s (t, err e) = t.checkpoint ≡ s.checkpoint

module _ (reader : ChainLogReader) (start : ℕ) (pairs : List Pair) (s : Store) where
  indexed_lem :
      (head to : ℕ) (r : Store × Result ℕ)
      → reader.is_ready ≡ true
      → reader.head_block ≡ ok head
      → IsRange (next_block start head s.checkpoint) to head
      → Meets (IsAt s.checkpoint) (λ n t. t.checkpoint ≡ some to) r
      → IsTick reader start s r
  indexed_lem head to (t, ok n) ready answered range h = inl (
    ready,
    (
      head,
      next_block start head s.checkpoint,
      to,
      (answered, (h, (next_block-IsNext start head s.checkpoint, range))),
    ),
  )
  indexed_lem head to (t, err e) ready answered range h = h

  tick_at_lem :
      (head : ℕ)
      → reader.is_ready ≡ true
      → reader.head_block ≡ ok head
      → IsTick reader start s (tick_at reader start pairs head s)
  unfolding tick_at
  tick_at_lem head ready answered =
      let from = next_block start head s.checkpoint in
      elim (Bool-cases (ltb head from)) [
        | inl e ↦ rw e (
            inr (
              refl,
              (
                refl,
                inr (
                  head,
                  from,
                  (answered, (next_block-IsNext start head s.checkpoint, ltb→lt _ _ e)),
                ),
              ),
            ))
        | inr e ↦ rw e (
            indexed_lem head (last_block head from)
              (index_range reader pairs from (last_block head from) s) ready answered
              (last_block-IsRange head from (ground arith))
              (index_range_at reader pairs from (last_block head from) s.checkpoint s refl))
      ]

  tick_lem :
      (ready : Bool) (answer : Result ℕ)
      → reader.is_ready ≡ ready
      → reader.head_block ≡ answer
      → IsTick reader start s
          ((if ready then (call answer >>= (λ head. tick_at reader start pairs head)) else ret 0) s)
  tick_lem true (ok head) e h = tick_at_lem head e h
  tick_lem true (err m) e h = refl
  tick_lem false answer e h = inr (refl, (refl, inl e))

-- A tick that throws leaves the checkpoint. One that returns has moved it to the end of a range that
-- begins right after it, is not empty, does not pass the chain's head, and falls short of the head only
-- by having 9001 blocks; or it has changed nothing at all, because the factory is not configured or there
-- is no new block.
pub tick_checkpoint :
    (reader : ChainLogReader) (start : ℕ) (pairs : List Pair) (s : Store)
    → IsTick reader start s (tick reader start pairs s)
unfolding tick
tick_checkpoint reader start pairs s =
    tick_lem reader start pairs s reader.is_ready reader.head_block refl refl
