-- ===== src/Indexer/Tick/CatchUp.antt =====
-- How ticks catch up with the chain.
use etf.Base.{
  ℕ, zero, suc, min, ◌+◌, ◌*◌, ◌≤◌, ◌<◌, ◌≡◌, ◌∙◌, sym, ap, subst, true, some, List, arith, inl,
  inr,
}
use etf.Base.Results.{Result, ok, err}
use etf.Keeper.Record.{Pair}
use etf.Indexer.{Store}
use etf.Indexer.Tick.{ChainLogReader, tick}
use etf.Indexer.Tick.Checkpoint.{IsNext, IsRange, IsTick, tick_checkpoint}

-- Ticks that all return, one after another, on a chain that stands still.
pub data Ticks (reader : ChainLogReader) (start : ℕ) (pairs : List Pair)
    : ℕ → Store → Store → Type 0 where
  none_yet : {s : Store} → Ticks reader start pairs zero s s
  one_more :
      {n : ℕ} {s t u : Store} {events : ℕ}
      → tick reader start pairs s ≡ (t, ok events)
      → Ticks reader start pairs n t u
      → Ticks reader start pairs (suc n) s u

module _ (reader : ChainLogReader) (start : ℕ) (pairs : List Pair) (head : ℕ) where
  abbrev IsStanding : Type 0
  IsStanding = (reader.is_ready ≡ true) × (reader.head_block ≡ ok head)

  range_end : (last to : ℕ) → IsRange (suc last) to head → to ≡ min head (last + 9_001)
  range_end last to range = ground arith

  no_range : (last : ℕ) → last ≤ head → head < suc last → last ≡ min head (last + 9_001)
  no_range last h k = ground arith

  one_tick :
      (s : Store) (last : ℕ) (r : Store × Result ℕ) (t : Store) (k : ℕ)
      → IsStanding
      → s.checkpoint ≡ some last
      → last ≤ head
      → IsTick reader start s r
      → r ≡ (t, ok k)
      → t.checkpoint ≡ some (min head (last + 9_001))
  one_tick s last (u, err e) t k standing at le h eq = cc
  one_tick s last (u, ok n) t k standing at le
        (inl (ready, (h, from, to, (answered, (moved, (next, range)))))) eq =
      let same_head : h ≡ head = cc (answered, standing.1) in
      let first : from ≡ last + 1 = subst (λ c. IsNext start h c from) at next in
      let first' : from ≡ suc last = omega (arith, first) in
      let e : IsRange (suc last) to head =
        subst (λ f. IsRange f to head) first' (subst (λ x. IsRange from to x) same_head range) in
      let same : u ≡ t = ap (λ r. r.0) eq in
      sym (ap (λ (x : Store). x.checkpoint) same) ∙ moved ∙ ap some (range_end last to e)
  one_tick s last (u, ok n) t k standing at le (inr (same, (zero_events, inl idle))) eq = cc
  one_tick s last (u, ok n) t k standing at le
        (inr (same, (zero_events, inr (h, from, (answered, (next, past)))))) eq =
      let same_head : h ≡ head = cc (answered, standing.1) in
      let first : from ≡ last + 1 = subst (λ c. IsNext start h c from) at next in
      let past' : head < from = subst (λ x. x < from) same_head past in
      let e : head < suc last = omega (arith, first, past') in
      let kept : t ≡ s = sym (ap (λ r. r.0) eq) ∙ same in
      ap (λ (x : Store). x.checkpoint) kept ∙ at ∙ ap some (no_range last le e)

  start_end : (last : ℕ) → last ≤ head → last ≡ min head (last + zero * 9_001)
  start_end last h = ground arith

  rounds_end :
      (last n : ℕ)
      → last ≤ head
      → min head (min head (last + 9_001) + n * 9_001) ≡ min head (last + suc n * 9_001)
  rounds_end last n h = ground arith

-- Ticks that all return catch up: on a chain that stands at its head, after `n` of them the checkpoint is
-- `n` times 9001 blocks further, but not past the head, so that the head is reached after a number of
-- ticks that is the blocks to index over 9001, rounded up.
pub ticks_catch_up :
    (reader : ChainLogReader) (start : ℕ) (pairs : List Pair) (head last n : ℕ) (s t : Store)
    → reader.is_ready ≡ true
    → reader.head_block ≡ ok head
    → s.checkpoint ≡ some last
    → last ≤ head
    → Ticks reader start pairs n s t
    → t.checkpoint ≡ some (min head (last + n * 9_001))
ticks_catch_up reader start pairs head last zero s t ready answered at le none_yet =
    at ∙ ap some (start_end reader start pairs head last le)
ticks_catch_up reader start pairs head last (suc n) s u ready answered at le
      (one_more {t = t} {events = k} e rest) =
    let one : t.checkpoint ≡ some (min head (last + 9_001)) =
      one_tick reader start pairs head s last (tick reader start pairs s) t k (ready, answered) at
        le (tick_checkpoint reader start pairs s) e in
    ticks_catch_up reader start pairs head (min head (last + 9_001)) n t u ready answered one
      (ground arith) rest
    ∙ ap some (rounds_end reader start pairs head last n le)
