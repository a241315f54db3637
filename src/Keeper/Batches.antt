-- ===== src/Keeper/Batches.antt =====
-- Which tickets a pass sends to be settled, and what it reports.
use etf.Base.{
  ℕ, ◌+◌, ◌≤◌, ◌≡◌, ◌⊎◌, ◌∙◌, refl, sym, ap, subst, String, true, Option, none, some, List, [], ◌∷◌,
  ◌++◌, All, All-append, inl, inr, arith,
}
use etf.Base.Results.{Result, ok, err, or_else}
use etf.Keeper.{KeeperStatus, KeeperResult, Outcome, prepare}
use etf.Keeper.Forward.{
  ForwardService, Batch, ForwardPass, ids_of, after_settle, after_prepare, settle_batch,
  unless_stopped, settle_queues, forward_report, idle, settle_for, forward_settle_run,
}
use etf.Keeper.Due.{IsDue, IsComplete, IsQuiet, IsGoodBatch, picked, AreFound, all_found, quiet_lem}

module _ (svc : ForwardService) (ap' : String) where
  abbrev AreGood : ForwardPass → Type 0
  AreGood s = All (IsGoodBatch svc ap') s.batches

  settle_good : (s : ForwardPass) (o : Outcome) → AreGood s → AreGood (after_settle svc s o)
  settle_good s (Outcome.sent tx) h = h
  settle_good s (Outcome.unavailable m) h = h
  settle_good s (Outcome.thrown m) h = h

  prepare_good :
      (s : ForwardPass) (b : Batch) (r : Result KeeperResult)
      → IsGoodBatch svc ap' b
      → AreGood s
      → AreGood (after_prepare svc s b r)
  prepare_good s b (err m) g h = h
  prepare_good s b (ok r) g h =
      settle_good (record s { batches = s.batches ++ (b ∷ []) }) (svc.settle b.vault b.ids b.ap)
        (All-append (IsGoodBatch svc ap') s.batches (b ∷ []) h (g, tt))

  batch_good :
      (s : ForwardPass) (vault : String) (is : List ℕ)
      → All (IsDue svc vault) is
      → IsComplete svc vault is
      → AreGood s
      → AreGood (settle_batch svc ap' s vault is)
  batch_good s vault [] d c h = h
  batch_good s vault (i ∷ is) d c h =
      prepare_good (record s { found_batches = s.found_batches + 1 })
        (record { vault = vault; ids = i ∷ is; ap = ap' })
        (prepare svc.operator svc.approve vault (i ∷ is)) ((λ e. cc), refl, d, c) h

  stop_good :
      (s : ForwardPass) (o : Option String) (f : ForwardPass → ForwardPass)
      → AreGood s
      → AreGood (f s)
      → AreGood (unless_stopped s o f)
  stop_good s none f h k = k
  stop_good s (some m) f h k = h

  queues_good :
      (s : ForwardPass) (vaults : List String)
      → AreGood s
      → AreGood (settle_queues svc ap' s vaults)
  unfolding settle_queues ids_of
  queues_good s [] h = h
  queues_good s (v ∷ vs) h =
      let fee = or_else (svc.flat_create_fee v) 0 in
      let next = settle_batch svc ap' s v (ids_of svc v) in
      let good =
        batch_good s v (ids_of svc v) (picked fee svc.now (svc.tickets v))
          (all_found fee svc.now (svc.tickets v)) h in
      stop_good next next.stopped (λ t. settle_queues svc ap' t vs) good (queues_good next vs good)

  settle_found :
      (s : ForwardPass) (o : Outcome) → (after_settle svc s o).found_batches ≡ s.found_batches
  settle_found s (Outcome.sent tx) = refl
  settle_found s (Outcome.unavailable m) = refl
  settle_found s (Outcome.thrown m) = refl

  prepare_found :
      (s : ForwardPass) (b : Batch) (r : Result KeeperResult)
      → (after_prepare svc s b r).found_batches ≡ s.found_batches
  prepare_found s b (err m) = refl
  prepare_found s b (ok r) =
      settle_found (record s { batches = s.batches ++ (b ∷ []) }) (svc.settle b.vault b.ids b.ap)

  -- A queue either has nothing due and changes nothing, or it is counted.
  batch_found :
      (s : ForwardPass) (vault : String) (is : List ℕ)
      → ((is ≡ []) × (settle_batch svc ap' s vault is ≡ s))
        ⊎ ((settle_batch svc ap' s vault is).found_batches ≡ s.found_batches + 1)
  batch_found s vault [] = inl (refl, refl)
  batch_found s vault (i ∷ is) = inr (
      prepare_found (record s { found_batches = s.found_batches + 1 })
        (record { vault = vault; ids = i ∷ is; ap = ap' })
        (prepare svc.operator svc.approve vault (i ∷ is)))

  stop_more :
      (s : ForwardPass) (o : Option String) (f : ForwardPass → ForwardPass)
      → s.found_batches ≤ (f s).found_batches
      → s.found_batches ≤ (unless_stopped s o f).found_batches
  stop_more s none f h = h
  stop_more s (some m) f h = omega arith

  batch_more :
      (s : ForwardPass) (vault : String) (is : List ℕ)
      → s.found_batches ≤ (settle_batch svc ap' s vault is).found_batches
  batch_more s vault is = elim (batch_found s vault is) [
    | inl (e, same) ↦ rw same (omega arith)
    | inr e ↦ omega (arith, e)
  ]

  queues_more :
      (s : ForwardPass) (vaults : List String)
      → s.found_batches ≤ (settle_queues svc ap' s vaults).found_batches
  unfolding settle_queues
  queues_more s [] = omega arith
  queues_more s (v ∷ vs) =
      let next = settle_batch svc ap' s v (ids_of svc v) in
      let more =
        stop_more next next.stopped (λ t. settle_queues svc ap' t vs) (queues_more next vs) in
      omega (arith, batch_more s v (ids_of svc v), more)

  queues_idle :
      (s : ForwardPass) (vaults : List String)
      → s.stopped ≡ none
      → (settle_queues svc ap' s vaults).found_batches ≡ 0
      → All (λ (v : String). ids_of svc v ≡ []) vaults
  unfolding settle_queues
  queues_idle s [] on none_found = tt
  queues_idle s (v ∷ vs) on none_found =
      let f = λ (t : ForwardPass). settle_queues svc ap' t vs in
      let next = settle_batch svc ap' s v (ids_of svc v) in
      elim (batch_found s v (ids_of svc v)) [
        | inl (e, same) ↦
            let run : unless_stopped next next.stopped f ≡ f s =
              ap (λ (n : ForwardPass). unless_stopped n n.stopped f) same
              ∙ ap (λ (o : Option String). unless_stopped s o f) on in
            let left : (f s).found_batches ≡ 0 =
              ap (λ (n : ForwardPass). n.found_batches) (sym run) ∙ none_found in
            (e, queues_idle s vs on left)
        | inr e ↦
            let more = stop_more next next.stopped f (queues_more next vs) in
            absurd (omega (arith, e, more, none_found))
      ]

  report_skipped :
      (s : ForwardPass) (o : Option String)
      → (forward_report s o).status ≡ KeeperStatus.skipped
      → s.found_batches ≡ 0
  report_skipped s (some m) h = cc
  report_skipped s none h = ground (arith, h)

  idle_lem :
      (vaults : List String)
      → All (λ (v : String). ids_of svc v ≡ []) vaults
      → All (IsQuiet svc) vaults
  unfolding ids_of
  idle_lem [] h = tt
  idle_lem (v ∷ vs) h =
      let fee = or_else (svc.flat_create_fee v) 0 in
      (
        quiet_lem fee svc.now (svc.tickets v) (
            subst (AreFound fee svc.now (svc.tickets v)) (h.0)
              (all_found fee svc.now (svc.tickets v))),
        idle_lem vs h.1,
      )

  settled_for :
      All (IsGoodBatch svc ap') (settle_for svc (some ap')).1
      × ((settle_for svc (some ap')).0.status ≡ KeeperStatus.skipped → All (IsQuiet svc) svc.vaults)
  settled_for = (
    queues_good idle svc.vaults tt,
    (λ h.
        let end = settle_queues svc ap' idle svc.vaults in
        idle_lem svc.vaults (queues_idle idle svc.vaults refl (report_skipped end end.stopped h))),
  )

-- A pass of the forward keeper that is on, with a wallet and a filler: each batch that it sends is not
-- empty, goes to the filler, and holds exactly the tickets that are pending for its vault, past their
-- cutoff, and, if they are creates, of more cash than the fee (0 where the vault has none). It reports
-- that it skipped only when no vault has such a ticket.
pub forward_settle_run_lem :
    (svc : ForwardService) (filler : String)
    → svc.operator.enabled ≡ true
    → svc.operator.wallet ≡ true
    → svc.operator.ap_filler ≡ some filler
    → All (IsGoodBatch svc filler) (forward_settle_run svc).1
      × ((forward_settle_run svc).0.status ≡ KeeperStatus.skipped → All (IsQuiet svc) svc.vaults)
unfolding forward_settle_run
forward_settle_run_lem svc filler on wallet found =
    let run : forward_settle_run svc ≡ settle_for svc (some filler) =
      simp (on, wallet, found) refl in
    subst
      (λ (out : KeeperResult × List Batch).
        All (IsGoodBatch svc filler) out.1
        × (out.0.status ≡ KeeperStatus.skipped → All (IsQuiet svc) svc.vaults))
      (sym run) (settled_for svc filler)
