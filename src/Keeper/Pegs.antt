-- ===== src/Keeper/Pegs.antt =====
-- Which peg feeds a recording pass refreshes.
use mathlib.Core.List.{append_assoc, append-nil}
use etf.Base.{
  ◌<◌, ◌≡◌, ◌≢◌, ◌↔◌, ◌∙◌, refl, sym, ap, subst, String, true, Option, none, some, List, [], ◌∷◌,
  ◌++◌, Any, ◌==◌, if◌then◌else◌, Bool-cases, inl, inr, arith,
}
use etf.Keeper.{Outcome}
use etf.Keeper.Record.{
  Pair, RecordService, RecordPass, after_record, unless_stopped, record_one, record_all, peg_feeds,
  forward_record_run,
}
use etf.Keeper.Feeds.{IsIn, IsDistinct, IsNamed, peg_feeds_lem}

module _ (svc : RecordService) where
  -- The queues of the vaults with pending tickets.
  active_of : List Pair → List String
  active_of [] = []
  active_of (p ∷ pairs) =
      let rest = active_of pairs in if svc.pending p.vault == 0 then rest else p.queue ∷ rest

  Any-active :
      (P : String → Type 0) (pairs : List Pair)
      → Any P (active_of pairs) ↔ Any (λ p. (0 < svc.pending p.vault) × P p.queue) pairs
  unfolding active_of
  Any-active P [] = ((λ h. h), (λ h. h))
  Any-active P (p ∷ pairs) =
      let rest = Any-active P pairs in
      elim (Bool-cases (svc.pending p.vault == 0)) [
        | inl e ↦ rw e (
          (λ h. inr (rest.0 h)),
          (λ h. elim h [ inl k ↦ absurd (ground (arith, k.0, e)) | inr k ↦ rest.1 k ]),
        )
        | inr e ↦ rw e (
          (λ h. elim h [ inl k ↦ inl (ground arith, k) | inr k ↦ inr (rest.0 k) ]),
          (λ h. elim h [ inl k ↦ inl k.1 | inr k ↦ inr (rest.1 k) ]),
        )
      ]

  active_of-cons :
      (p : Pair) (pairs : List Pair) → active_of (p ∷ pairs) ≡ active_of (p ∷ []) ++ active_of pairs
  unfolding active_of
  active_of-cons p pairs = elim (Bool-cases (svc.pending p.vault == 0)) [
    | inl e ↦ rw e refl
    | inr e ↦ rw e refl
  ]

  active_nil : (s : RecordPass) → s.active_queues ≡ s.active_queues ++ active_of []
  unfolding active_of
  active_nil s = sym (append-nil s.active_queues)

  goes_on :
      (t : RecordPass) (o : Option String) (f : RecordPass → RecordPass)
      → o ≡ none
      → unless_stopped t o f ≡ f t
  goes_on t none f h = refl
  goes_on t (some m) f h = cc

  recorded :
      (s : RecordPass) (o : Outcome)
      → ((m : String) → o ≢ Outcome.unavailable m)
      → ((after_record s o).stopped ≡ s.stopped)
        × ((after_record s o).active_queues ≡ s.active_queues)
  recorded s (Outcome.sent tx) able = (refl, refl)
  recorded s (Outcome.unavailable m) able = absurd (able m refl)
  recorded s (Outcome.thrown m) able = (refl, refl)

  -- Where the capability is there, the pass stops nowhere.
  record_one_active :
      (s : RecordPass) (p : Pair)
      → ((m : String) → svc.record_nav p.vault ≢ Outcome.unavailable m)
      → ((record_one svc s p).stopped ≡ s.stopped)
        × ((record_one svc s p).active_queues ≡ s.active_queues ++ active_of (p ∷ []))
  unfolding active_of
  record_one_active s p able = elim (Bool-cases (svc.pending p.vault == 0)) [
    | inl e ↦ rw e (refl, sym (append-nil s.active_queues))
    | inr e ↦ rw e (
        recorded (record s { active_queues = s.active_queues ++ (p.queue ∷ []) })
          (svc.record_nav p.vault) able)
  ]

  record_all_active :
      (s : RecordPass) (pairs : List Pair)
      → ((v m : String) → svc.record_nav v ≢ Outcome.unavailable m)
      → s.stopped ≡ none
      → ((record_all svc s pairs).stopped ≡ none)
        × ((record_all svc s pairs).active_queues ≡ s.active_queues ++ active_of pairs)
  unfolding record_all
  record_all_active s [] able h = (h, active_nil s)
  record_all_active s (p ∷ pairs) able h =
      let next = record_one svc s p in
      let one = record_one_active s p (able p.vault) in
      let run : record_all svc s (p ∷ pairs) ≡ record_all svc next pairs =
        goes_on next next.stopped (λ t. record_all svc t pairs) (one.0 ∙ h) in
      let rest = record_all_active next pairs able (one.0 ∙ h) in
      (
        ap (λ (t : RecordPass). t.stopped) run ∙ rest.0,
        ap (λ (t : RecordPass). t.active_queues) run
            ∙ rest.1
            ∙ ap (λ (qs : List String). qs ++ active_of pairs) one.1
            ∙ append_assoc s.active_queues (active_of (p ∷ [])) (active_of pairs)
            ∙ ap (λ (qs : List String). s.active_queues ++ qs) (sym (active_of-cons p pairs)),
      )

-- A recording pass of a keeper that is on, with a wallet, and whose writer's capability is there,
-- whichever of its transactions fail: it refreshes each peg feed once, and refreshes a feed exactly when
-- it is the address, in lower case, that the queue of a vault with pending tickets names as its own, and
-- not the zero address.
pub forward_record_run_feeds :
    (svc : RecordService)
    → svc.operator.enabled ≡ true
    → svc.operator.wallet ≡ true
    → ((v m : String) → svc.record_nav v ≢ Outcome.unavailable m)
    → IsDistinct (forward_record_run svc).1
      × ((f : String)
          → IsIn f (forward_record_run svc).1
            ↔ Any
                (λ (p : Pair). (0 < svc.pending p.vault) × IsNamed f (svc.peg_feed p.queue))
                svc.pairs)
unfolding forward_record_run
forward_record_run_feeds svc on wallet able =
    let start : RecordPass = record { poked = 0; active_queues = []; stopped = none } in
    let pass = record_all_active svc start svc.pairs able refl in
    let feeds : (forward_record_run svc).1 ≡ peg_feeds svc [] (active_of svc svc.pairs) =
      simp (on, wallet, pass.0, pass.1) refl in
    let P : List String → Type 0 = λ fs.
      IsDistinct fs
      × ((f : String)
          → IsIn f fs
            ↔ Any (λ (p : Pair). (0 < svc.pending p.vault) × IsNamed f (svc.peg_feed p.queue))
                svc.pairs) in
    subst P (sym feeds) (
      (peg_feeds_lem svc "" [] (active_of svc svc.pairs)).1 tt,
      (λ f.
          let set = (peg_feeds_lem svc f [] (active_of svc svc.pairs)).0 in
          let active = Any-active svc (λ q. IsNamed f (svc.peg_feed q)) svc.pairs in
          (
            (λ h. elim (set.0 h) [ inl k ↦ absurd k | inr k ↦ active.0 k ]),
            (λ h. set.1 (inr (active.1 h))),
          )),
    )
