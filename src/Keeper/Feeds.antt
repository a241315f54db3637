-- ===== src/Keeper/Feeds.antt =====
-- The set of peg feeds that `refreshPegFeeds` gathers.
use etf.Base.{
  ◌≡◌, ◌≢◌, ◌⊎◌, ◌↔◌, refl, subst, String, true, ◌||◌, List, [], ◌∷◌, ◌++◌, any, All, All-append,
  Any, Bool-cases, inl, inr, arith,
}
use etf.Base.Results.{Result, ok, err}
use etf.Base.Text.{str_eq, eq_iff, to_lower}
use etf.Keeper.Record.{RecordService, add_feed, peg_feeds}

-- Is one of them.
abbrev pub IsIn : String → List String → Type 0
IsIn f feeds = Any (λ g. g ≡ f) feeds

abbrev pub IsDistinct : List String → Type 0
IsDistinct [] = Unit
IsDistinct (f ∷ feeds) = All (λ g. f ≢ g) feeds × IsDistinct feeds

-- What a queue's getter answers names a feed: neither the empty text nor the zero address.
abbrev pub IsNamed : String → Result String → Type 0
IsNamed f (err e) = ⊥
IsNamed f (ok feed) =
    (feed ≢ "") × (feed ≢ "0x0000000000000000000000000000000000000000") × (to_lower feed ≡ f)

any_iff : (f : String) (feeds : List String) → (any (λ g. str_eq g f) feeds ≡ true) ↔ IsIn f feeds
any_iff f [] = ((λ h. cc), (λ h. absurd h))
any_iff f (g ∷ feeds) =
    let rest = any_iff f feeds in
    (
      (λ h. elim (Bool-cases (str_eq g f)) [
        | inl e ↦ inl ((eq_iff g f).0 e)
        | inr e ↦ inr (rest.0 (subst (λ b. (b || any (λ x. str_eq x f) feeds) ≡ true) e h))
      ]),
      (λ h. elim h [ inl e ↦ rw ((eq_iff g f).1 e) refl | inr k ↦ rw (rest.1 k) (ground arith) ]),
    )

IsIn-snoc :
    (f g : String) (feeds : List String) → IsIn f (feeds ++ (g ∷ [])) ↔ (IsIn f feeds ⊎ (g ≡ f))
IsIn-snoc f g [] = (
  (λ h. elim h [ inl e ↦ inr e | inr k ↦ absurd k ]),
  (λ h. elim h [ inl k ↦ absurd k | inr e ↦ inl e ]),
)
IsIn-snoc f g (x ∷ feeds) =
    let rest = IsIn-snoc f g feeds in
    (
      (λ h. elim h [
        | inl e ↦ inl (inl e)
        | inr k ↦ elim (rest.0 k) [ inl j ↦ inl (inr j) | inr e ↦ inr e ]
      ]),
      (λ h. elim h [
        | inl k ↦ elim k [ inl e ↦ inl e | inr j ↦ inr (rest.1 (inl j)) ]
        | inr e ↦ inr (rest.1 (inr e))
      ]),
    )

IsDistinct-snoc :
    (g : String) (feeds : List String)
    → ¬ IsIn g feeds
    → IsDistinct feeds
    → IsDistinct (feeds ++ (g ∷ []))
IsDistinct-snoc g [] new d = (tt, tt)
IsDistinct-snoc g (f ∷ feeds) new d = (
  All-append (λ h. f ≢ h) feeds (g ∷ []) d.0 ((λ e. new (inl e)), tt),
  IsDistinct-snoc g feeds (λ k. new (inr k)) d.1,
)

module _ (svc : RecordService) where
  abbrev zero_address : String
  zero_address = "0x0000000000000000000000000000000000000000"

  -- One more answer: it is in the set if it names a feed, once.
  add_feed_lem :
      (f : String) (feeds : List String) (r : Result String)
      → (IsIn f (add_feed svc feeds r) ↔ (IsIn f feeds ⊎ IsNamed f r))
        × (IsDistinct feeds → IsDistinct (add_feed svc feeds r))
  add_feed_lem f feeds (err e) =
      (((λ h. inl h), (λ h. elim h [ inl k ↦ k | inr k ↦ absurd k ])), (λ d. d))
  add_feed_lem f feeds (ok feed) = elim (Bool-cases (str_eq feed "")) [
    | inl e ↦ rw e (
      ((λ h. inl h), (λ h. elim h [ inl k ↦ k | inr k ↦ absurd (k.0 ((eq_iff feed "").0 e)) ])),
      (λ d. d),
    )
    | inr e ↦ elim (Bool-cases (str_eq feed zero_address)) [
      | inl z ↦
          rw (e, z)
            (
              (
                (λ h. inl h),
                (λ h. elim h [ inl k ↦ k | inr k ↦ absurd (k.1 ((eq_iff feed zero_address).0 z)) ]),
              ),
              (λ d. d),
            )
      | inr z ↦
          let named : (feed ≢ "") × (feed ≢ zero_address) =
            ((λ k. cc (e, (eq_iff feed "").1 k)), (λ k. cc (z, (eq_iff feed zero_address).1 k))) in
          elim (Bool-cases (any (λ g. str_eq g (to_lower feed)) feeds)) [
            | inl old ↦
                rw (e, z, old)
                  (
                    (
                      (λ h. inl h),
                      (λ h. elim h [
                        | inl k ↦ k
                        | inr k ↦
                            subst (λ g. IsIn g feeds) k.2 ((any_iff (to_lower feed) feeds).0 old)
                      ]),
                    ),
                    (λ d. d),
                  )
            | inr new ↦
                rw (e, z, new)
                  (
                    (
                      (λ h. elim ((IsIn-snoc f (to_lower feed) feeds).0 h) [
                        | inl k ↦ inl k
                        | inr k ↦ inr (named.0, named.1, k)
                      ]),
                      (λ h.
                          (IsIn-snoc f (to_lower feed) feeds).1
                            (elim h [ inl k ↦ inl k | inr k ↦ inr k.2 ])),
                    ),
                    IsDistinct-snoc (to_lower feed) feeds
                        (λ k. cc (new, (any_iff (to_lower feed) feeds).1 k)),
                  )
          ]
    ]
  ]

  pub peg_feeds_lem :
      (f : String) (feeds queues : List String)
      → (IsIn f (peg_feeds svc feeds queues)
          ↔ (IsIn f feeds ⊎ Any (λ q. IsNamed f (svc.peg_feed q)) queues))
        × (IsDistinct feeds → IsDistinct (peg_feeds svc feeds queues))
  unfolding peg_feeds
  peg_feeds_lem f feeds [] =
      (((λ h. inl h), (λ h. elim h [ inl k ↦ k | inr k ↦ absurd k ])), (λ d. d))
  peg_feeds_lem f feeds (q ∷ queues) =
      let here = add_feed_lem f feeds (svc.peg_feed q) in
      let rest = peg_feeds_lem f (add_feed svc feeds (svc.peg_feed q)) queues in
      (
        (
          (λ h. elim (rest.0.0 h) [
            | inl k ↦ elim (here.0.0 k) [ inl j ↦ inl j | inr n ↦ inr (inl n) ]
            | inr n ↦ inr (inr n)
          ]),
          (λ h. elim h [
            | inl k ↦ rest.0.1 (inl (here.0.1 (inl k)))
            | inr n ↦ elim n [
              | inl m ↦ rest.0.1 (inl (here.0.1 (inr m)))
              | inr m ↦ rest.0.1 (inr m)
            ]
          ]),
        ),
        (λ d. rest.1 (here.1 d)),
      )
