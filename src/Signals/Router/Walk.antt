-- ===== src/Signals/Router/Walk.antt =====
-- `getReading` against a description of the reading that it should find.
use etf.Base.{
  ◌≡◌, ◌↔◌, ◌⊎◌, inl, inr, refl, sym, ap, ◌∙◌, subst, if◌then◌else◌, Bool, true, false, String,
  Option, none, some, List, [], ◌∷◌, arith,
}
use mathlib.Core.Option
use etf.Base.Results.{Result, ok, err, Result-cases}
use etf.Oracle.{MarketStatus, OracleSource, OracleReading}
use etf.Signals.Router.{
  Adapter, SignalRouter, NavReading, find_adapter, gate, usable, resolved, synthesized, attempt,
  next_round, walk, fallback_order, get_reading,
}

module _ (router : SignalRouter) (token : String) where
  -- The source has an adapter, may be read, and has a usable reading, which `r` carries.
  abbrev pub Answers : OracleSource → NavReading → Type 0
  Answers s r =
      (a : Adapter) × (q : OracleReading) × (find_adapter s router.adapters ≡ some a)
      × (router.on_chain s ≡ true → router.check ≡ ok true)
      × (usable (a.read token) ≡ some q)
      × (r ≡ resolved router token q)

  -- The source has no adapter, or is on the chain while the sequencer is down, or has no reading.
  abbrev pub IsSkipped : OracleSource → Type 0
  IsSkipped s =
      (find_adapter s router.adapters ≡ none)
      ⊎ ((a : Adapter) × (find_adapter s router.adapters ≡ some a)
          × (((router.on_chain s ≡ true) × (router.check ≡ ok false))
              ⊎ (usable (a.read token) ≡ none)))

  -- A price of 0 now, of no known market and marked as an estimate.
  abbrev pub no_price : NavReading
  no_price = record {
    price = 0;
    confidence = 0;
    timestamp = router.now;
    market_status = MarketStatus.unknown;
    source = OracleSource.last_close;
    estimated = true;
  }

  -- `r` is the answer of the first source of the list that has one, or says that none has.
  abbrev pub IsFirst : List OracleSource → NavReading → Type 0
  IsFirst [] r = r ≡ no_price
  IsFirst (s ∷ rest) r = Answers s r ⊎ (IsSkipped s × IsFirst rest r)

  -- What the walk knows of the sequencer is the gate's answer.
  abbrev Knows : Option Bool → Type 0
  Knows none = Unit
  Knows (some b) = router.check ≡ ok b

  gate-Knows :
      (onchain : Bool) (memo memo' : Option Bool) (allowed : Bool)
      → Knows memo
      → gate onchain memo router.check ≡ ok (allowed, memo')
      → Knows memo'
        × (allowed ≡ true → onchain ≡ true → router.check ≡ ok true)
        × (allowed ≡ false → (onchain ≡ true) × (router.check ≡ ok false))
  unfolding gate
  gate-Knows false memo memo' allowed k e = ground arith
  gate-Knows true none memo' allowed k e = ground arith
  gate-Knows true (some b) memo' allowed k e = ground arith

  next_round-eq-ok :
      (m : Result (Option NavReading × Option Bool)) (more : Option Bool → Result NavReading)
      (r : NavReading)
      → next_round m more ≡ ok r
      → ((memo : Option Bool) × (m ≡ ok (some r, memo)))
        ⊎ ((memo : Option Bool) × (m ≡ ok (none, memo)) × (more memo ≡ ok r))
  next_round-eq-ok (err e) more r h = cc
  next_round-eq-ok (ok (some q, memo)) more r h = inl (memo, cc)
  next_round-eq-ok (ok (none, memo)) more r h = inr (memo, refl, h)

  -- What is said of the answer of one round.
  abbrev RoundIs : OracleSource → Option NavReading → Type 0
  RoundIs s out = ((r : NavReading) × (out ≡ some r) × Answers s r) ⊎ ((out ≡ none) × IsSkipped s)

  round_sound :
      (s : OracleSource) (a : Adapter) (allowed : Bool) (o : Option OracleReading)
      → find_adapter s router.adapters ≡ some a
      → usable (a.read token) ≡ o
      → (allowed ≡ true → router.on_chain s ≡ true → router.check ≡ ok true)
      → (allowed ≡ false → (router.on_chain s ≡ true) × (router.check ≡ ok false))
      → RoundIs s (if allowed then Option.map (resolved router token) o else none)
  round_sound s a true (some q) f u y n =
      inl (resolved router token q, refl, (a, q, f, y refl, u, refl))
  round_sound s a true none f u y n = inr (refl, inr (a, f, inr u))
  round_sound s a false o f u y n = inr (refl, inr (a, f, inl (n refl)))

  -- What one round answers.
  attempt_sound :
      (s : OracleSource) (o : Option Adapter) (memo memo' : Option Bool) (out : Option NavReading)
      → find_adapter s router.adapters ≡ o
      → Knows memo
      → attempt router token o (router.on_chain s) memo ≡ ok (out, memo')
      → Knows memo' × RoundIs s out
  unfolding attempt
  attempt_sound s none memo memo' out f k e = (ground arith, inr (ground arith, inl f))
  attempt_sound s (some a) memo memo' out f k e =
      elim (Result-cases (gate (router.on_chain s) memo router.check)) [
        | inl (msg, x) ↦ cc (rw x at e)
        | inr ((allowed, memo''), x) ↦
            let (k', yes', no') = gate-Knows (router.on_chain s) memo memo'' allowed k x in
            let answer : Option NavReading =
              if allowed
              then Option.map (resolved router token) (usable (a.read token))
              else none in
            let e' : ◌≡◌ {A = Result (Option NavReading × Option Bool)} (ok (answer, memo''))
                (ok (out, memo')) =
              rw x at e in
            let e₀ : answer ≡ out = cc in
            let e₁ : memo'' ≡ memo' = cc in
            (subst Knows e₁ k', subst (RoundIs s) e₀ (round_sound s a allowed _ f refl yes' no'))
      ]

  walk_sound :
      (order : List OracleSource) (memo : Option Bool) (r : NavReading)
      → Knows memo
      → walk router token order memo ≡ ok r
      → IsFirst order r
  unfolding walk
  walk_sound [] memo r k e = cc
  walk_sound (s ∷ rest) memo r k e =
      let o = find_adapter s router.adapters in
      elim (next_round-eq-ok (attempt router token o (router.on_chain s) memo) _ r e) [
        | inl (memo', x) ↦ inl (answered (attempt_sound s o memo memo' (some r) refl k x).1)
        | inr (memo', x, more) ↦
            let (k', round) = attempt_sound s o memo memo' none refl k x in
            inr (skipped round, walk_sound rest memo' r k' more)
      ]
    where
      answered : {q : NavReading} → RoundIs s (some q) → Answers s q
      answered (inl (q', e, a)) = let e' : q' ≡ _ = cc in subst (Answers s) e' a
      answered (inr (e, skip)) = cc

      skipped : RoundIs s none → IsSkipped s
      skipped (inl (q', e, a)) = cc
      skipped (inr (e, skip)) = skip

  Answers-eq : (s : OracleSource) (r r' : NavReading) → Answers s r → Answers s r' → r ≡ r'
  Answers-eq s r r' (a, q, f, y, u, e) (a', q', f', y', u', e') =
      let same_a : a ≡ a' = cc in
      let u'' : usable (a.read token) ≡ some q' =
        subst (λ (t : Adapter). usable (t.read token) ≡ some q') (sym same_a) u' in
      let same_q : q ≡ q' = cc in e ∙ ap (resolved router token) same_q ∙ sym e'

  Answers-not_IsSkipped : (s : OracleSource) (r : NavReading) → Answers s r → IsSkipped s → ⊥
  Answers-not_IsSkipped s r (a, q, f, y, u, e) (inl f') = cc
  Answers-not_IsSkipped s r (a, q, f, y, u, e) (inr (a', f', inl (on, down))) =
      let up : router.check ≡ ok true = y on in cc
  Answers-not_IsSkipped s r (a, q, f, y, u, e) (inr (a', f', inr u')) =
      let same_a : a' ≡ a = cc in
      let u'' : usable (a.read token) ≡ none =
        subst (λ (t : Adapter). usable (t.read token) ≡ none) same_a u' in
      cc

  -- The description names at most one reading.
  IsFirst-eq :
      (order : List OracleSource) (r r' : NavReading) → IsFirst order r → IsFirst order r' → r ≡ r'
  IsFirst-eq [] r r' h h' = h ∙ sym h'
  IsFirst-eq (s ∷ rest) r r' (inl a) (inl a') = Answers-eq s r r' a a'
  IsFirst-eq (s ∷ rest) r r' (inl a) (inr (k, h)) = absurd (Answers-not_IsSkipped s r a k)
  IsFirst-eq (s ∷ rest) r r' (inr (k, h)) (inl a) = absurd (Answers-not_IsSkipped s r' a k)
  IsFirst-eq (s ∷ rest) r r' (inr (k, h)) (inr (k', h')) = IsFirst-eq rest r r' h h'

  -- If the sequencer gate answers, so does the walk.
  walk_total :
      (b : Bool) (order : List OracleSource) (memo : Option Bool)
      → router.check ≡ ok b
      → (r : NavReading) × (walk router token order memo ≡ ok r)
  unfolding walk
  walk_total b [] memo c = (synthesized router token, refl)
  walk_total b (s ∷ rest) memo c =
      go (find_adapter s router.adapters) (router.on_chain s) memo (walk_total b rest)
    where
      proceed :
          (v : Option NavReading × Option Bool)
          → ((m : Option Bool)
              → router.check ≡ ok b
              → (r : NavReading) × (walk router token rest m ≡ ok r))
          → (r : NavReading) × (next_round (ok v) (walk router token rest) ≡ ok r)
      proceed (some r, m) ih = (r, refl)
      proceed (none, m) ih = ih m c

      go :
          (o : Option Adapter) (on : Bool) (m : Option Bool)
          → ((m : Option Bool)
              → router.check ≡ ok b
              → (r : NavReading) × (walk router token rest m ≡ ok r))
          → (r : NavReading) × (next_round (attempt router token o on m) (walk router token rest)
              ≡ ok r)
      go none on m ih = ih m c
      go (some a) false m ih = proceed _ ih
      go (some a) true (some v) ih = proceed _ ih
      go (some a) true none ih = simp c (proceed _ ih)

  -- If the sequencer gate answers, `getReading` returns, and what it returns is the answer of the first
  -- source of the fallback order that has one: a source with an adapter and a usable reading, which on
  -- the chain needs the sequencer up. If none has, it is the estimate of price 0.
  pub get_reading_iff :
      (b : Bool) (r : NavReading)
      → router.check ≡ ok b
      → (get_reading router token ≡ ok r) ↔ IsFirst fallback_order r
  unfolding get_reading
  get_reading_iff b r c =
      let (r', e) = walk_total b fallback_order none c in
      let first = walk_sound fallback_order none r' tt e in
      (
        (λ h. walk_sound fallback_order none r tt h),
        (λ h. e ∙ ap ok (IsFirst-eq fallback_order r' r first h)),
      )

  -- Whatever the gate does, a reading that is returned is that of the first source that answers.
  pub get_reading-IsFirst :
      (r : NavReading) → get_reading router token ≡ ok r → IsFirst fallback_order r
  unfolding get_reading
  get_reading-IsFirst r h = walk_sound fallback_order none r tt h
