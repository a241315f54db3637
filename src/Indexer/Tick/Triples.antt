-- ===== src/Indexer/Tick/Triples.antt =====
-- What holds after a part of a tick, whether it returns or throws.
use etf.Base.{◌≡◌, ◌⊎◌, refl, String, Bool, true, false, List, [], ◌∷◌, inl, inr, if◌then◌else◌}
use etf.Base.Results.{Result, ok, err, Result-cases}
use etf.Tx.Mint.{Constituent}
use etf.Indexer.{Store}
use etf.Indexer.Repository.{Write, is_indexed, with_basket, replaced}
use etf.Indexer.Tick.{Run, after, ◌>>=◌, ◌>>◌, ret, call, write, try_write, each}

-- `P` where it threw, `Q` of the value where it returned.
abbrev pub Meets :
    {A : Type 0} → (Store → Type 0) → (A → Store → Type 0) → Store × Result A → Type 0
Meets P Q (s, ok a) = Q a s
Meets P Q (s, err e) = P s

abbrev pub Triple : {A : Type 0} → (Store → Type 0) → Run A → (A → Store → Type 0) → Type 0
Triple P m Q = (s : Store) → P s → Meets P Q (m s)

-- A part that keeps `P`, whether it returns or throws.
abbrev pub Keeps : {A : Type 0} → (Store → Type 0) → Run A → Type 0
Keeps P m = Triple P m (λ a s. P s)

abbrev pub KeptBy : (Store → Type 0) → Write → Type 0
KeptBy P w = (s : Store) → P s → (s' : Store) → w s ≡ ok s' → P s'

module _ (P : Store → Type 0) where
  after_lem :
      {A B : Type 0} (r : Store × Result A) (f : A → Run B) (Q : B → Store → Type 0)
      → Meets P (λ a s. P s) r
      → ((a : A) → Triple P (f a) Q)
      → Meets P Q (after r f)
  after_lem (s, ok a) f Q h k = k a s h
  after_lem (s, err e) f Q h k = h

  pub bind :
      {A B : Type 0} (m : Run A) (f : A → Run B) (Q : B → Store → Type 0)
      → Keeps P m
      → ((a : A) → Triple P (f a) Q)
      → Triple P (m >>= f) Q
  bind m f Q h k s p = after_lem (m s) f Q (h s p) k

  -- A chain of parts that keep `P` keeps it.
  pub seq :
      {A B : Type 0} (m : Run A) (f : A → Run B)
      → Keeps P m
      → ((a : A) → Keeps P (f a))
      → Keeps P (m >>= f)
  seq m f h k = bind m f (λ b s. P s) h k

  pub then_lem :
      {B : Type 0} (m : Run (Unit {0})) (rest : Run B)
      → Keeps P m
      → Keeps P rest
      → Keeps P (m >> rest)
  then_lem m rest h k = seq m (λ u. rest) h (λ u. k)

  pub ret-Keeps : {A : Type 0} (a : A) → Keeps P (ret a)
  ret-Keeps a s p = p

  pub call-Keeps : {A : Type 0} (answer : Result A) → Keeps P (call answer)
  call-Keeps (ok a) s p = p
  call-Keeps (err e) s p = p

  pub write-Keeps : (w : Write) → KeptBy P w → Keeps P (write w)
  unfolding write
  write-Keeps w k s p = elim (Result-cases (w s)) [
    | inl (e, h) ↦ rw h p
    | inr (s', h) ↦ rw h (k s p s' h)
  ]

  pub try_write-Keeps : (w : Write) → KeptBy P w → Keeps P (try_write w)
  unfolding try_write
  try_write-Keeps w k s p = elim (Result-cases (w s)) [
    | inl (e, h) ↦ rw h p
    | inr (s', h) ↦ rw h (k s p s' h)
  ]

  pub each-Keeps :
      {A : Type 0} (apply : A → Write) (es : List A)
      → ((e : A) → KeptBy P (apply e))
      → Keeps P (each apply es)
  unfolding each
  each-Keeps apply [] k = ret-Keeps tt
  each-Keeps apply (e ∷ es) k =
      then_lem (write (apply e)) (each apply es) (write-Keeps (apply e) (k e))
        (each-Keeps apply es k)

guarded :
    (b : Bool) (s t : Store) (e : String)
    → (if b then ok s else err e) ≡ ok t
    → (b ≡ true) × (s ≡ t)
guarded true s t e h = (refl, cc)
guarded false s t e h = cc

-- A write whose row has a foreign key succeeds only where the basket is there.
pub with_basket_ok :
    (vault : String) (s s' t : Store)
    → with_basket vault s s' ≡ ok t
    → (is_indexed s vault ≡ true) × (s' ≡ t)
with_basket_ok vault s s' t h =
    guarded (is_indexed s vault) s' t "Foreign key constraint violated" h

-- A write of a recipe leaves one of its two tables.
pub replaced_ok :
    (b : Bool) (cs : List Constituent) (full pruned t : Store)
    → replaced b cs full pruned ≡ ok t
    → (full ≡ t) ⊎ (pruned ≡ t)
replaced_ok true cs full pruned t h = inl (cc)
replaced_ok false [] full pruned t h = inr (cc)
replaced_ok false (c ∷ cs) full pruned t h = cc
