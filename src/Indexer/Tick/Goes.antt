-- ===== src/Indexer/Tick/Goes.antt =====
-- The parts of a tick that return, and its part for new baskets.
use etf.Base.{ℕ, ◌≡◌, ◌∙◌, refl, sym, ap, subst, String, Option, List, [], ◌∷◌, All}
use etf.Base.Results.{Result, ok, err}
use etf.Tx.Mint.{VaultType}
use etf.Indexer.{BasketCreatedEvent, ManagedBasketCreatedEvent, RebalanceBasketCreatedEvent, Store}
use etf.Indexer.Repository.{Write, upsert_basket_with_constituents}
use etf.Indexer.Tick.{
  ChainLogReader, Run, after, ◌>>=◌, ◌>>◌, call, write, stored, each, index_baskets,
}

-- It returned, and `P` holds.
abbrev pub Returned : {A : Type 0} → (Store → Type 0) → Store × Result A → Type 0
Returned P (s, ok a) = P s
Returned P (s, err e) = ⊥

abbrev pub Goes : {A : Type 0} → (Store → Type 0) → Run A → Type 0
Goes P m = (s : Store) → P s → Returned P (m s)

abbrev pub Writes : (Store → Type 0) → Write → Type 0
Writes P w = (s : Store) → P s → (t : Store) × ((w s ≡ ok t) × P t)

module _ (P : Store → Type 0) where
  after-Goes :
      {A B : Type 0} (r : Store × Result A) (f : A → Run B)
      → Returned P r
      → ((a : A) → Goes P (f a))
      → Returned P (after r f)
  after-Goes (s, ok a) f h k = k a s h
  after-Goes (s, err e) f h k = absurd h

  pub seq :
      {A B : Type 0} (m : Run A) (f : A → Run B)
      → Goes P m
      → ((a : A) → Goes P (f a))
      → Goes P (m >>= f)
  seq m f h k s p = after-Goes (m s) f (h s p) k

  pub then-Goes :
      {B : Type 0} (m : Run (Unit {0})) (rest : Run B) → Goes P m → Goes P rest → Goes P (m >> rest)
  then-Goes m rest h k = seq m (λ u. rest) h (λ u. k)

  -- A call that answers.
  pub seq_call :
      {A B : Type 0} (answer : Result A) (f : A → Run B) (a : A)
      → answer ≡ ok a
      → Goes P (f a)
      → Goes P (call answer >>= f)
  seq_call answer f a e k s p = subst (λ r. Returned P (after (s, r) f)) (sym e) (k s p)

  pub write-Goes : (w : Write) → Writes P w → Goes P (write w)
  unfolding write
  write-Goes w k s p =
      let (t, w_ok) = k s p in subst (λ r. Returned P (stored s r)) (sym w_ok.0) w_ok.1

  pub each-Goes :
      {A : Type 0} (apply : A → Write) (es : List A)
      → All (λ e. Writes P (apply e)) es
      → Goes P (each apply es)
  unfolding each
  each-Goes apply [] h = λ s p. p
  each-Goes apply (e ∷ es) h =
      then-Goes (write (apply e)) (each apply es) (write-Goes (apply e) h.0)
        (each-Goes apply es h.1)

  all-Writes :
      {A : Type 0} (apply : A → Write) (es : List A)
      → ((e : A) → Writes P (apply e))
      → All (λ e. Writes P (apply e)) es
  all-Writes apply [] h = tt
  all-Writes apply (e ∷ es) h = (h e, all-Writes apply es h)

-- What returns has returned at each step.
pub call_inv :
    {A B : Type 0} (answer : Result A) (f : A → Run B) (a : A) (s : Store) (n : B)
    → answer ≡ ok a
    → ((call answer >>= f) s).1 ≡ ok n
    → (f a s).1 ≡ ok n
call_inv answer f a s n e h = ap (λ r. (after (s, r) f).1) (sym e) ∙ h

pub then_inv :
    {B : Type 0} (P : Store → Type 0) (r : Store × Result (Unit {0})) (rest : Run B) (n : B)
    → Returned P r
    → (after r (λ u. rest)).1 ≡ ok n
    → P r.0 × ((rest r.0).1 ≡ ok n)
then_inv P (s, ok u) rest n p h = (p, h)
then_inv P (s, err e) rest n p h = absurd p

pub bind_inv :
    {A B : Type 0} (r : Store × Result A) (f : A → Run B) (n : B)
    → (after r f).1 ≡ ok n
    → (a : A) × (r.1 ≡ ok a)
bind_inv (s, ok a) f n h = (a, refl)
bind_inv (s, err e) f n h = cc

-- What the five calls for new baskets answer.
pub record CreatedAnswers (reader : ChainLogReader) (from to : ℕ) : Type 0 where
  pub basic : (es : List BasketCreatedEvent) × (reader.basket_created from to ≡ ok es)
  pub managed :
      (es : List ManagedBasketCreatedEvent) × (reader.managed_basket_created from to ≡ ok es)
  pub committed : (es : List BasketCreatedEvent) × (reader.committed_basket_created from to ≡ ok es)
  pub rebalance :
      (es : List RebalanceBasketCreatedEvent) × (reader.rebalance_basket_created from to ≡ ok es)
  pub registry :
      (es : List RebalanceBasketCreatedEvent) × (reader.registry_index_created from to ≡ ok es)

abbrev pub Anything : Store → Type 0
Anything s = Unit

basket-Writes :
    (e : BasketCreatedEvent) (v : VaultType) (m : Option String) (f p k : Option ℕ)
    (x : Option String)
    → Writes Anything (upsert_basket_with_constituents e v m f p k x)
unfolding upsert_basket_with_constituents
basket-Writes e v m f p k x s q = (_, (refl, tt))

pub index_baskets-Goes :
    (reader : ChainLogReader) (from to : ℕ)
    → CreatedAnswers reader from to
    → Goes Anything (index_baskets reader from to)
unfolding index_baskets
index_baskets-Goes reader from to h =
    let P = Anything in
    seq_call P _ _ h.basic.0 h.basic.1 (
      seq_call P _ _ h.managed.0 h.managed.1 (
        seq_call P _ _ h.committed.0 h.committed.1 (
          seq_call P _ _ h.rebalance.0 h.rebalance.1 (
            seq_call P _ _ h.registry.0 h.registry.1 (
              then-Goes P _ _
                (each-Goes P _ _ (all-Writes P _ _ (λ e. basket-Writes _ _ _ _ _ _ _)))
                (then-Goes P _ _
                  (each-Goes P _ _ (all-Writes P _ _ (λ e. basket-Writes _ _ _ _ _ _ _)))
                  (then-Goes P _ _
                    (each-Goes P _ _ (all-Writes P _ _ (λ e. basket-Writes _ _ _ _ _ _ _)))
                    (then-Goes P _ _
                      (each-Goes P _ _ (all-Writes P _ _ (λ e. basket-Writes _ _ _ _ _ _ _)))
                      (then-Goes P _ _
                        (each-Goes P _ _ (all-Writes P _ _ (λ e. basket-Writes _ _ _ _ _ _ _)))
                        (λ s p. p))))))))))
