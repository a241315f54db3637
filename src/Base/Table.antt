-- ===== src/Base/Table.antt =====
-- A table of the database with a unique key: what Prisma's `findUnique` and `upsert` do on it. The rows
-- stand in the order in which they were created.
use mathlib.Core.List.{List, [], ◌∷◌}
use mathlib.Core.Bool.{Bool, true}
use mathlib.Core.Option.{Option, none, some}
use mathlib.Core.Path.{◌≡◌, refl}
use mathlib.Core.Logic.{◌↔◌}
use native.Mathlib.Omega.{arith}
use etf.Base.Tests.{if◌then◌else◌}

abbrev pub Table {ℓ κ} : Type ℓ → Type κ → Type (ℓ ⊔ κ)
Table K V = List (K × V)

-- What an upsert leaves under its key.
abbrev pub upserted {ℓ} : {V : Type ℓ} → V → (V → V) → Option V → V
upserted create update none = create
upserted create update (some v) = update v

module _ {ℓ κ} {K : Type ℓ} {V : Type κ} (same : K → K → Bool) where
  unfoldable pub find : Table K V → K → Option V
  find [] k = none
  find ((j, v) ∷ t) k = if same j k then some v else find t k

  unfoldable pub upsert : K → V → (V → V) → Table K V → Table K V
  upsert k create update [] = (k, create) ∷ []
  upsert k create update ((j, v) ∷ t) =
      if same j k then (j, update v) ∷ t else (j, v) ∷ upsert k create update t

  -- An upsert changes what is under its key, and nothing else.
  pub find-upsert :
      ((i j : K) → (same i j ≡ true) ↔ (i ≡ j))
      → (k j : K) (create : V) (update : V → V) (t : Table K V)
      → find (upsert k create update t) j
        ≡ (if same k j then some (upserted create update (find t k)) else find t j)
  unfolding find upsert
  find-upsert lawful k j create update [] = refl
  find-upsert lawful k j create update ((i, v) ∷ t) =
      ground (arith, lawful k j, lawful i k, lawful i j, find-upsert lawful k j create update t)
