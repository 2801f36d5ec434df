-- ===== src/Prelude/Dict.antt =====
-- A hash map as an association list with keys that occur once, and the laws its clients use.
use Prim.Native.Nat.{suc, ◌≤◌}
use mathlib.Core.Path.{◌≡◌, refl}
use mathlib.Core.Bool.{Bool}
use mathlib.Core.Option.{Option, none, some}
use mathlib.Core.List.{List, [], ◌∷◌}
use native.Mathlib.Omega.{arith}
use aircraft_api_r.Prelude.Tests.{Eq, if◌then◌else◌, is_some}
use aircraft_api_r.Prelude.Lists.{length}

abbrev pub Dict {ℓ κ} : Type ℓ → Type κ → Type (ℓ ⊔ κ)
Dict K V = List (K × V)

abbrev pub keep_if {ℓ} : {V : Type ℓ} → (V → Bool) → Option V → Option V
keep_if f none = none
keep_if f (some v) = if f v then some v else none

module _ {ℓ κ} {K : Type ℓ} {V : Type κ} where
  unfoldable pub retain : (V → Bool) → Dict K V → Dict K V
  retain f [] = []
  retain f ((j, w) ∷ m) = let rest = retain f m in if f w then (j, w) ∷ rest else rest

  pub length-retain-le : (f : V → Bool) (m : Dict K V) → length (retain f m) ≤ length m
  unfolding retain
  length-retain-le f [] = omega arith
  length-retain-le f ((j, w) ∷ m) = ground (arith, length-retain-le f m)

module _ {ℓ κ} {K : Type ℓ} {V : Type κ} ⦃e : Eq K⦄ where
  unfoldable pub lookup : K → Dict K V → Option V
  lookup k [] = none
  lookup k ((j, v) ∷ m) = if e.beq j k then some v else lookup k m

  unfoldable pub contains : K → Dict K V → Bool
  unfolding lookup
  contains k m = is_some (lookup k m)

  -- Replaces the value of a key that is there, and adds the key otherwise.
  unfoldable pub insert : K → V → Dict K V → Dict K V
  insert k v [] = (k, v) ∷ []
  insert k v ((j, w) ∷ m) = if e.beq j k then (j, v) ∷ m else (j, w) ∷ insert k v m

  abbrev pub DistinctKeys : Dict K V → Type κ
  DistinctKeys [] = Unit
  DistinctKeys ((k, v) ∷ m) = (lookup k m ≡ none) × DistinctKeys m

  pub lookup-insert :
      (k j : K) (v : V) (m : Dict K V)
      → lookup j (insert k v m) ≡ (if e.beq k j then some v else lookup j m)
  unfolding lookup insert
  lookup-insert k j v [] = refl
  lookup-insert k j v ((i, w) ∷ m) =
      ground (arith, e.beq_iff k j, e.beq_iff i k, e.beq_iff i j, lookup-insert k j v m)

  lookup-retain_absent :
      (f : V → Bool) (k : K) (m : Dict K V) → lookup k m ≡ none → lookup k (retain f m) ≡ none
  unfolding lookup retain
  lookup-retain_absent f k [] h = refl
  lookup-retain_absent f k ((j, w) ∷ m) h = ground (arith, lookup-retain_absent f k m)

  pub lookup-retain :
      (f : V → Bool) (k : K) (m : Dict K V)
      → DistinctKeys m
      → lookup k (retain f m) ≡ keep_if f (lookup k m)
  unfolding lookup retain
  lookup-retain f k [] h = refl
  lookup-retain f k ((j, w) ∷ m) (fresh, h) =
      ground (arith, lookup-retain f k m h, lookup-retain_absent f j m fresh, e.beq_iff j k)

  pub DistinctKeys-insert :
      (k : K) (v : V) (m : Dict K V) → DistinctKeys m → DistinctKeys (insert k v m)
  unfolding insert lookup
  DistinctKeys-insert k v [] h = (refl, tt)
  DistinctKeys-insert k v ((j, w) ∷ m) (fresh, h) =
      ground
        (arith, lookup-insert k j v m, DistinctKeys-insert k v m h, e.beq_iff j k, e.beq_iff k j)

  pub DistinctKeys-retain :
      (f : V → Bool) (m : Dict K V) → DistinctKeys m → DistinctKeys (retain f m)
  unfolding retain
  DistinctKeys-retain f [] h = tt
  DistinctKeys-retain f ((j, w) ∷ m) (fresh, h) =
      ground (arith, DistinctKeys-retain f m h, lookup-retain_absent f j m fresh)

  pub length-insert :
      (k : K) (v : V) (m : Dict K V)
      → length (insert k v m) ≡ (if contains k m then length m else suc (length m))
  unfolding insert contains
  length-insert k v [] = refl
  length-insert k v ((j, w) ∷ m) = ground (arith, length-insert k v m)
