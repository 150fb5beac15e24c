-- ===== src/Common/Totals.antt =====
-- Sums over the values of a map.
use path_hydra.Common.Tests.{◌==◌, ltb, if◌then◌else◌, Bool-cases}
use path_hydra.Common.Lists.{All}
use path_hydra.Common.Keyed.{lookup, insert, retain, Sorted, lookup-Above, Sorted-retain}
use Prim.Native.Nat.{ℕ, suc, ◌+◌, ◌<◌}
use mathlib.Core.Path.{◌≡◌, refl}
use mathlib.Core.Logic.{inl, inr}
use mathlib.Core.Bool.{false, not}
use mathlib.Core.Option.{none, some}
use mathlib.Core.List.{List, [], ◌∷◌}
use native.Mathlib.Omega.{arith}

module _ {V : Type 0} where
  -- Only entries under other keys stay.
  unfoldable pub remove : List (ℕ × V) → ℕ → List (ℕ × V)
  remove m key = retain (λ k v. not (k == key)) m

module _ {V : Type 0} (weight : V → ℕ) where
  unfoldable pub total : List (ℕ × V) → ℕ
  total [] = 0
  total ((_, v) ∷ m) = weight v + total m

  pub total-insert :
      (m : List (ℕ × V)) (key : ℕ) (value : V)
      → lookup m key ≡ none
      → total (insert m key value) ≡ weight value + total m
  unfolding total insert lookup
  total-insert [] key value h = refl
  total-insert ((k, v) ∷ m) key value h =
      let rest = total-insert m key value in ground (arith, rest, h)

  pub total-remove_absent :
      (m : List (ℕ × V)) (key : ℕ) → lookup m key ≡ none → total (remove m key) ≡ total m
  unfolding total remove retain lookup
  total-remove_absent [] key h = refl
  total-remove_absent ((k, v) ∷ m) key h =
      let rest = total-remove_absent m key in ground (arith, rest, h)

  pub total-remove :
      (m : List (ℕ × V)) (key : ℕ) (value : V)
      → Sorted m
      → lookup m key ≡ some value
      → weight value + total (remove m key) ≡ total m
  unfolding total remove retain lookup
  total-remove [] key value s h = cc
  total-remove ((k, v) ∷ m) key value (a, s) h = elim (Bool-cases (k == key)) [
    | inl same ↦
        let p : k ≡ key = ground arith in
        let q : v ≡ value = cc (rw same at h) in
        let gone = lookup-Above m k key (omega arith) a in
        let rest = total-remove_absent m key gone in rw (same, q) (omega (arith, rest))
    | inr other ↦
        let rest = total-remove m key value s (rw other at h) in rw other (omega (arith, rest))
  ]

module _ {V : Type 0} where
  -- The keys are below a bound.
  abbrev pub Below : ℕ → List (ℕ × V) → Type 0
  Below bound = All (λ e. e.0 < bound)

  pub lookup-Below : (m : List (ℕ × V)) (bound : ℕ) → Below bound m → lookup m bound ≡ none
  unfolding lookup
  lookup-Below [] bound a = refl
  lookup-Below ((k, v) ∷ m) bound (h, a) = let rest = lookup-Below m bound a in ground arith

  pub insert-Below :
      (m : List (ℕ × V)) (bound : ℕ) (value : V)
      → Below bound m
      → Below (suc bound) (insert m bound value)
  unfolding insert
  insert-Below [] bound value a = (omega arith, tt)
  insert-Below ((k, v) ∷ m) bound value (h, a) =
      let rest = insert-Below m bound value a in
      let low : ltb bound k ≡ false = ground arith in
      let other : (k == bound) ≡ false = ground arith in rw (low, other) (omega arith, rest)

  pub lookup-remove :
      (m : List (ℕ × V)) (key other : ℕ)
      → lookup (remove m key) other ≡ (if key == other then none else lookup m other)
  unfolding lookup remove retain
  lookup-remove [] key other = ground arith
  lookup-remove ((k, v) ∷ m) key other =
      let rest = lookup-remove m key other in ground (arith, rest)

  pub Sorted-remove : (m : List (ℕ × V)) (key : ℕ) → Sorted m → Sorted (remove m key)
  unfolding remove
  Sorted-remove m key s = Sorted-retain (λ k v. not (k == key)) m s

  -- What is left was there before.
  pub lookup_of_remove :
      (m : List (ℕ × V)) (key other : ℕ) {value : V}
      → lookup (remove m key) other ≡ some value
      → lookup m other ≡ some value
  lookup_of_remove m key other h =
      let l = lookup-remove m key other in
      elim (Bool-cases (key == other)) [
        | inl same ↦ absurd (cc (rw same at l, h))
        | inr differs ↦ cc (rw differs at l, h)
      ]
