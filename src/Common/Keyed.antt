-- ===== src/Common/Keyed.antt =====
-- `BTreeMap` with numbers as keys: the list of its entries in the order of the keys.
use Prim.Native.Nat.{ℕ, ◌≤◌, ◌<◌}
use mathlib.Core.Path.{◌≡◌, refl, subst}
use mathlib.Core.Logic.{◌↔◌, ◌⊎◌, inl, inr}
use mathlib.Core.Bool.{Bool, true, false}
use mathlib.Core.Option.{Option, none, some}
use mathlib.Core.List.{List, [], ◌∷◌}
use native.Mathlib.Omega.{arith}
use path_hydra.Common.Tests.{ltb, ◌==◌, if◌then◌else◌, Bool-cases}
use path_hydra.Common.Lists.{All, Has}

module _ {V : Type 0} where
  unfoldable pub lookup : List (ℕ × V) → ℕ → Option V
  lookup [] key = none
  lookup ((k, v) ∷ m) key = if k == key then some v else lookup m key

  unfoldable pub insert : List (ℕ × V) → ℕ → V → List (ℕ × V)
  insert [] key value = (key, value) ∷ []
  insert ((k, v) ∷ m) key value =
      if ltb key k
      then (key, value) ∷ (k, v) ∷ m
      else if k == key
      then (key, value) ∷ m
      else (k, v) ∷ insert m key value

  unfoldable pub retain : (ℕ → V → Bool) → List (ℕ × V) → List (ℕ × V)
  retain keep [] = []
  retain keep ((k, v) ∷ m) = if keep k v then (k, v) ∷ retain keep m else retain keep m

  abbrev Above : ℕ → List (ℕ × V) → Type 0
  Above bound = All (λ e. bound < e.0)

  -- The keys grow strictly.
  abbrev pub Sorted : List (ℕ × V) → Type 0
  Sorted [] = Unit
  Sorted ((k, v) ∷ m) = Above k m × Sorted m

  pub lookup-insert :
      (m : List (ℕ × V)) (key : ℕ) (value : V) (other : ℕ)
      → lookup (insert m key value) other ≡ (if key == other then some value else lookup m other)
  unfolding lookup insert
  lookup-insert [] key value other = refl
  lookup-insert ((k, v) ∷ m) key value other =
      let rest = lookup-insert m key value other in ground (arith, rest)

  pub Has-of_lookup :
      (m : List (ℕ × V)) (key : ℕ) (value : V) → lookup m key ≡ some value → Has (key, value) m
  unfolding lookup
  Has-of_lookup [] key value h = cc
  Has-of_lookup ((k, v) ∷ m) key value h = elim (Bool-cases (k == key)) [
    | inl same ↦ let p : k ≡ key = ground arith in let q : v ≡ value = cc (rw same at h) in inl (cc)
    | inr other ↦ inr (Has-of_lookup m key value (rw other at h))
  ]

  pub Has-insert :
      (m : List (ℕ × V)) (key : ℕ) (value : V) (e : ℕ × V)
      → Has e (insert m key value)
      → (e ≡ (key, value)) ⊎ Has e m
  unfolding insert
  Has-insert [] key value e h = ground arith
  Has-insert ((k, v) ∷ m) key value e h = ground (arith, Has-insert m key value e)

  pub Has-retain :
      (keep : ℕ → V → Bool) (m : List (ℕ × V)) (e : ℕ × V)
      → Has e (retain keep m)
      → Has e m × (keep e.0 e.1 ≡ true)
  unfolding retain
  Has-retain keep [] e h = absurd h
  Has-retain keep ((k, v) ∷ m) e h = let rest = Has-retain keep m e in ground (arith, rest)

  Above-trans : (m : List (ℕ × V)) (low high : ℕ) → low < high → Above high m → Above low m
  Above-trans [] low high h a = tt
  Above-trans ((k, v) ∷ m) low high h (a, rest) = (omega arith, Above-trans m low high h rest)

  Above-insert :
      (m : List (ℕ × V)) (bound key : ℕ) (value : V)
      → bound < key
      → Above bound m
      → Above bound (insert m key value)
  unfolding insert
  Above-insert [] bound key value h a = (h, tt)
  Above-insert ((k, v) ∷ m) bound key value h (a, rest) =
      let tail = Above-insert m bound key value h rest in ground (arith, tail)

  pub Sorted-insert :
      (m : List (ℕ × V)) (key : ℕ) (value : V) → Sorted m → Sorted (insert m key value)
  unfolding insert
  Sorted-insert [] key value s = (tt, tt)
  Sorted-insert ((k, v) ∷ m) key value (a, s) =
      let tail = Sorted-insert m key value s in
      let above = Above-insert m k key value in
      let trans = Above-trans m key k in ground (arith, tail, above, trans)

  Above-retain :
      (keep : ℕ → V → Bool) (m : List (ℕ × V)) (bound : ℕ)
      → Above bound m
      → Above bound (retain keep m)
  unfolding retain
  Above-retain keep [] bound a = tt
  Above-retain keep ((k, v) ∷ m) bound (a, rest) =
      let tail = Above-retain keep m bound rest in ground (arith, tail)

  pub Sorted-retain : (keep : ℕ → V → Bool) (m : List (ℕ × V)) → Sorted m → Sorted (retain keep m)
  unfolding retain
  Sorted-retain keep [] s = tt
  Sorted-retain keep ((k, v) ∷ m) (a, s) =
      let tail = Sorted-retain keep m s in
      let above = Above-retain keep m k a in ground (arith, tail, above)

  -- No key of a list above a bound is at most the bound.
  pub lookup-Above :
      (m : List (ℕ × V)) (bound key : ℕ) → key ≤ bound → Above bound m → lookup m key ≡ none
  unfolding lookup
  lookup-Above [] bound key h a = refl
  lookup-Above ((k, v) ∷ m) bound key h (a, rest) =
      let tail = lookup-Above m bound key h rest in ground (arith, tail)

  pub lookup-retain :
      (keep : ℕ → V → Bool) (m : List (ℕ × V)) (key : ℕ) (value : V)
      → Sorted m
      → (lookup (retain keep m) key ≡ some value)
        ↔ ((lookup m key ≡ some value) × (keep key value ≡ true))
  unfolding lookup retain
  lookup-retain keep [] key value s = ground arith
  lookup-retain keep ((k, v) ∷ m) key value (a, s) =
      let tail = lookup-retain keep m key value s in
      let gone = lookup-Above (retain keep m) k k (omega arith) (Above-retain keep m k a) in
      elim (Bool-cases (k == key)) [
        | inl same ↦
            let p : k ≡ key = ground arith in
            elim (Bool-cases (keep k v)) [
              | inl kept ↦ rw (kept, same) (ground arith)
              | inr dropped ↦
                  let gone' : lookup (retain keep m) key ≡ none =
                    subst (λ x. lookup (retain keep m) x ≡ none) p gone in
                  let no : keep key v ≡ false = subst (λ x. keep x v ≡ false) p dropped in
                  rw (dropped, same)
                    ((λ h. absurd (cc (h, gone'))), (λ (h, kept). absurd (cc (h, kept, no))))
            ]
        | inr other ↦ elim (Bool-cases (keep k v)) [
          | inl kept ↦ rw (kept, other) tail
          | inr dropped ↦ rw (dropped, other) tail
        ]
      ]

  pub lookup_of_Has :
      (m : List (ℕ × V)) (key : ℕ) (value : V)
      → Sorted m
      → Has (key, value) m
      → lookup m key ≡ some value
  unfolding lookup
  lookup_of_Has [] key value s h = absurd h
  lookup_of_Has ((k, v) ∷ m) key value (a, s) (inl same) =
      let p : key ≡ k = cc in let q : value ≡ v = cc in ground arith
  lookup_of_Has ((k, v) ∷ m) key value (a, s) (inr later) =
      let tail = lookup_of_Has m key value s later in
      let above = lookup-Above m k key in ground (arith, tail, above, a)

  -- Two maps in order with the same lookups are the same list.
  pub lookup_ext :
      (m n : List (ℕ × V)) → Sorted m → Sorted n → ((key : ℕ) → lookup m key ≡ lookup n key) → m ≡ n
  unfolding lookup
  lookup_ext [] [] s t same = refl
  lookup_ext [] ((k, v) ∷ n) s t same = absurd (ground (arith, same k))
  lookup_ext ((k, v) ∷ m) [] s t same = absurd (ground (arith, same k))
  lookup_ext ((k, v) ∷ m) ((l, w) ∷ n) (a, s) (b, t) same =
      let at_k = same k in
      let at_l = same l in
      let left = lookup-Above m k l in
      let right = lookup-Above n l k in
      let keys : k ≡ l = ground (arith, at_k, at_l, left, right) in
      let values : v ≡ w = ground (arith, at_k) in
      let rest : m ≡ n = lookup_ext m n s t (λ key. elim (Bool-cases (k == key)) [
        | inl here ↦
            let above = lookup-Above m k key in
            let above' = lookup-Above n l key in ground (arith, above, above')
        | inr other ↦ let x = same key in ground (arith, x)
      ]) in
      cc (keys, values, rest)
