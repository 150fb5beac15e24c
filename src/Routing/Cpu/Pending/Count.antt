-- ===== src/Routing/Cpu/Pending/Count.antt =====
-- How many of the first `n` nodes are marked, and what a change of one mark does to it.
use path_hydra.Common.{
  ℕ, zero, suc, ◌+◌, ◌<◌, ◌≡◌, refl, inl, inr, Bool, true, false, arith, ◌==◌, if◌then◌else◌,
  Bool-cases,
}
use path_hydra.Routing.Cpu.{update}

unfoldable pub marked_below : ℕ → (ℕ → Bool) → ℕ
marked_below zero p = 0
marked_below (suc n) p = (if p n then 1 else 0) + marked_below n p

-- A mark beyond `n` does not count.
marked_below_beyond :
    (n : ℕ) (p : ℕ → Bool) (i : ℕ) (b : Bool)
    → n < i + 1
    → marked_below n (update p i b) ≡ marked_below n p
unfolding marked_below
marked_below_beyond zero p i b h = refl
marked_below_beyond (suc n) p i b h = ground (arith, marked_below_beyond n p i b)

pub marked_below-set :
    (n : ℕ) (p : ℕ → Bool) (i : ℕ)
    → i < n
    → p i ≡ false
    → marked_below n (update p i true) ≡ marked_below n p + 1
unfolding marked_below
marked_below-set zero p i h e = elim h [ ]
marked_below-set (suc n) p i h e = elim (Bool-cases (i == n)) [
  | inl last ↦ let q : i ≡ n = ground arith in ground (arith, marked_below_beyond n p i true)
  | inr earlier ↦ ground (arith, marked_below-set n p i)
]

pub marked_below-clear :
    (n : ℕ) (p : ℕ → Bool) (i : ℕ)
    → i < n
    → p i ≡ true
    → marked_below n (update p i false) + 1 ≡ marked_below n p
unfolding marked_below
marked_below-clear zero p i h e = elim h [ ]
marked_below-clear (suc n) p i h e = elim (Bool-cases (i == n)) [
  | inl last ↦ let q : i ≡ n = ground arith in ground (arith, marked_below_beyond n p i false)
  | inr earlier ↦ ground (arith, marked_below-clear n p i)
]

-- Clearing what is not marked changes nothing.
pub marked_below-clear_unmarked :
    (n : ℕ) (p : ℕ → Bool) (i : ℕ)
    → p i ≡ false
    → marked_below n (update p i false) ≡ marked_below n p
unfolding marked_below
marked_below-clear_unmarked zero p i e = refl
marked_below-clear_unmarked (suc n) p i e = ground (arith, marked_below-clear_unmarked n p i)

-- With a count of 0 nothing is marked.
pub unmarked_of_zero : (n : ℕ) (p : ℕ → Bool) (i : ℕ) → marked_below n p ≡ 0 → i < n → p i ≡ false
unfolding marked_below
unmarked_of_zero zero p i e h = elim h [ ]
unmarked_of_zero (suc n) p i e h = elim (Bool-cases (i == n)) [
  | inl last ↦ let q : i ≡ n = ground arith in ground arith
  | inr earlier ↦ ground (arith, unmarked_of_zero n p i)
]

pub marked_below-none : (n : ℕ) → marked_below n (λ _. false) ≡ 0
unfolding marked_below
marked_below-none zero = refl
marked_below-none (suc n) = omega (arith, marked_below-none n)
