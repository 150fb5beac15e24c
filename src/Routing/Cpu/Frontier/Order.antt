-- ===== src/Routing/Cpu/Frontier/Order.antt =====
-- The frontier stays in order, and holds what is pushed and nothing else.
use path_hydra.Common.{ℕ, ◌≤◌, ◌≡◌, ◌↔◌, ◌⊎◌, inl, inr, List, [], ◌∷◌, Has, All, arith}
use path_hydra.Routing.Cpu.Frontier.{FrontierEntry, push}

-- No entry behind another has a smaller distance.
abbrev pub IsSorted : List FrontierEntry → Type 0
IsSorted [] = Unit
IsSorted (x ∷ xs) = All (λ y. x.distance ≤ y.distance) xs × IsSorted xs

All-push :
    (d : ℕ) (e : FrontierEntry) (xs : List FrontierEntry)
    → d ≤ e.distance
    → All (λ y. d ≤ y.distance) xs
    → All (λ y. d ≤ y.distance) (push e xs)
unfolding push
All-push d e [] h a = (h, tt)
All-push d e (x ∷ xs) h a = ground (arith, All-push d e xs)

All-weaken :
    (d c : ℕ) (xs : List FrontierEntry)
    → d ≤ c
    → All (λ y. c ≤ y.distance) xs
    → All (λ y. d ≤ y.distance) xs
All-weaken d c [] h a = tt
All-weaken d c (x ∷ xs) h (first, rest) = (omega arith, All-weaken d c xs h rest)

pub push-IsSorted :
    (e : FrontierEntry) (xs : List FrontierEntry) → IsSorted xs → IsSorted (push e xs)
unfolding push
push-IsSorted e [] s = (tt, tt)
push-IsSorted e (x ∷ xs) (least, s) =
    ground
      (arith, push-IsSorted e xs, All-push x.distance e xs, All-weaken e.distance x.distance xs)

-- The popped entry has the least distance.
pub le_of_Has :
    (d : ℕ) (xs : List FrontierEntry) (y : FrontierEntry)
    → All (λ z. d ≤ z.distance) xs
    → Has y xs
    → d ≤ y.distance
le_of_Has d [] y a h = absurd h
le_of_Has d (x ∷ xs) y a (inl e) = rw e a.0
le_of_Has d (x ∷ xs) y a (inr h) = le_of_Has d xs y a.1 h

pub Has-push :
    (y e : FrontierEntry) (xs : List FrontierEntry) → Has y (push e xs) ↔ ((y ≡ e) ⊎ Has y xs)
unfolding push
Has-push y e [] = (λ h. h, λ h. h)
Has-push y e (x ∷ xs) = ground (arith, Has-push y e xs)
