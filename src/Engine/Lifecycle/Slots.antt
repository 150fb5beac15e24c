-- ===== src/Engine/Lifecycle/Slots.antt =====
-- The counts by kind, under the operations on them.
use path_hydra.Common.{
  ℕ, ◌+◌, ◌-◌, ◌≤◌, ◌<◌, ◌≡◌, ◌≢◌, refl, ◌↔◌, ◌⊎◌, inl, inr, ◌==◌, Option, none, some, List, [],
  ◌∷◌, ◌++◌, ok, ok_or, ok_or-eq-ok, >>=-eq-ok, holds_of_ok, Bool-cases, arith,
}
use path_hydra.Core.{checked_add, checked_add-eq-some}
use path_hydra.Engine.Lifecycle.{
  EngineLifecycleState, OperationKind, ActiveOperationCounts, State, no_operations, slot, set_slot,
  add_to, total, decrement, mark_shut_down,
}

-- How many permits of a kind are held.
unfoldable pub same_kind : OperationKind → OperationKind → ℕ
same_kind OperationKind.route OperationKind.route = 1
same_kind OperationKind.mutation OperationKind.mutation = 1
same_kind OperationKind.checkpoint OperationKind.checkpoint = 1
same_kind OperationKind.maintenance OperationKind.maintenance = 1
same_kind _ _ = 0

unfoldable pub held : OperationKind → List OperationKind → ℕ
held kind [] = 0
held kind (k ∷ kinds) = same_kind kind k + held kind kinds

slot-set_slot :
    (k kind : OperationKind) (n : ℕ) (active : ActiveOperationCounts)
    → ((same_kind k kind ≡ 1)
        × (slot k (set_slot kind n active) ≡ n)
        × (slot k active ≡ slot kind active))
      ⊎ ((same_kind k kind ≡ 0) × (slot k (set_slot kind n active) ≡ slot k active))
unfolding same_kind slot set_slot
slot-set_slot OperationKind.route OperationKind.route n active = inl (refl, refl, refl)
slot-set_slot OperationKind.route OperationKind.mutation n active = inr (refl, refl)
slot-set_slot OperationKind.route OperationKind.checkpoint n active = inr (refl, refl)
slot-set_slot OperationKind.route OperationKind.maintenance n active = inr (refl, refl)
slot-set_slot OperationKind.mutation OperationKind.route n active = inr (refl, refl)
slot-set_slot OperationKind.mutation OperationKind.mutation n active = inl (refl, refl, refl)
slot-set_slot OperationKind.mutation OperationKind.checkpoint n active = inr (refl, refl)
slot-set_slot OperationKind.mutation OperationKind.maintenance n active = inr (refl, refl)
slot-set_slot OperationKind.checkpoint OperationKind.route n active = inr (refl, refl)
slot-set_slot OperationKind.checkpoint OperationKind.mutation n active = inr (refl, refl)
slot-set_slot OperationKind.checkpoint OperationKind.checkpoint n active = inl (refl, refl, refl)
slot-set_slot OperationKind.checkpoint OperationKind.maintenance n active = inr (refl, refl)
slot-set_slot OperationKind.maintenance OperationKind.route n active = inr (refl, refl)
slot-set_slot OperationKind.maintenance OperationKind.mutation n active = inr (refl, refl)
slot-set_slot OperationKind.maintenance OperationKind.checkpoint n active = inr (refl, refl)
slot-set_slot OperationKind.maintenance OperationKind.maintenance n active = inl (refl, refl, refl)

pub slot-up :
    (k kind : OperationKind) (active : ActiveOperationCounts)
    → slot k (set_slot kind (slot kind active + 1) active) ≡ same_kind k kind + slot k active
slot-up k kind active = elim (slot-set_slot k kind (slot kind active + 1) active) [
  | inl (p, q, r) ↦ omega (arith, p, q, r)
  | inr (p, q) ↦ omega (arith, p, q)
]

pub slot-decrement :
    (k kind : OperationKind) (active : ActiveOperationCounts)
    → 0 < slot kind active
    → same_kind k kind + slot k (decrement kind active) ≡ slot k active
unfolding decrement
slot-decrement k kind active h = elim (slot-set_slot k kind (slot kind active - 1) active) [
  | inl (p, q, r) ↦ omega (arith, p, q, r, h)
  | inr (p, q) ↦ omega (arith, p, q)
]

pub held-append :
    (kind : OperationKind) (ks ls : List OperationKind)
    → held kind (ks ++ ls) ≡ held kind ks + held kind ls
unfolding held
held-append kind [] ls = omega arith
held-append kind (k ∷ ks) ls = omega (arith, held-append kind ks ls)

pub same_kind_self : (kind : OperationKind) → same_kind kind kind ≡ 1
unfolding same_kind
same_kind_self OperationKind.route = refl
same_kind_self OperationKind.mutation = refl
same_kind_self OperationKind.checkpoint = refl
same_kind_self OperationKind.maintenance = refl

pub same_kind_other :
    (kind : OperationKind)
    → kind ≢ OperationKind.maintenance
    → same_kind OperationKind.maintenance kind ≡ 0
unfolding same_kind
same_kind_other OperationKind.route m = refl
same_kind_other OperationKind.mutation m = refl
same_kind_other OperationKind.checkpoint m = refl
same_kind_other OperationKind.maintenance m = absurd (m refl)

pub slot-no_operations : (kind : OperationKind) → slot kind no_operations ≡ 0
unfolding slot no_operations
slot-no_operations OperationKind.route = refl
slot-no_operations OperationKind.mutation = refl
slot-no_operations OperationKind.checkpoint = refl
slot-no_operations OperationKind.maintenance = refl

add_to-eq-some :
    (o : Option ℕ) (n sum : ℕ) → add_to o n ≡ some sum → (m : ℕ) × (o ≡ some m) × (sum ≡ m + n)
unfolding add_to
add_to-eq-some none n sum h = cc h
add_to-eq-some (some m) n sum h = (m, refl, checked_add-eq-some m n sum h)

total-eq-some :
    (a : ActiveOperationCounts) (n : ℕ)
    → total a ≡ some n
    → n ≡ a.routes + a.mutations + a.checkpoints + a.maintenances
unfolding total
total-eq-some a n h =
    let (x, p, q) =
      add_to-eq-some (add_to (checked_add a.routes a.mutations) a.checkpoints) a.maintenances n h in
    let (y, p1, q1) = add_to-eq-some (checked_add a.routes a.mutations) a.checkpoints x p in
    let r = checked_add-eq-some a.routes a.mutations y p1 in omega (arith, q, q1, r)

slot-le :
    (k : OperationKind) (a : ActiveOperationCounts)
    → slot k a ≤ a.routes + a.mutations + a.checkpoints + a.maintenances
unfolding slot
slot-le OperationKind.route a = omega arith
slot-le OperationKind.mutation a = omega arith
slot-le OperationKind.checkpoint a = omega arith
slot-le OperationKind.maintenance a = omega arith

-- A total of nothing is where every kind has none.
pub total-eq-zero_iff :
    (a : ActiveOperationCounts) → (total a ≡ some 0) ↔ ((k : OperationKind) → slot k a ≡ 0)
unfolding total add_to checked_add slot
total-eq-zero_iff a = (
  (λ h k. let n = total-eq-some a 0 h in let low = slot-le k a in omega (arith, n, low)),
  λ idle.
      let p : a.routes ≡ 0 = idle OperationKind.route in
      let q : a.mutations ≡ 0 = idle OperationKind.mutation in
      let r : a.checkpoints ≡ 0 = idle OperationKind.checkpoint in
      let t : a.maintenances ≡ 0 = idle OperationKind.maintenance in rw (p, q, r, t) refl,
)

pub none_held : (kinds : List OperationKind) → ((k : OperationKind) → held k kinds ≡ 0) → kinds ≡ []
unfolding held
none_held [] h = refl
none_held (k ∷ kinds) h =
    let self = same_kind_self k in let here = h k in absurd (omega (arith, self, here))

-- The engine shuts down only where nothing is active.
pub mark_shut_down-eq-ok :
    (s s' : State)
    → mark_shut_down s ≡ ok s'
    → ((k : OperationKind) → slot k s.active ≡ 0)
      × (s' ≡ record s { lifecycle = EngineLifecycleState.shut_down })
unfolding mark_shut_down
mark_shut_down-eq-ok s s' h =
    let (n, e, h1) = >>=-eq-ok (ok_or (total s.active) _) _ h in
    elim (Bool-cases (n == 0)) [
      | inl empty ↦
          let z : n ≡ 0 = ground (arith, empty) in
          let t : total s.active ≡ some 0 = rw z at (ok_or-eq-ok (total s.active) _ e) in
          (
            (total-eq-zero_iff s.active).0 t,
            holds_of_ok (λ x. x ≡ record s { lifecycle = EngineLifecycleState.shut_down }) refl
                (rw empty at h1),
          )
      | inr some_left ↦ absurd (cc (rw some_left at h1))
    ]
