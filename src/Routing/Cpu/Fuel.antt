-- ===== src/Routing/Cpu/Fuel.antt =====
-- That the fuel of the models of cpu.rs is enough: what a computation promises that never runs out,
-- and what an image promises so that the search ends.
pub mod Growth
pub mod Unpaid
pub mod Search
pub mod Paths
pub mod Whole
use path_hydra.Common.{
  ℕ, ◌+◌, ◌≤◌, ◌<◌, ◌≡◌, ◌≢◌, refl, Bool, true, false, ok, err, none, some, Option, Result, guard,
  ok_or, ◌>>=◌, ◌>>◌, arith,
}
use path_hydra.Routing.Request.{RoutingError, out_of_fuel, Invariant, internal_invariant}
use path_hydra.Routing.Topology.{RoutingTopology}

abbrev pub IsFuelled {ℓ} : {A : Type ℓ} → Result RoutingError A → Type ℓ
IsFuelled r = r ≢ err out_of_fuel

pub IsFuelled->>= {ℓ κ} :
    {A : Type ℓ} {B : Type κ} (first : Result RoutingError A) (next : A → Result RoutingError B)
    → IsFuelled first
    → ((a : A) → first ≡ ok a → IsFuelled (next a))
    → IsFuelled (first >>= next)
IsFuelled->>= (ok a) next h k = k a refl
IsFuelled->>= (err e) next h k = λ p. h (cc)

pub IsFuelled-ok {ℓ} : {A : Type ℓ} (a : A) → IsFuelled (ok a)
IsFuelled-ok a = λ p. cc p

pub IsFuelled-guard : (test : Bool) (e : RoutingError) → e ≢ out_of_fuel → IsFuelled (guard test e)
IsFuelled-guard true e h = λ p. cc p
IsFuelled-guard false e h = λ p. h (cc)

pub IsFuelled-ok_or {ℓ} :
    {A : Type ℓ} (o : Option A) (e : RoutingError) → e ≢ out_of_fuel → IsFuelled (ok_or o e)
IsFuelled-ok_or none e h = λ p. h (cc)
IsFuelled-ok_or (some a) e h = λ p. cc p

-- The invariants that the code checks have errors of their own.
pub IsFuelled-require :
    (test : Bool) (reason : Invariant) → IsFuelled (guard test (internal_invariant reason))
IsFuelled-require test reason = IsFuelled-guard test (internal_invariant reason) (λ p. cc p)

pub IsFuelled-found {ℓ} :
    {A : Type ℓ} (o : Option A) (reason : Invariant)
    → IsFuelled (ok_or o (internal_invariant reason))
IsFuelled-found o reason = IsFuelled-ok_or o (internal_invariant reason) (λ p. cc p)

-- The outgoing ranges follow one another, from `offset`, and end within the adjacency count. The
-- image's own errors are errors of the code.
pub record IsBounded (t : RoutingTopology) : Type 0 where
  pub offset : ℕ → ℕ
  pub offset_mono : (u : ℕ) → offset u ≤ offset (u + 1)
  pub offset_le : offset t.node_count ≤ t.adjacency_count
  pub range_eq :
      (u start end : ℕ)
      → t.outgoing_range u ≡ ok (start, end)
      → (u < t.node_count) × (start ≡ offset u) × (end ≡ offset (u + 1))
  pub range-IsFuelled : (u : ℕ) → IsFuelled (t.outgoing_range u)
  pub edge-IsFuelled : (adjacency clock : ℕ) → IsFuelled (t.edge_at adjacency clock)
