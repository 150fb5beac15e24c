-- ===== src/Store/Family/Order.antt =====
-- The order of the keys of a column family, and what a seek to a prefix leaves.
use path_hydra.Common.{
  ℕ, ◌≡◌, refl, inl, inr, true, false, [], ◌∷◌, ◌++◌, take, length, All, Has, Bool-cases, arith,
}
use path_hydra.Core.{Bytes}
use path_hydra.Store.Codec.KeyOrder.{comes_before}
use path_hydra.Store.Family.{Family, seek}

comes_before_trans :
    (x y z : Bytes) → comes_before x y ≡ true → comes_before y z ≡ true → comes_before x z ≡ true
unfolding comes_before
comes_before_trans x [] z h k = absurd (never x h)
  where
    never : (x : Bytes) → comes_before x [] ≡ true → ⊥
    never [] h = cc h
    never (a ∷ x) h = cc h
comes_before_trans [] (b ∷ y) [] h k = absurd (cc k)
comes_before_trans [] (b ∷ y) (c ∷ z) h k = refl
comes_before_trans (a ∷ x) (b ∷ y) [] h k = absurd (cc k)
comes_before_trans (a ∷ x) (b ∷ y) (c ∷ z) h k =
    let rest = comes_before_trans x y z in ground (arith, h, k, rest)

-- A key does not stand before its prefix.
pub comes_before-prefix : (prefix rest : Bytes) → comes_before (prefix ++ rest) prefix ≡ false
unfolding comes_before
comes_before-prefix [] [] = refl
comes_before-prefix [] (b ∷ rest) = refl
comes_before-prefix (a ∷ prefix) rest =
    let below = comes_before-prefix prefix rest in ground (arith, below)

-- What stands between a prefix and a key that has it, has it too.
pub has_prefix_between :
    (prefix rest key : Bytes)
    → comes_before key prefix ≡ false
    → comes_before key (prefix ++ rest) ≡ true
    → take (length prefix) key ≡ prefix
unfolding comes_before
has_prefix_between [] rest key h k = refl
has_prefix_between (a ∷ prefix) rest [] h k = absurd (cc h)
has_prefix_between (a ∷ prefix) rest (b ∷ key) h k =
    let below = has_prefix_between prefix rest key in
    let same : a ≡ b = ground (arith, h, k) in
    let p : take (length prefix) key ≡ prefix = ground (arith, h, k, below) in cc (same, p)

-- The keys rise strictly.
abbrev pub Rising : Family → Type 0
Rising [] = Unit
Rising ((k, _) ∷ family) = All (λ e. comes_before k e.0 ≡ true) family × Rising family

-- No key stands before the given one.
abbrev pub From : Bytes → Family → Type 0
From key = All (λ e. comes_before e.0 key ≡ false)

From-Rising :
    (key head : Bytes) (family : Family)
    → comes_before head key ≡ false
    → All (λ e. comes_before head e.0 ≡ true) family
    → From key family
From-Rising key head [] h a = tt
From-Rising key head ((k, v) ∷ family) h (above, a) = (
  elim (Bool-cases (comes_before k key)) [
    | inl before ↦ absurd (cc (comes_before_trans head k key above before, h))
    | inr after ↦ after
  ],
  From-Rising key head family h a,
)

-- A seek leaves no key before the sought one, in their order.
pub seek-From :
    (family : Family) (key : Bytes)
    → Rising family
    → From key (seek family key) × Rising (seek family key)
unfolding seek
seek-From [] key r = (tt, tt)
seek-From ((k, v) ∷ family) key (a, r) = elim (Bool-cases (comes_before k key)) [
  | inl before ↦ rw before (seek-From family key r)
  | inr after ↦ rw after ((after, From-Rising key k family after a), (a, r))
]

-- A seek passes over no entry that does not stand before the sought key.
pub Has-seek :
    (family : Family) (key : Bytes) (e : Bytes × ℕ)
    → Has e family
    → comes_before e.0 key ≡ false
    → Has e (seek family key)
unfolding seek
Has-seek [] key e h after = absurd h
Has-seek ((k, v) ∷ family) key e h after = elim (Bool-cases (comes_before k key)) [
  | inl before ↦ elim h [
    | inl same ↦ absurd (cc (before, after, same))
    | inr later ↦ rw before (Has-seek family key e later after)
  ]
  | inr here ↦ rw here h
]
