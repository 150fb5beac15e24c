-- ===== src/Store/Family/Lookup.antt =====
-- Looking a key up in a column family.
use path_hydra.Common.{
  ◌≡◌, refl, sym, subst, inl, inr, true, if◌then◌else◌, none, [], ◌∷◌, Bool-cases, arith,
}
use path_hydra.Core.{Bytes}
use path_hydra.Store.Family.{Family, bytes_eq, get, delete}

pub bytes_eq→eq : (x y : Bytes) → bytes_eq x y ≡ true → x ≡ y
unfolding bytes_eq
bytes_eq→eq [] [] h = refl
bytes_eq→eq [] (b ∷ y) h = absurd (cc h)
bytes_eq→eq (a ∷ x) [] h = absurd (cc h)
bytes_eq→eq (a ∷ x) (b ∷ y) h = let rest = bytes_eq→eq x y in ground (arith, h, rest)

pub bytes_eq_refl : (x : Bytes) → bytes_eq x x ≡ true
unfolding bytes_eq
bytes_eq_refl [] = refl
bytes_eq_refl (a ∷ x) = let rest = bytes_eq_refl x in ground (arith, rest)

pub get-delete :
    (family : Family) (key other : Bytes)
    → get (delete family key) other ≡ (if bytes_eq key other then none else get family other)
unfolding get delete
get-delete [] key other = ground arith
get-delete ((k, v) ∷ family) key other =
    let rest = get-delete family key other in
    elim (Bool-cases (bytes_eq k key)) [
      | inl same ↦ let p = bytes_eq→eq k key same in rw (same, rest, p) (ground (arith))
      | inr differs ↦ elim (Bool-cases (bytes_eq k other)) [
        | inl here ↦ elim (Bool-cases (bytes_eq key other)) [
          | inl there ↦
              let p : key ≡ other = bytes_eq→eq key other there in
              absurd (cc (subst (λ x. bytes_eq k x ≡ true) (sym p) here, differs))
          | inr apart ↦ rw (differs, here, apart) refl
        ]
        | inr apart ↦ rw (differs, apart, rest) refl
      ]
    ]
