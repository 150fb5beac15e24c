-- ===== src/Store/Family.antt =====
-- A column family whose keys are bytes: its entries in the order of the keys, as the catalog's
-- database keeps and iterates them.
pub mod Lookup
pub mod Order
use path_hydra.Common.{
  ℕ, Bool, true, false, ◌==◌, ◌&&◌, if◌then◌else◌, Option, none, some, List, [], ◌∷◌,
}
use path_hydra.Core.{Bytes}
use path_hydra.Store.Codec.KeyOrder.{comes_before}

unfoldable pub bytes_eq : Bytes → Bytes → Bool
bytes_eq [] [] = true
bytes_eq [] (_ ∷ _) = false
bytes_eq (_ ∷ _) [] = false
bytes_eq (x ∷ xs) (y ∷ ys) = x == y && bytes_eq xs ys

-- The entries hold a number each: an identity.
abbrev pub Family : Type 0
Family = List (Bytes × ℕ)

unfoldable pub get : Family → Bytes → Option ℕ
get [] key = none
get ((k, v) ∷ entries) key = if bytes_eq k key then some v else get entries key

unfoldable pub put : Family → Bytes → ℕ → Family
put [] key value = (key, value) ∷ []
put ((k, v) ∷ entries) key value =
    if bytes_eq k key
    then (key, value) ∷ entries
    else if comes_before key k
    then (key, value) ∷ (k, v) ∷ entries
    else (k, v) ∷ put entries key value

unfoldable pub delete : Family → Bytes → Family
delete [] key = []
delete ((k, v) ∷ entries) key =
    if bytes_eq k key then delete entries key else (k, v) ∷ delete entries key

-- The entries from a key on.
unfoldable pub seek : Family → Bytes → Family
seek [] key = []
seek ((k, v) ∷ entries) key = if comes_before k key then seek entries key else (k, v) ∷ entries
