-- ===== src/Store/Catalog/Commit.antt =====
-- What a write that succeeds has written.
use path_hydra.Common.{◌≡◌, refl, sym, Bool, true, false, ok, ◌>>=◌, holds_of_ok}
use path_hydra.Store.Catalog.{Catalog, commit_batch}

pub commit_batch-eq-ok :
    {A : Type 0} (accepted : Bool) (batch : Catalog) (told : A) (end : Catalog × A)
    → (do written ← commit_batch accepted batch; ok (written, told)) ≡ ok end
    → end ≡ (batch, told)
unfolding commit_batch
commit_batch-eq-ok true batch told end h = sym (holds_of_ok (λ x. (batch, told) ≡ x) refl h)
commit_batch-eq-ok false batch told end h = absurd (cc h)
