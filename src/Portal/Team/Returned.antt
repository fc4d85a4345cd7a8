-- ===== src/Portal/Team/Returned.antt =====
-- What `createManagedAccess` and `updateManagedAccess` of portal_server/main.go return.
use textile_erp_cloud.Base.{◌≡◌, refl, List, [], ◌∷◌, ◌++◌, update_first}
use textile_erp_cloud.Base.Int.{ℤ}
use textile_erp_cloud.Base.Result.{Result, ok, err, Yields-ok}
use textile_erp_cloud.Base.Text.{Text}
use textile_erp_cloud.Portal.Access.{Access}
use textile_erp_cloud.Portal.Steps.{and_then}
use textile_erp_cloud.Portal.Managed.{
  stored, create_access, create_managed, update_access, update_managed,
}
use textile_erp_cloud.Portal.Terms.{Spec}
use textile_erp_cloud.Portal.Managed.Granted.{
  IsGranted, create_access-IsGranted, update_access-IsGranted,
}
use textile_erp_cloud.Portal.Services.{AccessError, Services, Draws}
use textile_erp_cloud.Portal.Store.{Row, read_accesses, has_id}

pub and_then-ok :
    {A B : Type 0} (k : A → List Row → Result AccessError B × List Row)
    (r : Result AccessError A × List Row) (b : B)
    → (and_then k r).0 ≡ ok b
    → (a : A) × (r.0 ≡ ok a) × ((k a r.1).0 ≡ ok b)
and_then-ok k (ok a, file) b h = (a, refl, h)
and_then-ok k (err e, file) b h = absurd (cc)

pub stored-ok :
    {A : Type 0} (file : List Row) (f : A → List Access) (r : Result AccessError A) (a : A)
    → (stored file f r).0 ≡ ok a
    → r ≡ ok a
stored-ok file f (ok b) a h = h
stored-ok file f (err e) a h = absurd (cc)

pub create_managed-IsGranted :
    (sv : Services) (now : ℤ) (dr : Draws) (raw : Spec) (file : List Row) (a : Access × Text)
    → (create_managed sv now dr raw file).0 ≡ ok a
    → IsGranted raw a
unfolding create_managed
create_managed-IsGranted sv now dr raw file a h =
    Yields-ok (create_access-IsGranted sv now dr raw (read_accesses file)) (
      stored-ok file (λ (r : Access × Text). read_accesses file ++ (r.0 ∷ []))
        (create_access sv now dr raw (read_accesses file)) a h)

pub update_managed-IsGranted :
    (sv : Services) (now : ℤ) (dr : Draws) (id : ℤ) (raw : Spec) (file : List Row)
    (a : Access × Text)
    → (update_managed sv now dr id raw file).0 ≡ ok a
    → IsGranted raw a
unfolding update_managed
update_managed-IsGranted sv now dr id raw file a h =
    Yields-ok (update_access-IsGranted sv now dr id raw (read_accesses file)) (
      stored-ok file
        (λ (r : Access × Text). update_first (has_id id) (λ _. r.0) (read_accesses file))
        (update_access sv now dr id raw (read_accesses file)) a h)
