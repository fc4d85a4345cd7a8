-- ===== src/Portal/Steps/Sound.antt =====
-- The steps of portal_server/main.go keep the accounts of the file distinct.
use textile_erp_cloud.Base.{Bool, Option, none, some, List, find}
use textile_erp_cloud.Base.Result.{Result, ok, err}
use textile_erp_cloud.Portal.Access.{Access}
use textile_erp_cloud.Portal.Services.{AccessError}
use textile_erp_cloud.Portal.Store.{Row, read_accesses}
use textile_erp_cloud.Portal.Store.Distinct.{SameKey, IsSound-update_first}
use textile_erp_cloud.Portal.Store.Kept.{IsSoundFile, IsSound-written}
use textile_erp_cloud.Portal.Steps.{and_then, changed, change_first}

changed-IsSoundFile :
    (p : Access → Bool) (f : Access → Access) (file : List Row) (found : Option Access)
    → ((a : Access) → SameKey (f a) a)
    → IsSoundFile file
    → IsSoundFile (changed p f file found).1
changed-IsSoundFile p f file none same h = h
changed-IsSoundFile p f file (some a) same h =
    IsSound-written _ (IsSound-update_first p f (read_accesses file) same h.sound)

pub change_first-IsSoundFile :
    (p : Access → Bool) (f : Access → Access) (file : List Row)
    → ((a : Access) → SameKey (f a) a)
    → IsSoundFile file
    → IsSoundFile (change_first p f file).1
unfolding change_first
change_first-IsSoundFile p f file = changed-IsSoundFile p f file (find p (read_accesses file))

abbrev pub Keeps : {A B : Type 0} → (A → List Row → Result AccessError B × List Row) → Type 0
Keeps k = (a : _) (file : List Row) → IsSoundFile file → IsSoundFile (k a file).1

pub and_then-IsSoundFile :
    {A B : Type 0} (k : A → List Row → Result AccessError B × List Row)
    (r : Result AccessError A × List Row)
    → Keeps k
    → IsSoundFile r.1
    → IsSoundFile (and_then k r).1
and_then-IsSoundFile k (ok a, file) keeps h = keeps a file h
and_then-IsSoundFile k (err e, file) keeps h = h
