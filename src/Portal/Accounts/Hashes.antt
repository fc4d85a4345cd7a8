-- ===== src/Portal/Accounts/Hashes.antt =====
-- `repairAccessHashes` of portal_server/main.go leaves the keys of the accounts.
use textile_erp_cloud.Base.{
  refl, inl, inr, Bool, true, false, ◌||◌, Option, none, some, List, [], ◌∷◌, Bool-cases, All,
}
use textile_erp_cloud.Base.Result.{Result, ok, err, Yields, fails, gives, Yields-bind, ◌>>=◌}
use textile_erp_cloud.Base.Text.{is_empty, trim_space, Text}
use textile_erp_cloud.Portal.Access.{Access}
use textile_erp_cloud.Portal.Services.{AccessError, Services, decrypt}
use textile_erp_cloud.Portal.Store.{Row, read_accesses}
use textile_erp_cloud.Portal.Store.Distinct.{Apart, IsSound, SameKey, Apart-same}
use textile_erp_cloud.Portal.Store.Kept.{IsSoundFile, IsSound-written}
use textile_erp_cloud.Portal.Passwords.{
  with_hash, is_old, repaired_old, repaired, repair_loop, repaired_file, repair_hashes,
}

abbrev SameKeys : List Access → List Access → Type 0
SameKeys [] [] = Unit
SameKeys (a ∷ more) (b ∷ others) = SameKey b a × SameKeys more others
SameKeys _ _ = ⊥

All-same :
    (a b : Access) (items others : List Access)
    → SameKey b a
    → SameKeys items others
    → All (Apart a) items
    → All (Apart b) others
All-same a b [] [] e k h = tt
All-same a b (x ∷ items) (y ∷ others) e k h =
    (Apart-same a b x y e k.0 h.0, All-same a b items others e k.1 h.1)
All-same a b [] (y ∷ others) e k h = absurd k
All-same a b (x ∷ items) [] e k h = absurd k

IsSound-same : (items others : List Access) → SameKeys items others → IsSound items → IsSound others
IsSound-same [] [] k s = (tt, tt)
IsSound-same (a ∷ items) (b ∷ others) k s =
    let rest = IsSound-same items others k.1 (s.0.1, s.1.1) in
    ((rw (k.0.0) s.0.0, rest.0), (All-same a b items others k.0 k.1 s.1.0, rest.1))
IsSound-same [] (b ∷ others) k s = absurd k
IsSound-same (a ∷ items) [] k s = absurd k

abbrev OneLike : Access → Bool × Access → Type 0
OneLike a r = SameKey r.1 a

one_like : (a : Access) (hit : Bool) → OneLike a (hit, a)
one_like a hit = (refl, refl, refl)

hashed_like : (a : Access) (hash : Text) → OneLike a (true, with_hash hash a)
hashed_like a hash = (refl, refl, refl)

repaired_old-OneLike :
    (sv : Services) (a : Access) (raw : Option Text) → Yields (OneLike a) (repaired_old sv a raw)
repaired_old-OneLike sv a none = gives (one_like a false)
repaired_old-OneLike sv a (some raw) = elim (Bool-cases (is_empty (trim_space raw))) [
  | inl blank ↦ rw blank (gives (one_like a false))
  | inr given ↦ rw given (search (Yields-bind, gives, hashed_like))
]

repaired-OneLike : (sv : Services) (a : Access) → Yields (OneLike a) (repaired sv a)
unfolding repaired
repaired-OneLike sv a = elim (Bool-cases (is_old a)) [
  | inl old ↦ rw old (repaired_old-OneLike sv a (decrypt sv a.password_enc))
  | inr new ↦ rw new (gives (one_like a false))
]

abbrev AllLike : List Access → Bool × List Access → Type 0
AllLike items r = SameKeys items r.1

cons_like :
    (a : Access) (more : List Access) (r : Result AccessError (Bool × Access))
    (rs : Result AccessError (Bool × List Access))
    → Yields (OneLike a) r
    → Yields (AllLike more) rs
    → Yields
        (AllLike (a ∷ more))
        (r >>= λ (x : Bool × Access). rs >>= λ (y : Bool × List Access). ok (x.0 || y.0, x.1 ∷ y.1))
cons_like a more (ok x) (ok y) (gives p) (gives q) = gives (p, q)
cons_like a more (ok x) (err e) p q = fails
cons_like a more (err e) rs p q = fails

repair_loop-AllLike :
    (sv : Services) (items : List Access) → Yields (AllLike items) (repair_loop sv items)
unfolding repair_loop
repair_loop-AllLike sv [] = gives tt
repair_loop-AllLike sv (a ∷ more) =
    cons_like a more (repaired sv a) (repair_loop sv more) (repaired-OneLike sv a)
      (repair_loop-AllLike sv more)

repaired_file-IsSoundFile :
    (file : List Row) (r : Result AccessError (Bool × List Access))
    → Yields (AllLike (read_accesses file)) r
    → IsSoundFile file
    → IsSoundFile (repaired_file file r).1
repaired_file-IsSoundFile file (ok (true, items)) (gives k) h =
    IsSound-written items (IsSound-same (read_accesses file) items k h.sound)
repaired_file-IsSoundFile file (ok (false, items)) y h = h
repaired_file-IsSoundFile file (err e) y h = h

pub repair_hashes-IsSoundFile :
    (sv : Services) (file : List Row) → IsSoundFile file → IsSoundFile (repair_hashes sv file).1
unfolding repair_hashes
repair_hashes-IsSoundFile sv file h =
    repaired_file-IsSoundFile file (repair_loop sv (read_accesses file))
      (repair_loop-AllLike sv (read_accesses file)) h
