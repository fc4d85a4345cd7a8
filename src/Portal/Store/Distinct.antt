-- ===== src/Portal/Store/Distinct.antt =====
-- The accounts of portal_server/main.go: no two share an id, nor a project and a user name.
use textile_erp_cloud.Base.{
  ◌≡◌, refl, ◌∙◌, inl, inr, Bool, true, false, not, ◌&&◌, List, [], ◌∷◌, ◌++◌, map, arith,
  Bool-cases, keep, update_first, All,
}
use textile_erp_cloud.Base.Int.{ℤ, pos, ltb_ℤ, beq_ℤ, beq_ℤ_iff}
use textile_erp_cloud.Base.Text.{
  Text, is_empty, trim_space, equal_fold, equal_fold_sym, equal_fold-is_empty,
}
use textile_erp_cloud.Portal.Access.{Project, textile_erp, cooler_store, same_project, Access}
use textile_erp_cloud.Portal.Store.{has_id}

-- Whether two user names of a project are one.
abbrev pub meet : Project → Text → Project → Text → Bool
meet p s q t =
    not (is_empty (trim_space s)) && same_project p q && equal_fold (trim_space t) (trim_space s)

abbrev pub Apart : Access → Access → Type 0
Apart a b = (beq_ℤ a.id b.id ≡ false) × (meet a.project a.username b.project b.username ≡ false)

abbrev pub IsDistinct : List Access → Type 0
IsDistinct [] = Unit
IsDistinct (a ∷ more) = All (Apart a) more × IsDistinct more

abbrev pub IsCounted : Access → Type 0
IsCounted a = ltb_ℤ (pos 0) a.id ≡ true

-- Ids are positive and distinct, and so are the names within a project.
abbrev pub IsSound : List Access → Type 0
IsSound items = All IsCounted items × IsDistinct items

-- What the soundness of a list depends on.
abbrev pub SameKey : Access → Access → Type 0
SameKey a b = (a.id ≡ b.id) × (a.project ≡ b.project) × (a.username ≡ b.username)

same_project_sym : (p q : Project) → same_project p q ≡ same_project q p
same_project_sym textile_erp textile_erp = refl
same_project_sym textile_erp cooler_store = refl
same_project_sym cooler_store textile_erp = refl
same_project_sym cooler_store cooler_store = refl

beq_ℤ_sym : (a b : ℤ) → beq_ℤ a b ≡ beq_ℤ b a
beq_ℤ_sym a b = ground arith

blank_same :
    (x y e : Bool) → (e ≡ true → x ≡ y) → (p : Bool) → (not x && p && e) ≡ (not y && p && e)
blank_same x y true h p = rw (h refl) refl
blank_same true true false h p = refl
blank_same true false false h true = refl
blank_same true false false h false = refl
blank_same false true false h true = refl
blank_same false true false h false = refl
blank_same false false false h p = refl

meet_sym : (p q : Project) (s t : Text) → meet p s q t ≡ meet q t p s
meet_sym p q s t =
    rw (same_project_sym p q, equal_fold_sym (trim_space t) (trim_space s))
      (blank_same (is_empty (trim_space s)) (is_empty (trim_space t))
        (equal_fold (trim_space s) (trim_space t))
        (equal_fold-is_empty (trim_space s) (trim_space t)) (same_project q p))

Apart-sym : (a b : Access) → Apart a b → Apart b a
Apart-sym a b (i, m) =
    (beq_ℤ_sym b.id a.id ∙ i, meet_sym b.project a.project b.username a.username ∙ m)

pub Apart-same : (a a' b b' : Access) → SameKey a' a → SameKey b' b → Apart a b → Apart a' b'
Apart-same a a' b b' (i, p, n) (j, q, m) (h, k) = (rw (i, j) h, rw (p, n, q, m) k)

All-mono {κ} :
    {P Q : Access → Type κ} (items : List Access)
    → ((a : Access) → P a → Q a)
    → All P items
    → All Q items
All-mono [] f h = tt
All-mono (a ∷ more) f h = (f a h.0, All-mono more f h.1)

pub IsDistinct-append :
    (items : List Access) (n : Access)
    → IsDistinct items
    → All (Apart n) items
    → IsDistinct (items ++ (n ∷ []))
IsDistinct-append [] n d h = (tt, tt)
IsDistinct-append (a ∷ more) n d h =
    (last more (Apart-sym n a h.0) d.0, IsDistinct-append more n d.1 h.1)
  where
    last :
        (items : List Access) → Apart a n → All (Apart a) items → All (Apart a) (items ++ (n ∷ []))
    last [] x hs = (x, tt)
    last (b ∷ bs) x hs = (hs.0, last bs x hs.1)

pub All-keep :
    (P : Access → Type 0) (p : Access → Bool) (items : List Access)
    → All P items
    → All P (keep p items)
All-keep P p [] h = tt
All-keep P p (a ∷ more) h = elim (Bool-cases (p a)) [
  | inl hit ↦ rw hit (h.0, All-keep P p more h.1)
  | inr miss ↦ rw miss (All-keep P p more h.1)
]

pub IsDistinct-keep :
    (p : Access → Bool) (items : List Access) → IsDistinct items → IsDistinct (keep p items)
IsDistinct-keep p [] d = tt
IsDistinct-keep p (a ∷ more) d = elim (Bool-cases (p a)) [
  | inl hit ↦ rw hit (All-keep (Apart a) p more d.0, IsDistinct-keep p more d.1)
  | inr miss ↦ rw miss (IsDistinct-keep p more d.1)
]

pub All-replace :
    (P : Access → Type 0) (p : Access → Bool) (n : Access) (items : List Access)
    → P n
    → All P items
    → All P (update_first p (λ _. n) items)
All-replace P p n [] x h = tt
All-replace P p n (a ∷ more) x h = elim (Bool-cases (p a)) [
  | inl hit ↦ rw hit (x, h.1)
  | inr miss ↦ rw miss (h.0, All-replace P p n more x h.1)
]

-- An account replaced by one of the same id, whose name no other account has.
abbrev pub IsFree : Access → Access → Type 0
IsFree n a = beq_ℤ a.id n.id ≡ false → Apart n a

pub IsDistinct-replace :
    (n : Access) (items : List Access)
    → IsDistinct items
    → All (IsFree n) items
    → IsDistinct (update_first (has_id n.id) (λ _. n) items)
IsDistinct-replace n [] d h = tt
IsDistinct-replace n (a ∷ more) d h = elim (Bool-cases (has_id n.id a)) [
  | inl hit ↦ rw hit (others more ((beq_ℤ_iff a.id n.id).0 hit) d.0 h.1, d.1)
  | inr miss ↦ rw miss (
    All-replace (Apart a) (has_id n.id) n more (Apart-sym n a (h.0 miss)) d.0,
    IsDistinct-replace n more d.1 h.1,
  )
]
  where
    others :
        (items : List Access)
        → a.id ≡ n.id
        → All (Apart a) items
        → All (IsFree n) items
        → All (Apart n) items
    others [] e x y = tt
    others (b ∷ bs) e x y = (y.0 (beq_ℤ_sym b.id n.id ∙ rw (← e) x.0.0), others bs e x.1 y.1)

-- A change of accounts one by one that leaves the keys.
All-keys :
    (f : Access → Access) (n n' : Access) (items : List Access)
    → ((a : Access) → SameKey (f a) a)
    → SameKey n' n
    → All (Apart n) items
    → All (Apart n') (map f items)
All-keys f n n' [] same e h = tt
All-keys f n n' (a ∷ more) same e h =
    (Apart-same n n' a (f a) e (same a) h.0, All-keys f n n' more same e h.1)

pub IsSound-map :
    (f : Access → Access) (items : List Access)
    → ((a : Access) → SameKey (f a) a)
    → IsSound items
    → IsSound (map f items)
IsSound-map f [] same s = (tt, tt)
IsSound-map f (a ∷ more) same s =
    let rest = IsSound-map f more same (s.0.1, s.1.1) in
    ((rw ((same a).0) s.0.0, rest.0), (All-keys f a (f a) more same (same a) s.1.0, rest.1))

-- `update_first` as a map is not, so it has a proof of its own.
All-keys_first :
    (p : Access → Bool) (f : Access → Access) (n : Access) (items : List Access)
    → ((a : Access) → SameKey (f a) a)
    → All (Apart n) items
    → All (Apart n) (update_first p f items)
All-keys_first p f n [] same h = tt
All-keys_first p f n (a ∷ more) same h = elim (Bool-cases (p a)) [
  | inl hit ↦ rw hit (Apart-same n n a (f a) (refl, refl, refl) (same a) h.0, h.1)
  | inr miss ↦ rw miss (h.0, All-keys_first p f n more same h.1)
]

pub IsSound-update_first :
    (p : Access → Bool) (f : Access → Access) (items : List Access)
    → ((a : Access) → SameKey (f a) a)
    → IsSound items
    → IsSound (update_first p f items)
IsSound-update_first p f [] same s = (tt, tt)
IsSound-update_first p f (a ∷ more) same s = elim (Bool-cases (p a)) [
  | inl hit ↦ rw hit ((rw ((same a).0) s.0.0, s.0.1), (heads more s.1.0, s.1.1))
  | inr miss ↦
      let rest = IsSound-update_first p f more same (s.0.1, s.1.1) in
      rw miss ((s.0.0, rest.0), (All-keys_first p f a more same s.1.0, rest.1))
]
  where
    heads : (items : List Access) → All (Apart a) items → All (Apart (f a)) items
    heads [] h = tt
    heads (b ∷ bs) h = (Apart-same a (f a) b b (same a) (refl, refl, refl) h.0, heads bs h.1)
