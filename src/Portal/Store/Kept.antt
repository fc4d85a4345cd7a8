-- ===== src/Portal/Store/Kept.antt =====
-- What keeps the accounts of portal_server/main.go distinct: a new account, a replaced one, a change that
-- leaves the keys, and the file.
use textile_erp_cloud.Base.{
  ◌≡◌, ◌⊎◌, refl, ap, ◌∙◌, inl, inr, Bool, true, false, not, ◌&&◌, ◌||◌, List, [], ◌∷◌, ◌++◌, map,
  arith, Bool-cases, update_first, All, All-append, if◌then◌else◌,
}
use textile_erp_cloud.Base.Int.{ℤ, pos, ltb_ℤ, beq_ℤ, ◌+ℤ◌, ◌≤ℤ◌}
use textile_erp_cloud.Base.Text.{Text, is_empty, trim_space, equal_fold}
use textile_erp_cloud.Portal.Access.{Project, is_textile, same_project, Access}
use textile_erp_cloud.Portal.Store.{
  Row, named_owner, old_modules, old_permissions, read_row, read_accesses, write_row,
  write_accesses, max_id, next_id, has_id, clashes, any, username_taken,
}
use textile_erp_cloud.Portal.Store.Distinct.{
  meet, Apart, IsCounted, IsSound, SameKey, IsFree, IsDistinct-append, All-replace,
  IsDistinct-replace, IsSound-map,
}

-- An id that is counted from the ids of all.
max_id-le : (m : ℤ) (items : List Access) → m ≤ℤ max_id m items
unfolding max_id
max_id-le m [] = omega arith
max_id-le m (a ∷ more) =
    grow m a.id (max_id (if ltb_ℤ m a.id then a.id else m) more)
      (max_id-le (if ltb_ℤ m a.id then a.id else m) more)
  where
    grow : (m i r : ℤ) → (if ltb_ℤ m i then i else m) ≤ℤ r → m ≤ℤ r
    grow m i r h = ground arith

max_id-ge : (m : ℤ) (items : List Access) → All (λ a. a.id ≤ℤ max_id m items) items
unfolding max_id
max_id-ge m [] = tt
max_id-ge m (a ∷ more) =
    let m' = if ltb_ℤ m a.id then a.id else m in
    (above m a.id (max_id m' more) (max_id-le m' more), max_id-ge m' more)
  where
    above : (m i r : ℤ) → (if ltb_ℤ m i then i else m) ≤ℤ r → i ≤ℤ r
    above m i r h = ground arith

positive_next : (m : ℤ) → pos 0 ≤ℤ m → ltb_ℤ (pos 0) (m +ℤ pos 1) ≡ true
unfolding ◌+ℤ◌
positive_next m h = ground arith

above_next : (m i : ℤ) → i ≤ℤ m → beq_ℤ (m +ℤ pos 1) i ≡ false
unfolding ◌+ℤ◌
above_next m i h = ground arith

pub next_id-IsCounted : (items : List Access) → ltb_ℤ (pos 0) (next_id items) ≡ true
unfolding next_id
next_id-IsCounted items = positive_next (max_id (pos 0) items) (max_id-le (pos 0) items)

next_id-new : (items : List Access) → All (λ a. beq_ℤ (next_id items) a.id ≡ false) items
unfolding next_id
next_id-new items = go items (max_id-ge (pos 0) items)
  where
    go :
        (rest : List Access)
        → All (λ a. a.id ≤ℤ max_id (pos 0) items) rest
        → All (λ a. beq_ℤ (max_id (pos 0) items +ℤ pos 1) a.id ≡ false) rest
    go [] h = tt
    go (a ∷ more) h = (above_next (max_id (pos 0) items) a.id h.0, go more h.1)

-- What the test of `accessUsernameTaken` rules out.
abbrev pub NotMet : Project → Text → ℤ → Access → Type 0
NotMet project username exclude a =
    beq_ℤ a.id exclude ≡ false → meet project username a.project a.username ≡ false

NotMet-blank :
    (project : Project) (username : Text) (exclude : ℤ) (items : List Access)
    → is_empty (trim_space username) ≡ true
    → All (NotMet project username exclude) items
NotMet-blank project username exclude [] e = tt
NotMet-blank project username exclude (a ∷ more) e =
    (λ _. rw e refl, NotMet-blank project username exclude more e)

clash_parts :
    (i e p f : Bool)
    → ((not i && p && f) || e) ≡ false
    → (i ≡ false → (p && f) ≡ false) × (e ≡ false)
clash_parts i e p f h = (λ x. ground arith, ground arith)

met_parts : (e p f : Bool) → (p && f) ≡ false → (not e && p && f) ≡ false
met_parts e p f h = ground arith

NotMet-any :
    (project : Project) (username : Text) (exclude : ℤ) (items : List Access)
    → any (clashes project (trim_space username) exclude) items ≡ false
    → All (NotMet project username exclude) items
unfolding clashes
NotMet-any project username exclude [] e = tt
NotMet-any project username exclude (a ∷ more) e =
    let (head, tail) =
      clash_parts (beq_ℤ a.id exclude) (any (clashes project (trim_space username) exclude) more)
        (same_project project a.project) (equal_fold (trim_space a.username) (trim_space username))
        e in
    (
      λ h.
          met_parts (is_empty (trim_space username)) (same_project project a.project)
            (equal_fold (trim_space a.username) (trim_space username)) (head h),
      NotMet-any project username exclude more tail,
    )

and_false : (b c : Bool) → (not b && c) ≡ false → (b ≡ true) ⊎ (c ≡ false)
and_false true c h = inl refl
and_false false c h = inr h

pub not_taken :
    (items : List Access) (project : Project) (username : Text) (exclude : ℤ)
    → username_taken items project username exclude ≡ false
    → All (NotMet project username exclude) items
unfolding username_taken
not_taken items project username exclude h = elim (and_false _ _ h) [
  | inl blank ↦ NotMet-blank project username exclude items blank
  | inr none_met ↦ NotMet-any project username exclude items none_met
]

counted_id : (i : ℤ) → ltb_ℤ (pos 0) i ≡ true → beq_ℤ i (pos 0) ≡ false
counted_id i h = ground arith

-- An account with the next id and a name that is not taken can be added.
pub IsSound-append :
    (items : List Access) (n : Access)
    → IsSound items
    → n.id ≡ next_id items
    → username_taken items n.project n.username (pos 0) ≡ false
    → IsSound (items ++ (n ∷ []))
IsSound-append items n s e h = (
  All-append IsCounted items (n ∷ []) s.0 (rw e (next_id-IsCounted items), tt),
  IsDistinct-append items n s.1
      (apart items s.0 (next_id-new items) (not_taken items n.project n.username (pos 0) h)),
)
  where
    apart :
        (rest : List Access)
        → All IsCounted rest
        → All (λ a. beq_ℤ (next_id items) a.id ≡ false) rest
        → All (NotMet n.project n.username (pos 0)) rest
        → All (Apart n) rest
    apart [] c i m = tt
    apart (a ∷ more) c i m = ((rw e i.0, m.0 (counted_id a.id c.0)), apart more c.1 i.1 m.1)

beq_flip : (a b : ℤ) → beq_ℤ a b ≡ false → beq_ℤ b a ≡ false
beq_flip a b h = ground arith

-- An account can be replaced by one of its id with a name that no other has.
pub IsSound-replace :
    (items : List Access) (n : Access)
    → IsSound items
    → ltb_ℤ (pos 0) n.id ≡ true
    → username_taken items n.project n.username n.id ≡ false
    → IsSound (update_first (has_id n.id) (λ _. n) items)
IsSound-replace items n s c h = (
  All-replace IsCounted (has_id n.id) n items c s.0,
  IsDistinct-replace n items s.1 (free items (not_taken items n.project n.username n.id h)),
)
  where
    free : (rest : List Access) → All (NotMet n.project n.username n.id) rest → All (IsFree n) rest
    free [] m = tt
    free (a ∷ more) m = (λ x. (beq_flip a.id n.id x, m.0 x), free more m.1)

named_owner-key : (a : Access) → SameKey (named_owner a) a
named_owner-key a = elim (Bool-cases (is_empty a.access_role)) [
  | inl blank ↦ rw blank (refl, refl, refl)
  | inr given ↦ rw given (refl, refl, refl)
]

old_modules-key : (b : Bool) (a : Access) → SameKey (old_modules b a) a
old_modules-key b a = elim (Bool-cases (not a.module_access_set && not b)) [
  | inl old ↦ rw old (refl, refl, refl)
  | inr new ↦ rw new (refl, refl, refl)
]

old_permissions-key : (a : Access) → SameKey (old_permissions a) a
old_permissions-key a = ground arith

SameKey-trans : (a b c : Access) → SameKey a b → SameKey b c → SameKey a c
SameKey-trans a b c (i, p, n) (i', p', n') = (i ∙ i', p ∙ p', n ∙ n')

-- Reading a row leaves the key.
pub read_row-key : (r : Row) → SameKey (read_row r) r.access
unfolding read_row
read_row-key r = elim (Bool-cases (is_textile r.access.project)) [
  | inr other ↦ rw other (refl, refl, refl)
  | inl textile ↦ rw textile (
      SameKey-trans (old_permissions b) b r.access (old_permissions-key b)
        (SameKey-trans b a r.access (old_modules-key r.names_flag a) (named_owner-key r.access)))
]
  where
    a : Access
    a = named_owner r.access

    b : Access
    b = old_modules r.names_flag a

-- The accounts of the file are sound.
pub record IsSoundFile (file : List Row) : Type 0 where
  pub sound : IsSound (read_accesses file)

pub read_written :
    (items : List Access)
    → read_accesses (write_accesses items) ≡ map (λ a. read_row (write_row a)) items
unfolding read_accesses write_accesses
read_written [] = refl
read_written (a ∷ more) = ap (λ rest. read_row (write_row a) ∷ rest) (read_written more)

pub IsSound-written : (items : List Access) → IsSound items → IsSoundFile (write_accesses items)
IsSound-written items s = record {
  sound =
      rw (read_written items)
        (IsSound-map (λ a. read_row (write_row a)) items (λ a. read_row-key (write_row a)) s);
}
