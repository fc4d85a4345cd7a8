-- ===== src/Portal/Store/Hits.antt =====
-- What is in the file of accounts of portal_server/main.go is found in the sorted list of it.
use mathlib.Core.Option.{some-injective}
use textile_erp_cloud.Base.{
  ℕ, zero, suc, ◌≡◌, refl, ap, ◌∙◌, inl, inr, Bool, true, false, ◌||◌, some, List, [], ◌∷◌, map,
  arith, Bool-cases, find, is_some,
}
use textile_erp_cloud.Base.Int.{ℤ, beq_ℤ_iff}
use textile_erp_cloud.Portal.Access.{Access}
use textile_erp_cloud.Portal.Store.{
  Row, read_row, read_accesses, write_row, write_accesses, is_newer, settle, sort_places, count_of,
  sort_accesses, list_accesses, has_id, any,
}
use textile_erp_cloud.Portal.Store.Kept.{read_written, read_row-key}

settle-any :
    (p : Access → Bool) (a : Access) (items : List Access)
    → (p (settle a items).0 || any p (settle a items).1) ≡ (p a || any p items)
unfolding settle
settle-any p a [] = refl
settle-any p a (b ∷ more) = elim (Bool-cases (is_newer b a)) [
  | inl newer ↦ rw newer (turn (p (settle b more).0) (p a) _ (p b) _ (settle-any p b more))
  | inr older ↦
      rw older
        (turn (p (settle a more).0) (p b) _ (p a) _ (settle-any p a more) ∙ swap (p b) (p a) _)
]
  where
    turn : (t x r y s : Bool) → (t || r) ≡ (y || s) → (t || (x || r)) ≡ (x || (y || s))
    turn t x r y s h = ground arith

    swap : (x y s : Bool) → (x || (y || s)) ≡ (y || (x || s))
    swap x y s = ground arith

sort_places-any :
    (p : Access → Bool) (n : ℕ) (items : List Access) → any p (sort_places n items) ≡ any p items
unfolding sort_places
sort_places-any p zero items = refl
sort_places-any p (suc n) [] = refl
sort_places-any p (suc n) (a ∷ more) =
    ap (λ r. p (settle a more).0 || r) (sort_places-any p n (settle a more).1) ∙ settle-any p a more

pub any-found : (p : Access → Bool) (items : List Access) → is_some (find p items) ≡ any p items
any-found p [] = refl
any-found p (a ∷ more) = elim (Bool-cases (p a)) [
  | inl hit ↦ rw hit refl
  | inr miss ↦ rw miss (any-found p more)
]

pub sort_accesses-any :
    (p : Access → Bool) (items : List Access) → any p (sort_accesses items) ≡ any p items
unfolding sort_accesses
sort_accesses-any p items = sort_places-any p (count_of items) items

-- A search in the list succeeds if some account of the file passes its test.
pub list_accesses-any :
    (p : Access → Bool) (file : List Row)
    → is_some (find p (list_accesses file)) ≡ any p (read_accesses file)
unfolding list_accesses sort_accesses
list_accesses-any p file =
    any-found p (sort_accesses (read_accesses file))
    ∙ sort_places-any p (count_of (read_accesses file)) (read_accesses file)

-- Another test passes where the first one has found an account that passes both.
pub find-any :
    (p q : Access → Bool) (items : List Access) (a : Access)
    → find p items ≡ some a
    → q a ≡ true
    → any q items ≡ true
find-any p q [] a e h = absurd (cc)
find-any p q (x ∷ more) a e h = elim (Bool-cases (p x)) [
  | inl hit ↦
      let same : x ≡ a = some-injective _ _ (rw hit at e) in
      let own : q x ≡ true = ap q same ∙ h in rw own refl
  | inr miss ↦ last (q x) (find-any p q more a (rw miss at e) h)
]
  where
    last : (b : Bool) {c : Bool} → c ≡ true → (b || c) ≡ true
    last true h = refl
    last false h = h

-- A test of ids passes as well after the accounts are written and read.
written-any :
    (q : Access → Bool) (id : ℤ) (items : List Access)
    → ((a : Access) → a.id ≡ id → q a ≡ true)
    → any (has_id id) items ≡ true
    → any q (map (λ a. read_row (write_row a)) items) ≡ true
written-any q id [] h e = absurd (cc)
written-any q id (a ∷ more) h e = elim (Bool-cases (has_id id a)) [
  | inl hit ↦
      let own : q (read_row (write_row a)) ≡ true =
        h (read_row (write_row a)) ((read_row-key (write_row a)).0 ∙ (beq_ℤ_iff a.id id).0 hit) in
      rw own refl
  | inr miss ↦ last (q (read_row (write_row a))) (written-any q id more h (rw miss at e))
]
  where
    last : (b : Bool) {c : Bool} → c ≡ true → (b || c) ≡ true
    last true h = refl
    last false h = h

pub written_id-found :
    (q : Access → Bool) (id : ℤ) (items : List Access)
    → ((a : Access) → a.id ≡ id → q a ≡ true)
    → any (has_id id) items ≡ true
    → is_some (find q (list_accesses (write_accesses items))) ≡ true
written_id-found q id items h e =
    list_accesses-any q (write_accesses items)
    ∙ ap (any q) (read_written items)
    ∙ written-any q id items h e
