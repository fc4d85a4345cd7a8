-- ===== src/Base/Lists.antt =====
-- Lists measured by native numbers, predicates on lists by recursion, and first matches.
use Prim.Native.Nat.{ℕ, suc, ◌+◌}
use mathlib.Core.Path.{◌≡◌, refl, ap, subst}
use mathlib.Core.Logic.{inl, inr}
use mathlib.Core.Option.{some-injective}
use mathlib.Core.Bool.{Bool, true, false}
use mathlib.Core.Option.{Option, none, some}
use mathlib.Core.List.{List, [], ◌∷◌, ◌++◌, map}
use native.Mathlib.Omega.{arith}
use textile_erp_cloud.Base.Tests.{if◌then◌else◌, Bool-cases}

module _ {ℓ} {A : Type ℓ} where
  abbrev pub length : List A → ℕ
  length [] = 0
  length (x ∷ xs) = suc (length xs)

  -- The first element that passes the test: a `for` loop that returns at the first hit.
  abbrev pub find : (A → Bool) → List A → Option A
  find p [] = none
  find p (x ∷ xs) = if p x then some x else find p xs

  -- The elements that pass the test, in order.
  abbrev pub keep : (A → Bool) → List A → List A
  keep p [] = []
  keep p (x ∷ xs) = if p x then x ∷ keep p xs else keep p xs

  -- `f` at the first element that passes the test; the others stay.
  abbrev pub update_first : (A → Bool) → (A → A) → List A → List A
  update_first p f [] = []
  update_first p f (x ∷ xs) = if p x then f x ∷ xs else x ∷ update_first p f xs

  abbrev pub is_some : Option A → Bool
  is_some none = false
  is_some (some a) = true

  abbrev pub All {κ} : (A → Type κ) → List A → Type κ
  All P [] = Unit
  All P (x ∷ xs) = P x × All P xs

module _ {ℓ} {A : Type ℓ} where
  pub length-append : (xs ys : List A) → length (xs ++ ys) ≡ length xs + length ys
  length-append [] ys = omega arith
  length-append (x ∷ xs) ys = omega (arith, length-append xs ys)

  pub All-append {κ} : (P : A → Type κ) (xs ys : List A) → All P xs → All P ys → All P (xs ++ ys)
  All-append P [] ys hx hy = hy
  All-append P (x ∷ xs) ys hx hy = (hx.0, All-append P xs ys hx.1 hy)

  -- A hit satisfies the test, and what holds of all elements holds of it.
  pub find_sound : (p : A → Bool) (xs : List A) (a : A) → find p xs ≡ some a → p a ≡ true
  find_sound p [] a h = cc
  find_sound p (x ∷ xs) a h = ground (arith, find_sound p xs a)

  pub find-All {κ} :
      (P : A → Type κ) (p : A → Bool) (xs : List A) (a : A) → All P xs → find p xs ≡ some a → P a
  find-All P p [] a hs h = cc
  find-All P p (x ∷ xs) a hs h = elim (Bool-cases (p x)) [
    | inl hit ↦ subst P (some-injective _ _ (rw hit at h)) hs.0
    | inr miss ↦ find-All P p xs a hs.1 (rw miss at h)
  ]

  pub keep-append : (p : A → Bool) (xs ys : List A) → keep p (xs ++ ys) ≡ keep p xs ++ keep p ys
  keep-append p [] ys = refl
  keep-append p (x ∷ xs) ys = ground (arith, keep-append p xs ys)

  pub find-append_none :
      (p : A → Bool) (xs ys : List A) → find p xs ≡ none → find p (xs ++ ys) ≡ find p ys
  find-append_none p [] ys h = refl
  find-append_none p (x ∷ xs) ys h = ground (arith, find-append_none p xs ys)

  pub find-append_some :
      (p : A → Bool) (xs ys : List A) (a : A) → find p xs ≡ some a → find p (xs ++ ys) ≡ some a
  find-append_some p [] ys a h = cc
  find-append_some p (x ∷ xs) ys a h = ground (arith, find-append_some p xs ys a)

  -- A map that the test does not notice takes the first hit along.
  pub find-map :
      (p : A → Bool) (f : A → A) (xs : List A) (a : A)
      → ((x : A) → p (f x) ≡ p x)
      → find p xs ≡ some a
      → find p (map f xs) ≡ some (f a)
  find-map p f [] a same h = cc
  find-map p f (x ∷ xs) a same h = elim (Bool-cases (p x)) [
    | inl hit ↦ rw (same x, hit) (ap (λ y. some (f y)) (some-injective _ _ (rw hit at h)))
    | inr miss ↦ rw (same x, miss) (find-map p f xs a same (rw miss at h))
  ]

  pub All-map {κ} :
      (P : A → Type κ) (f : A → A) (xs : List A)
      → ((x : A) → P x → P (f x))
      → All P xs
      → All P (map f xs)
  All-map P f [] h hs = tt
  All-map P f (x ∷ xs) h hs = (h x hs.0, All-map P f xs h hs.1)

  pub All-update_first {κ} :
      (P : A → Type κ) (p : A → Bool) (f : A → A) (xs : List A)
      → ((x : A) → find p xs ≡ some x → P x → P (f x))
      → All P xs
      → All P (update_first p f xs)
  All-update_first P p f [] h hs = tt
  All-update_first P p f (x ∷ xs) h hs = elim (Bool-cases (p x)) [
    | inl hit ↦ rw hit (h x (rw hit refl) hs.0, hs.1)
    | inr miss ↦ rw miss (hs.0, All-update_first P p f xs (λ y e. h y (rw miss e)) hs.1)
  ]

  pub find-update_first :
      (p : A → Bool) (f : A → A) (xs : List A) (a : A)
      → ((x : A) → p (f x) ≡ p x)
      → find p xs ≡ some a
      → find p (update_first p f xs) ≡ some (f a)
  find-update_first p f [] a same h = cc
  find-update_first p f (x ∷ xs) a same h = elim (Bool-cases (p x)) [
    | inl hit ↦ rw (hit, same x, hit) (ap (λ y. some (f y)) (some-injective _ _ (rw hit at h)))
    | inr miss ↦ rw (miss, miss) (find-update_first p f xs a same (rw miss at h))
  ]

-- Two lists of one length whose elements are related place by place.
abbrev pub Both {ℓ} : {A B : Type ℓ} → (A → B → Type 0) → List A → List B → Type 0
Both R [] [] = Unit
Both R (x ∷ xs) (y ∷ ys) = R x y × Both R xs ys
Both R _ _ = ⊥

pub map-Both {ℓ} :
    {A B : Type ℓ} (R : A → B → Type 0) (f : A → B) (xs : List A)
    → ((x : A) → R x (f x))
    → Both R xs (map f xs)
map-Both R f [] h = tt
map-Both R f (x ∷ xs) h = (h x, map-Both R f xs h)

pub map-snoc {ℓ} :
    {A B : Type ℓ} (f : A → B) (xs : List A) (x : A)
    → map f (xs ++ (x ∷ [])) ≡ map f xs ++ (f x ∷ [])
map-snoc f [] x = refl
map-snoc f (y ∷ ys) x = ap (λ l. f y ∷ l) (map-snoc f ys x)
