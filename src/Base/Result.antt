-- ===== src/Base/Result.antt =====
-- Go's `(value, error)` returns as values, with the early return of `if err != nil`.
use mathlib.Core.Path.{◌≡◌, refl, subst}
use mathlib.Core.Bool.{Bool, true, false}
use mathlib.Core.Option.{Option, none, some}

pub data Result (E A : Type 0) : Type 0 where
  ok : A → Result E A
  err : E → Result E A

infixl 5 ◌>>=◌ ◌>>◌
abbrev pub ◌>>=◌ : {E A B : Type 0} → Result E A → (A → Result E B) → Result E B
ok a >>= f = f a
err e >>= f = err e

abbrev pub ◌>>◌ : {E B : Type 0} → Result E (Unit {0}) → Result E B → Result E B
m >> k = m >>= λ _. k

-- `if bad { return error }`
abbrev pub refuse_if : {E : Type 0} → Bool → E → Result E (Unit {0})
refuse_if true e = err e
refuse_if false e = ok tt

abbrev pub or_err : {E A : Type 0} → Option A → E → Result E A
or_err none e = err e
or_err (some a) e = ok a

-- What a chain that succeeded has passed.
pub refuse_if-ok :
    {E A : Type 0} (b : Bool) (e : E) (k : Result E A) (a : A)
    → (refuse_if b e >> k) ≡ ok a
    → (b ≡ false) × (k ≡ ok a)
refuse_if-ok true e k a h = cc
refuse_if-ok false e k a h = (refl, h)

pub or_err-ok :
    {E A B : Type 0} (o : Option A) (e : E) (f : A → Result E B) (b : B)
    → (or_err o e >>= f) ≡ ok b
    → (a : A) × (o ≡ some a) × (f a ≡ ok b)
or_err-ok none e f b h = cc
or_err-ok (some a) e f b h = (a, refl, h)

pub >>=-ok :
    {E A B : Type 0} (m : Result E A) (f : A → Result E B) (b : B)
    → (m >>= f) ≡ ok b
    → (a : A) × (m ≡ ok a) × (f a ≡ ok b)
>>=-ok (ok a) f b h = (a, refl, h)
>>=-ok (err e) f b h = cc

-- The same tests passed one after another.
pub pass :
    {E A : Type 0} (b : Bool) (e : E) (k : Result E A) {a : A}
    → b ≡ false
    → k ≡ ok a
    → (refuse_if b e >> k) ≡ ok a
pass true e k h r = cc
pass false e k h r = r

-- What holds of the value, if there is one. The rules follow a chain of calls.
pub data Yields {E A : Type 0} (P : A → Type 0) : Result E A → Type 0 where
  fails : {e : E} → Yields P (err e)
  gives : {a : A} → P a → Yields P (ok a)

pub Yields-bind :
    {E A B : Type 0} {P : B → Type 0} (m : Result E A) (f : A → Result E B)
    → ((a : A) → m ≡ ok a → Yields P (f a))
    → Yields P (m >>= f)
Yields-bind (ok a) f h = h a refl
Yields-bind (err e) f h = fails

pub Yields-guard :
    {E B : Type 0} {P : B → Type 0} (b : Bool) (e : E) (k : Result E B)
    → (b ≡ false → Yields P k)
    → Yields P (refuse_if b e >> k)
Yields-guard true e k h = fails
Yields-guard false e k h = h refl

pub ok-same : {E A : Type 0} {a b : A} → Path (Result E A) (ok a) (ok b) → a ≡ b
ok-same h = cc

-- What holds of the value that was returned.
pub Yields-ok :
    {E A : Type 0} {P : A → Type 0} {r : Result E A} {a : A} → Yields P r → r ≡ ok a → P a
Yields-ok {E} {A} {P} (gives h) e = subst P (ok-same {E = E} e) h
Yields-ok fails e = absurd (cc)

pub Yields-map :
    {E A : Type 0} {P Q : A → Type 0} {r : Result E A}
    → Yields P r
    → ((a : A) → P a → Q a)
    → Yields Q r
Yields-map fails k = fails
Yields-map (gives h) k = gives (k _ h)
