-- ===== src/Base/Wrap.antt =====
-- The arithmetic of `int64` is arithmetic modulo 2^64.
use Prim.Native.Nat.{ℕ, ◌+◌, ◌-◌, ◌*◌, ◌/◌, ◌%◌, ◌^◌}
use mathlib.Core.Path.{◌≡◌, refl, sym, ap, ◌∙◌}
use mathlib.Core.Logic.{inl, inr}
use textile_erp_cloud.Base.Tests.{ltb, Bool-cases}
use textile_erp_cloud.Base.Int.{
  ℤ, pos, negsuc, pos_part, neg_part, ◌+ℤ◌, ◌-ℤ◌, eq_of_parts, int_laws,
}
use textile_erp_cloud.Base.Int64.{InInt64, wrap64, wrap64-InInt64, ◌+₆₄◌, ◌-₆₄◌}

-- Two integers that differ by a multiple of 2^64.
abbrev pub IsSame64 : ℤ → ℤ → Type 0
IsSame64 a b = (p : ℕ) × (q : ℕ) × (a +ℤ pos (p * 2 ^ 64) ≡ b +ℤ pos (q * 2 ^ 64))

pub wrap64-IsSame64 : (a : ℤ) → IsSame64 (wrap64 a) a
unfolding wrap64
wrap64-IsSame64 (pos n) = elim (Bool-cases (ltb (n % 2 ^ 64) (2 ^ 63))) [
  | inl low ↦ rw low (n / 2 ^ 64, 0, eq_of_parts _ _ (omega int_laws))
  | inr high ↦ rw high (n / 2 ^ 64 + 1, 0, eq_of_parts _ _ (grind int_laws))
]
wrap64-IsSame64 (negsuc n) = elim (Bool-cases (ltb (2 ^ 64 - 1 - n % 2 ^ 64) (2 ^ 63))) [
  | inl low ↦ rw low (0, n / 2 ^ 64 + 1, eq_of_parts _ _ (grind int_laws))
  | inr high ↦ rw high (0, n / 2 ^ 64, eq_of_parts _ _ (grind int_laws))
]

pub IsSame64-eq : (a b : ℤ) → InInt64 a → InInt64 b → IsSame64 a b → a ≡ b
IsSame64-eq a b ha hb (p, q, h) = omega (int_laws, ap pos_part h, ap neg_part h)

-- Equal modulo 2^64 means equal after wrapping.
pub wrap64-of_IsSame64 : (a b : ℤ) → IsSame64 a b → wrap64 a ≡ wrap64 b
wrap64-of_IsSame64 a b (p, q, h) =
    let (pa, qa, ha) = wrap64-IsSame64 a in
    let (pb, qb, hb) = wrap64-IsSame64 b in
    IsSame64-eq (wrap64 a) (wrap64 b) (wrap64-InInt64 a) (wrap64-InInt64 b) (
      pa + p + qb,
      qa + q + pb,
      eq_of_parts _ _ (
          omega (
            int_laws,
            ap pos_part h,
            ap neg_part h,
            ap pos_part ha,
            ap neg_part ha,
            ap pos_part hb,
            ap neg_part hb,
          )),
    )

pub IsSame64-refl : (a : ℤ) → IsSame64 a a
IsSame64-refl a = (0, 0, refl)

pub IsSame64-add : (a b c d : ℤ) → IsSame64 a b → IsSame64 c d → IsSame64 (a +ℤ c) (b +ℤ d)
IsSame64-add a b c d (p, q, h) (p', q', k) = (
  p + p',
  q + q',
  eq_of_parts _ _ (omega (int_laws, ap pos_part h, ap neg_part h, ap pos_part k, ap neg_part k)),
)

pub IsSame64-trans : (a b c : ℤ) → IsSame64 a b → IsSame64 b c → IsSame64 a c
IsSame64-trans a b c (p, q, h) (p', q', k) = (
  p + p',
  q + q',
  eq_of_parts _ _ (omega (int_laws, ap pos_part h, ap neg_part h, ap pos_part k, ap neg_part k)),
)

-- A part that was wrapped before makes no difference.
pub wrapped_part : (a b c : ℤ) → IsSame64 b c → IsSame64 (a +₆₄ b) (a +ℤ c)
wrapped_part a b c h =
    IsSame64-trans (a +₆₄ b) (a +ℤ b) (a +ℤ c) (wrap64-IsSame64 (a +ℤ b))
      (IsSame64-add a a b c (IsSame64-refl a) h)

-- Moving `p` from a debt `t` to the paid side keeps the sum, in wrapped arithmetic.
pub split_sum : (c o p t : ℤ) → (c +₆₄ p) +₆₄ (o +₆₄ (t -₆₄ p)) ≡ (c +₆₄ o) +₆₄ t
split_sum c o p t =
    let left =
      IsSame64-add (c +₆₄ p) (c +ℤ p) (o +₆₄ (t -₆₄ p)) (o +ℤ (t -ℤ p)) (wrap64-IsSame64 (c +ℤ p))
        (wrapped_part o (t -₆₄ p) (t -ℤ p) (wrap64-IsSame64 (t -ℤ p))) in
    let right = IsSame64-add (c +₆₄ o) (c +ℤ o) t t (wrap64-IsSame64 (c +ℤ o)) (IsSame64-refl t) in
    let same : (c +ℤ p) +ℤ (o +ℤ (t -ℤ p)) ≡ (c +ℤ o) +ℤ t = omega int_laws in
    wrap64-of_IsSame64 _ _ left ∙ ap wrap64 same ∙ sym (wrap64-of_IsSame64 _ _ right)
