-- ===== src/Domain/Tenants.antt =====
-- The maps by company of the services of financial/internal/domain/service. A missing key reads as
-- the zero value, so a map is a function.
use textile_erp_cloud.Base.{◌≡◌, refl, false, if◌then◌else◌}
use textile_erp_cloud.Base.Int.{ℤ, pos, leb_ℤ, beq_ℤ, beq_ℤ_iff}

-- `normalizedCompanyID`.
unfoldable pub normalized_company : ℤ → ℤ
normalized_company co = if leb_ℤ co (pos 0) then pos 1 else co

module _ {A : Type 0} where
  abbrev pub put : ℤ → A → (ℤ → A) → ℤ → A
  put co a m c = if beq_ℤ co c then a else m c

  pub put-here : (co : ℤ) (a : A) (m : ℤ → A) → put co a m co ≡ a
  put-here co a m = rw ((beq_ℤ_iff co co).1 refl) refl

  pub put-other : (co c : ℤ) (a : A) (m : ℤ → A) → beq_ℤ co c ≡ false → put co a m c ≡ m c
  put-other co c a m h = rw h refl
