-- ===== src/Portal/Passwords/Secrets.antt =====
-- What reading and writing of the accounts (portal_server/main.go) leave of tokens and passwords.
use mathlib.Core.Option.{some-injective}
use textile_erp_cloud.Base.{
  ◌≡◌, refl, sym, ap, ◌∙◌, inl, inr, Bool, not, ◌&&◌, some, List, [], ◌∷◌, map, arith, Bool-cases,
  find,
}
use textile_erp_cloud.Base.Text.{Text, is_empty, text_eq}
use textile_erp_cloud.Portal.Access.{Access, is_textile}
use textile_erp_cloud.Portal.Store.{
  Row, named_owner, old_modules, old_permissions, read_row, write_row, has_token,
}

abbrev pub SameSecrets : Access → Access → Type 0
SameSecrets a b =
    (a.access_token ≡ b.access_token)
    × (a.password_hash ≡ b.password_hash)
    × (a.password_enc ≡ b.password_enc)

named_owner-secrets : (a : Access) → SameSecrets (named_owner a) a
named_owner-secrets a = elim (Bool-cases (is_empty a.access_role)) [
  | inl blank ↦ rw blank (refl, refl, refl)
  | inr given ↦ rw given (refl, refl, refl)
]

old_modules-secrets : (b : Bool) (a : Access) → SameSecrets (old_modules b a) a
old_modules-secrets b a = elim (Bool-cases (not a.module_access_set && not b)) [
  | inl old ↦ rw old (refl, refl, refl)
  | inr new ↦ rw new (refl, refl, refl)
]

old_permissions-secrets : (a : Access) → SameSecrets (old_permissions a) a
old_permissions-secrets a = ground arith

SameSecrets-trans : (a b c : Access) → SameSecrets a b → SameSecrets b c → SameSecrets a c
SameSecrets-trans a b c (t, h, e) (t', h', e') = (t ∙ t', h ∙ h', e ∙ e')

read_row-secrets : (r : Row) → SameSecrets (read_row r) r.access
unfolding read_row
read_row-secrets r = elim (Bool-cases (is_textile r.access.project)) [
  | inr other ↦ rw other (refl, refl, refl)
  | inl textile ↦ rw textile (
      SameSecrets-trans (old_permissions b) b r.access (old_permissions-secrets b) (
        SameSecrets-trans b a r.access (old_modules-secrets r.names_flag a)
          (named_owner-secrets r.access)))
]
  where
    a : Access
    a = named_owner r.access

    b : Access
    b = old_modules r.names_flag a

-- An account that is read under a token was written under it, with its hash and its sealed password.
pub find_written :
    (token : Text) (items : List Access) (b : Access)
    → find (has_token token) (map (λ a. read_row (write_row a)) items) ≡ some b
    → (c : Access) × (find (has_token token) items ≡ some c) × SameSecrets b c
find_written token [] b h = absurd (cc)
find_written token (x ∷ more) b h =
    let kept = read_row-secrets (write_row x) in
    let own : has_token token (read_row (write_row x)) ≡ has_token token x =
      ap (λ t. text_eq t token) kept.0 in
    elim (Bool-cases (has_token token x)) [
      | inl hit ↦ rw hit (
          let same : read_row (write_row x) ≡ b = some-injective _ _ (rw (own ∙ hit) at h) in
          (
            x,
            refl,
            (
              ap (λ (y : Access). y.access_token) (sym same) ∙ kept.0,
              ap (λ (y : Access). y.password_hash) (sym same) ∙ kept.1,
              ap (λ (y : Access). y.password_enc) (sym same) ∙ kept.2,
            ),
          ))
      | inr miss ↦ rw miss (find_written token more b (rw (own ∙ miss) at h))
    ]
