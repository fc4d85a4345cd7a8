-- ===== src/Portal/Passwords/Login.antt =====
-- Who may log in at the portal (portal_server/main.go, `authenticateTextileUser`).
use mathlib.Core.Option.{some-injective}
use textile_erp_cloud.Base.{
  ◌≡◌, ◌⊎◌, refl, sym, ap, ◌∙◌, inl, inr, true, Option, none, some, List, [], ◌∷◌, Bool-cases, find,
  update_first,
}
use textile_erp_cloud.Base.Int.{ℤ}
use textile_erp_cloud.Base.Text.{Text, text_eq, text_eq_sound, trim_space}
use textile_erp_cloud.Portal.Access.{Access}
use textile_erp_cloud.Portal.Passwords.{
  with_hash, is_old, rehashed, verify_old, verify_found, verify_password, may_log_in, try_accounts,
  authenticate,
}
use textile_erp_cloud.Portal.Passwords.Secrets.{SameSecrets, find_written}
use textile_erp_cloud.Portal.Services.{Services, decrypt}
use textile_erp_cloud.Portal.Steps.{change_first}
use mathlib.Core.Path.{subst}
use textile_erp_cloud.Portal.Store.{Row, read_accesses, has_token, list_accesses}
use textile_erp_cloud.Portal.Store.Kept.{read_written}

-- The password matches the hash of the account, or is the one that is sealed in it.
abbrev pub IsRight : Services → Text → Access → Type 0
IsRight sv password a =
    (sv.password_matches a.password_hash password ≡ true)
    ⊎ (decrypt sv a.password_enc ≡ some password)

-- It is right for the account that the file has under the token.
abbrev pub Opens : Services → Text → Text → List Row → Type 0
Opens sv password token file =
    (a : Access) × (find (has_token token) (read_accesses file) ≡ some a) × IsRight sv password a

same-IsRight :
    (sv : Services) (password : Text) (b c : Access)
    → SameSecrets b c
    → IsRight sv password b
    → IsRight sv password c
same-IsRight sv password b c s (inl h) =
    inl (ap (λ t. sv.password_matches t password) (sym (s.1)) ∙ h)
same-IsRight sv password b c s (inr h) = inr (ap (decrypt sv) (sym (s.2)) ∙ h)

-- The same account as it was before another one, or itself, was given a hash of its sealed password.
find_hashed :
    (sv : Services) (password hash token other : Text) (items : List Access) (a c : Access)
    → find (has_token token) items ≡ some a
    → decrypt sv a.password_enc ≡ some password
    → find (has_token other) (update_first (has_token token) (with_hash hash) items) ≡ some c
    → IsRight sv password c
    → (d : Access) × (find (has_token other) items ≡ some d) × IsRight sv password d
find_hashed sv password hash token other [] a c e opened h k = absurd (cc)
find_hashed sv password hash token other (x ∷ more) a c e opened h k =
    elim (Bool-cases (has_token token x)) [
      | inl hit ↦ elim (Bool-cases (has_token other x)) [
        | inl hit' ↦
            let same : x ≡ a = some-injective _ _ (rw hit at e) in
            rw hit' (x, refl, inr (ap (λ (y : Access). decrypt sv y.password_enc) same ∙ opened))
        | inr miss' ↦ rw miss' (c, rw (hit, miss') at h, k)
      ]
      | inr miss ↦ elim (Bool-cases (has_token other x)) [
        | inl hit' ↦
            let same : x ≡ c = some-injective _ _ (rw (miss, hit') at h) in
            rw hit' (x, refl, subst (IsRight sv password) (sym same) k)
        | inr miss' ↦ rw miss' (
            find_hashed sv password hash token other more a c (rw miss at e) opened
              (rw (miss, miss') at h) k)
      ]
    ]

rehashed-Opens :
    (sv : Services) (password token other : Text) (file : List Row) (a : Access)
    (hash : Option Text)
    → find (has_token token) (read_accesses file) ≡ some a
    → decrypt sv a.password_enc ≡ some password
    → Opens sv password other (rehashed token file hash).1
    → Opens sv password other file
unfolding change_first
rehashed-Opens sv password token other file a none e opened k = k
rehashed-Opens sv password token other file a (some hash) e opened (c, found, k) =
    let items = update_first (has_token token) (with_hash hash) (read_accesses file) in
    let (d, found', same) = find_written other items c (rw (e, read_written items) at found) in
    find_hashed sv password hash token other (read_accesses file) a d e opened found'
      (same-IsRight sv password c d same k)

verify_old-Opens :
    (sv : Services) (password token other : Text) (file : List Row) (a : Access) (raw : Option Text)
    → find (has_token token) (read_accesses file) ≡ some a
    → decrypt sv a.password_enc ≡ raw
    → Opens sv password other (verify_old sv token password a file raw).1
    → Opens sv password other file
verify_old-Opens sv password token other file a none e opened k = k
verify_old-Opens sv password token other file a (some raw) e opened k =
    elim (Bool-cases (text_eq raw password)) [
      | inl right ↦
          rehashed-Opens sv password token other file a (sv.hash_password password) e
            (opened ∙ ap some (text_eq_sound raw password right)) (rw right at k)
      | inr wrong ↦ rw wrong at k
    ]

verify_found-Opens :
    (sv : Services) (password token other : Text) (file : List Row) (found : Option Access)
    → find (has_token token) (read_accesses file) ≡ found
    → Opens sv password other (verify_found sv token password file found).1
    → Opens sv password other file
verify_found-Opens sv password token other file none e k = k
verify_found-Opens sv password token other file (some a) e k = elim (Bool-cases (is_old a)) [
  | inl old ↦
      verify_old-Opens sv password token other file a (decrypt sv a.password_enc) e refl
        (rw old at k)
  | inr new ↦ rw new at k
]

verify_password-Opens :
    (sv : Services) (password token other : Text) (file : List Row)
    → Opens sv password other (verify_password sv token password file).1
    → Opens sv password other file
unfolding verify_password
verify_password-Opens sv password token other file k =
    verify_found-Opens sv password token other file (find (has_token token) (read_accesses file))
      refl k

verify_old-IsRight :
    (sv : Services) (password token : Text) (file : List Row) (a : Access) (raw : Option Text)
    → decrypt sv a.password_enc ≡ raw
    → (verify_old sv token password a file raw).0 ≡ true
    → IsRight sv password a
verify_old-IsRight sv password token file a none opened h = absurd (cc)
verify_old-IsRight sv password token file a (some raw) opened h =
    elim (Bool-cases (text_eq raw password)) [
      | inl right ↦ inr (opened ∙ ap some (text_eq_sound raw password right))
      | inr wrong ↦ inl (rw wrong at h)
    ]

verify_found-IsRight :
    (sv : Services) (password token : Text) (file : List Row) (found : Option Access)
    → find (has_token token) (read_accesses file) ≡ found
    → (verify_found sv token password file found).0 ≡ true
    → Opens sv password token file
verify_found-IsRight sv password token file none e h = absurd (cc)
verify_found-IsRight sv password token file (some a) e h = elim (Bool-cases (is_old a)) [
  | inl old ↦ (
    a,
    e,
    verify_old-IsRight sv password token file a (decrypt sv a.password_enc) refl (rw old at h),
  )
  | inr new ↦ (a, e, inl (rw new at h))
]

verify_password-IsRight :
    (sv : Services) (password token : Text) (file : List Row)
    → (verify_password sv token password file).0 ≡ true
    → Opens sv password token file
unfolding verify_password
verify_password-IsRight sv password token file h =
    verify_found-IsRight sv password token file (find (has_token token) (read_accesses file)) refl h

-- The account may log in under the name, and its password is right.
abbrev pub IsLetIn : Services → ℤ → Text → Text → List Row → Access → Type 0
IsLetIn sv now username password file a =
    (may_log_in now username a ≡ true) × Opens sv password a.access_token file

try_accounts-IsLetIn :
    (sv : Services) (now : ℤ) (username password : Text) (items : List Access) (file : List Row)
    (a : Access)
    → (try_accounts sv now username password items file).0 ≡ some a
    → IsLetIn sv now username password file a
unfolding try_accounts
try_accounts-IsLetIn sv now username password [] file a h = absurd (cc)
try_accounts-IsLetIn sv now username password (x ∷ more) file a h =
    let tried = verify_password sv x.access_token password file in
    elim (Bool-cases (may_log_in now username x)) [
      | inr other ↦ try_accounts-IsLetIn sv now username password more file a (rw other at h)
      | inl fits ↦ elim (Bool-cases tried.0) [
        | inl right ↦
            let same : x ≡ a = some-injective _ _ (rw (fits, right) at h) in
            subst (IsLetIn sv now username password file) same
              (fits, verify_password-IsRight sv password x.access_token file right)
        | inr wrong ↦
            let later =
              try_accounts-IsLetIn sv now username password more tried.1 a
                (rw (fits, wrong) at h) in
            (later.0, verify_password-Opens sv password x.access_token a.access_token file later.1)
      ]
    ]

-- Whoever logs in is an account of Textile ERP that is active and has not expired, under the user name that
-- was given (up to case and outer spaces), and the password that was given matches the hash of the
-- account that the file had under its token, or is the one that was sealed there.
pub authenticate-IsLetIn :
    (sv : Services) (now : ℤ) (username password : Text) (file : List Row) (a : Access)
    → (authenticate sv now username password file).0 ≡ some a
    → IsLetIn sv now (trim_space username) password file a
unfolding authenticate
authenticate-IsLetIn sv now username password file a h =
    try_accounts-IsLetIn sv now (trim_space username) password (list_accesses file) file a h
