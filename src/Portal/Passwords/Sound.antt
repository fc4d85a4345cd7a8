-- ===== src/Portal/Passwords/Sound.antt =====
-- What portal_server/main.go does with passwords keeps the accounts of the file distinct.
use textile_erp_cloud.Portal.Steps.Sound.{change_first-IsSoundFile, and_then-IsSoundFile}
use textile_erp_cloud.Base.{refl, inl, inr, Option, none, some, List, [], ◌∷◌, Bool-cases, find}
use textile_erp_cloud.Base.Int.{ℤ}
use textile_erp_cloud.Base.Text.{Text, text_eq}
use textile_erp_cloud.Portal.Access.{Access}
use textile_erp_cloud.Portal.Services.{Services, decrypt}
use textile_erp_cloud.Portal.Store.{Row, read_accesses, has_token}
use textile_erp_cloud.Portal.Store.Kept.{IsSoundFile}
use textile_erp_cloud.Portal.Passwords.{
  new_password, change_password, rehashed, with_hash, is_old, verify_old, verify_found,
  verify_password, may_log_in, try_accounts,
}

pub change_password-IsSoundFile :
    (sv : Services) (token password : Text) (file : List Row)
    → IsSoundFile file
    → IsSoundFile (change_password sv token password file).1
unfolding change_password
change_password-IsSoundFile sv token password file h =
    and_then-IsSoundFile _ _
      (λ (r : Text × Text) file h.
        change_first-IsSoundFile (has_token token) (new_password r.0 r.1) file
          (λ a. (refl, refl, refl)) h)
      h

rehashed-IsSoundFile :
    (token : Text) (file : List Row) (hash : Option Text)
    → IsSoundFile file
    → IsSoundFile (rehashed token file hash).1
rehashed-IsSoundFile token file none h = h
rehashed-IsSoundFile token file (some hash) h =
    change_first-IsSoundFile (has_token token) (with_hash hash) file (λ a. (refl, refl, refl)) h

verify_old-IsSoundFile :
    (sv : Services) (token password : Text) (a : Access) (file : List Row) (raw : Option Text)
    → IsSoundFile file
    → IsSoundFile (verify_old sv token password a file raw).1
verify_old-IsSoundFile sv token password a file none h = h
verify_old-IsSoundFile sv token password a file (some raw) h =
    elim (Bool-cases (text_eq raw password)) [
      | inl right ↦ rw right (rehashed-IsSoundFile token file (sv.hash_password password) h)
      | inr wrong ↦ rw wrong h
    ]

verify_found-IsSoundFile :
    (sv : Services) (token password : Text) (file : List Row) (found : Option Access)
    → IsSoundFile file
    → IsSoundFile (verify_found sv token password file found).1
verify_found-IsSoundFile sv token password file none h = h
verify_found-IsSoundFile sv token password file (some a) h = elim (Bool-cases (is_old a)) [
  | inl old ↦ rw old (verify_old-IsSoundFile sv token password a file (decrypt sv a.password_enc) h)
  | inr new ↦ rw new h
]

pub verify_password-IsSoundFile :
    (sv : Services) (token password : Text) (file : List Row)
    → IsSoundFile file
    → IsSoundFile (verify_password sv token password file).1
unfolding verify_password
verify_password-IsSoundFile sv token password file h =
    verify_found-IsSoundFile sv token password file (find (has_token token) (read_accesses file)) h

pub try_accounts-IsSoundFile :
    (sv : Services) (now : ℤ) (username password : Text) (items : List Access) (file : List Row)
    → IsSoundFile file
    → IsSoundFile (try_accounts sv now username password items file).1
unfolding try_accounts
try_accounts-IsSoundFile sv now username password [] file h = h
try_accounts-IsSoundFile sv now username password (a ∷ more) file h =
    let tried = verify_password sv a.access_token password file in
    let h' = verify_password-IsSoundFile sv a.access_token password file h in
    elim (Bool-cases (may_log_in now username a)) [
      | inr other ↦ rw other (try_accounts-IsSoundFile sv now username password more file h)
      | inl same ↦ elim (Bool-cases tried.0) [
        | inl right ↦ rw (same, right) h'
        | inr wrong ↦
            rw (same, wrong) (try_accounts-IsSoundFile sv now username password more tried.1 h')
      ]
    ]
