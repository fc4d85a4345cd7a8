-- ===== src/Portal/Passwords/Tests.antt =====
-- The owner of the company logs in.
use textile_erp_cloud.Base.{◌≡◌, refl, some, none}
use textile_erp_cloud.Base.Int.{pos}
use textile_erp_cloud.Base.Text.{codes, text_eq, trim_space, to_lower, is_space, equal_fold}
use textile_erp_cloud.Portal.Access.{normalize_role}
use textile_erp_cloud.Portal.Passwords.{authenticate, verify_password}
use textile_erp_cloud.Portal.Passwords.Login.{IsLetIn, authenticate-IsLetIn}
use textile_erp_cloud.Portal.Samples.{servers, head_account, company}
use textile_erp_cloud.Portal.Store.{
  read_row, read_accesses, list_accesses, sort_accesses, sort_places, settle,
}

logs_in :
    (authenticate servers (pos 12) (codes " Sara ") (codes "secret123") company).0
    ≡ some head_account
unfolding authenticate verify_password normalize_role read_row read_accesses list_accesses
    sort_accesses sort_places settle text_eq is_space to_lower trim_space equal_fold
logs_in = refl

-- Not after the account has expired.
too_late : (authenticate servers (pos 1001) (codes "sara") (codes "secret123") company).0 ≡ none
unfolding authenticate verify_password normalize_role read_row read_accesses list_accesses
    sort_accesses sort_places settle text_eq is_space to_lower trim_space equal_fold
too_late = refl

authenticate-IsLetIn_example :
    IsLetIn servers (pos 12) (trim_space (codes " Sara ")) (codes "secret123") company head_account
authenticate-IsLetIn_example =
    authenticate-IsLetIn servers (pos 12) (codes " Sara ") (codes "secret123") company head_account
      logs_in
