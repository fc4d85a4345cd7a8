-- ===== src/Portal/Accounts/Tests.antt =====
-- Calls on the accounts of one company.
use textile_erp_cloud.Base.{List, [], ◌∷◌}
use textile_erp_cloud.Base.Int.{ℤ, pos}
use textile_erp_cloud.Base.Text.{codes}
use textile_erp_cloud.Portal.Accounts.Calls.{
  Call, creates, rotates, toggles, deletes, authenticates, after_all, calls-IsSoundFile,
}
use textile_erp_cloud.Portal.Samples.{company-IsSoundFile, servers, draws, company, member}
use textile_erp_cloud.Portal.Store.Kept.{IsSoundFile}

abbrev calls : List (ℤ × Call)
calls =
    (pos 10, creates draws member)
    ∷ (pos 11, rotates (codes "beef") (pos 2))
    ∷ (pos 12, authenticates (codes "sara") (codes "secret123"))
    ∷ (pos 13, toggles (pos 2))
    ∷ (pos 14, deletes (pos 2))
    ∷ []

calls-IsSoundFile_example : IsSoundFile (after_all servers calls company)
calls-IsSoundFile_example = calls-IsSoundFile servers calls company company-IsSoundFile
