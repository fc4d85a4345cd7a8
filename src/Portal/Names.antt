-- ===== src/Portal/Names.antt =====
-- portal_server/main.go: the names and passwords that the portal makes up. `suffixes` are the draws of
-- `randomHex(2)`, `clock` is what the last resort takes from the time.
use textile_erp_cloud.Base.{
  ℕ, zero, suc, Bool, false, not, ◌&&◌, ◌||◌, List, [], ◌∷◌, ◌++◌, leb, ltb, ◌==◌, if◌then◌else◌,
  length,
}
use textile_erp_cloud.Base.Int.{ℤ}
use textile_erp_cloud.Base.Text.{Text, codes, text_eq, is_empty, trim_space, to_lower, to_upper}
use textile_erp_cloud.Portal.Access.{Project, Access}
use textile_erp_cloud.Portal.Store.{username_taken}
use mathlib.Core.List.{reverse}

is_slug : ℕ → Bool
is_slug c = (leb b'a' c && leb c b'z') || (leb b'0' c && leb c b'9')

-- The loop of `slugTokenBase`: `out` is what was built, `dash` whether it ends in a dash.
slug_loop : Text → Bool → Text → Text
unfolding is_slug
slug_loop out dash [] = out
slug_loop out dash (c ∷ s) =
    slug_loop
      (if is_slug c
        then out ++ (c ∷ [])
        else if not dash && not (is_empty out)
        then out ++ (b'-' ∷ [])
        else out)
      (not (is_slug c) && (dash || not (is_empty out))) s

drop_dashes : Text → Text
drop_dashes [] = []
drop_dashes (c ∷ s) = if c == b'-' then drop_dashes s else c ∷ s

-- `strings.Trim(s, "-")`
trim_dashes : Text → Text
unfolding drop_dashes
trim_dashes s = reverse (drop_dashes (reverse (drop_dashes s)))

take : ℕ → Text → Text
take zero s = []
take (suc n) [] = []
take (suc n) (c ∷ s) = c ∷ take n s

or_user : Text → Text
or_user [] = codes "user"
or_user (c ∷ s) = c ∷ s

-- `slugTokenBase`; what is built is ASCII, so `len` counts its characters.
unfoldable pub slug_base : Text → Text
unfolding slug_loop trim_dashes take or_user
slug_base value =
    let s = to_lower (trim_space value) in
    let out = trim_dashes (slug_loop [] false s) in
    if is_empty s || is_empty out
    then codes "user"
    else if ltb 18 (length out)
    then or_user (trim_dashes (take 18 out))
    else out

abbrev pub is_user : Text → Bool
is_user s = text_eq s (codes "user")

abbrev pub name_base : Text → Text → Text
name_base contact company =
    if not (is_user (slug_base contact))
    then slug_base contact
    else if not (is_user (slug_base company))
    then slug_base company
    else codes "staff"

-- The attempts of `uniqueGeneratedUsername`.
abbrev pub try_names : List Access → Project → ℤ → Text → Text → List Text → Text
try_names items project exclude base clock [] = base ++ codes "-" ++ clock
try_names items project exclude base clock (suffix ∷ rest) =
    let candidate = base ++ codes "-" ++ to_lower suffix in
    let later = try_names items project exclude base clock rest in
    if not (username_taken items project candidate exclude) then candidate else later

-- `uniqueGeneratedUsername`
unfoldable pub unique_username : List Access → Project → Text → Text → ℤ → Text → List Text → Text
unfolding slug_base
unique_username items project contact company exclude clock suffixes =
    try_names items project exclude (name_base contact company) clock suffixes

-- `generatedAccessPassword`
unfoldable pub generated_password : Text → Text → Text
unfolding slug_base
generated_password suffix username =
    let base = slug_base username in
    codes "Portal@" ++ (if is_user base then codes "portal" else base) ++ to_upper suffix

-- `validateAccessPassword`
unfoldable pub is_password : Text → Bool
is_password password = leb 8 (length (trim_space password))
