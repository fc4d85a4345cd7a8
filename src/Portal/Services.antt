-- ===== src/Portal/Services.antt =====
-- portal_server/main.go: what the portal asks of other servers and of its libraries. The answers are
-- arguments: bcrypt, AES-GCM with base64, and the HTTP servers of the operational module and of the
-- weaving hall, where `none` is a failed exchange.
use textile_erp_cloud.Base.{
  List, [], ℕ, Bool, true, false, not, ◌&&◌, ◌||◌, Option, none, some, ltb, if◌then◌else◌,
}
use textile_erp_cloud.Base.Int.{ℤ, pos, ltb_ℤ}
use textile_erp_cloud.Base.Result.{Result, ok, ◌>>=◌, ◌>>◌, refuse_if, or_err}
use textile_erp_cloud.Base.Text.{Text, is_empty, trim_space, byte_len}
use textile_erp_cloud.Portal.Access.{Role, owner, manager, Access, effective_role}

pub data AccessError : Type 0 where
  invalid_project no_company expired no_module setup_too_early short_password : AccessError
  username_used not_hashed downstream no_weaving_owner no_access bad_trial not_owner : AccessError
  no_name forbidden itself no_ticket : AccessError

-- The payload of /api/portal/provision.
pub record TenantCall : Type 0 where
  pub company_id : ℤ
  pub access_id : ℤ
  pub company_name : Text
  pub contact_name : Text
  pub username : Text
  pub password : Text
  pub role : Text

pub record TenantReply : Type 0 where
  pub status : ℕ
  pub success : Bool
  pub company_id : ℤ

-- The payload of /api/internal/provision; the keys are those of company and access.
pub record WeavingCall : Type 0 where
  pub company_id : ℤ
  pub access_id : ℤ
  pub tenant_name : Text
  pub display_name : Text
  pub username : Text
  pub password : Text

pub record WeavingReply : Type 0 where
  pub status : ℕ
  pub tenant_id : Text

-- The payload of /api/internal/users/sync.
pub record UserCall : Type 0 where
  pub tenant_id : Text
  pub access_id : ℤ
  pub username : Text
  pub password : Text
  pub display_name : Text
  pub is_manager : Bool
  pub active : Bool

pub record Services : Type 0 where
  -- `bcrypt.GenerateFromPassword` and `bcrypt.CompareHashAndPassword`
  pub hash_password : Text → Option Text
  pub password_matches : Text → Text → Bool
  pub seal : Text → Option Text
  pub open_seal : Text → Option Text
  pub weaving_app_url : Text
  pub weaving_monitor_token : Text
  pub tenant_reply : TenantCall → Option TenantReply
  pub weaving_reply : WeavingCall → Option WeavingReply
  -- the status of the answer
  pub user_reply : UserCall → Option ℕ

-- What one call draws from `crypto/rand` and takes from the clock as text.
pub record Draws : Type 0 where
  pub token : Text
  pub suffixes : List Text
  pub clock : Text
  pub password_suffix : Text
  pub spare_password : Text

abbrev pub is_fine : ℕ → Bool
is_fine status = not (ltb status 200) && ltb status 300

-- `provisionTextileTenant`: the company that the operational server answers with.
unfoldable pub provision_tenant : Services → TenantCall → Result AccessError ℤ
provision_tenant sv call = do
  reply ← or_err (sv.tenant_reply call) downstream
  refuse_if
      (not (is_fine reply.status) || not reply.success || not (ltb_ℤ (pos 0) reply.company_id))
      downstream
  ok reply.company_id

-- `provisionWeavingTenant`
unfoldable pub provision_weaving : Services → WeavingCall → Result AccessError Text
provision_weaving sv call = do
  refuse_if
      (is_empty (trim_space sv.weaving_app_url)
        || ltb (byte_len (trim_space sv.weaving_monitor_token)) 32)
      downstream
  reply ← or_err (sv.weaving_reply call) downstream
  refuse_if (not (is_fine reply.status) || is_empty (trim_space reply.tenant_id)) downstream
  ok (trim_space reply.tenant_id)

abbrev pub leads : Role → Bool
leads owner = true
leads manager = true
leads _ = false

-- `syncWeavingUser`
unfoldable pub sync_user : Services → Access → Text → Bool → Result AccessError (Unit {0})
sync_user sv a password active = do
  refuse_if (is_empty (trim_space a.weaving_tenant_id)) downstream
  status ←
      or_err
        (sv.user_reply (record {
          tenant_id = a.weaving_tenant_id;
          access_id = a.id;
          username = a.username;
          password = password;
          display_name = a.contact_name;
          is_manager = leads (effective_role a);
          active = active;
        }))
        downstream
  refuse_if (not (is_fine status)) downstream

-- `decryptPassword`
unfoldable pub decrypt : Services → Text → Option Text
decrypt sv value = if is_empty (trim_space value) then none else sv.open_seal value

-- `mustDecryptPassword`
unfoldable pub must_decrypt : Services → Access → Text
unfolding decrypt
must_decrypt sv a = elim (decrypt sv a.password_enc) [ none ↦ [] | some password ↦ password ]

-- The hash and the sealed text of a password.
unfoldable pub secure : Services → Text → Result AccessError (Text × Text)
secure sv password = do
  hash ← or_err (sv.hash_password password) not_hashed
  enc ← or_err (sv.seal password) not_hashed
  ok (hash, enc)
