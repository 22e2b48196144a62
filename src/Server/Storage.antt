-- ===== src/Server/Storage.antt =====
-- internal/server/storage/storage.go: the stored records and the errors that the layers compare.
-- A record's identifier is a UUID, a number below 2 ^ 128 that PostgreSQL compares as such; bytes
-- are lists of numbers; times are in seconds.
use go_yandex_gophkeeper.Base.{ℕ, String, Bool, List, Option}
use go_yandex_gophkeeper.Base.Int.{ℤ}

-- The sentinel errors that `errors.Is` looks for, which `%w` keeps; `failure` is any other error, and
-- `panicked` stands for a panic, after which the process is gone.
pub data Error : Type 0 where
  not_found conflict user_exists invalid_credentials mfa_invalid : Error
  token_expired token_invalid failure panicked : Error

pub record User : Type 0 where
  pub id : ℕ
  pub username : String
  pub email : String
  pub password_hash : String
  pub vault_sym_key : List ℕ
  pub kdf_params : String
  pub mfa_required : Bool
  pub created_at : ℕ

pub record Session : Type 0 where
  pub id : ℕ
  pub user_id : ℕ
  pub refresh_token : String
  pub expires_at : ℕ
  pub mfa_verified : Bool
  pub created_at : ℕ

pub record VaultItem : Type 0 where
  pub id : ℕ
  pub user_id : ℕ
  pub type : String
  pub payload : List ℕ
  pub metadata : String
  pub version : ℕ
  pub created_at : ℕ
  pub updated_at : ℕ

pub record TotpRecord : Type 0 where
  pub id : ℕ
  pub user_id : ℕ
  pub secret : String
  pub label : String
  pub confirmed : Bool
  pub created_at : ℕ

pub record WebAuthnCredential : Type 0 where
  pub id : ℕ
  pub user_id : ℕ
  pub credential_id : List ℕ
  pub public_key : List ℕ
  pub aaguid : List ℕ
  pub sign_count : ℕ
  pub name : String
  pub created_at : ℕ

-- The row of `webauthn_sessions`, whose `data` is JSON text.
pub record WebAuthnSession : Type 0 where
  pub id : ℕ
  pub user_id : ℕ
  pub content : String
  pub expires_at : ℕ

-- The audited actions of internal/shared/audit/audit.go.
pub data Action : Type 0 where
  register login login_failed logout refresh : Action
  mfa_enroll mfa_verify mfa_failed : Action
  vault_create vault_read vault_update vault_delete vault_list : Action

pub data Outcome : Type 0 where
  granted denied : Outcome

-- The detail maps that the services write.
pub data Detail : Type 0 where
  no_detail : Detail
  created : ℕ → String → String → Detail
  touched : ℕ → String → Detail
  deleted : ℕ → Detail
  counted : ℕ → Detail

pub record AuditEntry : Type 0 where
  pub user_id : Option ℕ
  pub action : Action
  pub ip : String
  pub outcome : Outcome
  pub detail : Detail
  pub created_at : ℕ

-- `TypeFilter` and `Cursor` are empty where the caller gives none.
pub record ListFilter : Type 0 where
  pub type_filter : String
  pub limit : ℤ
  pub cursor : Option ℕ
