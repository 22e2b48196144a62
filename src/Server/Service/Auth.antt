-- ===== src/Server/Service/Auth.antt =====
-- internal/server/service/auth.go
use go_yandex_gophkeeper.Base.{
  ℕ, suc, ◌+◌, String, Bool, false, not, List, Option, none, some, Result, ok, err, Exec, pure,
  raise, gets, attempt, ◌>>=◌, ◌>>◌, ltb, if◌then◌else◌,
}
use go_yandex_gophkeeper.Server.Storage.{
  Error, not_found, conflict, user_exists, invalid_credentials, failure, User, Session, register,
  login_failed, granted, denied, no_detail,
}
use go_yandex_gophkeeper.Server.Storage.{Action}
use go_yandex_gophkeeper.Server.World.{Env, World, Context}
use go_yandex_gophkeeper.Server.Postgres.Users
use go_yandex_gophkeeper.Server.Postgres.Sessions
use go_yandex_gophkeeper.Server.Jwt.{issue_access_token, issue_refresh_token}
use go_yandex_gophkeeper.Server.Service.Audit.{log_audit}

pub record RegisterInput : Type 0 where
  pub username : String
  pub email : String
  pub password : String
  pub vault_sym_key : List ℕ
  pub kdf_params_json : String

abbrev hashed : Option String → Result Error String
hashed none = err failure
hashed (some h) = ok h

-- `bcrypt.GenerateFromPassword`, which draws a salt.
unfoldable pub hash_password : ⦃env : Env⦄ → String → Exec World Error String
hash_password ⦃env⦄ password w =
    (hashed (env.bcrypt_hash w.salts password), record w { salts = suc w.salts })

-- `errors.Is(err, storage.ErrConflict)`
abbrev pub register_error : Error → Error
register_error conflict = user_exists
register_error e = e

abbrev pub new_user : RegisterInput → String → User
new_user r hash = record {
  id = 0;
  username = r.username;
  email = r.email;
  password_hash = hash;
  vault_sym_key = r.vault_sym_key;
  kdf_params = r.kdf_params_json;
  mfa_required = false;
  created_at = 0;
}

-- What `Register` does with the result of `Users().Create`.
abbrev pub registered : ⦃env : Env⦄ → Context → Result Error User → Exec World Error ℕ
registered ctx (err e) = raise (register_error e)
registered ctx (ok user) = do log_audit ctx user.id register granted no_detail; pure user.id

-- `AuthService.Register`
unfoldable pub register_user : ⦃env : Env⦄ → Context → RegisterInput → Exec World Error ℕ
unfolding hash_password Users.create log_audit
register_user ctx r = do
  hash ← hash_password r.password
  attempt (Users.create (new_user r hash)) (registered ctx)

pub record LoginResult : Type 0 where
  pub access_token : String
  pub refresh_token : String
  pub session_id : ℕ
  pub needs_mfa : Bool
  pub kdf_params_json : String
  pub vault_sym_key : List ℕ

-- `30 * 24 * time.Hour`
abbrev pub session_ttl : ℕ
session_ttl = 2592000

abbrev pub new_session : ℕ → String → ℕ → Bool → Session
new_session user_id token now verified = record {
  id = 0;
  user_id = user_id;
  refresh_token = token;
  expires_at = now + session_ttl;
  mfa_verified = verified;
  created_at = 0;
}

-- The access token of `Login`: empty while MFA is outstanding.
unfoldable pub login_access : ⦃env : Env⦄ → Context → User → Exec World Error String
unfolding issue_access_token log_audit
login_access ctx user = if user.mfa_required then pure "" else do
  token ← issue_access_token user.id false
  log_audit ctx user.id Action.login granted no_detail
  pure token

-- `Login` once the password has been accepted.
unfoldable pub open_session : ⦃env : Env⦄ → Context → User → Exec World Error LoginResult
unfolding issue_refresh_token Sessions.create login_access
open_session ctx user = do
  refresh ← issue_refresh_token user.id
  now ← gets (λ w. w.now)
  session ← Sessions.create (new_session user.id refresh now (not user.mfa_required))
  access ← login_access ctx user
  pure (record {
    access_token = access;
    refresh_token = refresh;
    session_id = session.id;
    needs_mfa = user.mfa_required;
    kdf_params_json = user.kdf_params;
    vault_sym_key = user.vault_sym_key;
  })

-- The result of `GetByUsername`; the comparison with `dummyHash` has no effect but its time.
abbrev pub authenticated :
    ⦃env : Env⦄ → Context → String → Result Error User → Exec World Error LoginResult
authenticated ctx password (err not_found) = raise invalid_credentials
authenticated ctx password (err e) = raise e
authenticated ⦃env⦄ ctx password (ok user) =
    if env.bcrypt_compare user.password_hash password
    then open_session ctx user
    else do log_audit ctx user.id login_failed denied no_detail; raise invalid_credentials

-- `AuthService.Login`
unfoldable pub login : ⦃env : Env⦄ → Context → String → String → Exec World Error LoginResult
unfolding Users.get_by_username open_session log_audit
login ctx username password = attempt (Users.get_by_username username) (authenticated ctx password)

-- What `Refresh` does with the session; every error of the lookup is the same error.
abbrev pub refreshed : ⦃env : Env⦄ → Context → Result Error Session → Exec World Error String
refreshed ctx (err e) = raise invalid_credentials
refreshed ctx (ok s) = do
  now ← gets (λ w. w.now)
  if ltb s.expires_at now then raise invalid_credentials else do
    token ← issue_access_token s.user_id s.mfa_verified
    log_audit ctx s.user_id Action.refresh granted no_detail
    pure token

-- `AuthService.Refresh`
unfoldable pub refresh : ⦃env : Env⦄ → Context → String → Exec World Error String
unfolding Sessions.get_by_refresh_token issue_access_token log_audit
refresh ctx token = attempt (Sessions.get_by_refresh_token token) (refreshed ctx)

-- `AuthService.Logout`
unfoldable pub logout : ⦃env : Env⦄ → Context → ℕ → String → Exec World Error Unit
unfolding Sessions.delete log_audit
logout ctx user_id token w =
    let (r, w') = Sessions.delete token w in
    (r, (log_audit ctx user_id Action.logout granted no_detail w').1)
