-- ===== src/Server/Service/Mfa.antt =====
-- internal/server/service/mfa.go
use go_yandex_gophkeeper.Base.{
  ℕ, suc, String, Bool, true, false, Option, none, some, Result, ok, err, Exec, pure, raise, gets,
  attempt, ◌>>=◌, ◌>>◌, any, if◌then◌else◌,
}
use go_yandex_gophkeeper.Server.Storage.{
  Error, mfa_invalid, failure, TotpRecord, mfa_enroll, mfa_verify, mfa_failed, granted, denied,
  no_detail,
}
use go_yandex_gophkeeper.Server.World.{Env, World, Context}
use go_yandex_gophkeeper.Server.Postgres.Users
use go_yandex_gophkeeper.Server.Postgres.Sessions
use go_yandex_gophkeeper.Server.Postgres.Mfa
use go_yandex_gophkeeper.Server.Jwt.{issue_access_token, issue_refresh_token}
use go_yandex_gophkeeper.Server.Service.Audit.{log_audit}
use go_yandex_gophkeeper.Server.Service.Auth.{new_session}

pub record EnrollTotpResult : Type 0 where
  pub totp_id : ℕ
  pub secret : String
  pub otp_auth_url : String

abbrev generated : Option (String × String) → Result Error (String × String)
generated none = err failure
generated (some key) = ok key

-- `totp.Generate`, which draws a secret.
unfoldable pub generate_key : ⦃env : Env⦄ → String → Exec World Error (String × String)
generate_key ⦃env⦄ label w =
    (generated (env.totp_generate w.salts env.issuer label), record w { salts = suc w.salts })

-- `MFAService.EnrollTOTP`
unfoldable pub enroll_totp : ⦃env : Env⦄ → Context → ℕ → String → Exec World Error EnrollTotpResult
unfolding generate_key Mfa.create_totp
enroll_totp ctx user_id label = do
  key ← generate_key label
  rec ← Mfa.create_totp (record {
    id = 0;
    user_id = user_id;
    secret = key.0;
    label = label;
    confirmed = false;
    created_at = 0;
  })
  pure (record { totp_id = rec.id; secret = key.0; otp_auth_url = key.1 })

abbrev pub is_valid : Option Bool → Bool
is_valid none = false
is_valid (some b) = b

-- `totp.ValidateCustom` with period 30, skew 1 and six digits; an error counts as a wrong code.
abbrev pub accepts : ⦃env : Env⦄ → String → ℕ → TotpRecord → Bool
accepts ⦃env⦄ code now rec = is_valid (env.totp_validate code rec.secret now)

-- The two updates of `ConfirmTOTP`.
abbrev pub enable_mfa : ⦃env : Env⦄ → Context → ℕ → ℕ → Exec World Error Unit
enable_mfa ctx user_id totp_id = do
  Mfa.confirm_totp totp_id
  Users.set_mfa_required user_id true
  log_audit ctx user_id mfa_enroll granted no_detail

-- What `ConfirmTOTP` does with the record that it has read.
abbrev pub confirmed_by :
    ⦃env : Env⦄ → Context → ℕ → ℕ → String → Result Error TotpRecord → Exec World Error Unit
confirmed_by ctx user_id totp_id code (err e) = raise mfa_invalid
confirmed_by ctx user_id totp_id code (ok rec) = do
  now ← gets (λ w. w.now)
  if accepts code now rec then enable_mfa ctx user_id totp_id else raise mfa_invalid

-- `MFAService.ConfirmTOTP`
unfoldable pub confirm_totp : ⦃env : Env⦄ → Context → ℕ → ℕ → String → Exec World Error Unit
unfolding Mfa.get_totp_by_id Mfa.confirm_totp Users.set_mfa_required log_audit
confirm_totp ctx user_id totp_id code =
    attempt (Mfa.get_totp_by_id totp_id user_id) (confirmed_by ctx user_id totp_id code)

pub record VerifyMfaResult : Type 0 where
  pub access_token : String
  pub refresh_token : String

-- `VerifyTOTP` once a code has matched.
unfoldable pub complete_mfa : ⦃env : Env⦄ → Context → ℕ → ℕ → Exec World Error VerifyMfaResult
unfolding Sessions.set_mfa_verified issue_refresh_token Sessions.create issue_access_token log_audit
complete_mfa ctx user_id session_id = do
  Sessions.set_mfa_verified session_id
  refresh ← issue_refresh_token user_id
  now ← gets (λ w. w.now)
  Sessions.create (new_session user_id refresh now true)
  access ← issue_access_token user_id true
  log_audit ctx user_id mfa_verify granted no_detail
  pure (record { access_token = access; refresh_token = refresh })

-- `MFAService.VerifyTOTP`: the loop stops at the first record that accepts the code.
unfoldable pub verify_totp :
    ⦃env : Env⦄ → Context → ℕ → ℕ → String → Exec World Error VerifyMfaResult
unfolding Mfa.list_totp complete_mfa log_audit
verify_totp ctx user_id session_id code = do
  records ← Mfa.list_totp user_id
  now ← gets (λ w. w.now)
  if any (accepts code now) records
      then complete_mfa ctx user_id session_id
      else do log_audit ctx user_id mfa_failed denied no_detail; raise mfa_invalid
