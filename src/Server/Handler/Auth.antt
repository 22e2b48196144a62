-- ===== src/Server/Handler/Auth.antt =====
-- internal/server/handler/auth.go. A response is the service's result.
use go_yandex_gophkeeper.Base.{
  ℕ, String, Bool, true, false, none, some, Result, ok, err, Exec, pure, raise, attempt,
}
use go_yandex_gophkeeper.Server.Storage.{Error, user_exists, invalid_credentials, mfa_invalid}
use go_yandex_gophkeeper.Server.World.{Env, World, Context}
use go_yandex_gophkeeper.Server.Service.Auth
use go_yandex_gophkeeper.Server.Service.Auth.{RegisterInput, LoginResult}
use go_yandex_gophkeeper.Server.Service.Mfa
use go_yandex_gophkeeper.Server.Service.Mfa.{EnrollTotpResult, VerifyMfaResult}
use go_yandex_gophkeeper.Server.Middleware.Metadata.{
  Code, unauthenticated, already_exists, internal, status,
}

-- `userIDFromCtx`, and the answer of a method that needs a user and finds none.
abbrev pub with_user : {A : Type 0} → Context → (ℕ → Exec World Code A) → Exec World Code A
with_user ctx k = elim ctx.user_id [ none ↦ raise unauthenticated | some id ↦ k id ]

-- The response of a method, or the status for its error.
abbrev pub respond : {A : Type 0} → (Error → Code) → Result Error A → Exec World Code A
respond f (ok a) = pure a
respond f (err e) = raise (f e)

abbrev pub register_status : Error → Code
register_status user_exists = already_exists
register_status e = status e internal

-- `AuthHandler.Register`
unfoldable pub register : ⦃env : Env⦄ → Context → RegisterInput → Exec World Code ℕ
unfolding Auth.register_user
register ctx r = attempt (Auth.register_user ctx r) (respond register_status)

abbrev pub login_status : Error → Code
login_status invalid_credentials = unauthenticated
login_status e = status e internal

-- `AuthHandler.Login`
unfoldable pub login : ⦃env : Env⦄ → Context → String → String → Exec World Code LoginResult
unfolding Auth.login
login ctx username password = attempt (Auth.login ctx username password) (respond login_status)

-- `AuthHandler.Refresh`
unfoldable pub refresh : ⦃env : Env⦄ → Context → String → Exec World Code String
unfolding Auth.refresh
refresh ctx token = attempt (Auth.refresh ctx token) (respond (λ e. status e unauthenticated))

-- `AuthHandler.Logout`: the error of the service is dropped.
unfoldable pub logout : ⦃env : Env⦄ → Context → String → Exec World Code Unit
unfolding Auth.logout
logout ctx token = with_user ctx (λ id. attempt (Auth.logout ctx id token) (λ _. pure tt))

-- `AuthHandler.EnrollTOTP`
unfoldable pub enroll_totp : ⦃env : Env⦄ → Context → String → Exec World Code EnrollTotpResult
unfolding Mfa.enroll_totp
enroll_totp ctx label =
    with_user ctx (λ id. attempt (Mfa.enroll_totp ctx id label) (respond (λ e. status e internal)))

abbrev pub confirmation : Result Error Unit → Exec World Code Bool
confirmation (ok _) = pure true
confirmation (err e) = pure false

-- `AuthHandler.ConfirmTOTP`: an error is the answer `Ok: false`.
unfoldable pub confirm_totp : ⦃env : Env⦄ → Context → ℕ → String → Exec World Code Bool
unfolding Mfa.confirm_totp
confirm_totp ctx totp_id code =
    with_user ctx (λ id. attempt (Mfa.confirm_totp ctx id totp_id code) confirmation)

abbrev pub verify_status : Error → Code
verify_status mfa_invalid = unauthenticated
verify_status e = status e internal

-- `AuthHandler.VerifyMFA`
unfoldable pub verify_mfa : ⦃env : Env⦄ → Context → ℕ → String → Exec World Code VerifyMfaResult
unfolding Mfa.verify_totp
verify_mfa ctx session_id code =
    with_user ctx (λ id. attempt (Mfa.verify_totp ctx id session_id code) (respond verify_status))
