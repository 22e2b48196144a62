-- ===== src/Server/Middleware/Auth.antt =====
-- internal/server/middleware/auth.go
use go_yandex_gophkeeper.Base.{
  ℕ, String, Bool, List, [], ◌∷◌, some, Result, ok, err, Exec, pure, raise, attempt, ◌>>=◌, str_eq,
  if◌then◌else◌, any,
}
use go_yandex_gophkeeper.Server.Storage.{Error}
use go_yandex_gophkeeper.Server.World.{Env, World, Payload, Context}
use go_yandex_gophkeeper.Server.Jwt.{parse_access_token}
use go_yandex_gophkeeper.Server.Middleware.Metadata.{
  Code, unauthenticated, metadata_values, trim_prefix,
}

-- `publicMethods`
abbrev pub public_methods : List String
public_methods =
    "/auth.AuthService/Register" ∷ "/auth.AuthService/Login" ∷ "/auth.AuthService/Refresh"
    ∷ "/auth.AuthService/VerifyMFA" ∷ []

abbrev pub is_public : String → Bool
is_public method = any (λ m. str_eq m method) public_methods

-- `ContextWithUserID`, and the `context.WithValue` of `extractAndValidate`.
abbrev pub with_user_id : Context → ℕ → Context
with_user_id ctx id = record ctx { user_id = some id }

-- The end of `extractAndValidate`: any error of the token has the one status.
abbrev pub validated : ⦃env : Env⦄ → Context → Result Error Payload → Exec World Code Context
validated ctx (err e) = raise unauthenticated
validated ctx (ok p) = pure (with_user_id ctx p.subject)

abbrev pub from_header : ⦃env : Env⦄ → Context → List String → Exec World Code Context
from_header ctx [] = raise unauthenticated
from_header ctx (v ∷ _) = attempt (parse_access_token (trim_prefix "Bearer " v)) (validated ctx)

-- `extractAndValidate`
unfoldable pub extract_and_validate : ⦃env : Env⦄ → Context → Exec World Code Context
unfolding parse_access_token
extract_and_validate ctx = from_header ctx (metadata_values ctx "authorization")

-- `AuthInterceptor`, and `AuthStreamInterceptor` with the stream's context.
unfoldable pub auth_interceptor :
    ⦃env : Env⦄
    → {A : Type 0} → String
    → (Context → Exec World Code A)
    → Context
    → Exec World Code A
unfolding extract_and_validate
auth_interceptor method handler ctx =
    if is_public method then handler ctx else do ctx' ← extract_and_validate ctx; handler ctx'
