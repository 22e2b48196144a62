-- ===== src/Server/Jwt.antt =====
-- internal/shared/jwt/jwt.go: a `Manager` issues and reads the tokens of golang-jwt.
use go_yandex_gophkeeper.Base.{
  ℕ, ◌+◌, String, Bool, false, Option, none, some, Result, ok, err, Exec,
}
use go_yandex_gophkeeper.Server.Storage.{Error, failure, token_expired, token_invalid}
use go_yandex_gophkeeper.Server.World.{
  Env, World, Payload, Parsed, valid, expired, malformed, JwtConfig,
}

-- `DefaultConfig`: fifteen minutes and thirty days.
abbrev pub default_config : String → JwtConfig
default_config secret = record { secret = secret; access_ttl = 900; refresh_ttl = 2592000 }

-- `t.SignedString(m.cfg.Secret)`
abbrev signed : Option String → Result Error String
signed none = err failure
signed (some t) = ok t

-- `Manager.IssueAccessToken`
unfoldable pub issue_access_token : ⦃env : Env⦄ → ℕ → Bool → Exec World Error String
issue_access_token ⦃env⦄ user_id mfa w =
    let payload : Payload = record {
      subject = user_id;
      issued_at = w.now;
      expires_at = w.now + env.jwt.access_ttl;
      mfa = mfa;
    } in
    (signed (env.jwt_sign env.jwt.secret payload), w)

-- `Manager.IssueRefreshToken`: the claims have no `mfa`.
unfoldable pub issue_refresh_token : ⦃env : Env⦄ → ℕ → Exec World Error String
issue_refresh_token ⦃env⦄ user_id w =
    let payload : Payload = record {
      subject = user_id;
      issued_at = w.now;
      expires_at = w.now + env.jwt.refresh_ttl;
      mfa = false;
    } in
    (signed (env.jwt_sign env.jwt.secret payload), w)

abbrev claims : Parsed → Result Error Payload
claims (valid p) = ok p
claims expired = err token_expired
claims malformed = err token_invalid

-- `Manager.ParseAccessToken`
unfoldable pub parse_access_token : ⦃env : Env⦄ → String → Exec World Error Payload
parse_access_token ⦃env⦄ token w = (claims (env.jwt_parse env.jwt.secret w.now token), w)

abbrev subject_of : Parsed → Result Error ℕ
subject_of (valid p) = ok p.subject
subject_of expired = err token_expired
subject_of malformed = err token_invalid

-- `Manager.ParseRefreshToken`
unfoldable pub parse_refresh_token : ⦃env : Env⦄ → String → Exec World Error ℕ
parse_refresh_token ⦃env⦄ token w = (subject_of (env.jwt_parse env.jwt.secret w.now token), w)
