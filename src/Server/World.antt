-- ===== src/Server/World.antt =====
-- The state that a request can change, and what the server calls but does not implement.
use go_yandex_gophkeeper.Base.{ℕ, suc, String, Bool, List, Option, Result, err, Exec, if◌then◌else◌}
use go_yandex_gophkeeper.Server.Storage.{
  Error, failure, User, Session, VaultItem, TotpRecord, WebAuthnCredential, WebAuthnSession,
  AuditEntry,
}

-- The JSON payload of a token. `mfa` is left out of the JSON when it is false (`omitempty`), so a
-- payload of `jwt.RegisteredClaims` is one of `Claims` whose `mfa` is false.
pub record Payload : Type 0 where
  pub subject : ℕ
  pub issued_at : ℕ
  pub expires_at : ℕ
  pub mfa : Bool

-- What `jwt.ParseWithClaims` returns: a valid token, one that has expired, or any other error.
pub data Parsed : Type 0 where
  valid : Payload → Parsed
  expired : Parsed
  malformed : Parsed

-- `Config` of internal/shared/jwt/jwt.go.
pub record JwtConfig : Type 0 where
  pub secret : String
  pub access_ttl : ℕ
  pub refresh_ttl : ℕ

-- The code that the server calls and that is not in the repository, and the configuration.
pub record Env : Type 0 where
  -- whether the n-th query fails, and the n-th value of `gen_random_uuid()`
  pub down : ℕ → Bool
  pub uuid : ℕ → ℕ
  -- after how many rows the reading of the n-th query's rows breaks off, if it does
  pub breaks : ℕ → Option ℕ
  -- whether PostgreSQL reads a text as INET, and what it stores for a JSONB
  pub inet : String → Bool
  pub jsonb : String → Option String
  -- bcrypt, with the salt of the n-th draw
  pub bcrypt_hash : ℕ → String → Option String
  pub bcrypt_compare : String → String → Bool
  -- totp.Generate (secret and URL) and totp.ValidateCustom; `none` is an error
  pub totp_generate : ℕ → String → String → Option (String × String)
  pub totp_validate : String → String → ℕ → Option Bool
  -- golang-jwt: HS256 under a secret
  pub jwt_sign : String → Payload → Option String
  pub jwt_parse : String → ℕ → String → Parsed
  -- a rate.Limiter of golang.org/x/time, by the times of the earlier calls of Allow
  pub allow : List ℕ → ℕ → Bool
  pub jwt : JwtConfig
  pub issuer : String

-- The tables of internal/server/storage/postgres/migrations. The order of a table's rows means
-- nothing, and a new row stands first.
pub record Db : Type 0 where
  pub users : List User
  pub sessions : List Session
  pub items : List VaultItem
  pub totps : List TotpRecord
  pub credentials : List WebAuthnCredential
  pub ceremonies : List WebAuthnSession
  pub audit : List AuditEntry
  -- the queries made and the UUIDs drawn so far
  pub queries : ℕ
  pub drawn : ℕ

pub data SyncEvent : Type 0 where
  upsert : VaultItem → SyncEvent
  delete : ℕ → SyncEvent

-- A buffered Go channel.
pub record Chan : Type 0 where
  pub buffer : List SyncEvent
  pub closed : Bool

-- `SyncService`: the map from a user to channels, which are pointers into a heap.
pub record Hub : Type 0 where
  pub subscribers : ℕ → List ℕ
  pub chans : ℕ → Chan
  pub made : ℕ

-- `ipLimiter`; the limiter is known by the times at which it was asked.
pub record IpLimiter : Type 0 where
  pub calls : List ℕ
  pub last_seen : ℕ

-- `now` is the clock of the host and of the database; `salts` counts the draws of randomness.
pub record World : Type 0 where
  pub db : Db
  pub hub : Hub
  pub limiters : List (String × IpLimiter)
  pub now : ℕ
  pub salts : ℕ

-- The part of a `context.Context` that the server reads: the incoming metadata, the peer's
-- address, and the user that the middleware has authenticated.
pub record Context : Type 0 where
  pub metadata : Option (List (String × List String))
  pub peer : Option String
  pub user_id : Option ℕ

-- One statement sent to PostgreSQL. A query that fails changes no row.
unfoldable pub query : ⦃env : Env⦄ → {A : Type 0} → (Db → Result Error A × Db) → Exec World Error A
query ⦃env⦄ q w =
    let d = record w.db { queries = suc w.db.queries } in
    let out = q d in
    if env.down w.db.queries
    then (err failure, record w { db = d })
    else (out.0, record w { db = out.1 })
