-- ===== src/Server/Postgres/Audit.antt =====
-- internal/server/storage/postgres/audit.go, with the columns of 00005_audit.sql.
use go_yandex_gophkeeper.Base.{
  ℕ, Bool, true, ◌&&◌, ◌∷◌, List, Option, none, some, ok, err, Exec, if◌then◌else◌,
}
use go_yandex_gophkeeper.Server.Storage.{Error, failure, User, AuditEntry}
use go_yandex_gophkeeper.Server.World.{Env, World, query}
use go_yandex_gophkeeper.Server.Postgres.Rows.{has_user}

-- `user_id UUID REFERENCES users(id)`, which may be NULL.
abbrev pub known_user : Option ℕ → List User → Bool
known_user none users = true
known_user (some id) users = has_user id users

-- `auditRepo.Append`. The column `ip` is an INET, so a text that is no address is an error.
unfoldable pub append : ⦃env : Env⦄ → AuditEntry → Exec World Error Unit
unfolding query
append ⦃env⦄ e = query (λ d.
    if env.inet e.ip && known_user e.user_id d.users
    then (ok tt, record d { audit = e ∷ d.audit })
    else (err failure, d))
