-- ===== src/Server/Service/Audit.antt =====
-- `logAudit` of the three services, `peerIP` of service/helpers.go and `audit.New`.
use go_yandex_gophkeeper.Base.{ℕ, String, none, some, ok, Exec, Option}
use go_yandex_gophkeeper.Server.Storage.{Error, Action, Outcome, Detail, AuditEntry}
use go_yandex_gophkeeper.Server.World.{Env, World, Context}
use go_yandex_gophkeeper.Server.Postgres.Audit

-- `peerIP` of internal/server/service/helpers.go
abbrev pub ip_of : Option String → String
ip_of none = ""
ip_of (some addr) = addr

abbrev pub peer_ip : Context → String
peer_ip ctx = ip_of ctx.peer

-- `audit.New`
abbrev pub new_entry : ℕ → Action → Outcome → Detail → String → ℕ → AuditEntry
new_entry user_id action outcome detail ip now = record {
  user_id = some user_id;
  action = action;
  ip = ip;
  outcome = outcome;
  detail = detail;
  created_at = now;
}

-- `logAudit`: the error of `Append` is dropped.
unfoldable pub log_audit :
    ⦃env : Env⦄ → Context → ℕ → Action → Outcome → Detail → Exec World Error Unit
unfolding Audit.append
log_audit ctx user_id action outcome detail w =
    (ok tt, (Audit.append (new_entry user_id action outcome detail (peer_ip ctx) w.now) w).1)
