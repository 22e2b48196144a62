-- ===== src/Server/Trail.antt =====
-- What the audit log records.
use go_yandex_gophkeeper.Server.Storage.{AuditEntry}
use go_yandex_gophkeeper.Base.{◌≡◌, refl, List, Option, String, false, arith, none}
use go_yandex_gophkeeper.Server.Preserve.Laws.{Preserved}
use go_yandex_gophkeeper.Server.Preserve.Requests.{serve-Keeps}
use go_yandex_gophkeeper.Server.Service.Audit.{log_audit, peer_ip, ip_of}
use go_yandex_gophkeeper.Server.Service.Auth.{hash_password}
use go_yandex_gophkeeper.Server.Service.Mfa.{generate_key}
use go_yandex_gophkeeper.Server.Service.Sync.{notify_upsert, notify_delete}
use go_yandex_gophkeeper.Server.World.{Env, World, Context}
use go_yandex_gophkeeper.Server.Postgres.Users
use go_yandex_gophkeeper.Server.Postgres.Sessions
use go_yandex_gophkeeper.Server.Postgres.Mfa
use go_yandex_gophkeeper.Server.Postgres.Items
use go_yandex_gophkeeper.Server.App.{Rpc, serve}

abbrev HasAudit : List AuditEntry → World → Type 0
HasAudit log w = w.db.audit ≡ log

module _ ⦃env : Env⦄ (log : List AuditEntry) (peer : Option String)
    (unread : env.inet (ip_of peer) ≡ false) where
  HasAudit-Preserved : Preserved (HasAudit log) peer (λ _. Unit)
  unfolding Users.create Users.get_by_username Users.set_mfa_required Sessions.create
      Sessions.get_by_refresh_token Sessions.set_mfa_verified Sessions.delete Mfa.create_totp
      Mfa.get_totp_by_id Mfa.confirm_totp Mfa.list_totp Items.create Items.get Items.update
      Items.delete Items.list log_audit hash_password generate_key notify_upsert notify_delete
  HasAudit-Preserved = record {
    of_users_create = λ u. record { at = λ w h. ground arith };
    of_get_by_username = λ name. record { at = λ w h. ground arith };
    of_set_mfa_required = λ id b. record { at = λ w h. ground arith };
    of_sessions_create = λ s. record { at = λ w h. ground arith };
    of_get_by_refresh_token = λ t. record { at = λ w h. ground arith };
    of_set_mfa_verified = λ id. record { at = λ w h. ground arith };
    of_sessions_delete = λ t. record { at = λ w h. ground arith };
    of_create_totp = λ r. record { at = λ w h. ground arith };
    of_get_totp_by_id = λ id user. record { at = λ w h. ground arith };
    of_confirm_totp = λ id. record { at = λ w h. ground arith };
    of_list_totp = λ user. record { at = λ w h. ground arith };
    of_items_create = λ i a. record { at = λ w h. ground arith };
    of_items_get = λ id user. record { at = λ w h. ground arith };
    of_items_update = λ i a. record { at = λ w h. ground arith };
    of_items_delete = λ id user a. record { at = λ w h. ground arith };
    of_items_list = λ user f. record { at = λ w h. ground arith };
    of_log_audit = λ ctx id a o d same. record { at = λ w h. rw same (ground arith) };
    of_hash_password = λ q. record { at = λ w h. h };
    of_generate_key = λ l. record { at = λ w h. h };
    of_notify_upsert = λ u i. record { at = λ w h. ground arith };
    of_notify_delete = λ u i. record { at = λ w h. ground arith };
    of_limiters = λ w l h. h;
  }

-- A request from a peer whose address is no INET value leaves the audit log as it was.
pub audit-serve :
    ⦃env : Env⦄ (rpc : Rpc) (ctx : Context) (w : World)
    → env.inet (peer_ip ctx) ≡ false
    → ctx.user_id ≡ none
    → (serve rpc ctx w).1.db.audit ≡ w.db.audit
audit-serve rpc ctx w unread wire =
    serve-Keeps ctx (HasAudit-Preserved w.db.audit ctx.peer unread) wire rpc w (λ id a. tt) refl
