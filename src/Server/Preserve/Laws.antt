-- ===== src/Server/Preserve/Laws.antt =====
-- The interface between a property of the world and the operations that change the world.
use go_yandex_gophkeeper.Server.Middleware.RateLimit.{Limiters}
use go_yandex_gophkeeper.Server.Storage.{
  User, Session, TotpRecord, VaultItem, ListFilter, Action, Outcome, Detail,
}
use go_yandex_gophkeeper.Base.{ℕ, ◌≡◌, Bool, Option, String}
use go_yandex_gophkeeper.Base.Keeps.{Keeps, keeps_rules}
use go_yandex_gophkeeper.Server.Service.Audit.{log_audit}
use go_yandex_gophkeeper.Server.Service.Auth.{hash_password}
use go_yandex_gophkeeper.Server.Service.Mfa.{generate_key}
use go_yandex_gophkeeper.Server.Service.Sync.{notify_upsert, notify_delete}
use go_yandex_gophkeeper.Server.World.{Env, World, Context}
use go_yandex_gophkeeper.Server.Postgres.Users
use go_yandex_gophkeeper.Server.Postgres.Sessions
use go_yandex_gophkeeper.Server.Postgres.Mfa
use go_yandex_gophkeeper.Server.Postgres.Items
use go_yandex_gophkeeper.Server.Jwt.{issue_access_token, issue_refresh_token}

-- `P` is kept by the operations of a request from `peer` whose user is one that `Acts`.
pub record Preserved ⦃env : Env⦄ (P : World → Type 0) (peer : Option String) (Acts : ℕ → Type 0)
    : Type 0 where
  pub of_users_create : (u : User) → Keeps P (Users.create u)
  pub of_get_by_username : (name : String) → Keeps P (Users.get_by_username name)
  pub of_set_mfa_required : (id : ℕ) (b : Bool) → Keeps P (Users.set_mfa_required id b)
  pub of_sessions_create : (s : Session) → Keeps P (Sessions.create s)
  pub of_get_by_refresh_token : (t : String) → Keeps P (Sessions.get_by_refresh_token t)
  pub of_set_mfa_verified : (id : ℕ) → Keeps P (Sessions.set_mfa_verified id)
  pub of_sessions_delete : (t : String) → Keeps P (Sessions.delete t)
  pub of_create_totp : (r : TotpRecord) → Keeps P (Mfa.create_totp r)
  pub of_get_totp_by_id : (id user : ℕ) → Keeps P (Mfa.get_totp_by_id id user)
  pub of_confirm_totp : (id : ℕ) → Keeps P (Mfa.confirm_totp id)
  pub of_list_totp : (user : ℕ) → Keeps P (Mfa.list_totp user)
  pub of_items_create : (i : VaultItem) → Acts i.user_id → Keeps P (Items.create i)
  pub of_items_get : (id user : ℕ) → Keeps P (Items.get id user)
  pub of_items_update : (i : VaultItem) → Acts i.user_id → Keeps P (Items.update i)
  pub of_items_delete : (id user : ℕ) → Acts user → Keeps P (Items.delete id user)
  pub of_items_list : (user : ℕ) (f : ListFilter) → Keeps P (Items.list user f)
  pub of_log_audit :
      (ctx : Context) (id : ℕ) (a : Action) (o : Outcome) (d : Detail)
      → ctx.peer ≡ peer
      → Keeps P (log_audit ctx id a o d)
  pub of_hash_password : (password : String) → Keeps P (hash_password password)
  pub of_generate_key : (label : String) → Keeps P (generate_key label)
  pub of_notify_upsert : (user : ℕ) (i : VaultItem) → Keeps P (notify_upsert user i)
  pub of_notify_delete : (user id : ℕ) → Keeps P (notify_delete user id)
  pub of_limiters : (w : World) (l : Limiters) → P w → P (record w { limiters = l })

module _ ⦃env : Env⦄ {P : World → Type 0} where
  pub issue_access_token-Keeps : (id : ℕ) (b : Bool) → Keeps P (issue_access_token id b)
  unfolding issue_access_token
  issue_access_token-Keeps id b = record { at = λ w h. h }

  pub issue_refresh_token-Keeps : (id : ℕ) → Keeps P (issue_refresh_token id)
  unfolding issue_refresh_token
  issue_refresh_token-Keeps id = record { at = λ w h. h }

pub ruleset service_rules = (keeps_rules, issue_access_token-Keeps, issue_refresh_token-Keeps)
