-- ===== src/Server/Preserve/Services.antt =====
-- Every service method keeps what its operations keep.
use go_yandex_gophkeeper.Server.Service.Audit.{log_audit}
use go_yandex_gophkeeper.Server.Storage.{
  User, Action, ListFilter, granted, Outcome, Error, no_detail, Detail, Session, TotpRecord,
}
use go_yandex_gophkeeper.Server.Service.Auth.{RegisterInput}
use go_yandex_gophkeeper.Base.{ℕ, ◌≡◌, Option, String, Result, List, ok, err}
use go_yandex_gophkeeper.Base.Keeps.{Keeps}
use go_yandex_gophkeeper.Server.Preserve.Laws.{Preserved, service_rules}
use go_yandex_gophkeeper.Server.Service.Auth
use go_yandex_gophkeeper.Server.Postgres.Sessions
use go_yandex_gophkeeper.Server.Service.Mfa
use go_yandex_gophkeeper.Server.Service.Vault
use go_yandex_gophkeeper.Server.World.{Env, World, Context}

module _ ⦃env : Env⦄ {P : World → Type 0} {peer : Option String} {Acts : ℕ → Type 0}
    (p : Preserved P peer Acts) (ctx : Context) (same : ctx.peer ≡ peer) where
  log-Keeps : (id : ℕ) (a : Action) (o : Outcome) (d : Detail) → Keeps P (log_audit ctx id a o d)
  log-Keeps id a o d = p.of_log_audit ctx id a o d same

  registered-Keeps : (r : Result Error User) → Keeps P (Auth.registered ctx r)
  registered-Keeps (ok u) = search (service_rules, log-Keeps) depth 14
  registered-Keeps (err e) = search service_rules

  pub register_user-Keeps : (r : RegisterInput) → Keeps P (Auth.register_user ctx r)
  register_user-Keeps r =
      unfold Auth.register_user in
      search (service_rules, p.of_hash_password, p.of_users_create, registered-Keeps) depth 14

  login_access-Keeps : (u : User) → Keeps P (Auth.login_access ctx u)
  login_access-Keeps u = unfold Auth.login_access in search (service_rules, log-Keeps) depth 14

  open_session-Keeps : (u : User) → Keeps P (Auth.open_session ctx u)
  open_session-Keeps u =
      unfold Auth.open_session in
      search (service_rules, p.of_sessions_create, login_access-Keeps) depth 14

  authenticated-Keeps :
      (password : String) (r : Result Error User) → Keeps P (Auth.authenticated ctx password r)
  authenticated-Keeps password (ok u) =
      search (service_rules, log-Keeps, open_session-Keeps) depth 14
  authenticated-Keeps password (err Error.not_found) = search service_rules
  authenticated-Keeps password (err _) = search service_rules

  pub login-Keeps : (name password : String) → Keeps P (Auth.login ctx name password)
  login-Keeps name password =
      unfold Auth.login in
      search (service_rules, p.of_get_by_username, authenticated-Keeps) depth 14

  refreshed-Keeps : (r : Result Error Session) → Keeps P (Auth.refreshed ctx r)
  refreshed-Keeps (ok s) = search (service_rules, log-Keeps) depth 14
  refreshed-Keeps (err e) = search service_rules

  pub refresh-Keeps : (t : String) → Keeps P (Auth.refresh ctx t)
  refresh-Keeps t =
      unfold Auth.refresh in
      search (service_rules, p.of_get_by_refresh_token, refreshed-Keeps) depth 14

  pub logout-Keeps : (id : ℕ) (t : String) → Keeps P (Auth.logout ctx id t)
  logout-Keeps id t = record {
    at = λ w h.
        unfold Auth.logout in
        (log-Keeps id Action.logout granted no_detail).at (Sessions.delete t w).1
          ((p.of_sessions_delete t).at w h);
  }

  pub enroll_totp-Keeps : (id : ℕ) (label : String) → Keeps P (Mfa.enroll_totp ctx id label)
  enroll_totp-Keeps id label =
      unfold Mfa.enroll_totp in search (service_rules, p.of_generate_key, p.of_create_totp) depth 14

  confirmed_by-Keeps :
      (id totp : ℕ) (code : String) (r : Result Error TotpRecord)
      → Keeps P (Mfa.confirmed_by ctx id totp code r)
  confirmed_by-Keeps id totp code (ok r) =
      search (service_rules, p.of_confirm_totp, p.of_set_mfa_required, log-Keeps) depth 14
  confirmed_by-Keeps id totp code (err e) = search service_rules

  pub confirm_totp-Keeps :
      (id totp : ℕ) (code : String) → Keeps P (Mfa.confirm_totp ctx id totp code)
  confirm_totp-Keeps id totp code =
      unfold Mfa.confirm_totp in
      search (service_rules, p.of_get_totp_by_id, confirmed_by-Keeps) depth 14

  complete_mfa-Keeps : (id session : ℕ) → Keeps P (Mfa.complete_mfa ctx id session)
  complete_mfa-Keeps id session =
      unfold Mfa.complete_mfa in
      search (service_rules, p.of_set_mfa_verified, p.of_sessions_create, log-Keeps) depth 20

  pub verify_totp-Keeps :
      (id session : ℕ) (code : String) → Keeps P (Mfa.verify_totp ctx id session code)
  verify_totp-Keeps id session code =
      unfold Mfa.verify_totp in
      search (service_rules, p.of_list_totp, complete_mfa-Keeps, log-Keeps) depth 14

  module _ (id : ℕ) (acts : Acts id) where
    pub create-Keeps :
        (type : String) (payload : List ℕ) (meta : String)
        → Keeps P (Vault.create ctx id type payload meta)
    create-Keeps type payload meta =
        unfold Vault.create in
        search (service_rules, p.of_items_create, log-Keeps, p.of_notify_upsert) depth 14

    pub update-Keeps :
        (item : ℕ) (payload : List ℕ) (meta : String)
        → Keeps P (Vault.update ctx item id payload meta)
    update-Keeps item payload meta =
        unfold Vault.update in
        search (service_rules, p.of_items_update, log-Keeps, p.of_notify_upsert) depth 14

    pub delete-Keeps : (item : ℕ) → Keeps P (Vault.delete ctx item id)
    delete-Keeps item =
        unfold Vault.delete in
        search (service_rules, p.of_items_delete, log-Keeps, p.of_notify_delete) depth 14

  pub get-Keeps : (item id : ℕ) → Keeps P (Vault.get ctx item id)
  get-Keeps item id = unfold Vault.get in search (service_rules, p.of_items_get, log-Keeps) depth 14

  pub list-Keeps : (id : ℕ) (f : ListFilter) → Keeps P (Vault.list ctx id f)
  list-Keeps id f = unfold Vault.list in search (service_rules, p.of_items_list, log-Keeps) depth 14
