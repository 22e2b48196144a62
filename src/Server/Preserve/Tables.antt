-- ===== src/Server/Preserve/Tables.antt =====
-- A property of one table is kept by every request as soon as the statements that write that table
-- keep it.
use go_yandex_gophkeeper.Server.Postgres.Items.{owned, revise}
use go_yandex_gophkeeper.Server.Storage.{Session, VaultItem, User}
use go_yandex_gophkeeper.Base.{
  ℕ, ◌≡◌, List, ◌∷◌, ◌==◌, Option, any, String, false, Bool, arith, update_where, Option-cases,
  true, inl, filter, inr, not, str_eq,
}
use go_yandex_gophkeeper.Server.Preserve.Laws.{Preserved}
use go_yandex_gophkeeper.Server.Service.Audit.{log_audit}
use go_yandex_gophkeeper.Server.Service.Auth.{hash_password}
use go_yandex_gophkeeper.Server.Service.Mfa.{generate_key}
use go_yandex_gophkeeper.Server.Service.Sync.{notify_upsert, notify_delete}
use go_yandex_gophkeeper.Server.World.{Env}
use go_yandex_gophkeeper.Server.Postgres.Users
use go_yandex_gophkeeper.Server.Postgres.Sessions
use go_yandex_gophkeeper.Server.Postgres.Mfa
use go_yandex_gophkeeper.Server.Postgres.Items

-- What the INSERT, UPDATE and DELETE of `vault_items` do to a property of its rows.
pub record ItemLaws (Q : List VaultItem → Type 0) (Acts : ℕ → Type 0) : Type 0 where
  pub create_law :
      (i : VaultItem) (items : List VaultItem)
      → Acts i.user_id
      → any (λ j. j.id == i.id) items ≡ false
      → Q items
      → Q (i ∷ items)
  pub update_law :
      (new : VaultItem) (now : ℕ) (items : List VaultItem)
      → Acts new.user_id
      → Q items
      → Q (update_where (owned new.id new.user_id) (revise new now) items)
  pub delete_law :
      (id user : ℕ) (items : List VaultItem)
      → Acts user
      → Q items
      → Q (filter (λ i. not (owned id user i)) items)

-- What the INSERT and the UPDATE of `users` do to a property of its rows.
pub record UserLaws (Q : List User → Type 0) : Type 0 where
  pub create_law :
      (u : User) (users : List User) → any (Users.clashes u) users ≡ false → Q users → Q (u ∷ users)
  pub update_law :
      (id : ℕ) (b : Bool) (users : List User)
      → Q users
      → Q (update_where (λ u. u.id == id) (λ u. record u { mfa_required = b }) users)

-- What the statements on `sessions` do to a property of its rows.
pub record SessionLaws (Q : List Session → Type 0) : Type 0 where
  pub create_law :
      (s : Session) (sessions : List Session)
      → any (Sessions.clashes s) sessions ≡ false
      → Q sessions
      → Q (s ∷ sessions)
  pub update_law :
      (id : ℕ) (sessions : List Session)
      → Q sessions
      → Q (update_where (λ s. s.id == id) (λ s. record s { mfa_verified = true }) sessions)
  pub delete_law :
      (t : String) (sessions : List Session)
      → Q sessions
      → Q (filter (λ s. not (str_eq s.refresh_token t)) sessions)

module _ ⦃env : Env⦄ {Q : List VaultItem → Type 0} {Acts : ℕ → Type 0} (laws : ItemLaws Q Acts)
    (peer : Option String) where
  pub items-Preserved : Preserved (λ w. Q w.db.items) peer Acts
  unfolding Users.create Users.get_by_username Users.set_mfa_required Sessions.create
      Sessions.get_by_refresh_token Sessions.set_mfa_verified Sessions.delete Mfa.create_totp
      Mfa.get_totp_by_id Mfa.confirm_totp Mfa.list_totp Items.create Items.get Items.update
      Items.delete Items.list log_audit hash_password generate_key notify_upsert notify_delete
  items-Preserved = record {
    of_users_create = λ u. record { at = λ w h. ground arith };
    of_get_by_username = λ name. record { at = λ w h. ground arith };
    of_set_mfa_required = λ id b. record { at = λ w h. ground arith };
    of_sessions_create = λ s. record { at = λ w h. ground arith };
    of_get_by_refresh_token = λ t. record { at = λ w h. ground arith };
    of_set_mfa_verified = λ id. record { at = λ w h. ground arith };
    of_sessions_delete = λ t. record { at = λ w h. ground arith };
    of_create_totp = λ r. record { at = λ w h. ground arith };
    of_get_totp_by_id = λ id user. record { at = λ w h. ground arith };
    of_confirm_totp = λ id. record { at = λ w h. ground arith };
    of_list_totp = λ user. record { at = λ w h. ground arith };
    of_items_create = λ i a. record {
      at = λ w h. ground (
        arith,
        laws.create_law
            (record i {
              id = env.uuid w.db.drawn;
              version = 1;
              created_at = w.now;
              updated_at = w.now;
            })
            w.db.items a,
      );
    };
    of_items_get = λ id user. record { at = λ w h. ground arith };
    of_items_update =
        λ i a. record { at = λ w h. ground (arith, laws.update_law i w.now w.db.items a) };
    of_items_delete =
        λ id user a. record { at = λ w h. ground (arith, laws.delete_law id user w.db.items a) };
    of_items_list = λ user f. record { at = λ w h. ground arith };
    of_log_audit = λ ctx id a o d same. record { at = λ w h. ground arith };
    of_hash_password = λ q. record { at = λ w h. h };
    of_generate_key = λ l. record { at = λ w h. h };
    of_notify_upsert = λ u i. record { at = λ w h. ground arith };
    of_notify_delete = λ u i. record { at = λ w h. ground arith };
    of_limiters = λ w l h. h;
  }

module _ ⦃env : Env⦄ {Q : List User → Type 0} (laws : UserLaws Q) (peer : Option String) where
  pub users-Preserved : Preserved (λ w. Q w.db.users) peer (λ _. Unit)
  unfolding Users.create Users.get_by_username Users.set_mfa_required Sessions.create
      Sessions.get_by_refresh_token Sessions.set_mfa_verified Sessions.delete Mfa.create_totp
      Mfa.get_totp_by_id Mfa.confirm_totp Mfa.list_totp Items.create Items.get Items.update
      Items.delete Items.list log_audit hash_password generate_key notify_upsert notify_delete
  users-Preserved = record {
    of_users_create = λ u. record {
      at = λ w h. elim (Option-cases (env.jsonb u.kdf_params)) [
        | inl bad ↦ ground arith
        | inr (json, e) ↦ ground (
          arith,
          laws.create_law
              (record u {
                id = env.uuid w.db.drawn;
                kdf_params = json;
                mfa_required = false;
                created_at = w.now;
              })
              w.db.users,
        )
      ];
    };
    of_get_by_username = λ name. record { at = λ w h. ground arith };
    of_set_mfa_required =
        λ id b. record { at = λ w h. ground (arith, laws.update_law id b w.db.users) };
    of_sessions_create = λ s. record { at = λ w h. ground arith };
    of_get_by_refresh_token = λ t. record { at = λ w h. ground arith };
    of_set_mfa_verified = λ id. record { at = λ w h. ground arith };
    of_sessions_delete = λ t. record { at = λ w h. ground arith };
    of_create_totp = λ r. record { at = λ w h. ground arith };
    of_get_totp_by_id = λ id user. record { at = λ w h. ground arith };
    of_confirm_totp = λ id. record { at = λ w h. ground arith };
    of_list_totp = λ user. record { at = λ w h. ground arith };
    of_items_create = λ i a. record { at = λ w h. ground arith };
    of_items_get = λ id user. record { at = λ w h. ground arith };
    of_items_update = λ i a. record { at = λ w h. ground arith };
    of_items_delete = λ id user a. record { at = λ w h. ground arith };
    of_items_list = λ user f. record { at = λ w h. ground arith };
    of_log_audit = λ ctx id a o d same. record { at = λ w h. ground arith };
    of_hash_password = λ q. record { at = λ w h. h };
    of_generate_key = λ l. record { at = λ w h. h };
    of_notify_upsert = λ u i. record { at = λ w h. ground arith };
    of_notify_delete = λ u i. record { at = λ w h. ground arith };
    of_limiters = λ w l h. h;
  }

module _ ⦃env : Env⦄ {Q : List Session → Type 0} (laws : SessionLaws Q) (peer : Option String) where
  pub sessions-Preserved : Preserved (λ w. Q w.db.sessions) peer (λ _. Unit)
  unfolding Users.create Users.get_by_username Users.set_mfa_required Sessions.create
      Sessions.get_by_refresh_token Sessions.set_mfa_verified Sessions.delete Mfa.create_totp
      Mfa.get_totp_by_id Mfa.confirm_totp Mfa.list_totp Items.create Items.get Items.update
      Items.delete Items.list log_audit hash_password generate_key notify_upsert notify_delete
  sessions-Preserved = record {
    of_users_create = λ u. record { at = λ w h. ground arith };
    of_get_by_username = λ name. record { at = λ w h. ground arith };
    of_set_mfa_required = λ id b. record { at = λ w h. ground arith };
    of_sessions_create = λ s. record {
      at = λ w h. ground (
        arith,
        laws.create_law (record s { id = env.uuid w.db.drawn; created_at = w.now }) w.db.sessions,
      );
    };
    of_get_by_refresh_token = λ t. record { at = λ w h. ground arith };
    of_set_mfa_verified =
        λ id. record { at = λ w h. ground (arith, laws.update_law id w.db.sessions) };
    of_sessions_delete =
        λ t. record { at = λ w h. ground (arith, laws.delete_law t w.db.sessions) };
    of_create_totp = λ r. record { at = λ w h. ground arith };
    of_get_totp_by_id = λ id user. record { at = λ w h. ground arith };
    of_confirm_totp = λ id. record { at = λ w h. ground arith };
    of_list_totp = λ user. record { at = λ w h. ground arith };
    of_items_create = λ i a. record { at = λ w h. ground arith };
    of_items_get = λ id user. record { at = λ w h. ground arith };
    of_items_update = λ i a. record { at = λ w h. ground arith };
    of_items_delete = λ id user a. record { at = λ w h. ground arith };
    of_items_list = λ user f. record { at = λ w h. ground arith };
    of_log_audit = λ ctx id a o d same. record { at = λ w h. ground arith };
    of_hash_password = λ q. record { at = λ w h. h };
    of_generate_key = λ l. record { at = λ w h. h };
    of_notify_upsert = λ u i. record { at = λ w h. ground arith };
    of_notify_delete = λ u i. record { at = λ w h. ground arith };
    of_limiters = λ w l h. h;
  }
