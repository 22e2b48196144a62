-- ===== src/Server/Service/Vault.antt =====
-- internal/server/service/vault.go
use go_yandex_gophkeeper.Base.{ℕ, String, List, Option, Exec, pure, ◌>>=◌, ◌>>◌, length}
use go_yandex_gophkeeper.Server.Storage.{
  Error, VaultItem, ListFilter, vault_create, vault_read, vault_update, vault_delete, vault_list,
  granted, created, touched, deleted, counted,
}
use go_yandex_gophkeeper.Server.World.{Env, World, Context}
use go_yandex_gophkeeper.Server.Postgres.Items
use go_yandex_gophkeeper.Server.Service.Audit.{log_audit}
use go_yandex_gophkeeper.Server.Service.Sync.{notify_upsert, notify_delete}

-- The `storage.VaultItem` literals; a field that is left out is zero.
abbrev pub new_item : ℕ → ℕ → String → List ℕ → String → VaultItem
new_item id user_id type payload metadata = record {
  id = id;
  user_id = user_id;
  type = type;
  payload = payload;
  metadata = metadata;
  version = 0;
  created_at = 0;
  updated_at = 0;
}

-- `VaultService.Create`
unfoldable pub create :
    ⦃env : Env⦄ → Context → ℕ → String → List ℕ → String → Exec World Error VaultItem
unfolding Items.create log_audit notify_upsert
create ctx user_id type payload metadata = do
  item ← Items.create (new_item 0 user_id type payload metadata)
  log_audit ctx user_id vault_create granted (created item.id type metadata)
  notify_upsert user_id item
  pure item

-- `VaultService.Get`
unfoldable pub get : ⦃env : Env⦄ → Context → ℕ → ℕ → Exec World Error VaultItem
unfolding Items.get log_audit
get ctx id user_id = do
  item ← Items.get id user_id
  log_audit ctx user_id vault_read granted (touched id item.metadata)
  pure item

-- `VaultService.Update`
unfoldable pub update : ⦃env : Env⦄ → Context → ℕ → ℕ → List ℕ → String → Exec World Error VaultItem
unfolding Items.update log_audit notify_upsert
update ctx id user_id payload metadata = do
  item ← Items.update (new_item id user_id "" payload metadata)
  log_audit ctx user_id vault_update granted (touched id metadata)
  notify_upsert user_id item
  pure item

-- `VaultService.Delete`
unfoldable pub delete : ⦃env : Env⦄ → Context → ℕ → ℕ → Exec World Error Unit
unfolding Items.delete log_audit notify_delete
delete ctx id user_id = do
  Items.delete id user_id
  log_audit ctx user_id vault_delete granted (deleted id)
  notify_delete user_id id

-- `VaultService.List`
unfoldable pub list :
    ⦃env : Env⦄ → Context → ℕ → ListFilter → Exec World Error (List VaultItem × Option ℕ)
unfolding Items.list log_audit
list ctx user_id f = do
  page ← Items.list user_id f
  log_audit ctx user_id vault_list granted (counted (length page.0))
  pure page
