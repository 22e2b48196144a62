-- ===== src/Server/Handler/Vault.antt =====
-- internal/server/handler/vault.go
use go_yandex_gophkeeper.Base.{
  ℕ, String, List, Option, Result, ok, err, Exec, pure, raise, attempt, map, str_eq, if◌then◌else◌,
}
use go_yandex_gophkeeper.Base.Int.{ℤ}
use go_yandex_gophkeeper.Server.Storage
use go_yandex_gophkeeper.Server.Storage.{Error, VaultItem, ListFilter}
use go_yandex_gophkeeper.Server.World.{Env, World, Context}
use go_yandex_gophkeeper.Server.Service.Vault
use go_yandex_gophkeeper.Server.Middleware.Metadata.{Code, not_found, internal, status}
use go_yandex_gophkeeper.Server.Handler.Auth.{with_user, respond}

-- `commonpb.ItemType`; a number that is none of these reaches the same `default` as UNSPECIFIED.
pub data ItemType : Type 0 where
  unspecified credential text binary card otp : ItemType

-- `itemTypeName`
unfoldable pub item_type_name : ItemType → String
item_type_name credential = "credential"
item_type_name text = "text"
item_type_name binary = "binary"
item_type_name card = "card"
item_type_name otp = "otp"
item_type_name unspecified = ""

-- `toProtoItemType`
unfoldable pub to_proto_item_type : String → ItemType
to_proto_item_type s =
    if str_eq s "credential"
    then credential
    else if str_eq s "text"
    then text
    else if str_eq s "binary"
    then binary
    else if str_eq s "card"
    then card
    else if str_eq s "otp"
    then otp
    else unspecified

-- `commonpb.VaultItem`
pub record ProtoItem : Type 0 where
  pub id : ℕ
  pub user_id : ℕ
  pub type : ItemType
  pub payload : List ℕ
  pub metadata : String
  pub version : ℕ
  pub created_at : ℕ
  pub updated_at : ℕ

-- `toProtoItem`
unfoldable pub to_proto_item : VaultItem → ProtoItem
unfolding to_proto_item_type
to_proto_item i = record {
  id = i.id;
  user_id = i.user_id;
  type = to_proto_item_type i.type;
  payload = i.payload;
  metadata = i.metadata;
  version = i.version;
  created_at = i.created_at;
  updated_at = i.updated_at;
}

abbrev pub as_proto : (Error → Code) → Result Error VaultItem → Exec World Code ProtoItem
as_proto f (ok i) = pure (to_proto_item i)
as_proto f (err e) = raise (f e)

abbrev pub item_status : Error → Code
item_status Storage.not_found = not_found
item_status e = status e internal

-- `VaultHandler.CreateItem`
unfoldable pub create_item :
    ⦃env : Env⦄ → Context → ItemType → List ℕ → String → Exec World Code ProtoItem
unfolding Vault.create item_type_name to_proto_item
create_item ctx type payload metadata = with_user ctx (λ id.
    attempt (Vault.create ctx id (item_type_name type) payload metadata)
      (as_proto (λ e. status e internal)))

-- `VaultHandler.GetItem`
unfoldable pub get_item : ⦃env : Env⦄ → Context → ℕ → Exec World Code ProtoItem
unfolding Vault.get to_proto_item
get_item ctx item_id =
    with_user ctx (λ id. attempt (Vault.get ctx item_id id) (as_proto item_status))

-- `VaultHandler.UpdateItem`
unfoldable pub update_item : ⦃env : Env⦄ → Context → ℕ → List ℕ → String → Exec World Code ProtoItem
unfolding Vault.update to_proto_item
update_item ctx item_id payload metadata =
    with_user ctx
      (λ id. attempt (Vault.update ctx item_id id payload metadata) (as_proto item_status))

-- `VaultHandler.DeleteItem`
unfoldable pub delete_item : ⦃env : Env⦄ → Context → ℕ → Exec World Code Unit
unfolding Vault.delete
delete_item ctx item_id =
    with_user ctx (λ id. attempt (Vault.delete ctx item_id id) (respond item_status))

abbrev pub as_page :
    Result Error (List VaultItem × Option ℕ) → Exec World Code (List ProtoItem × Option ℕ)
as_page (ok (items, cursor)) = pure (map to_proto_item items, cursor)
as_page (err e) = raise (status e internal)

-- `VaultHandler.ListItems`
unfoldable pub list_items :
    ⦃env : Env⦄ → Context → ItemType → ℤ → Option ℕ → Exec World Code (List ProtoItem × Option ℕ)
unfolding Vault.list item_type_name to_proto_item
list_items ctx type limit cursor = with_user ctx (λ id.
    attempt
      (Vault.list ctx id
        (record { type_filter = item_type_name type; limit = limit; cursor = cursor }))
      as_page)
