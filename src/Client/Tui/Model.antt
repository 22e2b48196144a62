-- ===== src/Client/Tui/Model.antt =====
-- internal/client/tui/app.go and passgen.go: the state of the interface.
use go_yandex_gophkeeper.Base.{String, Bool, List, ℕ, Option}
use go_yandex_gophkeeper.Client.Config.{Config}
use go_yandex_gophkeeper.Client.Tui.Items.{VaultItem}
use go_yandex_gophkeeper.Server.Handler.Vault.{ItemType}

-- `viewMode`
pub data Mode : Type 0 where
  list picker form del_conf search pass_gen export_path : Mode

-- `sortMode`
pub data SortMode : Type 0 where
  default name type_name : SortMode

-- `passGenTab`
pub data Tab : Type 0 where
  password passphrase : Tab

-- `passGenState`, whose preview is a list of code points; a form's field to fill, or none, which the source writes as -1.
pub record PassGenState : Type 0 where
  pub tab : Tab
  pub focus : ℕ
  pub length : ℕ
  pub use_upper : Bool
  pub use_lower : Bool
  pub use_digits : Bool
  pub use_symbols : Bool
  pub min_digits : ℕ
  pub min_symbols : ℕ
  pub avoid_ambig : Bool
  pub word_count : ℕ
  pub separator_idx : ℕ
  pub capitalize : Bool
  pub include_num : Bool
  pub preview : List ℕ
  pub target_field_idx : Option ℕ

-- `formField`
pub record FormField (Input : Type 0) : Type 0 where
  pub label : String
  pub hint : String
  pub input : Input
  pub is_secret : Bool
  pub can_gen : Bool

-- `itemForm`; an empty id creates an item.
pub record ItemForm (Input : Type 0) : Type 0 where
  pub typ : ItemType
  pub edit_item_id : String
  pub title : String
  pub fields : List (FormField Input)
  pub focus_idx : ℕ

-- `Model`, without the connection; a time that may be zero is an option.
pub record Model (Input : Type 0) : Type 0 where
  pub cfg : Config
  pub width : ℕ
  pub height : ℕ
  pub mode : Mode
  pub now : ℕ
  pub cat_idx : ℕ
  pub items : List VaultItem
  pub list_idx : ℕ
  pub loading : Bool
  pub search_query : String
  pub sidebar_focus : Bool
  pub reveal_pwd : Bool
  pub toast : String
  pub toast_expiry : Option ℕ
  pub last_err : String
  pub picker_idx : ℕ
  pub form : Option (ItemForm Input)
  pub pass_gen : Option PassGenState
  pub delete_target : Option VaultItem
  pub export_path_input : Input
  pub export_item : Option VaultItem
  pub sort : SortMode
  pub last_sync : Option ℕ
  pub sync_err : Bool
  pub offline : Bool
  pub cache_age : ℕ
  pub spinner : ℕ
