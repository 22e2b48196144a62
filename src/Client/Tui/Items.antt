-- ===== src/Client/Tui/Items.antt =====
-- internal/client/tui/app.go: what the interface reads of an item, and the order of texts.
pub mod Order
use go_yandex_gophkeeper.Base.{String, Bool, true, false, ◌&&◌, ◌||◌, ◌==◌, ltb, List, ℕ}
use Prim.Native.Char.{code}
use go_yandex_gophkeeper.Server.Handler.Vault.{
  ItemType, unspecified, credential, text, binary, card, otp,
}

-- `commonpb.VaultItem`, without its times.
pub record VaultItem : Type 0 where
  pub id : String
  pub user_id : String
  pub type : ItemType
  pub payload : List ℕ
  pub metadata : String
  pub version : ℕ

-- `json.Unmarshal` into a struct with one field: the field's text, flag or bytes, and the zero value where
-- the bytes are no such object; and `strings.ToLower`.
pub record Decoder : Type 0 where
  pub text_field : String → List ℕ → String
  pub flag : String → List ℕ → Bool
  pub bytes_field : String → List ℕ → List ℕ
  pub to_lower : String → String
  -- `string(raw)`
  pub raw_text : List ℕ → String

-- The numbers of the types.
abbrev pub type_number : ItemType → ℕ
type_number unspecified = 0
type_number credential = 1
type_number text = 2
type_number binary = 3
type_number card = 4
type_number otp = 5

abbrev pub same_type : ItemType → ItemType → Bool
same_type s t = type_number s == type_number t

-- `<` on strings.
unfoldable pub text_lt : String → String → Bool
text_lt s String.[] = false
text_lt String.[] (String.◌∷◌ d t) = true
text_lt (String.◌∷◌ c s) (String.◌∷◌ d t) = ltb (code c) (code d) || code c == code d && text_lt s t

module _ ⦃json : Decoder⦄ where
  -- `getItemFolder`
  abbrev pub get_item_folder : VaultItem → String
  get_item_folder i = json.text_field "folder" i.payload

  -- `isFavorite`, `isArchived` and `isTrashed`
  abbrev pub is_favorite : VaultItem → Bool
  is_favorite i = json.flag "favorite" i.payload

  abbrev pub is_archived : VaultItem → Bool
  is_archived i = json.flag "archived" i.payload

  abbrev pub is_trashed : VaultItem → Bool
  is_trashed i = json.flag "trashed" i.payload

  -- `isSSHKey` and `isFileItem`
  abbrev pub is_ssh_key : VaultItem → Bool
  is_ssh_key i = same_type i.type text && json.flag "ssh_key" i.payload

  abbrev pub is_file_item : VaultItem → Bool
  is_file_item i = same_type i.type binary && json.flag "is_file" i.payload
