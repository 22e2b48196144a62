-- ===== src/Client/Tui/Json.antt =====
-- internal/client/tui/app.go: the JSON objects of the payloads, as maps from names to values.
use go_yandex_gophkeeper.Base.{
  String, Bool, true, false, List, [], ◌∷◌, ℕ, if◌then◌else◌, str_eq, any, ◌&&◌, ◌||◌,
}

-- The values that the payloads have, and any other, which a map keeps.
pub data Value : Type 0 where
  text : String → Value
  flag : Bool → Value
  number : ℕ → Value
  content : List ℕ → Value
  entries : List (String × ℕ) → Value
  other : ℕ → Value

abbrev pub Object : Type 0
Object = List (String × Value)

-- `json.Unmarshal` into a map: an error, the nil map that `null` leaves, or a map.
pub data Parsed : Type 0 where
  invalid null : Parsed
  object : Object → Parsed

-- encoding/json: the bytes of a struct, whose fields come in the order of the object and of which the
-- first stands where two have one name, of a map and of the nil map; the map in bytes; the field
-- "history" of a login.
pub record Encoder : Type 0 where
  pub marshal : Object → List ℕ
  pub marshal_map : Object → List ℕ
  pub marshal_nil : List ℕ
  pub unmarshal : List ℕ → Parsed
  pub history : List ℕ → List (String × ℕ)

-- `delete(data, key)`
abbrev pub delete : String → Object → Object
delete k [] = []
delete k ((j, v) ∷ o) = let rest = delete k o in if str_eq j k then rest else (j, v) ∷ rest

-- `data[key] = value`
abbrev pub insert : String → Value → Object → Object
insert k v o = (k, v) ∷ delete k o

abbrev pub flag_in : Value → Bool
flag_in (flag b) = b
flag_in v = false

-- The flag under a name, which is not set where the name is missing.
abbrev pub flag_of : String → Object → Bool
flag_of k [] = false
flag_of k ((j, v) ∷ o) = let rest = flag_of k o in if str_eq j k then flag_in v else rest

-- The flags of an item, and the other names of the payloads.
abbrev pub flag_names : List String
flag_names = "favorite" ∷ "archived" ∷ "trashed" ∷ []

unfoldable pub is_flag : String → Bool
is_flag k = any (str_eq k) flag_names

abbrev pub field_names : List String
field_names =
    "name" ∷ "username" ∷ "password" ∷ "url" ∷ "totp_key" ∷ "notes" ∷ "history" ∷ "cardholder_name"
    ∷ "number" ∷ "exp_month" ∷ "exp_year" ∷ "cvv" ∷ "content" ∷ "first_name" ∷ "last_name" ∷ "email"
    ∷ "phone" ∷ "company" ∷ "address" ∷ "secret" ∷ "issuer" ∷ "key_type" ∷ "private_key"
    ∷ "public_key" ∷ "comment" ∷ "ssh_key" ∷ "file_name" ∷ "mime_type" ∷ "size" ∷ "data" ∷ "is_file"
    ∷ "folder" ∷ []

unfoldable pub is_field : String → Bool
is_field k = any (str_eq k) field_names

-- Only names of fields, or of fields and flags.
abbrev pub is_bare : Object → Bool
is_bare [] = true
is_bare ((k, v) ∷ o) = is_field k && is_bare o

abbrev pub is_plain : Object → Bool
is_plain [] = true
is_plain ((k, v) ∷ o) = (is_field k || is_flag k) && is_plain o
