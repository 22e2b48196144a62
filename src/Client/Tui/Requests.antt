-- ===== src/Client/Tui/Requests.antt =====
-- internal/client/tui/app.go: what the commands that change the vault send to the server, which are
-- the functions that `saveForm`, `setItemFlag` and `duplicateItem` return.
pub mod Flags
pub mod SetFlag
use go_yandex_gophkeeper.Base.{
  String, Bool, true, false, not, ◌&&◌, List, [], ◌∷◌, ◌++◌, ℕ, ◌-◌, ltb, Option, none, some,
  Result, ok, err, if◌then◌else◌, str_eq, length, take, get_elem?,
}
use Prim.Native.String.{◌++◌ as str_append}
use go_yandex_gophkeeper.Client.Tui.Panic.{◌>>=◌}
use go_yandex_gophkeeper.Server.Handler.Vault.{
  ItemType, unspecified, credential, text, binary, card, otp,
}
use go_yandex_gophkeeper.Client.Tui.Items.{VaultItem, Decoder}
use go_yandex_gophkeeper.Client.Tui.Payloads.{parse_login_payload}
use go_yandex_gophkeeper.Client.Tui.Json.{Value, Object, Parsed, Encoder, insert, delete}

pub data Request : Type 0 where
  create : ItemType → List ℕ → String → Request
  update : String → List ℕ → String → Request

-- A panic of the command is recovered as `unavailable`.
pub data SaveError : Type 0 where
  unavailable cannot_read : SaveError
  too_large : ℕ → SaveError

-- `os.ReadFile`, `strings.TrimSpace`, `filepath.Base` and `http.DetectContentType`.
pub record Files : Type 0 where
  pub read_file : String → Option (List ℕ)
  pub trim_space : String → String
  pub base : String → String
  pub content_type : List ℕ → String

-- A field with `omitempty`.
abbrev pub present : String → String → Object
present k s = if str_eq s "" then [] else (k, Value.text s) ∷ []

abbrev pub present_history : List (String × ℕ) → Object
present_history [] = []
present_history (h ∷ hs) = ("history", Value.entries (h ∷ hs)) ∷ []

-- The request of a form: without an id a new item, and an update otherwise.
abbrev pub request_of : ItemType → String → String → List ℕ → Request
request_of typ id meta payload =
    if str_eq id "" then create typ payload meta else update id payload meta

-- The history of a login: the old password, when it was changed, before the last ones, ten at most.
abbrev pub carried : ℕ → String → String → List (String × ℕ) → List (String × ℕ)
carried now old new history =
    if not (str_eq old "") && not (str_eq old new) then take 10 ((old, now) ∷ history) else history

abbrev pub max_file_size : ℕ
max_file_size = 10485760

abbrev pub ssh_object : List String → Option Object
ssh_object (name ∷ key_type ∷ private_key ∷ public_key ∷ comment ∷ vs) = some (
    ("name", Value.text name)
    ∷ ("key_type", Value.text key_type)
    ∷ ("private_key", Value.text private_key)
    ∷ (present "public_key" public_key
        ++ (present "comment" comment ++ ("ssh_key", Value.flag true) ∷ [])))
ssh_object vs = none

abbrev pub last_value : String → List String → String
last_value v [] = v
last_value v (w ∷ ws) = last_value w ws

module _ ⦃enc : Encoder⦄ where
  -- The folder in the payload; `none` is a panic.
  abbrev pub patched : String → List ℕ → Parsed → Option (List ℕ)
  patched folder payload Parsed.invalid = some payload
  patched folder payload Parsed.null = none
  patched folder payload (Parsed.object o) =
      some (enc.marshal_map (insert "folder" (Value.text folder) o))

  unfoldable pub with_folder : String → List ℕ → Option (List ℕ)
  with_folder folder payload =
      if str_eq folder "" then some payload else patched folder payload (enc.unmarshal payload)

  -- The payload of `setItemFlag`; `none` is a panic.
  abbrev pub flagged : String → Bool → Parsed → Option (List ℕ)
  flagged k true Parsed.invalid = some (enc.marshal_map ((k, Value.flag true) ∷ []))
  flagged k false Parsed.invalid = some (enc.marshal_map [])
  flagged k true Parsed.null = none
  flagged k false Parsed.null = some enc.marshal_nil
  flagged k true (Parsed.object o) = some (enc.marshal_map (insert k (Value.flag true) o))
  flagged k false (Parsed.object o) = some (enc.marshal_map (delete k o))

  -- `setItemFlag`
  unfoldable pub set_item_flag : VaultItem → String → Bool → Option Request
  set_item_flag i k value = do
    payload ← flagged k value (enc.unmarshal i.payload)
    some (update i.id payload i.metadata)

  abbrev pub marshalled : Option Object → Option (List ℕ)
  marshalled none = none
  marshalled (some o) = some (enc.marshal o)

  -- `duplicateItem`
  abbrev pub duplicate_item : VaultItem → Request
  duplicate_item i = create i.type i.payload (str_append i.metadata " (копия)")

  -- The request with a payload, after the folder is put into it.
  abbrev pub requested :
      ItemType → String → String → String → Option (List ℕ) → Result SaveError Request
  requested typ id meta folder payload = elim (do bytes ← payload; with_folder folder bytes) [
    | none ↦ err unavailable
    | some bytes ↦ ok (request_of typ id meta bytes)
  ]

  module _ ⦃files : Files⦄ where
    abbrev pub file_object : String → String → List ℕ → Object
    file_object name path bytes =
        ("name", Value.text name)
        ∷ ("file_name", Value.text (files.base path))
        ∷ ("mime_type", Value.text (files.content_type bytes))
        ∷ ("size", Value.number (length bytes))
        ∷ ("data", Value.content bytes)
        ∷ ("is_file", Value.flag true)
        ∷ []

    abbrev pub file_request :
        ItemType → String → String → String → String → Option (List ℕ) → Result SaveError Request
    file_request typ id name folder path none = err cannot_read
    file_request typ id name folder path (some bytes) =
        if ltb max_file_size (length bytes)
        then err (too_large (length bytes))
        else requested typ id name folder (some (enc.marshal (file_object name path bytes)))

    -- The form of a file, whose second value is its path.
    abbrev pub file_form :
        ItemType → String → String → String → Option String → Result SaveError Request
    file_form typ id name folder none = err unavailable
    file_form typ id name folder (some path) =
        file_request typ id name folder (files.trim_space path)
          (files.read_file (files.trim_space path))

  module _ ⦃json : Decoder⦄ (now : ℕ) (items : List VaultItem) where
    abbrev pub old_history : String → String → List VaultItem → List (String × ℕ)
    old_history id new [] = []
    old_history id new (i ∷ is) =
        let rest = old_history id new is in
        if str_eq i.id id
        then carried now (parse_login_payload i.payload i.metadata).password new
            (enc.history i.payload)
        else rest

    -- The fields of the payloads by type, from the values of the form.
    abbrev pub object_of : ItemType → String → List String → Option Object
    object_of credential id (name ∷ user ∷ password ∷ url ∷ totp ∷ notes ∷ vs) = some (
        ("name", Value.text name)
        ∷ ("username", Value.text user)
        ∷ ("password", Value.text password)
        ∷ (present "url" url
            ++ (present "totp_key" totp
                ++ (present "notes" notes
                    ++ present_history
                        (if str_eq id "" then [] else old_history id password items)))))
    object_of card id (name ∷ holder ∷ number ∷ month ∷ year ∷ cvv ∷ notes ∷ vs) = some (
        ("name", Value.text name)
        ∷ ("cardholder_name", Value.text holder)
        ∷ ("number", Value.text number)
        ∷ ("exp_month", Value.text month)
        ∷ ("exp_year", Value.text year)
        ∷ ("cvv", Value.text cvv)
        ∷ present "notes" notes)
    object_of text id (name ∷ content ∷ vs) =
        some (("name", Value.text name) ∷ ("content", Value.text content) ∷ [])
    object_of binary id (name ∷ first ∷ last ∷ email ∷ phone ∷ company ∷ address ∷ notes ∷ vs) =
        some (
          ("name", Value.text name)
          ∷ ("first_name", Value.text first)
          ∷ ("last_name", Value.text last)
          ∷ ("email", Value.text email)
          ∷ ("phone", Value.text phone)
          ∷ (present "company" company ++ (present "address" address ++ present "notes" notes)))
    object_of otp id (name ∷ secret ∷ issuer ∷ vs) =
        some (("name", Value.text name) ∷ ("secret", Value.text secret) ∷ present "issuer" issuer)
    object_of typ id vs = none

    -- A form of a vault type, as the name of the item and its payload; a missing value panics, and
    -- the unspecified type has no payload.
    abbrev pub payload_of : ItemType → String → List String → Option (List ℕ)
    payload_of unspecified id vs = some []
    payload_of credential id vs = marshalled (object_of credential id vs)
    payload_of card id vs = marshalled (object_of card id vs)
    payload_of text id vs = marshalled (object_of text id vs)
    payload_of binary id vs = marshalled (object_of binary id vs)
    payload_of otp id vs = marshalled (object_of otp id vs)

    module _ ⦃files : Files⦄ where
      -- The function that `saveForm` returns, up to its call of the server.
      unfoldable pub save_request :
          ItemType → String → String → List String → Result SaveError Request
      unfolding with_folder
      save_request typ id title [] = err unavailable
      save_request typ id title (name ∷ vs) =
          if str_eq title "File"
          then file_form typ id name (last_value name vs) (get_elem? (name ∷ vs) 1)
          else if str_eq title "SSH Key"
          then requested typ id name (last_value name vs) (marshalled (ssh_object (name ∷ vs)))
          else requested typ id name (last_value name vs) (payload_of typ id (name ∷ vs))
