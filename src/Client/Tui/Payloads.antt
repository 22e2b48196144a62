-- ===== src/Client/Tui/Payloads.antt =====
-- internal/client/tui/payloads.go: the payloads of the items.
use go_yandex_gophkeeper.Base.{String, List, ℕ, if◌then◌else◌, str_eq}
use go_yandex_gophkeeper.Client.Tui.Items.{Decoder}

-- `LoginPayload`, without the old passwords.
pub record LoginPayload : Type 0 where
  pub name : String
  pub username : String
  pub password : String
  pub url : String
  pub totp_key : String
  pub notes : String

-- `CardPayload`
pub record CardPayload : Type 0 where
  pub name : String
  pub cardholder_name : String
  pub number : String
  pub exp_month : String
  pub exp_year : String
  pub cvv : String
  pub notes : String

-- `NotePayload`
pub record NotePayload : Type 0 where
  pub name : String
  pub content : String

-- `IdentityPayload`
pub record IdentityPayload : Type 0 where
  pub name : String
  pub first_name : String
  pub last_name : String
  pub email : String
  pub phone : String
  pub company : String
  pub address : String
  pub notes : String

-- `AuthPayload`
pub record AuthPayload : Type 0 where
  pub name : String
  pub secret : String
  pub issuer : String

-- `SSHKeyPayload`
pub record SshKeyPayload : Type 0 where
  pub name : String
  pub key_type : String
  pub private_key : String
  pub public_key : String
  pub comment : String

-- `FilePayload`, without its size and type.
pub record FilePayload : Type 0 where
  pub name : String
  pub file_name : String
  pub content : List ℕ

-- The second text where the first is empty.
abbrev pub or_else : String → String → String
or_else s t = if str_eq s "" then t else s

module _ ⦃json : Decoder⦄ (raw : List ℕ) (meta : String) where
  abbrev pub at : String → String
  at field = json.text_field field raw

  -- `parseLoginPayload`, and so on.
  unfoldable pub parse_login_payload : LoginPayload
  parse_login_payload = record {
    name = or_else (at "name") meta;
    username = or_else (at "username") (at "login");
    password = at "password";
    url = at "url";
    totp_key = at "totp_key";
    notes = at "notes";
  }

  unfoldable pub parse_auth_payload : AuthPayload
  parse_auth_payload = record {
    name = or_else (at "name") meta;
    secret = at "secret";
    issuer = at "issuer";
  }

  unfoldable pub parse_card_payload : CardPayload
  parse_card_payload = record {
    name = or_else (at "name") meta;
    cardholder_name = at "cardholder_name";
    number = at "number";
    exp_month = at "exp_month";
    exp_year = at "exp_year";
    cvv = at "cvv";
    notes = at "notes";
  }

  unfoldable pub parse_identity_payload : IdentityPayload
  parse_identity_payload = record {
    name = or_else (at "name") meta;
    first_name = at "first_name";
    last_name = at "last_name";
    email = at "email";
    phone = at "phone";
    company = at "company";
    address = at "address";
    notes = at "notes";
  }

  unfoldable pub parse_note_payload : NotePayload
  parse_note_payload = record {
    name = or_else (at "name") meta;
    content = or_else (at "content") (json.raw_text raw);
  }

  unfoldable pub parse_ssh_key_payload : SshKeyPayload
  parse_ssh_key_payload = record {
    name = or_else (at "name") meta;
    key_type = at "key_type";
    private_key = at "private_key";
    public_key = at "public_key";
    comment = at "comment";
  }

  unfoldable pub parse_file_payload : FilePayload
  parse_file_payload = record {
    name = or_else (at "name") meta;
    file_name = at "file_name";
    content = json.bytes_field "data" raw;
  }
