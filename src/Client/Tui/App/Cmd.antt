-- ===== src/Client/Tui/App/Cmd.antt =====
-- internal/client/tui/app.go: the messages and the commands of the vault's screen.
use go_yandex_gophkeeper.Base.{
  String, Bool, List, ℕ, ◌+◌, Option, none, some, if◌then◌else◌, str_eq,
}
use go_yandex_gophkeeper.Server.Handler.Vault.{ItemType}
use go_yandex_gophkeeper.Client.Tui.Items.{VaultItem, Decoder}
use go_yandex_gophkeeper.Client.Tui.Model.{Model, PassGenState}
use go_yandex_gophkeeper.Client.Tui.Payloads.{
  parse_login_payload, parse_card_payload, parse_auth_payload, or_else,
}

-- The messages; a key has its name and the characters that were typed.
pub data Msg : Type 0 where
  window_size : ℕ → ℕ → Msg
  tick : ℕ → Msg
  clear_clip saved deleted : Msg
  loaded : List VaultItem → Msg
  offline_loaded : List VaultItem → ℕ → Msg
  pass_gen_refresh : List ℕ → Msg
  toast : String → Msg
  err : String → Msg
  key : String → String → Msg

-- The commands, and what is done outside of the model: `set_flag`, `duplicate`, `delete` and `save`
-- change the vault of the server.
pub data Cmd : Type 0 where
  nothing widget quit next_tick load_items clear_clipboard : Cmd
  set_flag : VaultItem → String → Bool → String → Cmd
  duplicate : VaultItem → Cmd
  delete : String → Cmd
  save : ItemType → String → String → List String → Cmd
  copy : String → Cmd
  copy_password : List ℕ → Cmd
  open_url : String → Cmd
  refresh_preview : PassGenState → Cmd
  export : Option VaultItem → Cmd

-- The codes of github.com/pquerna/otp at a time; `none` is an error.
pub record Totp : Type 0 where
  pub generate : String → ℕ → Option String

module _ {Input : Type 0} where
  -- `setToast`, at a time of the clock in seconds.
  abbrev pub set_toast : ℕ → String → Model Input → Model Input
  set_toast t s m = record m { toast = s; toast_expiry = some (t + 3) }

  -- A write that is refused while the cache is shown: `writeBlocked`.
  unfoldable pub unless_blocked :
      ℕ → Model Input → Option (Model Input × Cmd) → Option (Model Input × Cmd)
  unless_blocked t m r = if m.offline then some (set_toast t "Read Only Mode" m, nothing) else r

abbrev pub code_or_dashes : Option String → String
code_or_dashes none = "------"
code_or_dashes (some s) = s

-- `generateTOTP`
abbrev pub generate_totp : ⦃totp : Totp⦄ → ℕ → String → String
generate_totp ⦃totp⦄ now secret =
    if str_eq secret "" then "" else code_or_dashes (totp.generate secret now)

-- `copyField`
abbrev pub copy_text : String → Cmd
copy_text s = if str_eq s "" then nothing else copy s

module _ ⦃json : Decoder⦄ ⦃totp : Totp⦄ where
  abbrev pub field_text : ℕ → String → VaultItem → String
  field_text now field i =
      let login = parse_login_payload i.payload i.metadata in
      if str_eq field "password"
      then or_else login.password (parse_card_payload i.payload i.metadata).cvv
      else if str_eq field "username"
      then login.username
      else if str_eq field "totp"
      then (if str_eq login.totp_key ""
          then generate_totp now (parse_auth_payload i.payload i.metadata).secret
          else generate_totp now login.totp_key)
      else ""

  unfoldable pub copy_field : ℕ → String → Option VaultItem → Cmd
  unfolding parse_login_payload parse_card_payload parse_auth_payload
  copy_field now field none = nothing
  copy_field now field (some i) = copy_text (field_text now field i)
