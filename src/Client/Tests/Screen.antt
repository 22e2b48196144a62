-- ===== src/Client/Tests/Screen.antt =====
-- Examples of the vault's screen and of the password generator.
use go_yandex_gophkeeper.Base.{
  String, Bool, true, false, ◌≡◌, refl, arith, none, some, any, List, [], ◌∷◌, ℕ, if◌then◌else◌,
  ltb, str_eq,
}
use mathlib.Core.List.{Perm}
use go_yandex_gophkeeper.Crypto.Generate.{Rand}
use go_yandex_gophkeeper.Crypto.Coverage.{Bounded}
use go_yandex_gophkeeper.Crypto.Returns.{Draws}
use go_yandex_gophkeeper.Server.Handler.Vault.{credential}
use go_yandex_gophkeeper.Client.Config.{Config}
use go_yandex_gophkeeper.Client.Tui.Panic.{Returns}
use go_yandex_gophkeeper.Client.Tui.Auth.Model.{Widgets}
use go_yandex_gophkeeper.Client.Tui.Items.{VaultItem, Decoder}
use go_yandex_gophkeeper.Client.Tui.Model.{Model, name, list, PassGenState, password}
use go_yandex_gophkeeper.Client.Tui.Sidebar.{
  filtered_items, sidebar_selectables, in_category, CatEntry,
}
use go_yandex_gophkeeper.Client.Tui.Sidebar.Shown.{
  filtered_items_lem, shown_once, IsOrderedBy, selected, Separates,
}
use go_yandex_gophkeeper.Client.Tui.PassGen.{pass_gen_key, refresh_cmd, password_opts}
use go_yandex_gophkeeper.Client.Tui.PassGen.Bounds.{InRange, pass_gen_key-InRange}
use go_yandex_gophkeeper.Client.Tui.PassGen.Preview.{Fits, refresh_cmd-password}
use go_yandex_gophkeeper.Client.Tui.App.Cmd.{Totp, key}
use go_yandex_gophkeeper.Client.Tui.App.Update.{update, Machine}
use go_yandex_gophkeeper.Client.Tui.App.Offline.{Blocked, offline_list}

instance abbrev texts : Widgets String
texts = record {
  new = λ placeholder value secret. value;
  value = λ s. s;
  placeholder = λ s. "";
  focus = λ s. s;
  blur = λ s. s;
  update = λ msg s. s;
  trim_space = λ s. s;
}

-- A payload is a list of flags: 1 for the archive and 2 for the trash.
abbrev has_flag : ℕ → String → Bool
has_flag n field =
    if str_eq field "archived" then ltb 0 n else if str_eq field "trashed" then ltb 1 n else false

abbrev flag_of : String → List ℕ → Bool
flag_of field [] = false
flag_of field (n ∷ ns) = has_flag n field

instance abbrev flags : Decoder
flags = record {
  text_field = λ field raw. "";
  flag = flag_of;
  bytes_field = λ field raw. [];
  to_lower = λ s. s;
  raw_text = λ raw. "";
}

instance abbrev no_codes : Totp
no_codes = record { generate = λ secret now. none }

instance abbrev zeros : Rand
zeros = record { int = λ k n. if ltb 0 n then some 0 else none }

zeros-Bounded : Bounded zeros
zeros-Bounded k n v h = ground arith

zeros-Draws : Draws zeros
zeros-Draws k n = (0, ground arith)

abbrev settings : Config
settings = record {
  server_addr = "localhost:50051";
  tls_cert_path = "";
  access_token = "a";
  refresh_token = "r";
  vault_path = "vault.gkdb";
  keyfile_path = "";
  username = "ann";
}

abbrev item_named : String → List ℕ → VaultItem
item_named s payload = record {
  id = s;
  user_id = "1";
  type = credential;
  payload = payload;
  metadata = s;
  version = 1;
}

abbrev screen : Model String
screen = record {
  cfg = settings;
  width = 80;
  height = 24;
  mode = list;
  now = 0;
  cat_idx = 0;
  items = item_named "b" [] ∷ item_named "c" (2 ∷ []) ∷ item_named "a" [] ∷ [];
  list_idx = 0;
  loading = false;
  search_query = "";
  sidebar_focus = false;
  reveal_pwd = false;
  toast = "";
  toast_expiry = none;
  last_err = "";
  picker_idx = 0;
  form = none;
  pass_gen = none;
  delete_target = none;
  export_path_input = "";
  export_item = none;
  sort = name;
  last_sync = none;
  sync_err = false;
  offline = true;
  cache_age = 0;
  spinner = 0;
}

-- The item in the trash is not shown, and the others are sorted by name.
shown_names : filtered_items screen ≡ item_named "a" [] ∷ item_named "b" [] ∷ []
unfolding filtered_items
shown_names = refl

filtered_items_lem_example :
    Perm (filtered_items screen) (selected screen)
    × IsOrderedBy name (selected screen) (filtered_items screen)
filtered_items_lem_example = filtered_items_lem screen

shown_once_example :
    (any (λ c. in_category c (item_named "c" (2 ∷ []))) (sidebar_selectables screen.items) ≡ true)
    × ((c : CatEntry) → Separates (item_named "c" (2 ∷ [])) c)
shown_once_example = shown_once (item_named "c" (2 ∷ [])) screen.items

abbrev machine : Machine String
machine = record { clock = 0; draws = 0; default_path = λ s. s; set_value = λ v s. s }

offline_list_example : Returns (Blocked "d") (update machine (key "d" "d") screen)
offline_list_example = offline_list zeros-Draws "d" machine "d" screen refl refl

abbrev generator : PassGenState
generator = record {
  tab = password;
  focus = 0;
  length = 128;
  use_upper = true;
  use_lower = true;
  use_digits = true;
  use_symbols = true;
  min_digits = 1;
  min_symbols = 1;
  avoid_ambig = false;
  word_count = 5;
  separator_idx = 0;
  capitalize = true;
  include_num = true;
  preview = [];
  target_field_idx = none;
}

generator-InRange : InRange generator
generator-InRange = omega arith

pass_gen_key-InRange_example : InRange (pass_gen_key "right" generator).0
pass_gen_key-InRange_example = pass_gen_key-InRange "right" generator generator-InRange

refresh_cmd-password_example :
    Returns (Fits (password_opts generator) 128) (refresh_cmd generator 0).0
refresh_cmd-password_example =
    refresh_cmd-password zeros-Draws zeros-Bounded generator 0 refl generator-InRange
