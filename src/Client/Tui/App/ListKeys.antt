-- ===== src/Client/Tui/App/ListKeys.antt =====
-- internal/client/tui/app.go: `handleListKey`.
use go_yandex_gophkeeper.Base.{
  String, Bool, true, false, ℕ, ◌+◌, ◌-◌, ◌%◌, Option, none, some, ◌||◌, ltb, if◌then◌else◌, str_eq,
  get_elem?, not, length,
}
use go_yandex_gophkeeper.Client.Tui.Items.{
  VaultItem, Decoder, is_favorite, is_file_item, is_ssh_key,
}
use go_yandex_gophkeeper.Client.Tui.Auth.Model.{Widgets}
use go_yandex_gophkeeper.Client.Tui.Panic.{◌>>=◌}
use go_yandex_gophkeeper.Crypto.Generate.{Rand}
use go_yandex_gophkeeper.Client.Tui.Model.{
  Model, SortMode, default, name, type_name, picker, del_conf, search, pass_gen, export_path,
}
use go_yandex_gophkeeper.Client.Tui.Sidebar.{CatEntry, cat_count, selected_cat, filtered_items}
use go_yandex_gophkeeper.Client.Tui.PassGen.{new_pass_gen_state}
use go_yandex_gophkeeper.Client.Tui.Payloads.{parse_login_payload, parse_file_payload}
use go_yandex_gophkeeper.Client.Tui.ItemForms.{open_edit_form, open_edit_ssh_form}
use go_yandex_gophkeeper.Client.Tui.App.Cmd.{
  Cmd, nothing, widget, quit, load_items, set_flag, duplicate, open_url, set_toast, unless_blocked,
  copy_field, Totp,
}

abbrev pub next_sort : SortMode → SortMode
next_sort default = name
next_sort name = type_name
next_sort type_name = default

abbrev pub is_write_key : String → Bool
is_write_key k =
    str_eq k "n" || str_eq k "e" || str_eq k "a" || str_eq k "d" || str_eq k "f" || str_eq k "R"

abbrev pub url_command : String → Cmd
url_command url = if str_eq url "" then nothing else open_url url

-- The clock in seconds and the number of random draws so far.
module _ {Input : Type 0} ⦃w : Widgets Input⦄ ⦃json : Decoder⦄ ⦃totp : Totp⦄ ⦃rand : Rand⦄
    (t draws : ℕ) where
  abbrev pub stay : Model Input → Option (Model Input × Cmd)
  stay m = some (m, nothing)

  -- `len(items) > 0 && m.listIdx < len(items)`
  abbrev pub current : Model Input → Option VaultItem
  current m = get_elem? (filtered_items m) m.list_idx

  -- What is done with the item under the cursor, if there is one.
  abbrev pub on_item :
      Model Input
      → (VaultItem → Option (Model Input × Cmd))
      → Option VaultItem
      → Option (Model Input × Cmd)
  on_item m f none = stay m
  on_item m f (some i) = f i

  abbrev pub on_current :
      Model Input → (VaultItem → Option (Model Input × Cmd)) → Option (Model Input × Cmd)
  on_current m f = on_item m f (current m)

  abbrev pub moved_up : Model Input → Model Input
  moved_up m =
      if m.sidebar_focus
      then (if ltb 0 m.cat_idx
          then record m { cat_idx = m.cat_idx - 1; list_idx = 0; reveal_pwd = false }
          else m)
      else if ltb 0 m.list_idx
      then record m { list_idx = m.list_idx - 1; reveal_pwd = false; last_err = "" }
      else m

  abbrev pub moved_down : Model Input → Model Input
  moved_down m =
      if m.sidebar_focus
      then (if ltb (m.cat_idx + 1) (cat_count m.items)
          then record m { cat_idx = m.cat_idx + 1; list_idx = 0; reveal_pwd = false }
          else m)
      else if ltb (m.list_idx + 1) (length (filtered_items m))
      then record m { list_idx = m.list_idx + 1; reveal_pwd = false; last_err = "" }
      else m

  abbrev pub to_category : ℕ → Model Input → Model Input
  to_category idx m = record m { cat_idx = idx; list_idx = 0; reveal_pwd = false }

  abbrev pub blinking : Option (Model Input) → Option (Model Input × Cmd)
  blinking o = do m ← o; some (m, widget)

  -- `e`
  unfoldable pub edit_key : CatEntry → Model Input → Option (Model Input × Cmd)
  unfolding filtered_items open_edit_form open_edit_ssh_form
  edit_key cat m = on_current m (λ i.
      if cat.trashed
      then stay m
      else if is_file_item i
      then stay (set_toast t "Use n to re-upload a file" m)
      else if is_ssh_key i
      then blinking (open_edit_ssh_form i m)
      else blinking (open_edit_form i m))

  -- `a`, `d`, `f` and `R`
  unfoldable pub archive_key : CatEntry → Model Input → Option (Model Input × Cmd)
  unfolding filtered_items
  archive_key cat m = on_current m (λ i.
      if cat.archived
      then some (m, set_flag i "archived" false "Unarchived")
      else some (m, set_flag i "archived" true "Archived"))

  unfoldable pub trash_key : CatEntry → Model Input → Option (Model Input × Cmd)
  unfolding filtered_items
  trash_key cat m = on_current m (λ i.
      if cat.trashed
      then stay (record m { delete_target = some i; mode = del_conf })
      else some (m, set_flag i "trashed" true "Moved to Trash"))

  unfoldable pub favorite_key : Model Input → Option (Model Input × Cmd)
  unfolding filtered_items
  favorite_key m = on_current m (λ i.
      if is_favorite i
      then some (m, set_flag i "favorite" false "Removed from Favorites")
      else some (m, set_flag i "favorite" true "Added to Favorites ⭐"))

  unfoldable pub restore_key : CatEntry → Model Input → Option (Model Input × Cmd)
  unfolding filtered_items
  restore_key cat m = on_current m (λ i.
      if cat.trashed
      then some (m, set_flag i "trashed" false "Restored")
      else if cat.archived
      then some (m, set_flag i "archived" false "Unarchived")
      else stay m)

  -- The keys that write, each behind `writeBlocked`.
  unfoldable pub write_key : String → CatEntry → Model Input → Option (Model Input × Cmd)
  unfolding edit_key archive_key trash_key favorite_key restore_key
  write_key k cat m =
      if str_eq k "n"
      then stay
          (if cat.trashed || cat.archived then m else record m { mode = picker; picker_idx = 0 })
      else if str_eq k "e"
      then edit_key cat m
      else if str_eq k "a"
      then archive_key cat m
      else if str_eq k "d"
      then trash_key cat m
      else if str_eq k "f"
      then favorite_key m
      else restore_key cat m

  -- `openExportPath`; the home directory is a parameter of the default path.
  unfoldable pub open_export_path : (String → String) → VaultItem → Model Input → Model Input
  unfolding parse_file_payload
  open_export_path default_path i m = record m {
    export_path_input =
        w.focus (w.new "" (default_path (parse_file_payload i.payload i.metadata).file_name) false);
    export_item = some i;
    mode = export_path;
  }

  -- `newPassGenState(-1)`, which may panic.
  abbrev pub open_generator : Model Input → Option (Model Input × Cmd)
  open_generator m = do
    s ← (new_pass_gen_state none draws).0
    stay (record m { pass_gen = some s; mode = pass_gen })

  module _ (default_path : String → String) where
    -- The keys from `c` on.
    unfoldable pub read_key : String → Model Input → Option (Model Input × Cmd)
    unfolding filtered_items copy_field open_export_path new_pass_gen_state parse_login_payload
    read_key k m =
        if str_eq k "c"
        then some (m, copy_field m.now "password" (current m))
        else if str_eq k "u"
        then some (m, copy_field m.now "username" (current m))
        else if str_eq k "t"
        then some (m, copy_field m.now "totp" (current m))
        else if str_eq k "x"
        then on_current m
            (λ i. stay (if is_file_item i then open_export_path default_path i m else m))
        else if str_eq k "p"
        then stay (record m { reveal_pwd = not m.reveal_pwd })
        else if str_eq k "r"
        then some (record m { loading = true; sync_err = false; offline = false }, load_items)
        else if str_eq k "/"
        then stay (record m { mode = search; search_query = "" })
        else if str_eq k "g"
        then open_generator m
        else if str_eq k "S"
        then stay (record m { sort = next_sort m.sort; list_idx = 0 })
        else if str_eq k "o"
        then on_current m (λ i. some (m, url_command (parse_login_payload i.payload "").url))
        else if str_eq k "D"
        then on_current m (λ i. some (m, duplicate i))
        else stay m

    -- `handleListKey`
    unfoldable pub handle_list_key : String → Model Input → Option (Model Input × Cmd)
    unfolding write_key read_key cat_count selected_cat unless_blocked
    handle_list_key k m =
        if str_eq k "q" || str_eq k "ctrl+c"
        then some (m, quit)
        else if str_eq k "up" || str_eq k "k"
        then stay (moved_up m)
        else if str_eq k "down" || str_eq k "j"
        then stay (moved_down m)
        else if str_eq k "left" || str_eq k "h"
        then stay (record m { sidebar_focus = true })
        else if str_eq k "right" || str_eq k "l" || str_eq k "enter"
        then stay (record m { sidebar_focus = false })
        else if str_eq k "tab"
        then stay (to_category ((m.cat_idx + 1) % cat_count m.items) m)
        else if str_eq k "shift+tab"
        then stay (to_category ((m.cat_idx + cat_count m.items - 1) % cat_count m.items) m)
        else if is_write_key k
        then unless_blocked t m (write_key k (selected_cat m.items m.cat_idx) m)
        else read_key k m
