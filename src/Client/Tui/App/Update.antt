-- ===== src/Client/Tui/App/Update.antt =====
-- internal/client/tui/app.go: `Model.Update`.
use go_yandex_gophkeeper.Base.{
  String, Bool, true, false, List, ℕ, ◌+◌, ◌-◌, ◌%◌, Option, none, some, ltb, leb, if◌then◌else◌,
}
use go_yandex_gophkeeper.Client.Tui.Items.{Decoder}
use go_yandex_gophkeeper.Client.Tui.Auth.Model.{Widgets, key as key_msg}
use go_yandex_gophkeeper.Client.Tui.Text.{grpc_msg}
use go_yandex_gophkeeper.Crypto.Generate.{Rand}
use go_yandex_gophkeeper.Client.Tui.Model.{
  Mode, PassGenState, list, picker, form, del_conf, search, pass_gen, export_path,
}
use go_yandex_gophkeeper.Client.Tui.Model
use go_yandex_gophkeeper.Client.Tui.Sidebar.{cat_count}
use go_yandex_gophkeeper.Client.Tui.App.Cmd.{
  Msg, window_size, tick, clear_clip, saved, deleted, loaded, offline_loaded, pass_gen_refresh,
  toast, err, key, Cmd, nothing, next_tick, load_items, clear_clipboard, set_toast, Totp,
}
use go_yandex_gophkeeper.Client.Tui.App.ListKeys.{handle_list_key}
use go_yandex_gophkeeper.Client.Tui.App.Keys.{
  handle_picker_key, handle_del_conf_key, handle_search_key, handle_export_path_key,
  handle_form_key, handle_pass_gen_key,
}

-- The rest of the machine: the clock, the draws so far, the default path of an export, and the change
-- of an input field by a key or by a value.
pub record Machine (Input : Type 0) : Type 0 where
  pub clock : ℕ
  pub draws : ℕ
  pub default_path : String → String
  pub set_value : List ℕ → Input → Input

-- `m.catIdx = n - 1` where it is out of range.
abbrev pub clamped : ℕ → ℕ → ℕ
clamped idx n = if leb n idx then n - 1 else idx

abbrev pub expired : Option ℕ → ℕ → Bool
expired none now = false
expired (some e) now = ltb e now

module _ {Input : Type 0} ⦃w : Widgets Input⦄ ⦃json : Decoder⦄ ⦃totp : Totp⦄ ⦃rand : Rand⦄
    (machine : Machine Input) where
  abbrev pub pass_gen_or_panic :
      String → Option PassGenState → Model.Model Input → Option (Model.Model Input × Cmd)
  pass_gen_or_panic k none m = none
  pass_gen_or_panic k (some s) m = some (handle_pass_gen_key machine.clock machine.set_value k s m)

  -- A key, by the mode.
  unfoldable pub key_in :
      Mode → String → String → Model.Model Input → Option (Model.Model Input × Cmd)
  unfolding handle_list_key handle_picker_key handle_del_conf_key handle_search_key
      handle_export_path_key handle_form_key handle_pass_gen_key
  key_in form k runes m = handle_form_key machine.draws (w.update (key_msg k)) k m
  key_in picker k runes m = handle_picker_key k m
  key_in del_conf k runes m = some (handle_del_conf_key k m)
  key_in search k runes m = some (handle_search_key k runes m)
  key_in export_path k runes m = some (handle_export_path_key (w.update (key_msg k)) k m)
  key_in pass_gen k runes m = pass_gen_or_panic k m.pass_gen m
  key_in list k runes m = handle_list_key machine.clock machine.draws machine.default_path k m

  abbrev pub with_preview : List ℕ → Option PassGenState → Option PassGenState
  with_preview p none = none
  with_preview p (some s) = some (record s { preview = p })

  -- `Update`
  unfoldable pub update : Msg → Model.Model Input → Option (Model.Model Input × Cmd)
  unfolding key_in cat_count grpc_msg
  update (window_size x y) m = some (record m { width = x; height = y }, nothing)
  update (tick t) m = some (
    record m {
      now = t;
      spinner = (m.spinner + 1) % 8;
      toast = if expired m.toast_expiry t then "" else m.toast;
    },
    next_tick,
  )
  update clear_clip m = some (set_toast machine.clock "Clipboard cleared" m, clear_clipboard)
  update (loaded items) m = some (
    record m {
      items = items;
      list_idx = 0;
      loading = false;
      last_sync = some machine.clock;
      sync_err = false;
      offline = false;
      cat_idx = clamped m.cat_idx (cat_count items);
    },
    nothing,
  )
  update (offline_loaded items age) m = some (
    record m {
      items = items;
      list_idx = 0;
      loading = false;
      sync_err = false;
      offline = true;
      cache_age = age;
      cat_idx = clamped m.cat_idx (cat_count items);
    },
    nothing,
  )
  update saved m = some (
    set_toast machine.clock "Saved ✓" (record m { mode = list; form = none; loading = true }),
    load_items,
  )
  update deleted m = some (
    set_toast machine.clock "Deleted"
        (record m { mode = list; delete_target = none; loading = true }),
    load_items,
  )
  update (pass_gen_refresh p) m = some (record m { pass_gen = with_preview p m.pass_gen }, nothing)
  update (toast s) m = some (set_toast machine.clock s m, nothing)
  update (err e) m =
      some
        (record m { last_err = grpc_msg e; loading = false; sync_err = true; mode = list }, nothing)
  update (key k runes) m = key_in m.mode k runes m
