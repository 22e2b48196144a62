-- ===== src/Client/Tui/App/Keys.antt =====
-- internal/client/tui/app.go and passgen.go: the keys of the modes over the list.
use go_yandex_gophkeeper.Base.{
  String, Bool, true, false, List, [], ◌∷◌, ℕ, ◌+◌, ◌-◌, ◌%◌, Option, none, some, ◌||◌, ltb,
  if◌then◌else◌, str_eq, get_elem?, length, map, set,
}
use Prim.Native.String.{◌++◌ as str_append}
use go_yandex_gophkeeper.Server.Handler.Vault.{ItemType, credential, text, binary, card}
use go_yandex_gophkeeper.Client.Tui.Items.{VaultItem, Decoder}
use go_yandex_gophkeeper.Client.Tui.Auth.Model.{Widgets}
use go_yandex_gophkeeper.Client.Tui.Panic.{◌>>=◌, change_at}
use go_yandex_gophkeeper.Crypto.Generate.{Rand}
use go_yandex_gophkeeper.Client.Tui.Model.{
  Model, ItemForm, FormField, PassGenState, list, form, pass_gen,
}
use go_yandex_gophkeeper.Client.Tui.PassGen.{new_pass_gen_state, pass_gen_key}
use go_yandex_gophkeeper.Client.Tui.ItemForms.{open_new_form, open_new_ssh_form, open_new_file_form}
use go_yandex_gophkeeper.Client.Tui.App.Cmd.{
  Cmd, nothing, widget, delete, save, copy_password, refresh_preview, export, set_toast,
}

-- `pickerEntry`, without its icon.
pub record PickerEntry : Type 0 where
  pub label : String
  pub typ : ItemType
  pub is_ssh : Bool
  pub is_file : Bool

abbrev pub picked : String → ItemType → Bool → Bool → PickerEntry
picked label typ is_ssh is_file = record {
  label = label;
  typ = typ;
  is_ssh = is_ssh;
  is_file = is_file;
}

-- `pickerEntries`
abbrev pub picker_entries : List PickerEntry
picker_entries =
    picked "Login" credential false false
    ∷ picked "Card" card false false
    ∷ picked "Identity" binary false false
    ∷ picked "Note" text false false
    ∷ picked "SSH Key" text true false
    ∷ picked "File" binary false true
    ∷ []

-- The key of a number from 1 to 6, less one.
abbrev pub digit_key : String → Option ℕ
digit_key k =
    if str_eq k "1"
    then some 0
    else if str_eq k "2"
    then some 1
    else if str_eq k "3"
    then some 2
    else if str_eq k "4"
    then some 3
    else if str_eq k "5"
    then some 4
    else if str_eq k "6"
    then some 5
    else none

-- `string(runes[:len(runes)-1])`
abbrev pub without_last : String → String
without_last String.[] = String.[]
without_last (String.◌∷◌ c String.[]) = String.[]
without_last (String.◌∷◌ c (String.◌∷◌ d s)) = String.◌∷◌ c (without_last (String.◌∷◌ d s))

-- `target.GetId()`, which is empty for no item.
abbrev pub target_id : Option VaultItem → String
target_id none = ""
target_id (some i) = i.id

module _ {Input : Type 0} ⦃w : Widgets Input⦄ ⦃json : Decoder⦄ where
  -- The form of an entry.
  abbrev pub open_entry : PickerEntry → Model Input → Option (Model Input × Cmd)
  open_entry e m = do
    m' ←
        (if e.is_ssh
          then open_new_ssh_form m
          else if e.is_file
          then open_new_file_form m
          else open_new_form e.typ m)
    some (m', widget)

  -- `pickerEntries[i]`, which panics out of range.
  abbrev pub open_at : ℕ → Model Input → Option (Model Input × Cmd)
  open_at i m = do e ← get_elem? picker_entries i; open_entry e m

  abbrev other_picker_key : String → Model Input → Option (Model Input × Cmd)
  other_picker_key k m = elim (digit_key k) [
    | some i ↦ open_at i (record m { picker_idx = i })
    | none ↦ if str_eq k "enter" then open_at m.picker_idx m else some (m, nothing)
  ]

  -- `handlePickerKey`
  unfoldable pub handle_picker_key : String → Model Input → Option (Model Input × Cmd)
  unfolding open_new_form open_new_ssh_form open_new_file_form
  handle_picker_key k m =
      if str_eq k "esc"
      then some (record m { mode = list }, nothing)
      else if str_eq k "up" || str_eq k "k"
      then some (record m { picker_idx = m.picker_idx - 1 }, nothing)
      else if str_eq k "down" || str_eq k "j"
      then some (
        (if ltb (m.picker_idx + 1) (length picker_entries)
            then record m { picker_idx = m.picker_idx + 1 }
            else m),
        nothing,
      )
      else other_picker_key k m

  -- `handleDelConfKey`
  unfoldable pub handle_del_conf_key : String → Model Input → Model Input × Cmd
  handle_del_conf_key k m =
      if str_eq k "y" || str_eq k "Y"
      then (m, delete (target_id m.delete_target))
      else (record m { mode = list; delete_target = none }, nothing)

  -- `handleSearchKey`
  unfoldable pub handle_search_key : String → String → Model Input → Model Input × Cmd
  handle_search_key k runes m =
      if str_eq k "esc"
      then (record m { mode = list; search_query = "" }, nothing)
      else if str_eq k "enter"
      then (record m { mode = list }, nothing)
      else if str_eq k "backspace"
      then (record m { search_query = without_last m.search_query }, nothing)
      else (record m { search_query = str_append m.search_query runes }, nothing)

  -- `handleExportPathKey`
  unfoldable pub handle_export_path_key : (Input → Input) → String → Model Input → Model Input × Cmd
  handle_export_path_key typed k m =
      if str_eq k "esc"
      then (record m { mode = list; export_item = none }, nothing)
      else if str_eq k "enter"
      then (record m { mode = list; export_item = none }, export m.export_item)
      else (record m { export_path_input = typed m.export_path_input }, widget)

  -- `saveForm`: the values of the fields, and the name, which must not be empty.
  abbrev pub values : List (FormField Input) → List String
  values fields = map (λ f. w.trim_space (w.value f.input)) fields

  abbrev pub named_or_error :
      ItemForm Input → List String → Model Input → Option (Model Input × Cmd)
  named_or_error f [] m = none
  named_or_error f (v ∷ vs) m =
      if str_eq v ""
      then some (record m { last_err = "Name is required" }, nothing)
      else some (m, save f.typ f.edit_item_id f.title (v ∷ vs))

  unfoldable pub save_form : ItemForm Input → Model Input → Option (Model Input × Cmd)
  save_form f m = named_or_error f (values f.fields) m

  abbrev pub with_form : Model Input → ItemForm Input → Model Input
  with_form m f = record m { form = some f }

  -- The focus goes to another field.
  unfoldable pub focus_field : ℕ → ItemForm Input → Model Input → Option (Model Input × Cmd)
  focus_field next f m = do
    blurred ← change_at f.focus_idx (λ e. record e { input = w.blur e.input }) f.fields
    focused ← change_at next (λ e. record e { input = w.focus e.input }) blurred
    some (with_form m (record f { fields = focused; focus_idx = next }), widget)

  module _ ⦃rand : Rand⦄ (draws : ℕ) where
    abbrev pub open_for : ℕ → Model Input → Option (Model Input × Cmd)
    open_for i m = do
      s ← (new_pass_gen_state (some i) draws).0
      some (record m { pass_gen = some s; mode = pass_gen }, nothing)

    abbrev pub generate_for : ItemForm Input → Model Input → Option (Model Input × Cmd)
    generate_for f m = do
      field ← get_elem? f.fields f.focus_idx
      if field.can_gen then open_for f.focus_idx m else some (m, nothing)

    -- `handleFormKey`, for the form that is open.
    unfoldable pub form_key :
        (Input → Input) → String → ItemForm Input → Model Input → Option (Model Input × Cmd)
    unfolding save_form focus_field new_pass_gen_state
    form_key typed k f m =
        if str_eq k "esc"
        then some (record m { mode = list; form = none }, nothing)
        else if str_eq k "ctrl+g"
        then generate_for f m
        else if str_eq k "ctrl+s"
        then save_form f m
        else if str_eq k "tab" || str_eq k "down"
        then focus_field ((f.focus_idx + 1) % length f.fields) f m
        else if str_eq k "shift+tab" || str_eq k "up"
        then focus_field ((f.focus_idx + length f.fields - 1) % length f.fields) f m
        else if str_eq k "enter"
        then (if ltb (f.focus_idx + 1) (length f.fields)
            then focus_field (f.focus_idx + 1) f m
            else save_form f m)
        else (do
          fields ← change_at f.focus_idx (λ e. record e { input = typed e.input }) f.fields
          some (with_form m (record f { fields = fields }), widget))

    -- `handleFormKey`: without a form `f` is nil.
    unfoldable pub handle_form_key :
        (Input → Input) → String → Model Input → Option (Model Input × Cmd)
    unfolding form_key
    handle_form_key typed k m = elim m.form [
      | some f ↦ form_key typed k f m
      | none ↦
          if str_eq k "esc" then some (record m { mode = list; form = none }, nothing) else none
    ]

  -- Enter in the generator: the preview goes to a field of the form, or to the clipboard.
  abbrev pub fill_field : (List ℕ → Input → Input) → ℕ → List ℕ → ItemForm Input → ItemForm Input
  fill_field set_value i preview f = elim (get_elem? f.fields i) [
    | none ↦ f
    | some e ↦ record f { fields = set f.fields i (record e { input = set_value preview e.input }) }
  ]

  abbrev pub take_preview :
      ℕ → (List ℕ → Input → Input) → Option ℕ → List ℕ → Model Input → Model Input × Cmd
  take_preview t set_value none preview m = (
    set_toast t "Скопировано в буфер ✓" (record m { pass_gen = none; mode = list }),
    copy_password preview,
  )
  take_preview t set_value (some i) preview m = (
    record m {
      form = elim m.form [ none ↦ none | some f ↦ some (fill_field set_value i preview f) ];
      mode = form;
      pass_gen = none;
    },
    nothing,
  )

  abbrev pub asks : PassGenState × Bool → Model Input → Model Input × Cmd
  asks (s, refresh) m =
      (record m { pass_gen = some s }, if refresh then refresh_preview s else nothing)

  abbrev pub leave_generator : Option ℕ → Model Input → Model Input
  leave_generator none m = record m { mode = list; pass_gen = none }
  leave_generator (some i) m = record m { mode = form; pass_gen = none }

  -- `handlePassGenKey`: without a generator `pg` is nil, which only the keys that do nothing survive.
  unfoldable pub handle_pass_gen_key :
      ℕ → (List ℕ → Input → Input) → String → PassGenState → Model Input → Model Input × Cmd
  unfolding pass_gen_key
  handle_pass_gen_key t set_value k s m =
      if str_eq k "esc"
      then (leave_generator s.target_field_idx m, nothing)
      else if str_eq k "enter"
      then take_preview t set_value s.target_field_idx s.preview m
      else asks (pass_gen_key k s) m
