-- ===== src/Client/Tui/App/Offline.antt =====
-- internal/client/tui/app.go: `writeBlocked`, over the keys of the list.
use go_yandex_gophkeeper.Base.{
  ap, sym, String, Bool, true, false, ℕ, ◌≡◌, ◌⊎◌, inl, inr, Option, none, some, refl, str_eq,
  if◌then◌else◌, Bool-cases,
}
use mathlib.Core.Path.{subst}
use go_yandex_gophkeeper.Client.Tui.Panic.{Returns, if_Returns}
use go_yandex_gophkeeper.Client.Tui.Items.{VaultItem, Decoder, is_file_item}
use go_yandex_gophkeeper.Client.Tui.Auth.Model.{Widgets}
use go_yandex_gophkeeper.Crypto.Generate.{Rand}
use go_yandex_gophkeeper.Client.Tui.Model.{Model, Mode, list, pass_gen}
use go_yandex_gophkeeper.Client.Tui.Payloads.{parse_login_payload}
use go_yandex_gophkeeper.Client.Tui.Sidebar.{selected_cat}
use go_yandex_gophkeeper.Client.Tui.App.Cmd.{
  Cmd, set_flag, duplicate, delete, save, nothing, copy_field, copy_text, set_toast, unless_blocked,
  Totp, key,
}
use go_yandex_gophkeeper.Client.Tui.App.ListKeys.{
  handle_list_key, read_key, write_key, on_item, on_current, current, stay, url_command,
  open_export_path, open_generator,
}
use go_yandex_gophkeeper.Crypto.Returns.{Draws}
use go_yandex_gophkeeper.Client.Tui.PassGen.Preview.{new_pass_gen_state-returns}
use go_yandex_gophkeeper.Client.Tui.App.Update.{update, key_in, Machine}

-- The commands that change the vault of the server.
abbrev pub is_write : Cmd → Bool
is_write (set_flag i flag b text) = true
is_write (duplicate i) = true
is_write (delete id) = true
is_write (save typ id title vals) = true
is_write c = false

-- A command that writes is one of the key "D".
pub record Blocked {Input : Type 0} (k : String) (r : Model Input × Cmd) : Type 0 where
  pub blocked : (is_write r.1 ≡ false) ⊎ (str_eq k "D" ≡ true)

if_true :
    {A : Type 0} (P : A → Type 0) (b : Bool) (x y : Option A)
    → b ≡ true
    → Returns P x
    → Returns P (if b then x else y)
if_true P b x y e h = rw e h

copy_quiet : (s : String) → is_write (copy_text s) ≡ false
copy_quiet s = elim (Bool-cases (str_eq s "")) [ inl e ↦ rw e refl | inr e ↦ rw e refl ]

url_quiet : (s : String) → is_write (url_command s) ≡ false
url_quiet s = elim (Bool-cases (str_eq s "")) [ inl e ↦ rw e refl | inr e ↦ rw e refl ]

copy_field_quiet :
    ⦃json : Decoder⦄ ⦃totp : Totp⦄ (now : ℕ) (field : String) (o : Option VaultItem)
    → is_write (copy_field now field o) ≡ false
unfolding copy_field
copy_field_quiet now field none = refl
copy_field_quiet now field (some i) = copy_quiet _

module _ {Input : Type 0} ⦃w : Widgets Input⦄ ⦃json : Decoder⦄ ⦃totp : Totp⦄ ⦃rand : Rand⦄
    (draw : Draws rand) (k : String) where
  quietly : (m : Model Input) (c : Cmd) → is_write c ≡ false → Returns (Blocked k) (some (m, c))
  quietly m c h = record { blocked = inl h }

  quiet : (m : Model Input) → Returns (Blocked k) (some (m, nothing))
  quiet m = record { blocked = inl refl }

  module _ (t draws : ℕ) where
    on_item-Blocked :
        (m : Model Input) (f : VaultItem → Option (Model Input × Cmd)) (o : Option VaultItem)
        → ((i : VaultItem) → Returns (Blocked k) (f i))
        → Returns (Blocked k) (on_item t draws m f o)
    on_item-Blocked m f none h = quiet m
    on_item-Blocked m f (some i) h = h i

    on_current-Blocked :
        (m : Model Input) (f : VaultItem → Option (Model Input × Cmd))
        → ((i : VaultItem) → Returns (Blocked k) (f i))
        → Returns (Blocked k) (on_current t draws m f)
    on_current-Blocked m f h = on_item-Blocked m f (current t draws m) h

    duplicate-Blocked :
        (m : Model Input)
        → Returns (Blocked k) (
            if str_eq k "D"
            then on_current t draws m (λ i. some (m, duplicate i))
            else stay t draws m)
    duplicate-Blocked m = elim (Bool-cases (str_eq k "D")) [
      | inl e ↦
          rw e (on_current-Blocked m (λ i. some (m, duplicate i)) (λ i. record { blocked = inr e }))
      | inr e ↦ rw e (quiet m)
    ]

    generator-Blocked : (m : Model Input) → Returns (Blocked k) (open_generator t draws m)
    generator-Blocked m =
        let (s, e) = new_pass_gen_state-returns draw none draws in
        rw e (quiet (record m { pass_gen = some s; mode = pass_gen }))

    read-Blocked :
        (default_path : String → String) (m : Model Input)
        → Returns (Blocked k) (read_key t draws default_path k m)
    unfolding read_key
    read-Blocked default_path m =
        search
          (
            if_Returns,
            quiet,
            quietly,
            copy_field_quiet,
            generator-Blocked m,
            duplicate-Blocked m,
            on_current-Blocked m
                (λ i.
                  stay t draws
                    (if is_file_item i then open_export_path t draws default_path i m else m))
                (λ i. quiet _),
            on_current-Blocked m (λ i. some (m, url_command (parse_login_payload i.payload "").url))
                (λ i. quietly _ _ (url_quiet _)),
          )
          depth 20

    list-Blocked :
        (default_path : String → String) (m : Model Input)
        → m.offline ≡ true
        → Returns (Blocked k) (handle_list_key t draws default_path k m)
    unfolding handle_list_key
    list-Blocked default_path m off =
        let writes : Returns (Blocked k)
            (unless_blocked t m (write_key t draws k (selected_cat m.items m.cat_idx) m)) =
          unfold unless_blocked in
          (if_true (Blocked k) m.offline _ _ off (quiet (set_toast t "Read Only Mode" m))) in
        search (if_Returns, quiet, quietly, writes, read-Blocked default_path m) depth 20

  -- While the cache is shown and crypto/rand draws, no key of the list panics, and no key but "D" leads to a command that
  -- changes the vault of the server.
  pub offline_list :
      (machine : Machine Input) (runes : String) (m : Model Input)
      → m.mode ≡ list
      → m.offline ≡ true
      → Returns (Blocked k) (update machine (key k runes) m)
  unfolding update
  offline_list machine runes m at off =
      subst (λ mode. Returns (Blocked k) (key_in machine mode k runes m)) (sym at)
        (list-Blocked machine.clock machine.draws machine.default_path m off)

module _ {Input : Type 0} ⦃w : Widgets Input⦄ ⦃json : Decoder⦄ ⦃totp : Totp⦄ ⦃rand : Rand⦄ where
  duplicate_at :
      (machine : Machine Input) (runes : String) (m : Model Input) (mode : Mode) (i : VaultItem)
      → mode ≡ list
      → current machine.clock machine.draws m ≡ some i
      → key_in machine mode "D" runes m ≡ some (m, duplicate i)
  unfolding key_in
  duplicate_at machine runes m mode i at here =
      rw at (ap (on_item machine.clock machine.draws m (λ i. some (m, duplicate i))) here)

  -- The key "D" duplicates the item under the cursor on the server, also while the cache is shown.
  pub duplicate_key :
      (machine : Machine Input) (runes : String) (m : Model Input) (i : VaultItem)
      → m.mode ≡ list
      → current machine.clock machine.draws m ≡ some i
      → update machine (key "D" runes) m ≡ some (m, duplicate i)
  unfolding update
  duplicate_key machine runes m i at here = duplicate_at machine runes m m.mode i at here
