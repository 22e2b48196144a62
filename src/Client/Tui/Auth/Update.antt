-- ===== src/Client/Tui/Auth/Update.antt =====
-- internal/client/tui/auth.go and launcher.go: `AuthModel.Update`, `handleSpecialMsg`, and the launcher
-- before the vault is open.
use go_yandex_gophkeeper.Base.{
  String, false, List, [], ◌∷◌, Option, none, some, ℕ, ltb, if◌then◌else◌, length,
}
use Prim.Native.String.{◌++◌ as str_append}
use go_yandex_gophkeeper.Client.Config.{Config}
use go_yandex_gophkeeper.Client.Tui.Panic.{◌>>=◌, change_at}
use go_yandex_gophkeeper.Client.Tui.Auth.Model.{
  Step, server, menu, login, register, mfa, Msg, key, window_size, auth_done, auth_err, needs_mfa,
  Cmd, nothing, widget, quit, load_vault, Widgets, AuthModel, type_into, handle_server_key,
  handle_menu_key, handle_form_key, handle_mfa_key, mk_auth_input,
}

-- `Launcher`: the sign-in, or the vault with its settings and the size of the window.
pub data Launcher (Input : Type 0) : Type 0 where
  auth : AuthModel Input → Launcher Input
  vault : Config → ℕ → ℕ → Launcher Input

-- The error of `New` of the vault's model (internal/client/tui/app.go) for the settings, if it has one.
pub record Opens : Type 0 where
  pub new_error : Config → Option String

module _ {Input : Type 0} ⦃w : Widgets Input⦄ where
  abbrev pub forward_by : Step → Msg → AuthModel Input → AuthModel Input × Cmd
  forward_by server msg m = (record m { server_input = w.update msg m.server_input }, widget)
  forward_by login msg m = (type_into msg m, widget)
  forward_by register msg m = (type_into msg m, widget)
  forward_by mfa msg m = (type_into msg m, widget)
  forward_by _ msg m = (m, nothing)

  -- The end of `Update`: the message goes to the fields of the step.
  abbrev pub forward : Msg → AuthModel Input → AuthModel Input × Cmd
  forward msg m = forward_by m.step msg m

  abbrev pub key_by : Step → String → AuthModel Input → Option (AuthModel Input × Cmd)
  key_by server k m = some (handle_server_key k m)
  key_by menu k m = some (handle_menu_key k m)
  key_by login k m = handle_form_key k m
  key_by register k m = handle_form_key k m
  key_by mfa k m = handle_mfa_key k m
  key_by _ k m = some (forward (key k) m)

  -- A refused attempt: back to the step before it.
  abbrev pub refused : String → AuthModel Input → AuthModel Input
  refused text m = record m { loading = false; err_msg = text; step = m.step_before_loading }

  abbrev pub focus_last : AuthModel Input → Option (AuthModel Input)
  focus_last m = do
    focused ← change_at m.focus_idx w.focus m.inputs
    some (record m { inputs = focused })

  abbrev pub focus_if_any : List Input → AuthModel Input → Option (AuthModel Input)
  focus_if_any [] m = some m
  focus_if_any (i ∷ is) m = focus_last m

  -- `AuthModel.Update`
  unfoldable pub update : Msg → AuthModel Input → Option (AuthModel Input × Cmd)
  unfolding handle_server_key handle_menu_key handle_form_key handle_mfa_key
  update (key k) m = key_by m.step k (record m { err_msg = "" })
  update (window_size x y) m = some (forward (window_size x y) (record m { width = x; height = y }))
  update (auth_done cfg) m = some (m, quit)
  update (auth_err text) m = do
    m' ← focus_if_any m.inputs (refused text m)
    some (forward (auth_err text) m')
  update msg m = some (forward msg m)

  -- `handleSpecialMsg`: `none` is a message that it does not handle.
  unfoldable pub handle_special_msg : Msg → AuthModel Input → Option (AuthModel Input × Cmd)
  handle_special_msg (needs_mfa session) m = some (
    record m {
      loading = false;
      mfa_session_id = session;
      step = mfa;
      inputs = w.focus (mk_auth_input "000000" "" false) ∷ [];
      focus_idx = 0;
    },
    widget,
  )
  handle_special_msg (auth_err text) m = some (
    (if ltb m.focus_idx (length m.inputs)
        then elim (focus_last (refused text m)) [ none ↦ refused text m | some m' ↦ m' ]
        else refused text m),
    nothing,
  )
  handle_special_msg msg m = none

  abbrev handled_or_update :
      Msg → AuthModel Input → Option (AuthModel Input × Cmd) → Option (AuthModel Input × Cmd)
  handled_or_update msg m (some r) = some r
  handled_or_update msg m none = update msg m

  -- The launcher's `Update` for a message other than `authDoneMsg`, before the vault is open.
  unfoldable pub sign_in : Msg → AuthModel Input → Option (AuthModel Input × Cmd)
  unfolding update handle_special_msg
  sign_in msg m = handled_or_update msg m (handle_special_msg msg m)

  module _ ⦃opens : Opens⦄ where
    -- `New` of the vault's model: the launcher shows it, or stays with the error.
    abbrev pub vault_or_error : Config → AuthModel Input → Option String → Launcher Input × Cmd
    vault_or_error cfg m none = (vault cfg m.width m.height, load_vault)
    vault_or_error cfg m (some e) =
        (auth (record m { err_msg = str_append "ошибка инициализации: " e }), nothing)

    abbrev pub staying : Option (AuthModel Input × Cmd) → Option (Launcher Input × Cmd)
    staying none = none
    staying (some (m, c)) = some (auth m, c)

    -- `Launcher.Update` before the vault is open.
    unfoldable pub before_vault : Msg → AuthModel Input → Option (Launcher Input × Cmd)
    unfolding sign_in
    before_vault (auth_done cfg) m = some (vault_or_error cfg m (opens.new_error cfg))
    before_vault msg m = staying (sign_in msg m)

    -- The messages up to the opening of the vault, whatever commands they lead to.
    unfoldable pub run : List Msg → AuthModel Input → Option (Launcher Input)
    unfolding before_vault
    run [] m = some (auth m)
    run (msg ∷ msgs) m = before_vault msg m >>= λ r. elim r.0 [
      | auth m' ↦ run msgs m'
      | vault cfg x y ↦ some (vault cfg x y)
    ]
