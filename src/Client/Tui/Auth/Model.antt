-- ===== src/Client/Tui/Auth/Model.antt =====
-- internal/client/tui/auth.go: `AuthModel`, the sign-in forms.
use go_yandex_gophkeeper.Base.{
  String, Bool, true, false, List, [], ◌∷◌, ℕ, suc, ◌+◌, ◌-◌, ◌%◌, Option, some, ◌==◌, ltb, ◌||◌,
  if◌then◌else◌, length, get_elem?, map, str_eq, not,
}
use go_yandex_gophkeeper.Client.Config.{Config}
use go_yandex_gophkeeper.Client.Tui.Panic.{◌>>=◌, change_at}

-- `authStep`
pub data Step : Type 0 where
  server menu login register loading mfa : Step

-- The messages of the event loop; a key goes by its name, `other` is one that no case names.
pub data Msg : Type 0 where
  key : String → Msg
  window_size : ℕ → ℕ → Msg
  auth_done : Config → Msg
  auth_err : String → Msg
  needs_mfa : String → Msg
  other : ℕ → Msg

-- The commands that the event loop runs: `widget` is one of the input fields' own, and `answer` gives
-- its message back.
pub data Cmd : Type 0 where
  nothing widget quit load_vault : Cmd
  answer : Msg → Cmd
  do_login : String → String → Cmd
  do_register : String → String → String → Cmd
  do_mfa : String → String → Cmd

-- bubbles/textinput, and `strings.TrimSpace`.
pub record Widgets (Input : Type 0) : Type 0 where
  -- a field with a placeholder and a value, which hides what is typed or not
  pub new : String → String → Bool → Input
  pub value : Input → String
  pub placeholder : Input → String
  pub focus : Input → Input
  pub blur : Input → Input
  pub update : Msg → Input → Input
  pub trim_space : String → String

-- `AuthModel`, with the variable `_stepBeforeLoading` of the package.
pub record AuthModel (Input : Type 0) : Type 0 where
  pub cfg : Config
  pub step : Step
  pub width : ℕ
  pub height : ℕ
  pub server_input : Input
  pub menu_idx : ℕ
  pub inputs : List Input
  pub focus_idx : ℕ
  pub mfa_session_id : String
  pub err_msg : String
  pub loading : Bool
  pub step_before_loading : Step

module _ {Input : Type 0} ⦃w : Widgets Input⦄ where
  -- `mkAuthInput`
  abbrev pub mk_auth_input : String → String → Bool → Input
  mk_auth_input placeholder value secret = w.new placeholder value secret

  -- `NewAuthModel`
  unfoldable pub new_auth_model : Config → Step → AuthModel Input
  new_auth_model cfg before = record {
    cfg = cfg;
    step = server;
    width = 0;
    height = 0;
    server_input = w.focus (w.new "localhost:50051" cfg.server_addr false);
    menu_idx = 0;
    inputs = [];
    focus_idx = 0;
    mfa_session_id = "";
    err_msg = "";
    loading = false;
    step_before_loading = before;
  }

  -- `openLoginForm`
  unfoldable pub open_login_form : AuthModel Input → AuthModel Input
  open_login_form m = record m {
    step = login;
    inputs =
        w.focus (mk_auth_input "username" m.cfg.username false)
        ∷ mk_auth_input "master password" "" true
        ∷ [];
    focus_idx = 0;
  }

  -- `openRegisterForm`
  unfoldable pub open_register_form : AuthModel Input → AuthModel Input
  open_register_form m = record m {
    step = register;
    inputs =
        w.focus (mk_auth_input "username" "" false)
        ∷ mk_auth_input "email (optional)" "" false
        ∷ mk_auth_input "master password" "" true
        ∷ mk_auth_input "confirm password" "" true
        ∷ [];
    focus_idx = 0;
  }

  -- The focus goes from one field to another.
  unfoldable pub refocus : ℕ → AuthModel Input → Option (AuthModel Input)
  refocus next m = do
    blurred ← change_at m.focus_idx w.blur m.inputs
    focused ← change_at next w.focus blurred
    some (record m { inputs = focused; focus_idx = next })

  -- `nextField` and `prevField`; with no field the blur panics before the remainder is taken.
  unfoldable pub next_field : AuthModel Input → Option (AuthModel Input)
  unfolding refocus
  next_field m = refocus ((m.focus_idx + 1) % length m.inputs) m

  unfoldable pub prev_field : AuthModel Input → Option (AuthModel Input)
  unfolding refocus
  prev_field m = refocus ((m.focus_idx + length m.inputs - 1) % length m.inputs) m

  -- `m.inputs[i].Value()`
  abbrev pub value_at : ℕ → AuthModel Input → Option String
  value_at i m = do input ← get_elem? m.inputs i; some (w.value input)

  -- `m.inputs[i], c = m.inputs[i].Update(msg)`, for every i.
  abbrev pub type_into : Msg → AuthModel Input → AuthModel Input
  type_into msg m = record m { inputs = map (w.update msg) m.inputs }

  -- The end of `submitForm`, from the comparison of the passwords on.
  unfoldable pub checked_register :
      AuthModel Input → String → String → String → String → AuthModel Input × Cmd
  checked_register m username email password confirm =
      if not (str_eq password confirm)
      then (record m { loading = false }, answer (auth_err "пароли не совпадают"))
      else if str_eq username "" || str_eq password ""
      then (record m { loading = false }, answer (auth_err "заполните обязательные поля"))
      else (m, do_register username email password)

  abbrev pub submitted : AuthModel Input → AuthModel Input
  submitted m = record m { loading = true; step_before_loading = m.step }

  abbrev pub submit_login : AuthModel Input → Option (AuthModel Input × Cmd)
  submit_login m = do
    username ← value_at 0 m
    password ← value_at 1 m
    some (m, do_login username password)

  abbrev pub submit_register : AuthModel Input → Option (AuthModel Input × Cmd)
  submit_register m = do
    username ← value_at 0 m
    email ← value_at 1 m
    password ← value_at 2 m
    confirm ← value_at 3 m
    some (checked_register m username email password confirm)

  abbrev pub submit_by : Step → AuthModel Input → Option (AuthModel Input × Cmd)
  submit_by login m = submit_login m
  submit_by _ m = submit_register m

  -- `submitForm`
  unfoldable pub submit_form : AuthModel Input → Option (AuthModel Input × Cmd)
  unfolding checked_register
  submit_form m = submit_by m.step (submitted m)

  -- `submitMFA`
  unfoldable pub submit_mfa : AuthModel Input → Option (AuthModel Input × Cmd)
  submit_mfa m = do
    code ← value_at 0 m
    some (record m { loading = true }, do_mfa m.mfa_session_id code)

  abbrev pub quiet : Option (AuthModel Input) → Option (AuthModel Input × Cmd)
  quiet o = do m ← o; some (m, nothing)

  abbrev pub or_placeholder : Input → String → String
  or_placeholder input addr = if str_eq addr "" then w.placeholder input else addr

  -- `handleServerKey`
  unfoldable pub handle_server_key : String → AuthModel Input → AuthModel Input × Cmd
  handle_server_key k m =
      if str_eq k "ctrl+c" || str_eq k "q"
      then (m, quit)
      else if str_eq k "enter"
      then (
        record m {
          cfg = record m.cfg {
            server_addr = or_placeholder m.server_input (w.trim_space (w.value m.server_input));
          };
          step = menu;
          menu_idx = 0;
        },
        nothing,
      )
      else (record m { server_input = w.update (key k) m.server_input }, widget)

  -- `handleMenuKey`
  unfoldable pub handle_menu_key : String → AuthModel Input → AuthModel Input × Cmd
  unfolding open_login_form open_register_form
  handle_menu_key k m =
      if str_eq k "ctrl+c"
      then (m, quit)
      else if str_eq k "esc"
      then (record m { step = server; server_input = w.focus m.server_input }, nothing)
      else if str_eq k "up" || str_eq k "k"
      then (record m { menu_idx = m.menu_idx - 1 }, nothing)
      else if str_eq k "down" || str_eq k "j"
      then ((if ltb m.menu_idx 1 then record m { menu_idx = m.menu_idx + 1 } else m), nothing)
      else if str_eq k "1"
      then (open_login_form (record m { menu_idx = 0 }), nothing)
      else if str_eq k "2"
      then (open_register_form (record m { menu_idx = 1 }), nothing)
      else if str_eq k "enter"
      then ((if m.menu_idx == 0 then open_login_form m else open_register_form m), nothing)
      else (m, nothing)

  abbrev pub back_to_menu : AuthModel Input → AuthModel Input
  back_to_menu m = record m { step = menu; inputs = [] }

  -- `handleFormKey`; the last field is the one whose index is one below the number of fields.
  unfoldable pub handle_form_key : String → AuthModel Input → Option (AuthModel Input × Cmd)
  unfolding next_field prev_field submit_form
  handle_form_key k m =
      if str_eq k "ctrl+c"
      then some (m, quit)
      else if str_eq k "esc"
      then some (back_to_menu m, nothing)
      else if str_eq k "tab" || str_eq k "down"
      then quiet (next_field m)
      else if str_eq k "shift+tab" || str_eq k "up"
      then quiet (prev_field m)
      else if str_eq k "enter"
      then (if suc m.focus_idx == length m.inputs then submit_form m else quiet (next_field m))
      else some (type_into (key k) m, widget)

  -- `handleMFAKey`
  unfoldable pub handle_mfa_key : String → AuthModel Input → Option (AuthModel Input × Cmd)
  unfolding submit_mfa
  handle_mfa_key k m =
      if str_eq k "ctrl+c"
      then some (m, quit)
      else if str_eq k "esc"
      then some (back_to_menu m, nothing)
      else if str_eq k "enter"
      then submit_mfa m
      else some (type_into (key k) m, widget)
