-- ===== src/Client/Tests/SignIn.antt =====
-- Examples of the sign-in forms and of the calls that they make.
use go_yandex_gophkeeper.Base.{
  String, Bool, ◌≡◌, refl, arith, inl, none, [], ◌∷◌, false, true, if◌then◌else◌,
}
use go_yandex_gophkeeper.Client.Config.{Config}
use go_yandex_gophkeeper.Client.Tui.Panic.{Returns}
use go_yandex_gophkeeper.Client.Tui.Auth.Model.{
  login, Widgets, AuthModel, submit_form, key, needs_mfa, auth_err, Msg,
}
use go_yandex_gophkeeper.Client.Tui.Auth.Update.{Opens, run, handle_special_msg}
use go_yandex_gophkeeper.Client.Tui.Auth.Forms.{IsWellFormed}
use go_yandex_gophkeeper.Client.Tui.Auth.Refused.{mfa_refused_panics, refused_attempt, Shown}

abbrev Field : Type 0
Field = String × Bool

abbrev plain_update : Msg → Field → Field
plain_update (key k) (v, b) = if b then (k, b) else (v, b)
plain_update msg f = f

instance abbrev fields : Widgets Field
fields = record {
  new = λ placeholder value secret. (value, false);
  value = λ f. f.0;
  placeholder = λ f. "";
  focus = λ f. (f.0, true);
  blur = λ f. (f.0, false);
  update = plain_update;
  trim_space = λ s. s;
}

abbrev settings : Config
settings = record {
  server_addr = "localhost:50051";
  tls_cert_path = "";
  access_token = "";
  refresh_token = "";
  vault_path = "vault.gkdb";
  keyfile_path = "";
  username = "ann";
}

-- The sign-in form, with the focus on the password.
abbrev form : AuthModel Field
form = record {
  cfg = settings;
  step = login;
  width = 80;
  height = 24;
  server_input = ("localhost:50051", true);
  menu_idx = 0;
  inputs = ("ann", false) ∷ ("secret", true) ∷ [];
  focus_idx = 1;
  mfa_session_id = "";
  err_msg = "";
  loading = false;
  step_before_loading = login;
}

form-IsWellFormed : IsWellFormed form
form-IsWellFormed = record { fits = (refl, omega arith); on_menu = omega arith }

-- The vault opens with every setting.
instance abbrev opening : Opens
opening = record { new_error = λ cfg. none }

mfa_refused_panics_example :
    run (needs_mfa "7" ∷ key "enter" ∷ auth_err "wrong code" ∷ key "enter" ∷ []) form ≡ none
mfa_refused_panics_example = mfa_refused_panics form "7" "wrong code" (inl refl)

refused_attempt_example :
    Returns
      (λ r.
        Returns
          (Shown login ("ann" ∷ "secret" ∷ []) "refused")
          (handle_special_msg (auth_err "refused") (r.0)))
      (submit_form form)
refused_attempt_example = refused_attempt (λ i. refl) form "refused" (inl refl) form-IsWellFormed
