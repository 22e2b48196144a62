-- ===== src/Client/Tui/Auth/Keys.antt =====
-- internal/client/tui/auth.go and launcher.go: `Update` for a key, at every step, and for the other
-- messages.
use go_yandex_gophkeeper.Base.{◌≡◌, Bool, true, false, ◌⊎◌}
use go_yandex_gophkeeper.Client.Config.{Config}
use go_yandex_gophkeeper.Client.Tui.Auth.Model.{Msg, auth_err, Widgets, Cmd}
use go_yandex_gophkeeper.Client.Tui.Auth.Update.{Launcher, auth, vault, Opens}
use go_yandex_gophkeeper.Client.Tui.Auth.Forms.{IsWellFormed}

abbrev pub is_refusal : Msg → Bool
is_refusal (auth_err text) = true
is_refusal msg = false

module _ {Input : Type 0} ⦃w : Widgets Input⦄ where
  -- The launcher's sign-in fits its step; an open vault has none.
  abbrev pub Fitting : Launcher Input → Type 0
  Fitting (auth m) = IsWellFormed m
  Fitting (vault cfg x y) = Unit

  module _ ⦃opens : Opens⦄ where
    -- After a message: the fields fit the step, unless the message was a refusal.
    pub record Next (msg : Msg) (r : Launcher Input × Cmd) : Type 0 where
      next : (is_refusal msg ≡ true) ⊎ Fitting (r.0)
