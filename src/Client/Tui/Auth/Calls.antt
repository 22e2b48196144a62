-- ===== src/Client/Tui/Auth/Calls.antt =====
-- internal/client/tui/auth.go: `doLogin`, `doRegister` and `doMFA`, and `New` of
-- internal/client/grpcclient/client.go.
use go_yandex_gophkeeper.Base.{
  String, Bool, List, [], ◌∷◌, ℕ, Option, none, some, Result, ok, err, Exec, lift, pure, ◌>>=◌,
  if◌then◌else◌, str_eq,
}
use Prim.Native.String.{◌++◌ as str_append}
use go_yandex_gophkeeper.Client.Config.{Config}
use go_yandex_gophkeeper.Client.Grpc.{Client, Conn, Status, refresh_interceptor}
use go_yandex_gophkeeper.Client.Tui.Text.{grpc_msg}
use go_yandex_gophkeeper.Client.Tui.Auth.Model.{Msg, auth_done, auth_err, needs_mfa}
use go_yandex_gophkeeper.Crypto.Keys.{
  Primitives, CryptoError, KdfParams, default_kdf_params, derive_key, stretch_key,
  generate_vault_sym_key, seal_vault_sym_key,
}
use go_yandex_gophkeeper.Crypto.Charset.{bytes}

-- The requests of the authentication service, and the fields of its responses.
pub data Request : Type 0 where
  login : String → String → Request
  register : String → String → String → List ℕ → String → Request
  verify_mfa : String → String → Request
  refresh : String → Request

pub record Response : Type 0 where
  pub needs_mfa : Bool
  pub session_id : String
  pub access_token : String
  pub refresh_token : String

-- The files, the certificates and the dialling of `grpcclient.New`, and the text of an error.
pub record Host : Type 0 where
  pub read_file : String → Result String (List ℕ)
  pub has_certs : List ℕ → Bool
  pub dial : String → Option (List ℕ) → Option String
  pub marshal_params : KdfParams → Result String String
  pub crypto_text : CryptoError → String

module _ ⦃host : Host⦄ where
  abbrev dialled : String → Option (List ℕ) → Option String
  dialled addr certs = host.dial addr certs

  abbrev pinned : String → Result String (List ℕ) → Option String
  pinned addr (err e) = some (str_append "read tls cert: " e)
  pinned addr (ok cert) =
      if host.has_certs cert then dialled addr (some cert) else some "parse tls cert"

  -- `grpcclient.New`: the error's text, if there is one.
  unfoldable pub new_error : Config → Option String
  new_error cfg =
      if str_eq cfg.tls_cert_path ""
      then dialled cfg.server_addr none
      else pinned cfg.server_addr (host.read_file cfg.tls_cert_path)

abbrev pub Calling : Type 0 → Type 0 → Type 0
Calling S A = Client S Request → A × Client S Request

module _ {S : Type 0} where
  -- The tokens are kept and saved.
  abbrev pub keep_tokens : Response → Calling S Msg
  keep_tokens r c =
      let cfg = record c.cfg { access_token = r.access_token; refresh_token = r.refresh_token } in
      (auth_done cfg, record c { cfg = cfg; saved = cfg ∷ c.saved })

  abbrev pub named : String → Client S Request → Client S Request
  named username c = record c { cfg = record c.cfg { username = username } }

  abbrev pub login_done : String → Result Status Response → Calling S Msg
  login_done username (err e) c = (auth_err (str_append "Sign in failed: " (grpc_msg e.text)), c)
  login_done username (ok r) c =
      if r.needs_mfa then (needs_mfa r.session_id, c) else keep_tokens r (named username c)

  abbrev pub mfa_done : Result Status Response → Calling S Msg
  mfa_done (err e) c = (auth_err (str_append "MFA failed: " (grpc_msg e.text)), c)
  mfa_done (ok r) c = keep_tokens r c

  abbrev pub dialling : Option String → Calling S Msg → Calling S Msg
  dialling (some e) k c = (auth_err (str_append "подключение: " e), c)
  dialling none k c = k c

  abbrev pub then_with :
      Exec (Client S Request) Status Response
      → (Result Status Response → Calling S Msg)
      → Calling S Msg
  then_with m k c = let (r, c') = m c in k r c'

module _ {S : Type 0} ⦃host : Host⦄ ⦃conn : Conn S Request Response⦄ where
  -- `doLogin`
  unfoldable pub do_login : String → String → Calling S Msg
  unfolding new_error refresh_interceptor grpc_msg
  do_login username password c =
      dialling (new_error c.cfg)
        (then_with (refresh_interceptor "/auth.AuthService/Login" [] (login username password))
          (login_done username))
        c

  -- `doMFA`
  unfoldable pub do_mfa : String → String → Calling S Msg
  unfolding new_error refresh_interceptor grpc_msg
  do_mfa session code c =
      dialling (new_error c.cfg)
        (then_with (refresh_interceptor "/auth.AuthService/VerifyMFA" [] (verify_mfa session code))
          mfa_done)
        c

-- The keys of a new account: the vault key, sealed, and the parameters of the derivation.
abbrev with_prefix : {A : Type 0} → String → Result String A → Result String A
with_prefix prefix (err e) = err (str_append prefix e)
with_prefix prefix (ok a) = ok a

module _ ⦃prim : Primitives⦄ ⦃host : Host⦄ where
  -- An error under a prefix; a panic is recovered.
  abbrev crypto_err : String → CryptoError → String
  crypto_err prefix CryptoError.panicked = "Сервер недоступен"
  crypto_err prefix e = str_append prefix (host.crypto_text e)

  abbrev under : {A : Type 0} → String → Result CryptoError A → Result String A
  under prefix (ok a) = ok a
  under prefix (err e) = err (crypto_err prefix e)

  abbrev stage : {A : Type 0} → String → Exec ℕ CryptoError A → Exec ℕ String A
  stage prefix m k = let (r, k') = m k in (under prefix r, k')

  -- `doRegister` up to the call; the state is the number of reads of randomness.
  unfoldable pub account_keys : String → Exec ℕ String (List ℕ × String)
  unfolding default_kdf_params derive_key stretch_key generate_vault_sym_key seal_vault_sym_key
  account_keys password = do
    params ← stage "генерация KDF: " default_kdf_params
    keys ← lift (under "" (stretch_key (derive_key (bytes password) params)))
    vault_key ← stage "генерация ключа: " generate_vault_sym_key
    sealed ← stage "шифрование ключа: " (seal_vault_sym_key vault_key keys.0)
    json ← lift (with_prefix "kdf params: " (host.marshal_params params))
    pure (sealed, json)

  module _ {S : Type 0} ⦃conn : Conn S Request Response⦄ where
    abbrev registered : String → String → Result Status Response → Calling S Msg
    registered username password (err e) c =
        (auth_err (str_append "Registration failed: " (grpc_msg e.text)), c)
    registered username password (ok r) c = do_login username password c

    abbrev send_keys : String → String → String → Result String (List ℕ × String) → Calling S Msg
    send_keys username email password (err e) c = (auth_err e, c)
    send_keys username email password (ok (sealed, json)) c =
        dialling (new_error c.cfg)
          (then_with
            (refresh_interceptor "/auth.AuthService/Register" []
              (register username email password sealed json))
            (registered username password))
          c

    -- `doRegister`
    unfoldable pub do_register : ℕ → String → String → String → Calling S Msg
    unfolding account_keys do_login
    do_register reads username email password =
        send_keys username email password (account_keys password reads).0
