-- ===== src/Server/App.antt =====
-- internal/server/app/app.go: a unary request goes through the rate limiter and the check of the
-- token to its handler. LoggingInterceptor passes the request and its result on unchanged.
use go_yandex_gophkeeper.Base.{
  ℕ, String, Bool, List, [], ◌∷◌, Option, Exec, pure, ◌>>=◌, ◌>>◌, none,
}
use go_yandex_gophkeeper.Base.Int.{ℤ}
use go_yandex_gophkeeper.Server.World.{Env, World, Context}
use go_yandex_gophkeeper.Server.Service.Auth.{RegisterInput, LoginResult}
use go_yandex_gophkeeper.Server.Service.Mfa.{EnrollTotpResult, VerifyMfaResult}
use go_yandex_gophkeeper.Server.Middleware.Metadata.{Code}
use go_yandex_gophkeeper.Server.Middleware.Auth.{auth_interceptor}
use go_yandex_gophkeeper.Server.Middleware.RateLimit.{rate_limit_interceptor}
use go_yandex_gophkeeper.Server.Handler.Auth
use go_yandex_gophkeeper.Server.Handler.Vault
use go_yandex_gophkeeper.Server.Handler.Vault.{ItemType, ProtoItem}

-- The unary methods, with the fields of their requests.
pub data Rpc : Type 0 where
  register : RegisterInput → Rpc
  login : String → String → Rpc
  refresh : String → Rpc
  logout : String → Rpc
  enroll_totp : String → Rpc
  confirm_totp : ℕ → String → Rpc
  verify_mfa : ℕ → String → Rpc
  create_item : ItemType → List ℕ → String → Rpc
  get_item : ℕ → Rpc
  update_item : ℕ → List ℕ → String → Rpc
  delete_item : ℕ → Rpc
  list_items : ItemType → ℤ → Option ℕ → Rpc

pub data Response : Type 0 where
  user : ℕ → Response
  session : LoginResult → Response
  token : String → Response
  enrolled : EnrollTotpResult → Response
  confirmed : Bool → Response
  verified : VerifyMfaResult → Response
  item : ProtoItem → Response
  page : List ProtoItem → Option ℕ → Response
  done : Response

-- `info.FullMethod`
abbrev pub full_method : Rpc → String
full_method (register _) = "/auth.AuthService/Register"
full_method (login _ _) = "/auth.AuthService/Login"
full_method (refresh _) = "/auth.AuthService/Refresh"
full_method (logout _) = "/auth.AuthService/Logout"
full_method (enroll_totp _) = "/auth.AuthService/EnrollTOTP"
full_method (confirm_totp _ _) = "/auth.AuthService/ConfirmTOTP"
full_method (verify_mfa _ _) = "/auth.AuthService/VerifyMFA"
full_method (create_item _ _ _) = "/vault.VaultService/CreateItem"
full_method (get_item _) = "/vault.VaultService/GetItem"
full_method (update_item _ _ _) = "/vault.VaultService/UpdateItem"
full_method (delete_item _) = "/vault.VaultService/DeleteItem"
full_method (list_items _ _ _) = "/vault.VaultService/ListItems"

-- The registered handler of a method.
unfoldable pub handle : ⦃env : Env⦄ → Rpc → Context → Exec World Code Response
handle (register r) ctx = do id ← Auth.register ctx r; pure (user id)
handle (login name password) ctx = do s ← Auth.login ctx name password; pure (session s)
handle (refresh t) ctx = do t' ← Auth.refresh ctx t; pure (token t')
handle (logout t) ctx = do Auth.logout ctx t; pure done
handle (enroll_totp label) ctx = do r ← Auth.enroll_totp ctx label; pure (enrolled r)
handle (confirm_totp id code) ctx = do b ← Auth.confirm_totp ctx id code; pure (confirmed b)
handle (verify_mfa id code) ctx = do r ← Auth.verify_mfa ctx id code; pure (verified r)
handle (create_item type payload meta) ctx = do
  i ← Vault.create_item ctx type payload meta
  pure (item i)
handle (get_item id) ctx = do i ← Vault.get_item ctx id; pure (item i)
handle (update_item id payload meta) ctx = do
  i ← Vault.update_item ctx id payload meta
  pure (item i)
handle (delete_item id) ctx = do Vault.delete_item ctx id; pure done
handle (list_items type limit cursor) ctx = do
  p ← Vault.list_items ctx type limit cursor
  pure (page p.0 p.1)

-- A context as it comes from the wire: no user is set.
abbrev pub from_wire : Option (List (String × List String)) → Option String → Context
from_wire metadata peer = record { metadata = metadata; peer = peer; user_id = none }

-- `grpc.ChainUnaryInterceptor` of `New`, for one request.
unfoldable pub serve : ⦃env : Env⦄ → Rpc → Context → Exec World Code Response
unfolding rate_limit_interceptor auth_interceptor
serve rpc =
    rate_limit_interceptor (full_method rpc) (auth_interceptor (full_method rpc) (handle rpc))

-- One request after another; the clock may move between two of them.
abbrev pub Arrival : Type 0
Arrival = Rpc × Context × ℕ

unfoldable pub run : ⦃env : Env⦄ → List Arrival → World → World
run [] w = w
run ((rpc, ctx, now) ∷ rest) w = run rest (serve rpc ctx (record w { now = now })).1
