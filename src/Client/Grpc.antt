-- ===== src/Client/Grpc.antt =====
-- internal/client/grpcclient/client.go: the token in the metadata, and the refresh of the token.
pub mod Retry
use go_yandex_gophkeeper.Base.{
  String, Bool, List, [], ◌∷◌, ◌++◌, ◌||◌, not, if◌then◌else◌, Result, ok, err, Exec, str_eq,
  attempt, true, false,
}
use go_yandex_gophkeeper.Client.Config.{Config}

-- The code and the text of a gRPC status.
pub data Code : Type 0 where
  unauthenticated other_code : Code

pub record Status : Type 0 where
  pub code : Code
  pub text : String

-- A call as the server sees it.
pub record Call (Request : Type 0) : Type 0 where
  pub method : String
  pub authorization : List String
  pub request : Request

-- The connection: what the server does with a call, how a refresh is asked for and how the new access
-- token is read. `S` is the state of the server.
pub record Conn (S Request Reply : Type 0) : Type 0 where
  pub invoke : Call Request → S → Result Status Reply × S
  pub refresh_request : String → Request
  pub access_token : Reply → String

-- The settings in memory and on the disk, the server, and the calls that were made.
pub record Client (S Request : Type 0) : Type 0 where
  pub cfg : Config
  pub saved : List Config
  pub server : S
  pub calls : List (Call Request)

abbrev pub refresh_method : String
refresh_method = "/auth.AuthService/Refresh"

abbrev pub bearer : String → String
bearer t = String.◌∷◌ "B" (
    String.◌∷◌ "e"
      (String.◌∷◌ "a" (String.◌∷◌ "r" (String.◌∷◌ "e" (String.◌∷◌ "r" (String.◌∷◌ " " t))))))

-- `AppendToOutgoingContext` of the token, unless there is none.
abbrev pub with_token : Config → List String → List String
with_token cfg headers =
    if str_eq cfg.access_token "" then headers else headers ++ bearer cfg.access_token ∷ []

abbrev pub is_unauthenticated : Code → Bool
is_unauthenticated unauthenticated = true
is_unauthenticated other_code = false

-- `WithAuth`
abbrev pub with_auth : {S Request : Type 0} → Client S Request → List String → List String
with_auth c headers = with_token c.cfg headers

module _ {S Request Reply : Type 0} ⦃conn : Conn S Request Reply⦄ where
  -- `invoker`
  unfoldable pub invoke : Call Request → Exec (Client S Request) Status Reply
  invoke call c =
      let (r, s) = conn.invoke call c.server in
      (r, record c { server = s; calls = c.calls ++ call ∷ [] })

  -- `refreshInterceptor` up to the first answer, which is all of it for a `Refresh` call.
  unfoldable pub first_try : String → List String → Request → Exec (Client S Request) Status Reply
  unfolding invoke
  first_try method headers request c =
      invoke
        (record { method = method; authorization = with_token c.cfg headers; request = request }) c

  -- `cfg.AccessToken = …` and `config.Save`, whose error is dropped.
  unfoldable pub renewed : Reply → Client S Request → Client S Request
  renewed reply c =
      let cfg = record c.cfg { access_token = conn.access_token reply } in
      record c { cfg = cfg; saved = cfg ∷ c.saved }

  -- The second call, in a context of its own.
  unfoldable pub second_try :
      String → Request → Status → Result Status Reply → Exec (Client S Request) Status Reply
  unfolding renewed invoke
  second_try method request e (err _) c = (err e, c)
  second_try method request e (ok reply) c =
      let c' = renewed reply c in
      invoke
        (record {
          method = method;
          authorization = bearer c'.cfg.access_token ∷ [];
          request = request;
        })
        c'

  -- `refreshInterceptor` from the first answer on.
  unfoldable pub after_first :
      String → Request → Result Status Reply → Exec (Client S Request) Status Reply
  unfolding first_try second_try
  after_first method request (ok reply) c = (ok reply, c)
  after_first method request (err e) c =
      if str_eq c.cfg.refresh_token "" || str_eq method refresh_method
      then (err e, c)
      else if not (is_unauthenticated e.code)
      then (err e, c)
      else attempt (first_try refresh_method [] (conn.refresh_request c.cfg.refresh_token))
          (second_try method request e) c

  -- `refreshInterceptor`
  unfoldable pub refresh_interceptor :
      String → List String → Request → Exec (Client S Request) Status Reply
  unfolding after_first
  refresh_interceptor method headers request =
      attempt (first_try method headers request) (after_first method request)
