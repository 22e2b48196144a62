-- ===== src/Client/Tests/Calls.antt =====
-- Examples of a call whose token has expired.
use go_yandex_gophkeeper.Base.{
  String, ◌≡◌, refl, ok, err, [], ℕ, Result, str_eq, if◌then◌else◌, any, suc,
}
use go_yandex_gophkeeper.Client.Config.{Config}
use go_yandex_gophkeeper.Client.Grpc.{
  Call, Client, Conn, Status, unauthenticated, refresh_interceptor, refresh_method, bearer,
}
use go_yandex_gophkeeper.Client.Grpc.Retry.{Course, refresh_interceptor_lem}

abbrev settings : Config
settings = record {
  server_addr = "localhost:50051";
  tls_cert_path = "";
  access_token = "old";
  refresh_token = "r";
  vault_path = "vault.gkdb";
  keyfile_path = "";
  username = "ann";
}

-- A server that takes the token "new", and gives it to a refresh; it counts its calls.
abbrev answer : Call String → ℕ → Result Status String × ℕ
answer call n =
    if str_eq call.method refresh_method
    then (ok "new", suc n)
    else if any (str_eq (bearer "new")) call.authorization
    then (ok "item", suc n)
    else (err (record { code = unauthenticated; text = "expired" }), suc n)

instance abbrev strict : Conn ℕ String String
strict = record { invoke = answer; refresh_request = λ t. t; access_token = λ r. r }

abbrev client : Client ℕ String
client = record { cfg = settings; saved = []; server = 0; calls = [] }

-- The second call is answered, and the new token is saved.
refreshed_run :
    (refresh_interceptor {Reply = String} "/vault.VaultService/GetItem" [] "id" client).0
    ≡ ok "item"
unfolding refresh_interceptor
refreshed_run = refl

refresh_interceptor_lem_example :
    Course {Reply = String} "/vault.VaultService/GetItem" [] "id" client
      (err (record { code = unauthenticated; text = "expired" }))
      1
      (refresh_interceptor {Reply = String} "/vault.VaultService/GetItem" [] "id" client)
refresh_interceptor_lem_example =
    refresh_interceptor_lem "/vault.VaultService/GetItem" [] "id" client
