-- ===== src/Server/Tests/Accounts.antt =====
-- Examples of logins and registrations.
use go_yandex_gophkeeper.Server.Handler.Auth
use go_yandex_gophkeeper.Server.Logins.{login_refused, login_twice, logout_revokes, login_accepted}
use go_yandex_gophkeeper.Server.Middleware.Metadata.{internal, unauthenticated}
use go_yandex_gophkeeper.Base.{
  ◌⊎◌, ◌∷◌, ◌+◌, ◌≡◌, false, [], none, err, find, str_eq, some, true, refl, not,
}
use go_yandex_gophkeeper.Server.World.{Context}
use go_yandex_gophkeeper.Server.Storage.{User, Session}
use go_yandex_gophkeeper.Server.Tests.Demo.{demo, logged_in, demo_world, acting_as, alice}
use go_yandex_gophkeeper.Server.Service.Auth.{RegisterInput, LoginResult}
use go_yandex_gophkeeper.Server.World
use go_yandex_gophkeeper.Server.App.{login, logout, refresh, handle, from_wire}

abbrev E : World.Env
E = demo 900

abbrev nobody : Context
nobody = from_wire none none

login_refused_example :
    ((handle ⦃env = E⦄ (login "bob" "pw") nobody demo_world).0 ≡ err unauthenticated)
    × ((handle ⦃env = E⦄ (login "bob" "pw") nobody demo_world).1.db.sessions ≡ [])
login_refused_example =
    login_refused ⦃env = E⦄ nobody "bob" "pw" demo_world refl (λ u h. absurd (cc))

logout_revokes_example :
    (handle ⦃env = E⦄
      (refresh "t")
      nobody
      (handle ⦃env = E⦄ (logout "t") (acting_as 1) logged_in).1).0
    ≡ err unauthenticated
logout_revokes_example = logout_revokes ⦃env = E⦄ (acting_as 1) nobody 1 "t" logged_in refl refl

abbrev again : RegisterInput
again = record {
  username = "alice";
  email = "b@x";
  password = "pw";
  vault_sym_key = [];
  kdf_params_json = "{}";
}

login_twice_example :
    ((handle ⦃env = E⦄ (login "alice" "pw") nobody logged_in).0 ≡ err internal)
    × ((handle ⦃env = E⦄ (login "alice" "pw") nobody logged_in).1.db.sessions
        ≡ logged_in.db.sessions)
login_twice_example =
    login_twice ⦃env = E⦄ nobody "alice" "pw" "t" alice logged_in refl refl refl refl refl

abbrev answer : LoginResult
answer = record {
  access_token = "t";
  refresh_token = "t";
  session_id = 100;
  needs_mfa = false;
  kdf_params_json = "{}";
  vault_sym_key = 7 ∷ [];
}

login_accepted_example :
    (u : User) × (s : Session) × (find (λ v. str_eq v.username "alice") demo_world.db.users
      ≡ some u)
    × (str_eq u.password_hash "pw" ≡ true)
    × ((handle ⦃env = E⦄ (login "alice" "pw") nobody demo_world).1.db.sessions ≡ s ∷ [])
    × (s.user_id ≡ u.id)
    × (s.id ≡ 100)
    × (s.refresh_token ≡ "t")
    × (s.expires_at ≡ 1000 + 2592000)
    × (s.mfa_verified ≡ not u.mfa_required)
    × (false ≡ u.mfa_required)
    × ((u.mfa_required ≡ false) ⊎ (answer.access_token ≡ ""))
unfolding handle Auth.login
login_accepted_example = login_accepted ⦃env = E⦄ nobody "alice" "pw" demo_world answer refl
