-- ===== src/Server/Postgres/Sessions.antt =====
-- internal/server/storage/postgres/sessions.go, with the constraints of 00003_sessions.sql.
use go_yandex_gophkeeper.Base.{
  ℕ, String, Bool, true, not, ◌||◌, ◌∷◌, Result, ok, err, Exec, ltb, ◌==◌, str_eq, if◌then◌else◌,
  find, any, filter, update_where,
}
use go_yandex_gophkeeper.Server.Storage.{Error, failure, Session}
use go_yandex_gophkeeper.Server.World.{Env, Db, World, query}
use go_yandex_gophkeeper.Server.Postgres.Rows.{scan, draw_uuid, has_user}

-- `PRIMARY KEY (id)` and `UNIQUE (refresh_token)`
abbrev pub clashes : Session → Session → Bool
clashes s r = r.id == s.id || str_eq r.refresh_token s.refresh_token

abbrev pub insert_session : Session → Db → Result Error Session × Db
insert_session s d =
    if not (has_user s.user_id d.users) || any (clashes s) d.sessions
    then (err failure, d)
    else (ok s, record d { sessions = s ∷ d.sessions })

-- `sessionRepo.Create`: it has no case for error 23505, so a token that is taken is any error.
unfoldable pub create : ⦃env : Env⦄ → Session → Exec World Error Session
unfolding query
create ⦃env⦄ s w =
    query
      (λ d. insert_session (record s { id = env.uuid d.drawn; created_at = w.now }) (draw_uuid d)) w

-- `sessionRepo.GetByRefreshToken`
unfoldable pub get_by_refresh_token : ⦃env : Env⦄ → String → Exec World Error Session
unfolding query
get_by_refresh_token token =
    query (λ d. (scan (find (λ s. str_eq s.refresh_token token) d.sessions), d))

-- `sessionRepo.SetMFAVerified`
unfoldable pub set_mfa_verified : ⦃env : Env⦄ → ℕ → Exec World Error Unit
unfolding query
set_mfa_verified id = query (λ d. (
  ok tt,
  record d {
    sessions = update_where (λ s. s.id == id) (λ s. record s { mfa_verified = true }) d.sessions;
  },
))

-- `sessionRepo.Delete`; a token that is not there is no error.
unfoldable pub delete : ⦃env : Env⦄ → String → Exec World Error Unit
unfolding query
delete token = query (λ d.
    (ok tt, record d { sessions = filter (λ s. not (str_eq s.refresh_token token)) d.sessions }))

-- `sessionRepo.DeleteExpired`
unfoldable pub delete_expired : ⦃env : Env⦄ → Exec World Error Unit
unfolding query
delete_expired w =
    query
      (λ d. (ok tt, record d { sessions = filter (λ s. not (ltb s.expires_at w.now)) d.sessions }))
      w
