-- ===== src/Server/Logins.antt =====
-- Accounts and sessions: `Register`, `Login`, `Refresh` and `Logout`.
use go_yandex_gophkeeper.Server.Access.{refresh_payload}
use go_yandex_gophkeeper.Server.Middleware.Metadata.{unauthenticated, already_exists, internal}
use go_yandex_gophkeeper.Server.Storage.{User, Session}
use go_yandex_gophkeeper.Server.Service.Auth.{RegisterInput, LoginResult, new_session}
use go_yandex_gophkeeper.Server.Postgres.Rows.{is_null}
use go_yandex_gophkeeper.Server.World.{Env, Context, World}
use go_yandex_gophkeeper.Base.{
  ◌||◌, ◌≡◌, ℕ, String, some, false, any, err, str_eq, find, true, Option-cases, inl, arith, inr,
  filter, List, none, ◌==◌, ◌∷◌, not, [], refl, ◌+◌, ok, ◌⊎◌, Bool-cases,
}
use go_yandex_gophkeeper.Server.Handler.Auth
use go_yandex_gophkeeper.Server.App.{login, logout, refresh, register, handle, Response}

-- A login with a name that nobody has, and one with a wrong password, have the same answer,
-- Unauthenticated, and open no session.
pub login_refused :
    ⦃env : Env⦄ (ctx : Context) (name password : String) (w : World)
    → env.down w.db.queries ≡ false
    → ((u : User)
        → find (λ v. str_eq v.username name) w.db.users ≡ some u
        → env.bcrypt_compare u.password_hash password ≡ false)
    → ((handle (login name password) ctx w).0 ≡ err unauthenticated)
      × ((handle (login name password) ctx w).1.db.sessions ≡ w.db.sessions)
unfolding handle Auth.login
login_refused ctx name password w up wrong =
    elim (Option-cases (find (λ v. str_eq v.username name) w.db.users)) [
      | inl absent ↦ ground arith
      | inr (u, found) ↦ ground (arith, wrong u found)
    ]

find_filtered :
    (token : String) (xs : List Session)
    → find (λ s. str_eq s.refresh_token token) (filter (λ s. not (str_eq s.refresh_token token)) xs)
      ≡ none
find_filtered token [] = refl
find_filtered token (x ∷ xs) = ground (arith, find_filtered token xs)

logout-sessions :
    ⦃env : Env⦄ (ctx : Context) (id : ℕ) (token : String) (w : World)
    → ctx.user_id ≡ some id
    → env.down w.db.queries ≡ false
    → (handle (logout token) ctx w).1.db.sessions
      ≡ filter (λ s. not (str_eq s.refresh_token token)) w.db.sessions
unfolding handle Auth.logout
logout-sessions ctx id token w acting up = ground arith

refresh_absent :
    ⦃env : Env⦄ (ctx : Context) (token : String) (w : World)
    → find (λ s. str_eq s.refresh_token token) w.db.sessions ≡ none
    → (handle (refresh token) ctx w).0 ≡ err unauthenticated
unfolding handle Auth.refresh
refresh_absent ctx token w absent = ground arith

-- After a logout with a refresh token, that token refreshes nothing any more, whoever asks, unless
-- the database failed to carry the logout out.
pub logout_revokes :
    ⦃env : Env⦄ (ctx ctx' : Context) (id : ℕ) (token : String) (w : World)
    → ctx.user_id ≡ some id
    → env.down w.db.queries ≡ false
    → (handle (refresh token) ctx' (handle (logout token) ctx w).1).0 ≡ err unauthenticated
logout_revokes ctx ctx' id token w acting up =
    refresh_absent ctx' token _
      (rw (logout-sessions ctx id token w acting up) (find_filtered token w.db.sessions))

any-clashes :
    (id : ℕ) (name email : String) (users : List User)
    → any (λ v. str_eq v.username name || str_eq v.email email) users ≡ true
    → any (λ v. v.id == id || str_eq v.username name || str_eq v.email email) users ≡ true
any-clashes id name email [] h = cc
any-clashes id name email (u ∷ users) h = ground (arith, any-clashes id name email users)

-- A registration with a vault key, under a username or an email that is taken, answers AlreadyExists,
-- and no account is stored.
pub register_taken :
    ⦃env : Env⦄ (ctx : Context) (r : RegisterInput) (w : World) (hash json : String)
    → env.down w.db.queries ≡ false
    → env.bcrypt_hash w.salts r.password ≡ some hash
    → env.jsonb r.kdf_params_json ≡ some json
    → is_null r.vault_sym_key ≡ false
    → any (λ v. str_eq v.username r.username || str_eq v.email r.email) w.db.users ≡ true
    → ((handle (register r) ctx w).0 ≡ err already_exists)
      × ((handle (register r) ctx w).1.db.users ≡ w.db.users)
unfolding handle Auth.register
register_taken ⦃env⦄ ctx r w hash json up hashed stored sealed taken =
    ground (arith, any-clashes (env.uuid w.db.drawn) r.username r.email w.db.users)

any-session_clashes :
    (id : ℕ) (token : String) (sessions : List Session)
    → any (λ s. str_eq s.refresh_token token) sessions ≡ true
    → any (λ s. s.id == id || str_eq s.refresh_token token) sessions ≡ true
any-session_clashes id token [] h = cc
any-session_clashes id token (s ∷ sessions) h =
    ground (arith, any-session_clashes id token sessions)

-- Where the name and the password are right but the refresh token is already in use, as it is in the
-- second in which its user has logged in before, the login answers Internal and opens no session.
pub login_twice :
    ⦃env : Env⦄ (ctx : Context) (name password token : String) (u : User) (w : World)
    → env.down w.db.queries ≡ false
    → find (λ v. str_eq v.username name) w.db.users ≡ some u
    → env.bcrypt_compare u.password_hash password ≡ true
    → env.jwt_sign env.jwt.secret (refresh_payload u.id w.now) ≡ some token
    → any (λ s. str_eq s.refresh_token token) w.db.sessions ≡ true
    → ((handle (login name password) ctx w).0 ≡ err internal)
      × ((handle (login name password) ctx w).1.db.sessions ≡ w.db.sessions)
unfolding handle Auth.login
login_twice ⦃env⦄ ctx name password token u w up found right signed used =
    ground (arith, any-session_clashes (env.uuid w.db.drawn) token w.db.sessions)

-- A login that succeeds stores a session of the user that has the name, whose password it was given:
-- the session has the refresh token of the answer, lasts 30 days, and counts as verified if and only
-- if the account asks for no MFA; where it asks for MFA the answer has no access token.
pub login_accepted :
    ⦃env : Env⦄ (ctx : Context) (name password : String) (w : World) (r : LoginResult)
    → (handle (login name password) ctx w).0 ≡ ok (Response.session r)
    → (u : User) × (s : Session) × (find (λ v. str_eq v.username name) w.db.users ≡ some u)
      × (env.bcrypt_compare u.password_hash password ≡ true)
      × ((handle (login name password) ctx w).1.db.sessions ≡ s ∷ w.db.sessions)
      × (s.user_id ≡ u.id)
      × (s.id ≡ r.session_id)
      × (s.refresh_token ≡ r.refresh_token)
      × (s.expires_at ≡ w.now + 2592000)
      × (s.mfa_verified ≡ not u.mfa_required)
      × (r.needs_mfa ≡ u.mfa_required)
      × ((u.mfa_required ≡ false) ⊎ (r.access_token ≡ ""))
unfolding handle Auth.login
login_accepted ⦃env⦄ ctx name password w r e =
    elim (Option-cases (find (λ v. str_eq v.username name) w.db.users)) [
      | inl absent ↦ absurd (ground arith)
      | inr (u, found) ↦
          elim (Option-cases (env.jwt_sign env.jwt.secret (refresh_payload u.id w.now))) [
            | inl unsigned ↦ absurd (ground arith)
            | inr (token, signed) ↦ (
              u,
              record (new_session u.id token w.now (not u.mfa_required)) {
                id = env.uuid w.db.drawn;
                created_at = w.now;
              },
              found,
              ground arith,
              ground arith,
              refl,
              ground arith,
              ground arith,
              refl,
              refl,
              ground arith,
              elim (Bool-cases u.mfa_required) [
                | inl asks ↦ inr (ground arith)
                | inr free ↦ inl free
              ],
            )
          ]
    ]
