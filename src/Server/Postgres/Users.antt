-- ===== src/Server/Postgres/Users.antt =====
-- internal/server/storage/postgres/users.go, with the constraints of 00001_init.sql.
use go_yandex_gophkeeper.Base.{
  ℕ, String, Bool, false, ◌||◌, ◌∷◌, Option, none, some, Result, ok, err, Exec, ◌==◌, str_eq,
  if◌then◌else◌, find, any, update_where,
}
use go_yandex_gophkeeper.Server.Storage.{Error, conflict, failure, User}
use go_yandex_gophkeeper.Server.World.{Env, Db, World, query}
use go_yandex_gophkeeper.Server.Postgres.Rows.{scan, draw_uuid, is_null}

-- `PRIMARY KEY (id)`, `UNIQUE (username)` and `UNIQUE (email)`: error 23505.
abbrev pub clashes : User → User → Bool
clashes u v = v.id == u.id || str_eq v.username u.username || str_eq v.email u.email

-- The INSERT of `userRepo.Create`; `row` is stored, and `u` goes back to the caller.
abbrev insert_user : User → User → Db → Result Error User × Db
insert_user row u d =
    if any (clashes row) d.users
    then (err conflict, d)
    else (ok u, record d { users = row ∷ d.users })

abbrev insert_with : ℕ → ℕ → User → Option String → Db → Result Error User × Db
insert_with id now u none d = (err failure, d)
insert_with id now u (some json) d =
    let u' = record u { id = id; created_at = now } in
    if is_null u.vault_sym_key
    then (err failure, d)
    else insert_user (record u' { kdf_params = json; mfa_required = false }) u' d

-- `userRepo.Create`
unfoldable pub create : ⦃env : Env⦄ → User → Exec World Error User
unfolding query
create ⦃env⦄ u w =
    query (λ d. insert_with (env.uuid d.drawn) w.now u (env.jsonb u.kdf_params) (draw_uuid d)) w

-- `userRepo.GetByUsername`
unfoldable pub get_by_username : ⦃env : Env⦄ → String → Exec World Error User
unfolding query
get_by_username username = query (λ d. (scan (find (λ u. str_eq u.username username) d.users), d))

-- `userRepo.GetByID`
unfoldable pub get_by_id : ⦃env : Env⦄ → ℕ → Exec World Error User
unfolding query
get_by_id id = query (λ d. (scan (find (λ u. u.id == id) d.users), d))

-- `userRepo.SetMFARequired`; a row that is not there is no error.
unfoldable pub set_mfa_required : ⦃env : Env⦄ → ℕ → Bool → Exec World Error Unit
unfolding query
set_mfa_required id required = query (λ d. (
  ok tt,
  record d {
    users = update_where (λ u. u.id == id) (λ u. record u { mfa_required = required }) d.users;
  },
))
