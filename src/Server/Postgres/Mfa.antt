-- ===== src/Server/Postgres/Mfa.antt =====
-- internal/server/storage/postgres/mfa.go, with the constraints of 00004_mfa.sql.
use go_yandex_gophkeeper.Base.{
  ℕ, ◌+◌, String, true, false, not, ◌&&◌, ◌||◌, List, ◌∷◌, Option, none, some, Result, ok, err,
  Exec, ltb, ◌==◌, if◌then◌else◌, find, any, filter, update_where, same_bytes,
}
use go_yandex_gophkeeper.Server.Storage.{
  Error, not_found, failure, TotpRecord, WebAuthnCredential, WebAuthnSession,
}
use go_yandex_gophkeeper.Server.World.{Env, Db, World, query}
use go_yandex_gophkeeper.Server.Postgres.Rows.{scan, draw_uuid, has_user, is_null, read_rows}

abbrev insert_totp : TotpRecord → Db → Result Error TotpRecord × Db
insert_totp r d =
    if not (has_user r.user_id d.users) || any (λ q. q.id == r.id) d.totps
    then (err failure, d)
    else (ok r, record d { totps = record r { confirmed = false } ∷ d.totps })

-- `mfaRepo.CreateTOTP`; the column `confirmed` has its default, FALSE.
unfoldable pub create_totp : ⦃env : Env⦄ → TotpRecord → Exec World Error TotpRecord
unfolding query
create_totp ⦃env⦄ r w =
    query (λ d. insert_totp (record r { id = env.uuid d.drawn; created_at = w.now }) (draw_uuid d))
      w

-- `mfaRepo.GetTOTPByID`
unfoldable pub get_totp_by_id : ⦃env : Env⦄ → ℕ → ℕ → Exec World Error TotpRecord
unfolding query
get_totp_by_id id user_id =
    query (λ d. (scan (find (λ r. r.id == id && r.user_id == user_id) d.totps), d))

-- `mfaRepo.ConfirmTOTP`
unfoldable pub confirm_totp : ⦃env : Env⦄ → ℕ → Exec World Error Unit
unfolding query
confirm_totp id = query (λ d. (
  ok tt,
  record d { totps = update_where (λ r. r.id == id) (λ r. record r { confirmed = true }) d.totps },
))

-- `mfaRepo.ListTOTP`
unfoldable pub list_totp : ⦃env : Env⦄ → ℕ → Exec World Error (List TotpRecord)
unfolding query
list_totp ⦃env⦄ user_id w =
    query
      (λ d. (
        ok (
            read_rows (env.breaks w.db.queries)
              (filter (λ r. r.user_id == user_id && r.confirmed) d.totps)),
        d,
      ))
      w

abbrev insert_credential : WebAuthnCredential → Db → Result Error Unit × Db
insert_credential c d =
    if is_null c.credential_id
      || is_null c.public_key
      || not (has_user c.user_id d.users)
      || any (λ q. q.id == c.id || same_bytes q.credential_id c.credential_id) d.credentials
    then (err failure, d)
    else (ok tt, record d { credentials = c ∷ d.credentials })

-- `mfaRepo.CreateWebAuthnCredential`
unfoldable pub create_webauthn_credential : ⦃env : Env⦄ → WebAuthnCredential → Exec World Error Unit
unfolding query
create_webauthn_credential ⦃env⦄ c w =
    query
      (λ d.
        insert_credential (record c { id = env.uuid d.drawn; created_at = w.now }) (draw_uuid d))
      w

-- `mfaRepo.GetWebAuthnCredentials`
unfoldable pub get_webauthn_credentials :
    ⦃env : Env⦄ → ℕ → Exec World Error (List WebAuthnCredential)
unfolding query
get_webauthn_credentials ⦃env⦄ user_id w =
    query
      (λ d. (
        ok (read_rows (env.breaks w.db.queries) (filter (λ c. c.user_id == user_id) d.credentials)),
        d,
      ))
      w

-- `mfaRepo.UpdateWebAuthnSignCount`
unfoldable pub update_webauthn_sign_count : ⦃env : Env⦄ → List ℕ → ℕ → Exec World Error Unit
unfolding query
update_webauthn_sign_count cred_id sign_count = query (λ d. (
  ok tt,
  record d {
    credentials =
        update_where (λ c. same_bytes c.credential_id cred_id)
          (λ c. record c { sign_count = sign_count }) d.credentials;
  },
))

-- The column default `now() + interval '5 minutes'`.
abbrev pub ceremony_ttl : ℕ
ceremony_ttl = 300

abbrev insert_ceremony : ℕ → ℕ → ℕ → Option String → Db → Result Error ℕ × Db
insert_ceremony id user_id now none d = (err failure, d)
insert_ceremony id user_id now (some json) d =
    if not (has_user user_id d.users) || any (λ q. q.id == id) d.ceremonies
    then (err failure, d)
    else (
      ok id,
      record d {
        ceremonies =
            record { id = id; user_id = user_id; content = json; expires_at = now + ceremony_ttl }
            ∷ d.ceremonies;
      },
    )

-- `mfaRepo.SaveWebAuthnSession`
unfoldable pub save_webauthn_session : ⦃env : Env⦄ → ℕ → String → Exec World Error ℕ
unfolding query
save_webauthn_session ⦃env⦄ user_id content w =
    query (λ d. insert_ceremony (env.uuid d.drawn) user_id w.now (env.jsonb content) (draw_uuid d))
      w

abbrev content_of : Option WebAuthnSession → Result Error String
content_of none = err not_found
content_of (some s) = ok s.content

-- `mfaRepo.GetWebAuthnSession`
unfoldable pub get_webauthn_session : ⦃env : Env⦄ → ℕ → Exec World Error String
unfolding query
get_webauthn_session id w =
    query (λ d. (content_of (find (λ s. s.id == id && ltb w.now s.expires_at) d.ceremonies), d)) w

-- `mfaRepo.DeleteWebAuthnSession`
unfoldable pub delete_webauthn_session : ⦃env : Env⦄ → ℕ → Exec World Error Unit
unfolding query
delete_webauthn_session id =
    query (λ d. (ok tt, record d { ceremonies = filter (λ s. not (s.id == id)) d.ceremonies }))
