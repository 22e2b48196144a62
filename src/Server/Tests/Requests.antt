-- ===== src/Server/Tests/Requests.antt =====
-- Examples of requests that are let through and that are not.
use go_yandex_gophkeeper.Server.Middleware.RateLimit.{calls}
use go_yandex_gophkeeper.Server.Jwt.{issue_refresh_token}
use go_yandex_gophkeeper.Server.Middleware.RateLimit.{touch}
use go_yandex_gophkeeper.Server.Wire.{serve-fresh_address}
use go_yandex_gophkeeper.Server.Trail.{audit-serve}
use go_yandex_gophkeeper.Server.Middleware.Metadata.{unauthenticated, resource_exhausted}
use go_yandex_gophkeeper.Server.Access.{
  carrying, refresh_admits_unverified, serve-verify_mfa, extract_and_validate-refresh, Admits,
  serve-protected_cases,
}
use go_yandex_gophkeeper.Base.{
  List, ◌∷◌, ◌≡◌, ◌<◌, ◌⊎◌, ok, [], ℕ, err, String, length, some, refl, ltb, none, true, arith,
}
use go_yandex_gophkeeper.Server.Tests.Demo.{
  demo, demo_world, logged_in, demo-TokenLaws, open_session_of,
}
use go_yandex_gophkeeper.Server.Middleware.Auth.{extract_and_validate, with_user_id}
use go_yandex_gophkeeper.Server.World.{Context}
use go_yandex_gophkeeper.Server.World
use go_yandex_gophkeeper.Server.App.{
  get_item, login, refresh, handle, serve, verify_mfa, from_wire, Response,
}

abbrev E : World.Env
E = demo 900

abbrev carried : Context
carried = carrying "t"

-- An address that has used its burst up, and a header that names another one.
abbrev busy : World.World
busy = record demo_world {
  limiters =
      ("unknown", record { calls = 1 ∷ 1 ∷ 1 ∷ 1 ∷ 1 ∷ 1 ∷ 1 ∷ 1 ∷ 1 ∷ 1 ∷ []; last_seen = 1 })
      ∷ [];
}

abbrev forged : List (String × List String)
forged = ("x-forwarded-for", "9.9.9.9" ∷ []) ∷ []

burst : (past : List ℕ) (now : ℕ) → length past < 10 → ltb (length past) 10 ≡ true
burst past now h = ground arith

serve-protected_cases_example :
    (serve ⦃env = E⦄ (get_item 11) carried demo_world ≡ (err unauthenticated, demo_world))
    ⊎ ((id : ℕ) × Admits ⦃env = E⦄ carried 1000 id
        × (serve ⦃env = E⦄ (get_item 11) carried demo_world
            ≡ handle ⦃env = E⦄ (get_item 11) (with_user_id carried id) demo_world))
serve-protected_cases_example =
    serve-protected_cases ⦃env = E⦄ (get_item 11) carried demo_world refl

serve-verify_mfa_example :
    (((serve ⦃env = E⦄ (verify_mfa 50 "1") carried demo_world).0 ≡ err unauthenticated)
      ⊎ ((serve ⦃env = E⦄ (verify_mfa 50 "1") carried demo_world).0 ≡ err resource_exhausted))
    × ((serve ⦃env = E⦄ (verify_mfa 50 "1") carried demo_world).1.db ≡ demo_world.db)
serve-verify_mfa_example = serve-verify_mfa ⦃env = E⦄ 50 "1" carried.metadata none demo_world

extract_and_validate-refresh_example :
    extract_and_validate ⦃env = E⦄ carried demo_world ≡ (ok (with_user_id carried 1), demo_world)
unfolding issue_refresh_token
extract_and_validate-refresh_example =
    extract_and_validate-refresh ⦃env = E⦄ (demo-TokenLaws 900) 1 demo_world demo_world
      {token = "t"} refl (omega arith)

refresh_admits_unverified_example :
    ((handle ⦃env = E⦄ (refresh "t") carried logged_in).0 ≡ ok (Response.token "t"))
    × (extract_and_validate ⦃env = E⦄ carried logged_in ≡ (ok (with_user_id carried 1), logged_in))
refresh_admits_unverified_example =
    refresh_admits_unverified ⦃env = E⦄ (demo-TokenLaws 900) carried logged_in logged_in "t" "t"
      (open_session_of 1) refl refl (omega arith) refl (omega arith)

audit-serve_example : (serve ⦃env = E⦄ (login "alice" "pw") carried demo_world).1.db.audit ≡ []
audit-serve_example = audit-serve ⦃env = E⦄ (login "alice" "pw") carried demo_world refl refl

serve-fresh_address_example :
    serve ⦃env = E⦄ (login "alice" "pw") (from_wire (some forged) none) busy
    ≡ handle ⦃env = E⦄
        (login "alice" "pw")
        (from_wire (some forged) none)
        (record busy { limiters = touch "9.9.9.9" 1000 busy.limiters })
unfolding calls
serve-fresh_address_example =
    serve-fresh_address ⦃env = E⦄ (login "alice" "pw") forged "9.9.9.9" [] none busy burst refl refl
      refl
