-- ===== src/Server/Preserve/Requests.antt =====
-- Every handler, and every request through the interceptors, keeps what the services keep.
use go_yandex_gophkeeper.Server.Middleware.RateLimit.{
  rate_limit_interceptor, is_rate_limited, touch, client_ip, calls,
}
use go_yandex_gophkeeper.Server.Access.{Admits, serve-protected_cases}
use go_yandex_gophkeeper.Server.Middleware.Auth.{is_public, with_user_id}
use go_yandex_gophkeeper.Server.Middleware.Metadata.{Code}
use go_yandex_gophkeeper.Server.Storage.{Error, VaultItem}
use mathlib.Core.Path.{subst}
use mathlib.Core.Option.{some-injective}
use go_yandex_gophkeeper.Base.{
  refl, none, inl, inr, ℕ, ◌≡◌, Result, Option, String, Exec, List, ok, some, err, Bool-cases, true,
  ◌∷◌, [],
}
use go_yandex_gophkeeper.Base.Keeps.{Keeps, keeps_rules}
use go_yandex_gophkeeper.Server.Preserve.Laws.{Preserved}
use go_yandex_gophkeeper.Server.Preserve.Services
use go_yandex_gophkeeper.Server.Handler.Auth
use go_yandex_gophkeeper.Server.Handler.Vault
use go_yandex_gophkeeper.Server.World.{Env, World, Context}
use go_yandex_gophkeeper.Server.App.{
  Rpc, Response, register, login, refresh, logout, enroll_totp, confirm_totp, verify_mfa,
  create_item, get_item, update_item, delete_item, list_items, handle, serve, full_method, Arrival,
  run,
}

module _ {P : World → Type 0} where
  with_user-Keeps :
      {A : Type 0} (ctx : Context) (k : ℕ → Exec World Code A)
      → ((id : ℕ) → ctx.user_id ≡ some id → Keeps P (k id))
      → Keeps P (Auth.with_user ctx k)
  with_user-Keeps ctx k h = go ctx.user_id refl
    where
      go :
          (o : Option ℕ) → ctx.user_id ≡ o → Keeps P (Auth.with_user (record ctx { user_id = o }) k)
      go none e = record { at = λ w p. p }
      go (some id) e = record { at = λ w p. (h id e).at w p }

  respond-Keeps : {A : Type 0} (f : Error → Code) (r : Result Error A) → Keeps P (Auth.respond f r)
  respond-Keeps f (ok a) = record { at = λ w h. h }
  respond-Keeps f (err e) = record { at = λ w h. h }

  confirmation-Keeps : (r : Result Error Unit) → Keeps P (Auth.confirmation r)
  confirmation-Keeps (ok a) = record { at = λ w h. h }
  confirmation-Keeps (err e) = record { at = λ w h. h }

  as_proto-Keeps : (f : Error → Code) (r : Result Error VaultItem) → Keeps P (Vault.as_proto f r)
  as_proto-Keeps f (ok a) = record { at = λ w h. h }
  as_proto-Keeps f (err e) = record { at = λ w h. h }

  as_page-Keeps : (r : Result Error (List VaultItem × Option ℕ)) → Keeps P (Vault.as_page r)
  as_page-Keeps (ok a) = record { at = λ w h. h }
  as_page-Keeps (err e) = record { at = λ w h. h }

ruleset handler_rules =
    (keeps_rules, with_user-Keeps, respond-Keeps, confirmation-Keeps, as_proto-Keeps, as_page-Keeps)

module _ ⦃env : Env⦄ {P : World → Type 0} {peer : Option String} {Acts : ℕ → Type 0}
    (p : Preserved P peer Acts) (ctx : Context) (same : ctx.peer ≡ peer)
    (acting : (id : ℕ) → ctx.user_id ≡ some id → Acts id) where
  -- A handler keeps what its storage calls keep, where the user of its context may act.
  pub handle-Keeps : (rpc : Rpc) → Keeps P (handle rpc ctx)
  unfolding handle Auth.register Auth.login Auth.refresh Auth.logout Auth.enroll_totp
      Auth.confirm_totp Auth.verify_mfa Vault.create_item Vault.get_item Vault.update_item
      Vault.delete_item Vault.list_items
  handle-Keeps (register r) =
      search (handler_rules, Services.register_user-Keeps p ctx same) depth 14
  handle-Keeps (login n q) = search (handler_rules, Services.login-Keeps p ctx same) depth 14
  handle-Keeps (refresh t) = search (handler_rules, Services.refresh-Keeps p ctx same) depth 14
  handle-Keeps (logout t) = search (handler_rules, Services.logout-Keeps p ctx same) depth 14
  handle-Keeps (enroll_totp l) =
      search (handler_rules, Services.enroll_totp-Keeps p ctx same) depth 14
  handle-Keeps (confirm_totp i c) =
      search (handler_rules, Services.confirm_totp-Keeps p ctx same) depth 14
  handle-Keeps (verify_mfa i c) =
      search (handler_rules, Services.verify_totp-Keeps p ctx same) depth 14
  handle-Keeps (create_item t y m) =
      search (handler_rules, acting, Services.create-Keeps p ctx same) depth 14
  handle-Keeps (get_item i) = search (handler_rules, Services.get-Keeps p ctx same) depth 14
  handle-Keeps (update_item i y m) =
      search (handler_rules, acting, Services.update-Keeps p ctx same) depth 14
  handle-Keeps (delete_item i) =
      search (handler_rules, acting, Services.delete-Keeps p ctx same) depth 14
  handle-Keeps (list_items t l c) = search (handler_rules, Services.list-Keeps p ctx same) depth 14

serve-public :
    ⦃env : Env⦄ (rpc : Rpc) (ctx : Context)
    → is_public (full_method rpc) ≡ true
    → serve rpc ctx ≡ rate_limit_interceptor (full_method rpc) (handle rpc) ctx
unfolding serve
serve-public (login n q) ctx h = refl
serve-public (register r) ctx h = refl
serve-public (refresh t) ctx h = refl
serve-public (verify_mfa i c) ctx h = refl
serve-public _ ctx h = cc

some-injective_Acts : (Acts : ℕ → Type 0) (i j : ℕ) → Acts i → some i ≡ some j → Acts j
some-injective_Acts Acts i j a e = subst Acts (some-injective i j e) a

module _ ⦃env : Env⦄ {P : World → Type 0} {Acts : ℕ → Type 0} (ctx : Context)
    (p : Preserved P ctx.peer Acts) (wire : ctx.user_id ≡ none) where
  rate_limit-Keeps :
      (method : String) (h : Context → Exec World Code Response)
      → Keeps P (h ctx)
      → Keeps P (rate_limit_interceptor method h ctx)
  unfolding rate_limit_interceptor
  rate_limit-Keeps method h k = record {
    at = λ w i. elim (Bool-cases (is_rate_limited method)) [
      | inr free ↦ rw free (k.at w i)
      | inl limited ↦
          let l = touch (client_ip ctx) w.now w.limiters in
          elim (Bool-cases (env.allow (calls (client_ip ctx) w.limiters) w.now)) [
            | inl yes' ↦ rw (limited, yes') (k.at (record w { limiters = l }) (p.of_limiters w l i))
            | inr no' ↦ rw (limited, no') (p.of_limiters w l i)
          ]
    ];
  }

  -- A request from `ctx` keeps `P`, where the users that its token may name are ones that act.
  pub serve-Keeps :
      (rpc : Rpc) (w : World)
      → ((id : ℕ) → Admits ctx w.now id → Acts id)
      → P w
      → P (serve rpc ctx w).1
  serve-Keeps rpc w acting h = elim (Bool-cases (is_public (full_method rpc))) [
    | inl open' ↦ rw (serve-public rpc ctx open') (
        (rate_limit-Keeps (full_method rpc) (handle rpc)
            (handle-Keeps p ctx refl (λ id e. cc) rpc)).at
          w h)
    | inr closed' ↦ elim (serve-protected_cases rpc ctx w closed') [
      | inl refused ↦ rw refused h
      | inr (id, admits, e) ↦ rw e (
          (handle-Keeps p (with_user_id ctx id) refl
              (λ j eq. some-injective_Acts Acts id j (acting id admits) eq) rpc).at
            w h)
    ]
  ]

-- Every request of a sequence comes over the wire, and its token names only users that act.
abbrev pub AllActing : ⦃env : Env⦄ → (ℕ → Type 0) → List Arrival → Type 0
AllActing Acts [] = Unit
AllActing Acts ((rpc, ctx, now) ∷ rest) =
    ((ctx.user_id ≡ none) × ((id : ℕ) → Admits ctx now id → Acts id)) × AllActing Acts rest

-- A sequence of requests keeps what each of them keeps, whatever the clock does in between.
pub run-Keeps :
    ⦃env : Env⦄ {P : World → Type 0} {Acts : ℕ → Type 0}
    → ((peer : Option String) → Preserved P peer Acts)
    → ((w : World) (now : ℕ) → P w → P (record w { now = now }))
    → (arrivals : List Arrival) (w : World) → AllActing Acts arrivals
    → P w
    → P (run arrivals w)
unfolding run
run-Keeps p tick [] w all h = h
run-Keeps p tick ((rpc, ctx, now) ∷ rest) w all h =
    run-Keeps p tick rest (serve rpc ctx (record w { now = now })).1 all.1
      (serve-Keeps ctx (p ctx.peer) all.0.0 rpc (record w { now = now }) all.0.1 (tick w now h))
