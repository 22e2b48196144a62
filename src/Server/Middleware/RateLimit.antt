-- ===== src/Server/Middleware/RateLimit.antt =====
-- internal/server/middleware/ratelimit.go, with the limiters of golang.org/x/time by their calls.
use go_yandex_gophkeeper.Base.{
  ℕ, ◌-◌, String, Bool, not, List, [], ◌∷◌, Option, none, some, err, Exec, ltb, str_eq,
  if◌then◌else◌, any, find, filter,
}
use go_yandex_gophkeeper.Server.World.{Env, World, Context, IpLimiter}
use go_yandex_gophkeeper.Server.Middleware.Metadata.{Code, resource_exhausted, metadata_values}

-- `rateLimitedMethods`
abbrev pub rate_limited_methods : List String
rate_limited_methods =
    "/auth.AuthService/Register" ∷ "/auth.AuthService/Login" ∷ "/auth.AuthService/VerifyMFA" ∷ []

abbrev pub is_rate_limited : String → Bool
is_rate_limited method = any (λ m. str_eq m method) rate_limited_methods

abbrev peer_or_unknown : Option String → String
peer_or_unknown none = "unknown"
peer_or_unknown (some addr) = addr

abbrev forwarded_or_peer : List String → Option String → String
forwarded_or_peer [] peer = peer_or_unknown peer
forwarded_or_peer (v ∷ _) peer = v

-- `peerIP`: the first `x-forwarded-for`, then the peer's address.
unfoldable pub client_ip : Context → String
client_ip ctx = forwarded_or_peer (metadata_values ctx "x-forwarded-for") ctx.peer

abbrev pub Limiters : Type 0
Limiters = List (String × IpLimiter)

abbrev calls_of : Option (String × IpLimiter) → List ℕ
calls_of none = []
calls_of (some (_, l)) = l.calls

-- The calls of the limiter that `getLimiter` finds, or makes.
unfoldable pub calls : String → Limiters → List ℕ
calls ip limiters = calls_of (find (λ e. str_eq e.0 ip) limiters)

-- `getLimiter(ip).Allow()` at time `now`: the entry is made or found, and has seen one more call.
unfoldable pub touch : String → ℕ → Limiters → Limiters
unfolding calls
touch ip now limiters =
    (ip, record { calls = now ∷ calls ip limiters; last_seen = now })
    ∷ filter (λ e. not (str_eq e.0 ip)) limiters

-- `RateLimiter.UnaryInterceptor`
unfoldable pub rate_limit_interceptor :
    ⦃env : Env⦄
    → {A : Type 0} → String
    → (Context → Exec World Code A)
    → Context
    → Exec World Code A
unfolding client_ip calls touch
rate_limit_interceptor ⦃env⦄ method handler ctx w =
    if is_rate_limited method
    then (let ip = client_ip ctx in
        let w' = record w { limiters = touch ip w.now w.limiters } in
        if env.allow (calls ip w.limiters) w.now
        then handler ctx w'
        else (err resource_exhausted, w'))
    else handler ctx w

-- `5 * time.Minute`
abbrev pub stale_after : ℕ
stale_after = 300

-- One tick of `cleanup`.
unfoldable pub cleanup : World → World
cleanup w = record w {
  limiters = filter (λ e. not (ltb stale_after (w.now - e.1.last_seen))) w.limiters;
}
