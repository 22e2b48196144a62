-- ===== src/Server/Access.antt =====
-- Who gets past the interceptors: the checks of a token and the public methods.
use go_yandex_gophkeeper.Server.Storage.{token_expired, Session}
use go_yandex_gophkeeper.Server.Middleware.Auth.{
  is_public, from_header, extract_and_validate, with_user_id,
}
use go_yandex_gophkeeper.Server.Jwt.{issue_access_token, parse_access_token, issue_refresh_token}
use go_yandex_gophkeeper.Base.{
  ℕ, String, err, ◌≡◌, refl, arith, Bool, ◌≤◌, ◌<◌, ◌+◌, ◌∷◌, some, [], ok, none, if◌then◌else◌,
  ltb, List, false, ◌⊎◌, ◌∙◌, find, inl, inr, ◌>>=◌, str_eq, bind-err, bind-ok, Option, Bool-cases,
}
use go_yandex_gophkeeper.Server.Middleware.RateLimit.{calls, client_ip}
use go_yandex_gophkeeper.Server.World.{
  Env, World, Payload, Context, valid, expired, Parsed, malformed,
}
use go_yandex_gophkeeper.Server.Middleware.Metadata.{
  unauthenticated, trim_prefix, metadata_values, resource_exhausted,
}
use go_yandex_gophkeeper.Server.Handler.Auth
use go_yandex_gophkeeper.Client.Grpc.{bearer}
use go_yandex_gophkeeper.Server.App.{
  from_wire, serve, handle, Rpc, full_method, logout, register, login, refresh, verify_mfa,
  Response,
}

trim_prefix-bearer : (t : String) → trim_prefix "Bearer " (bearer t) ≡ t
unfolding trim_prefix
trim_prefix-bearer t = refl

-- What golang-jwt documents of a token that it has signed with HS256: it is read back until its
-- expiry, and is refused as expired from then on.
pub record TokenLaws (env : Env) : Type 0 where
  pub valid_until :
      (secret token : String) (now : ℕ) (p : Payload)
      → env.jwt_sign secret p ≡ some token
      → now < p.expires_at
      → env.jwt_parse secret now token ≡ valid p
  pub expires :
      (secret token : String) (now : ℕ) (p : Payload)
      → env.jwt_sign secret p ≡ some token
      → p.expires_at ≤ now
      → env.jwt_parse secret now token ≡ expired

-- A request that carries one token, as the client sends it.
abbrev pub carrying : String → Context
carrying token = from_wire (some (("authorization", bearer token ∷ []) ∷ [])) none

abbrev pub access_payload : ⦃env : Env⦄ → ℕ → Bool → ℕ → Payload
access_payload ⦃env⦄ id mfa now = record {
  subject = id;
  issued_at = now;
  expires_at = now + env.jwt.access_ttl;
  mfa = mfa;
}

abbrev pub refresh_payload : ⦃env : Env⦄ → ℕ → ℕ → Payload
refresh_payload ⦃env⦄ id now = record {
  subject = id;
  issued_at = now;
  expires_at = now + env.jwt.refresh_ttl;
  mfa = false;
}

Parsed-cases : (r : Parsed) → ((r ≡ expired) ⊎ (r ≡ malformed)) ⊎ ((p : Payload) × (r ≡ valid p))
Parsed-cases (valid p) = inr (p, refl)
Parsed-cases expired = inl (inl refl)
Parsed-cases malformed = inl (inr refl)

module _ ⦃env : Env⦄ (laws : TokenLaws env) (id : ℕ) (w w' : World) {token : String} where
  -- An access token that was issued in `w` is read in `w'` with the claims that it was issued for,
  -- as long as the clock is before its expiry, and is an expired token from then on.
  pub parse-issue_access_token :
      (mfa : Bool)
      → (issue_access_token id mfa w).0 ≡ ok token
      → (parse_access_token token w').0 ≡ (
          if ltb w'.now (w.now + env.jwt.access_ttl)
          then ok (access_payload id mfa w.now)
          else err token_expired)
  unfolding issue_access_token parse_access_token
  parse-issue_access_token mfa h = ground (
    arith,
    laws.valid_until env.jwt.secret token w'.now (access_payload id mfa w.now),
    laws.expires env.jwt.secret token w'.now (access_payload id mfa w.now),
  )

  -- A request that carries an access token goes on as the user that the token was issued to until
  -- the token expires, whether or not the token says that MFA was verified.
  pub extract_and_validate-access :
      (mfa : Bool)
      → (issue_access_token id mfa w).0 ≡ ok token
      → extract_and_validate (carrying token) w' ≡ (
          if ltb w'.now (w.now + env.jwt.access_ttl)
          then (ok (with_user_id (carrying token) id), w')
          else (err unauthenticated, w'))
  unfolding issue_access_token extract_and_validate
  extract_and_validate-access mfa h = rw trim_prefix-bearer (
      ground (
        arith,
        laws.valid_until env.jwt.secret token w'.now (access_payload id mfa w.now),
        laws.expires env.jwt.secret token w'.now (access_payload id mfa w.now),
      ))

  -- A refresh token is taken for an access token: a request that carries it goes on as its user for
  -- as long as the refresh token lasts, whatever has become of the session.
  pub extract_and_validate-refresh :
      (issue_refresh_token id w).0 ≡ ok token
      → w'.now < w.now + env.jwt.refresh_ttl
      → extract_and_validate (carrying token) w' ≡ (ok (with_user_id (carrying token) id), w')
  unfolding issue_refresh_token extract_and_validate
  extract_and_validate-refresh h live =
      rw trim_prefix-bearer
        (ground (arith, laws.valid_until env.jwt.secret token w'.now (refresh_payload id w.now)))

-- The token that the request carries names the user `id`.
abbrev pub Admits : ⦃env : Env⦄ → Context → ℕ → ℕ → Type 0
Admits ⦃env⦄ ctx now id =
    (header : String) × (rest : List String) × (p : Payload) × (metadata_values ctx "authorization"
      ≡ header ∷ rest)
    × (env.jwt_parse env.jwt.secret now (trim_prefix "Bearer " header) ≡ valid p)
    × (p.subject ≡ id)

from_header-cases :
    ⦃env : Env⦄ (ctx : Context) (w : World) (vs : List String)
    → metadata_values ctx "authorization" ≡ vs
    → (from_header ctx vs w ≡ (err unauthenticated, w))
      ⊎ ((id : ℕ) × Admits ctx w.now id × (from_header ctx vs w ≡ (ok (with_user_id ctx id), w)))
unfolding parse_access_token
from_header-cases ctx w [] e = inl refl
from_header-cases ⦃env⦄ ctx w (v ∷ vs) e =
    elim (Parsed-cases (env.jwt_parse env.jwt.secret w.now (trim_prefix "Bearer " v))) [
      | inl bad ↦ inl (ground arith)
      | inr (p, good) ↦ inr (p.subject, (v, vs, p, e, good, refl), ground arith)
    ]

serve-protected :
    ⦃env : Env⦄ (rpc : Rpc) (ctx : Context) (w : World)
    → is_public (full_method rpc) ≡ false
    → serve rpc ctx w ≡ (extract_and_validate ctx >>= handle rpc) w
unfolding serve
serve-protected (logout t) ctx w h = refl
serve-protected (register r) ctx w h = cc
serve-protected (login n p) ctx w h = cc
serve-protected (refresh t) ctx w h = cc
serve-protected (verify_mfa i c) ctx w h = cc
serve-protected _ ctx w h = refl

-- A method that is not public either answers Unauthenticated and changes nothing, or the request
-- carries a valid token and its handler runs as the user that the token names.
pub serve-protected_cases :
    ⦃env : Env⦄ (rpc : Rpc) (ctx : Context) (w : World)
    → is_public (full_method rpc) ≡ false
    → (serve rpc ctx w ≡ (err unauthenticated, w))
      ⊎ ((id : ℕ) × Admits ctx w.now id × (serve rpc ctx w ≡ handle rpc (with_user_id ctx id) w))
unfolding extract_and_validate
serve-protected_cases rpc ctx w h =
    elim (from_header-cases ctx w (metadata_values ctx "authorization") refl) [
      | inl refused ↦
          inl
            (serve-protected rpc ctx w h ∙ bind-err (extract_and_validate ctx) (handle rpc) refused)
      | inr (id, ok', e) ↦
          inr (
            id,
            ok',
            serve-protected rpc ctx w h ∙ bind-ok (extract_and_validate ctx) (handle rpc) e,
          )
    ]

-- A request to VerifyMFA is always refused, with Unauthenticated or with ResourceExhausted, and the
-- database is not asked: the method is public, so no user is ever set for it.
pub serve-verify_mfa :
    ⦃env : Env⦄ (id : ℕ) (code : String) (md : Option (List (String × List String)))
    (peer : Option String) (w : World)
    → (((serve (verify_mfa id code) (from_wire md peer) w).0 ≡ err unauthenticated)
        ⊎ ((serve (verify_mfa id code) (from_wire md peer) w).0 ≡ err resource_exhausted))
      × ((serve (verify_mfa id code) (from_wire md peer) w).1.db ≡ w.db)
unfolding serve handle Auth.verify_mfa
serve-verify_mfa ⦃env⦄ id code md peer w =
    elim (Bool-cases (env.allow (calls (client_ip (from_wire md peer)) w.limiters) w.now)) [
      | inl allowed ↦ (inl (ground arith), ground arith)
      | inr over ↦ (inr (ground arith), ground arith)
    ]

-- A refresh answers with an access token of the session's user for every session that has not
-- expired, also for one whose MFA was never verified, and that token is then admitted.
pub refresh_admits_unverified :
    ⦃env : Env⦄ (laws : TokenLaws env) (ctx : Context) (w w' : World) (token token' : String)
    (s : Session)
    → env.down w.db.queries ≡ false
    → find (λ r. str_eq r.refresh_token token) w.db.sessions ≡ some s
    → w.now ≤ s.expires_at
    → env.jwt_sign env.jwt.secret (access_payload s.user_id s.mfa_verified w.now) ≡ some token'
    → w'.now < w.now + env.jwt.access_ttl
    → ((handle (refresh token) ctx w).0 ≡ ok (Response.token token'))
      × (extract_and_validate (carrying token') w'
          ≡ (ok (with_user_id (carrying token') s.user_id), w'))
unfolding handle Auth.refresh extract_and_validate
refresh_admits_unverified ⦃env⦄ laws ctx w w' token token' s up found live signed soon = (
  ground arith,
  rw trim_prefix-bearer (
      ground (
        arith,
        laws.valid_until env.jwt.secret token' w'.now
            (access_payload s.user_id s.mfa_verified w.now),
      )),
)
