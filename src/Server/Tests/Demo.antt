-- ===== src/Server/Tests/Demo.antt =====
-- A small concrete server: one token, two users, five items.
use mathlib.Core.Path.{subst}
use go_yandex_gophkeeper.Server.Service.Sync.{new_hub}
use go_yandex_gophkeeper.Server.Access.{TokenLaws}
use go_yandex_gophkeeper.Server.Storage.{User, Session, VaultItem}
use go_yandex_gophkeeper.Base.{
  ℕ, ◌&&◌, ◌==◌, if◌then◌else◌, ◌+◌, ◌∷◌, ◌≡◌, Option, Bool, true, [], false, String, some, arith,
  not, none, str_eq, ltb, length, Bool-cases, sym, ◌≤◌, ◌<◌, ◌∙◌, ap, inl, inr,
}
use go_yandex_gophkeeper.Server.World.{
  Env, World, Payload, Context, Parsed, valid, expired, malformed,
}

-- The one payload that the demo signs for each lifetime: of the user 1, issued at 1000.
abbrev is_demo : Payload → ℕ → Bool
is_demo p ttl = p.subject == 1 && p.issued_at == 1000 && p.expires_at == 1000 + ttl && not p.mfa

abbrev pub demo_payload : ℕ → Payload
demo_payload ttl = record { subject = 1; issued_at = 1000; expires_at = 1000 + ttl; mfa = false }

abbrev signed : ℕ → Payload → Option String
signed ttl p = if is_demo p ttl then some "t" else none

abbrev pub parsed : ℕ → ℕ → String → Parsed
parsed ttl now t =
    if str_eq t "t"
    then (if ltb now (1000 + ttl) then valid (demo_payload ttl) else expired)
    else malformed

-- The access and the refresh token of the demo last `ttl` seconds.
abbrev pub demo : ℕ → Env
demo ttl = record {
  down = λ n. false;
  breaks = λ n. none;
  uuid = λ n. 100 + n;
  inet = λ s. false;
  jsonb = λ s. some s;
  bcrypt_hash = λ n p. some p;
  bcrypt_compare = λ h p. str_eq h p;
  totp_generate = λ n issuer name. some ("secret", "url");
  totp_validate = λ secret code now. some (str_eq secret code);
  jwt_sign = λ secret p. signed ttl p;
  jwt_parse = λ secret now t. parsed ttl now t;
  allow = λ past now. ltb (length past) 10;
  jwt = record { secret = "secret"; access_ttl = ttl; refresh_ttl = ttl };
  issuer = "demo";
}

is_demo-payload : (ttl : ℕ) (p : Payload) → is_demo p ttl ≡ true → p ≡ demo_payload ttl
is_demo-payload ttl p h = ground arith

signed-eq-some :
    (ttl : ℕ) (p : Payload) (token : String)
    → signed ttl p ≡ some token
    → (p ≡ demo_payload ttl) × (token ≡ "t")
signed-eq-some ttl p token h = elim (Bool-cases (is_demo p ttl)) [
  | inl e ↦ (is_demo-payload ttl p e, cc)
  | inr e ↦ absurd (cc)
]

parsed_live : (ttl now : ℕ) → now < 1000 + ttl → parsed ttl now "t" ≡ valid (demo_payload ttl)
parsed_live ttl now h = ground arith

parsed_over : (ttl now : ℕ) → 1000 + ttl ≤ now → parsed ttl now "t" ≡ expired
parsed_over ttl now h = ground arith

pub parsed-subject :
    (ttl now : ℕ) (t : String) (p : Payload) → parsed ttl now t ≡ valid p → p.subject ≡ 1
parsed-subject ttl now t p h = ground arith

pub demo-TokenLaws : (ttl : ℕ) → TokenLaws (demo ttl)
demo-TokenLaws ttl = record {
  valid_until = λ secret token now p s live.
      let (ep, et) = signed-eq-some ttl p token s in
      subst (λ t. parsed ttl now t ≡ valid p) (sym et)
        (parsed_live ttl now (subst (λ q. now < q.expires_at) ep live) ∙ ap valid (sym ep));
  expires = λ secret token now p s over.
      let (ep, et) = signed-eq-some ttl p token s in
      subst (λ t. parsed ttl now t ≡ expired) (sym et)
        (parsed_over ttl now (subst (λ q. q.expires_at ≤ now) ep over));
}

abbrev pub alice : User
alice = record {
  id = 1;
  username = "alice";
  email = "a@x";
  password_hash = "pw";
  vault_sym_key = 7 ∷ [];
  kdf_params = "{}";
  mfa_required = false;
  created_at = 0;
}

abbrev pub item_at : ℕ → ℕ → VaultItem
item_at id user = record {
  id = id;
  user_id = user;
  type = "text";
  payload = id ∷ [];
  metadata = "m";
  version = 1;
  created_at = 5;
  updated_at = 5;
}

abbrev pub open_session_of : ℕ → Session
open_session_of user = record {
  id = 50;
  user_id = user;
  refresh_token = "t";
  expires_at = 5000;
  mfa_verified = false;
  created_at = 1000;
}

abbrev pub demo_world : World
demo_world = record {
  db = record {
    users = alice ∷ [];
    sessions = [];
    items = item_at 11 1 ∷ item_at 12 1 ∷ item_at 13 2 ∷ [];
    totps = [];
    credentials = [];
    ceremonies = [];
    audit = [];
    queries = 0;
    drawn = 0;
  };
  hub = new_hub;
  limiters = [];
  now = 1000;
  salts = 0;
}

-- The demo once Alice has logged in.
abbrev pub logged_in : World
logged_in = record demo_world { db = record demo_world.db { sessions = open_session_of 1 ∷ [] } }

-- A context in which the interceptor has set a user.
abbrev pub acting_as : ℕ → Context
acting_as id = record { metadata = none; peer = none; user_id = some id }
