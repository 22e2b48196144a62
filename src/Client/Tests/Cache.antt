-- ===== src/Client/Tests/Cache.antt =====
-- Examples of the copy of the items that is kept for offline use.
use go_yandex_gophkeeper.Base.{
  String, Bool, true, false, ◌≡◌, ◌&&◌, refl, arith, inl, inr, none, some, List, [], ◌∷◌, ℕ, Option,
  if◌then◌else◌, str_eq, eq_iff, Bool-cases, ap, map, sym, ◌∙◌,
}
use go_yandex_gophkeeper.Server.Handler.Vault.{
  ItemType, unspecified, credential, text, binary, card, otp,
}
use go_yandex_gophkeeper.Client.Config.{Config}
use go_yandex_gophkeeper.Client.Tests.{plain_crypto, plain_crypto-PrimitiveLaws}
use go_yandex_gophkeeper.Client.Tui.Items.{VaultItem, same_type}
use go_yandex_gophkeeper.Client.LocalCache.{CacheCodec, CacheDisk, Envelope, cache_key}
use go_yandex_gophkeeper.Client.LocalCache
use go_yandex_gophkeeper.Client.LocalCache.RoundTrip.{CodecLaws}
use go_yandex_gophkeeper.Client.Tui.App.Cmd.{loaded, offline_loaded}
use go_yandex_gophkeeper.Client.Tui.Load.{load_items, ListRequest}
use go_yandex_gophkeeper.Client.Tui.Load.Cached.{offline_again}

abbrev settings : Config
settings = record {
  server_addr = "localhost:50051";
  tls_cert_path = "";
  access_token = "a";
  refresh_token = "r";
  vault_path = "vault.gkdb";
  keyfile_path = "";
  username = "ann";
}

-- A codec for the logins of one name, which differ in their version.
abbrev login_at : ℕ → VaultItem
login_at n = record {
  id = "a";
  user_id = "1";
  type = credential;
  payload = [];
  metadata = "m";
  version = n;
}

abbrev no_bytes : List ℕ → Bool
no_bytes [] = true
no_bytes (b ∷ bs) = false

abbrev is_login : VaultItem → Bool
is_login i =
    str_eq i.id "a"
    && str_eq i.user_id "1"
    && same_type i.type credential
    && no_bytes i.payload
    && str_eq i.metadata "m"

abbrev first_version : List ℕ → Option VaultItem
first_version [] = none
first_version (n ∷ ns) = some (login_at n)

abbrev put_first : ℕ → Option (List ℕ) → Option (List ℕ)
put_first n none = none
put_first n (some r) = some (n ∷ r)

abbrev joined : List (List ℕ) → Option (List ℕ)
joined [] = some []
joined ((n ∷ []) ∷ bs) = put_first n (joined bs)
joined (b ∷ bs) = none

abbrev split : List ℕ → List (List ℕ)
split [] = []
split (n ∷ ns) = (n ∷ []) ∷ split ns

abbrev envelope : List ℕ → Option Envelope
envelope (v ∷ t ∷ c) = some (record { version = v; updated_at = t; content = c })
envelope b = none

abbrev codec : CacheCodec
codec = record {
  item_out = λ i. if is_login i then some (i.version ∷ []) else none;
  item_in = first_version;
  array_out = joined;
  array_in = λ b. some (split b);
  envelope_out = λ e. some (e.version ∷ e.updated_at ∷ e.content);
  envelope_in = envelope;
}

same_login : (t : ItemType) → same_type t credential ≡ true → credential ≡ t
same_login unspecified h = absurd (cc)
same_login credential h = refl
same_login text h = absurd (cc)
same_login binary h = absurd (cc)
same_login card h = absurd (cc)
same_login otp h = absurd (cc)

no_bytes-nil : (b : List ℕ) → no_bytes b ≡ true → [] ≡ b
no_bytes-nil [] h = refl
no_bytes-nil (n ∷ ns) h = absurd (cc)

item_back : (i : VaultItem) (b : List ℕ) → codec.item_out i ≡ some b → first_version b ≡ some i
item_back i b h = elim (Bool-cases (is_login i)) [
  | inr e ↦ absurd (ground arith)
  | inl e ↦
      let at : b ≡ i.version ∷ [] = ground arith in
      let id : i.id ≡ "a" = (eq_iff i.id "a").0 (ground arith) in
      let user : i.user_id ≡ "1" = (eq_iff i.user_id "1").0 (ground arith) in
      let kind : credential ≡ i.type = same_login i.type (ground arith) in
      let bytes : [] ≡ i.payload = no_bytes-nil i.payload (ground arith) in
      let meta : i.metadata ≡ "m" = (eq_iff i.metadata "m").0 (ground arith) in
      rw at (cc (id, user, kind, bytes, meta))
]

put_first-some :
    (n : ℕ) (o : Option (List ℕ)) (b : List ℕ)
    → put_first n o ≡ some b
    → (r : List ℕ) × (o ≡ some r) × (n ∷ r ≡ b)
put_first-some n none b h = absurd (cc)
put_first-some n (some r) b h = (r, refl, cc)

joined_back : (bs : List (List ℕ)) (b : List ℕ) → joined bs ≡ some b → split b ≡ bs
joined_back [] b h = let e : [] ≡ b = cc in rw (← e) refl
joined_back ([] ∷ bs) b h = absurd (cc)
joined_back ((n ∷ m ∷ ns) ∷ bs) b h = absurd (cc)
joined_back ((n ∷ []) ∷ bs) b h =
    let (r, e, at) = put_first-some n (joined bs) b h in
    rw (← at) (ap (λ rs. (n ∷ []) ∷ rs) (joined_back bs r e))

map_same : (bs : List (List ℕ)) → map (λ b. b) bs ≡ bs
map_same [] = refl
map_same (b ∷ bs) = ap (λ cs. b ∷ cs) (map_same bs)

codec-CodecLaws : CodecLaws codec
codec-CodecLaws = record {
  compact = λ b. b;
  item_back = item_back;
  array_back = λ bs b h. ap some (joined_back bs b h ∙ sym (map_same bs));
  envelope_back = λ e b h. let at : e.version ∷ e.updated_at ∷ e.content ≡ b = cc in rw (← at) refl;
}

abbrev disk : CacheDisk
disk = record { file = none; draws = 0; clock = 9; full = false }

-- A server that answers every request, and one that answers none.
abbrev two_logins : ListRequest → Option (List VaultItem × String)
two_logins r = some (login_at 1 ∷ login_at 2 ∷ [], "")

abbrev silent : ListRequest → Option (List VaultItem × String)
silent r = none

offline_again_example :
    ((load_items ⦃codec = codec⦄ ⦃prim = plain_crypto⦄ settings two_logins disk).0
      ≡ loaded (login_at 1 ∷ login_at 2 ∷ []))
    × ((load_items ⦃codec = codec⦄ ⦃prim = plain_crypto⦄ settings silent
          (load_items ⦃codec = codec⦄ ⦃prim = plain_crypto⦄ settings two_logins disk).1).0
        ≡ offline_loaded (login_at 1 ∷ login_at 2 ∷ []) 9)
unfolding LocalCache.save cache_key
offline_again_example =
    offline_again ⦃codec = codec⦄ ⦃prim = plain_crypto⦄ codec-CodecLaws plain_crypto-PrimitiveLaws
      settings two_logins silent (login_at 1 ∷ login_at 2 ∷ []) "" disk refl refl refl refl
