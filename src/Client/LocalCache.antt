-- ===== src/Client/LocalCache.antt =====
-- internal/client/vault/localcache.go: the encrypted copy of the items for offline use.
pub mod RoundTrip
use go_yandex_gophkeeper.Base.{
  String, List, [], ◌∷◌, ℕ, Option, none, some, Result, ok, err, Exec, lift, ◌>>=◌, if◌then◌else◌,
  Bool,
}
use go_yandex_gophkeeper.Crypto.Keys.{Primitives, CryptoError, encrypt, decrypt}
use go_yandex_gophkeeper.Crypto.Charset.{bytes}
use go_yandex_gophkeeper.Client.Tui.Items.{VaultItem}
use go_yandex_gophkeeper.Client.LocalDb.{zeros}

-- `cacheEnvelope`
pub record Envelope : Type 0 where
  pub version : ℕ
  pub updated_at : ℕ
  pub content : List ℕ

-- protojson and encoding/json: an item, an array of raw messages, and the envelope; `none` is an error.
pub record CacheCodec : Type 0 where
  pub item_out : VaultItem → Option (List ℕ)
  pub item_in : List ℕ → Option VaultItem
  pub array_out : List (List ℕ) → Option (List ℕ)
  pub array_in : List ℕ → Option (List (List ℕ))
  pub envelope_out : Envelope → Option (List ℕ)
  pub envelope_in : List ℕ → Option Envelope

pub data CacheError : Type 0 where
  cache_not_found other : CacheError

-- The file at the path, the random draws so far, the clock, and whether a write fails.
pub record CacheDisk : Type 0 where
  pub file : Option (List ℕ)
  pub draws : ℕ
  pub clock : ℕ
  pub full : Bool

abbrev pub or_other : {A : Type 0} → Option A → Result CacheError A
or_other none = err other
or_other (some a) = ok a

abbrev pub from_crypto : {A : Type 0} → Result CryptoError A → Result CacheError A
from_crypto (ok a) = ok a
from_crypto (err e) = err other

-- The first 32 bytes of the stream; an error of the read is dropped.
abbrev stream_or_zero : Option (List ℕ) → List ℕ
stream_or_zero none = zeros 32
stream_or_zero (some k) = k

-- `CacheKey`
unfoldable pub cache_key : ⦃prim : Primitives⦄ → String → List ℕ
unfolding zeros
cache_key ⦃prim⦄ refresh_token =
    stream_or_zero (prim.hkdf (bytes refresh_token) "gophkeeper-local-vault-cache-v1" 32)

-- The marshalled items; one that fails fails all.
abbrev pub with_first : Option (List ℕ) → Option (List (List ℕ)) → Option (List (List ℕ))
with_first none rest = none
with_first (some b) none = none
with_first (some b) (some bs) = some (b ∷ bs)

module _ ⦃codec : CacheCodec⦄ where
  unfoldable pub marshal_all : List VaultItem → Option (List (List ℕ))
  marshal_all [] = some []
  marshal_all (i ∷ is) = with_first (codec.item_out i) (marshal_all is)

  abbrev pub kept : Option VaultItem → List VaultItem → List VaultItem
  kept none is = is
  kept (some i) is = i ∷ is

  -- The items that can be read; the others are skipped.
  unfoldable pub unmarshal_all : List (List ℕ) → List VaultItem
  unmarshal_all [] = []
  unmarshal_all (b ∷ bs) = kept (codec.item_in b) (unmarshal_all bs)

  abbrev pub read_items : ℕ → Option (List (List ℕ)) → Result CacheError (List VaultItem × ℕ)
  read_items at none = err other
  read_items at (some raw) = ok (unmarshal_all raw, at)

  -- `Load` from the decryption on.
  abbrev pub unsealed : ℕ → Result CryptoError (List ℕ) → Result CacheError (List VaultItem × ℕ)
  unsealed at (err e) = err other
  unsealed at (ok plaintext) = read_items at (codec.array_in plaintext)

  module _ ⦃prim : Primitives⦄ where
    abbrev pub drawing : {A : Type 0} → Exec ℕ CryptoError A → Exec CacheDisk CacheError A
    drawing m d = let (r, k) = m d.draws in (from_crypto r, record d { draws = k })

    -- `os.WriteFile`; a write that fails may have emptied the file.
    abbrev pub write_file : List ℕ → Exec CacheDisk CacheError Unit
    write_file b d =
        if d.full
        then (err other, record d { file = some [] })
        else (ok tt, record d { file = some b })

    abbrev pub enveloped : List ℕ → Exec CacheDisk CacheError (List ℕ)
    enveloped content d = (
      or_other
          (codec.envelope_out (record { version = 1; updated_at = d.clock; content = content })),
      d,
    )

    -- `Save`
    unfoldable pub save : List ℕ → List VaultItem → Exec CacheDisk CacheError Unit
    unfolding marshal_all encrypt
    save key items = do
      raw ← lift (or_other (marshal_all items))
      plaintext ← lift (or_other (codec.array_out raw))
      content ← drawing (encrypt key plaintext)
      payload ← enveloped content
      write_file payload

    abbrev pub opened : List ℕ → Envelope → Result CacheError (List VaultItem × ℕ)
    opened key env = unsealed env.updated_at (decrypt key env.content)

    abbrev pub parsed : List ℕ → Option Envelope → Result CacheError (List VaultItem × ℕ)
    parsed key none = err other
    parsed key (some env) = opened key env

    -- `Load`
    unfoldable pub load : List ℕ → Option (List ℕ) → Result CacheError (List VaultItem × ℕ)
    unfolding decrypt unmarshal_all
    load key none = err cache_not_found
    load key (some payload) = parsed key (codec.envelope_in payload)
