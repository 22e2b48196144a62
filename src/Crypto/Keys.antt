-- ===== src/Crypto/Keys.antt =====
-- internal/shared/crypto/aead.go, argon2.go and vault_key.go.
use go_yandex_gophkeeper.Base.{
  ◌==◌, ◌*◌, ◌≡◌, ◌++◌, ◌∷◌, if◌then◌else◌, Exec, ℕ, Option, String, List, length, suc, some,
  Result, ok, ◌>>=◌, pure, drop, err, Option-cases, not, take, none, ltb, arith, raise, inl, [],
  inr, length-append, zero, refl,
}

-- crypto/rand, golang.org/x/crypto and encoding/json, which these files call.
pub record Primitives : Type 0 where
  -- the k-th `rand.Read` of n bytes; `none` is an error
  pub read : ℕ → ℕ → Option (List ℕ)
  -- XChaCha20-Poly1305 under a key and a nonce; `none` is a failed authentication
  pub aead_seal : List ℕ → List ℕ → List ℕ → List ℕ
  pub aead_open : List ℕ → List ℕ → List ℕ → Option (List ℕ)
  -- Argon2id: password, salt, time, memory, threads, length
  pub argon2 : List ℕ → List ℕ → ℕ → ℕ → ℕ → ℕ → List ℕ
  -- HKDF-SHA256: the first bytes of the stream of a key and an info; `none` is an error
  pub hkdf : List ℕ → String → ℕ → Option (List ℕ)
  pub sha256 : List ℕ → List ℕ

pub data CryptoError : Type 0 where
  bad_key no_randomness decrypt_failed panicked : CryptoError

-- `chacha20poly1305.NewX` takes keys of 32 bytes and nonces of 24.
abbrev pub key_size : ℕ
key_size = 32

abbrev pub nonce_size : ℕ
nonce_size = 24

abbrev randomness : Option (List ℕ) → Result CryptoError (List ℕ)
randomness none = err no_randomness
randomness (some b) = ok b

-- `rand.Read` into a buffer of n bytes; the state is the number of reads.
abbrev pub rand_read : ⦃prim : Primitives⦄ → ℕ → Exec ℕ CryptoError (List ℕ)
rand_read ⦃prim⦄ n k = (randomness (prim.read k n), suc k)

-- `Encrypt`
unfoldable pub encrypt : ⦃prim : Primitives⦄ → List ℕ → List ℕ → Exec ℕ CryptoError (List ℕ)
encrypt ⦃prim⦄ key plaintext =
    if length key == key_size
    then (do nonce ← rand_read nonce_size; pure (nonce ++ prim.aead_seal key nonce plaintext))
    else raise bad_key

abbrev opened : Option (List ℕ) → Result CryptoError (List ℕ)
opened none = err decrypt_failed
opened (some p) = ok p

-- `Decrypt`
unfoldable pub decrypt : ⦃prim : Primitives⦄ → List ℕ → List ℕ → Result CryptoError (List ℕ)
decrypt ⦃prim⦄ key content =
    if not (length key == key_size)
    then err bad_key
    else if ltb (length content) nonce_size
    then err decrypt_failed
    else opened (prim.aead_open key (take nonce_size content) (drop nonce_size content))

pub record KdfParams : Type 0 where
  pub algo : String
  pub memory : ℕ
  pub time : ℕ
  pub threads : ℕ
  pub salt : List ℕ

abbrev default_params : List ℕ → KdfParams
default_params salt = record {
  algo = "argon2id";
  memory = 64 * 1024;
  time = 3;
  threads = 4;
  salt = salt;
}

-- `DefaultKDFParams`
unfoldable pub default_kdf_params : ⦃prim : Primitives⦄ → Exec ℕ CryptoError KdfParams
default_kdf_params = do salt ← rand_read 32; pure (default_params salt)

-- `DeriveKey`
unfoldable pub derive_key : ⦃prim : Primitives⦄ → List ℕ → KdfParams → List ℕ
derive_key ⦃prim⦄ password p = prim.argon2 password p.salt p.time p.memory p.threads 32

-- `CompositeKey`; no key file is `nil`.
unfoldable pub composite_key : ⦃prim : Primitives⦄ → List ℕ → Option (List ℕ) → KdfParams → List ℕ
unfolding derive_key
composite_key password none p = derive_key password p
composite_key ⦃prim⦄ password (some keyfile) p = derive_key (password ++ prim.sha256 keyfile) p

abbrev split_key : Option (List ℕ) → Result CryptoError (List ℕ × List ℕ)
split_key none = err panicked
split_key (some s) = ok (take 32 s, drop 32 s)

-- `StretchKey`, which panics when the stream cannot be read.
unfoldable pub stretch_key : ⦃prim : Primitives⦄ → List ℕ → Result CryptoError (List ℕ × List ℕ)
stretch_key ⦃prim⦄ master = split_key (prim.hkdf master "gophkeeper-vault-key-stretch-v1" 64)

-- `GenerateVaultSymKey`
unfoldable pub generate_vault_sym_key : ⦃prim : Primitives⦄ → Exec ℕ CryptoError (List ℕ)
generate_vault_sym_key = rand_read 32

-- `SealVaultSymKey`
unfoldable pub seal_vault_sym_key :
    ⦃prim : Primitives⦄ → List ℕ → List ℕ → Exec ℕ CryptoError (List ℕ)
unfolding encrypt
seal_vault_sym_key vault_key enc_key = encrypt enc_key vault_key

-- `OpenVaultSymKey`
unfoldable pub open_vault_sym_key :
    ⦃prim : Primitives⦄ → List ℕ → List ℕ → Result CryptoError (List ℕ)
unfolding decrypt
open_vault_sym_key sealed enc_key = decrypt enc_key sealed

-- What the documentation of the libraries promises: a read fills its buffer, and what was sealed is
-- opened again under the same key and nonce.
pub record PrimitiveLaws (prim : Primitives) : Type 0 where
  pub full : (k n : ℕ) (b : List ℕ) → prim.read k n ≡ some b → length b ≡ n
  pub opens :
      (key nonce plain : List ℕ)
      → prim.aead_open key nonce (prim.aead_seal key nonce plain) ≡ some plain

module _ {ℓ} {A : Type ℓ} where
  pub take-append : (xs ys : List A) (n : ℕ) → length xs ≡ n → take n (xs ++ ys) ≡ xs
  take-append [] ys zero h = refl
  take-append [] ys (suc n) h = absurd (omega arith)
  take-append (x ∷ xs) ys zero h = absurd (omega arith)
  take-append (x ∷ xs) ys (suc n) h = rw (take-append xs ys n (omega arith)) refl

  pub drop-append : (xs ys : List A) (n : ℕ) → length xs ≡ n → drop n (xs ++ ys) ≡ ys
  drop-append [] ys zero h = refl
  drop-append [] ys (suc n) h = absurd (omega arith)
  drop-append (x ∷ xs) ys zero h = absurd (omega arith)
  drop-append (x ∷ xs) ys (suc n) h = drop-append xs ys n (omega arith)

-- What `Encrypt` returns, `Decrypt` reads back under the same key.
pub decrypt-encrypt :
    ⦃prim : Primitives⦄ (laws : PrimitiveLaws prim) (key plain : List ℕ) (k : ℕ) {content : List ℕ}
    → (encrypt key plain k).0 ≡ ok content
    → decrypt key content ≡ ok plain
unfolding encrypt decrypt
decrypt-encrypt ⦃prim⦄ laws key plain k {content = content} h =
    elim (Option-cases (prim.read k 24)) [
      | inl none' ↦ absurd (ground arith)
      | inr (nonce, drawn) ↦
          let body = prim.aead_seal key nonce plain in
          let at : content ≡ nonce ++ body = ground arith in
          let long = laws.full k 24 nonce drawn in
          rw
            (
              at,
              take-append nonce body 24 long,
              drop-append nonce body 24 long,
              laws.opens key nonce plain,
            )
            (ground (arith, long, length-append nonce body))
    ]
