-- ===== src/Client/LocalDb.antt =====
-- internal/client/vault/localdb.go: the .gkdb file.
use go_yandex_gophkeeper.Base.Int.{ℤ}
use go_yandex_gophkeeper.Base.{
  Bool, List, String, ℕ, Result, Option, Exec, ◌++◌, ◌-◌, ◌+◌, ◌||◌, if◌then◌else◌, ◌/◌, ◌∷◌, ◌%◌,
  ◌*◌, ok, ltb, ◌>>=◌, ◌>>◌, err, suc, [], length, take, some, true, lift, raise, zero, false, drop,
  none, same_bytes,
}
use go_yandex_gophkeeper.Crypto.Keys.{
  Primitives, CryptoError, KdfParams, default_kdf_params, composite_key, stretch_key, encrypt,
  decrypt,
}
use go_yandex_gophkeeper.Crypto.Charset.{bytes}

-- `Item`; times are in seconds.
pub record Item : Type 0 where
  pub id : String
  pub user_id : String
  pub type : String
  pub payload : List ℕ
  pub metadata : String
  pub version : ℤ
  pub created_at : ℕ
  pub updated_at : ℕ

pub record VaultData : Type 0 where
  pub user_id : String
  pub username : String
  pub items : List Item
  pub synced_at : ℕ

-- encoding/json, for the two types that are stored; `none` is an error.
pub record Json : Type 0 where
  pub data_out : VaultData → Option (List ℕ)
  pub data_in : List ℕ → Option VaultData
  pub params_out : KdfParams → Option (List ℕ)
  pub params_in : List ℕ → Option KdfParams

-- Whether the n-th call of the operating system fails.
pub record Os : Type 0 where
  pub fails : ℕ → Bool

pub data VaultError : Type 0 where
  vault_not_found wrong_password invalid_vault other panic : VaultError

-- The file at the path, and the draws and the calls made so far.
pub record Disk : Type 0 where
  pub file : Option (List ℕ)
  pub draws : ℕ
  pub calls : ℕ

abbrev crypto_error : CryptoError → VaultError
crypto_error CryptoError.panicked = panic
crypto_error e = other

abbrev pub from_crypto : {A : Type 0} → Result CryptoError A → Result VaultError A
from_crypto (ok a) = ok a
from_crypto (err e) = err (crypto_error e)

-- A function that draws random bytes.
abbrev pub drawing : {A : Type 0} → Exec ℕ CryptoError A → Exec Disk VaultError A
drawing m d = (from_crypto (m d.draws).0, record d { draws = (m d.draws).1 })

abbrev pub or_error : {A : Type 0} → VaultError → Option A → Result VaultError A
or_error e none = err e
or_error e (some a) = ok a

abbrev pub magic : List ℕ
magic = bytes "GKDB"

abbrev pub key_check_text : List ℕ
key_check_text = bytes "gkdb-key-check"

-- `binary.Write` of a uint16 and a uint32, big-endian.
abbrev pub be16 : ℕ → List ℕ
be16 n = n / 256 % 256 ∷ n % 256 ∷ []

abbrev pub be32 : ℕ → List ℕ
be32 n = n / 16777216 % 256 ∷ n / 65536 % 256 ∷ n / 256 % 256 ∷ n % 256 ∷ []

-- `os.OpenFile` with O_CREATE and O_TRUNC.
unfoldable pub truncate : ⦃os : Os⦄ → Exec Disk VaultError Unit
truncate ⦃os⦄ d =
    if os.fails d.calls
    then (err other, record d { calls = suc d.calls })
    else (ok tt, record d { calls = suc d.calls; file = some [] })

abbrev pub contents : Option (List ℕ) → List ℕ
contents none = []
contents (some b) = b

-- Writes, one after another, up to the first that fails; one that fails writes nothing.
unfoldable pub write_all : ⦃os : Os⦄ → List (List ℕ) → Exec Disk VaultError Unit
write_all [] d = (ok tt, d)
write_all ⦃os⦄ (b ∷ bs) d =
    let rest =
      write_all bs (record d { calls = suc d.calls; file = some (contents d.file ++ b) }) in
    if os.fails d.calls then (err other, record d { calls = suc d.calls }) else rest

-- `math.MaxUint32`
abbrev pub max_uint32 : ℕ
max_uint32 = 4294967295

abbrev pub too_big : List ℕ → List ℕ → List ℕ → Bool
too_big kdf check body =
    ltb max_uint32 (length kdf) || ltb max_uint32 (length check) || ltb max_uint32 (length body)

-- The end of `Save`: the file is truncated before the sizes are looked at.
unfoldable pub write_vault : ⦃os : Os⦄ → List ℕ → List ℕ → List ℕ → Exec Disk VaultError Unit
unfolding truncate write_all
write_vault kdf check body = do
  truncate
  write_all (magic ∷ be16 1 ∷ [])
  if too_big kdf check body
      then raise other
      else write_all
          (be32 (length kdf) ∷ kdf ∷ be32 (length check) ∷ check ∷ be32 (length body) ∷ body ∷ [])

-- `LocalDB.Save`
unfoldable pub save :
    ⦃prim : Primitives⦄ ⦃json : Json⦄ ⦃os : Os⦄
    → VaultData
    → List ℕ
    → Option (List ℕ)
    → Exec Disk VaultError Unit
unfolding default_kdf_params composite_key stretch_key encrypt write_vault
save ⦃json = json⦄ vault password keyfile = do
  params ← drawing default_kdf_params
  keys ← lift (from_crypto (stretch_key (composite_key password keyfile params)))
  body ← lift (or_error other (json.data_out vault))
  enc_body ← drawing (encrypt keys.0 body)
  kdf ← lift (or_error other (json.params_out params))
  check ← drawing (encrypt keys.0 key_check_text)
  write_vault kdf check enc_body

-- Reading a file: the state is what has not been read, and a read fails only at the end of the file.
abbrev Reader : Type 0 → Type 0
Reader A = Exec (List ℕ) VaultError A

unfoldable pub zeros : ℕ → List ℕ
zeros zero = []
zeros (suc n) = 0 ∷ zeros n

-- `f.Read` into a fresh buffer of n bytes: what the file does not fill stays zero.
unfoldable pub read : ℕ → Reader (List ℕ)
unfolding zeros
read zero rest = (ok [], rest)
read (suc n) [] = (err invalid_vault, [])
read (suc n) (b ∷ bs) =
    (ok (take (suc n) (b ∷ bs) ++ zeros (suc n - length (b ∷ bs))), drop (suc n) (b ∷ bs))

-- `binary.Read` of a uint16 and of a uint32, which reads all its bytes or fails.
unfoldable pub read_u16 : Reader ℕ
read_u16 (a ∷ b ∷ rest) = (ok (a * 256 + b), rest)
read_u16 _ = (err invalid_vault, [])

unfoldable pub read_u32 : Reader ℕ
read_u32 (a ∷ b ∷ c ∷ d ∷ rest) = (ok (a * 16777216 + b * 65536 + c * 256 + d), rest)
read_u32 _ = (err invalid_vault, [])

abbrev pub or_wrong : Result CryptoError (List ℕ) → Result VaultError (List ℕ)
or_wrong (ok b) = ok b
or_wrong (err e) = err wrong_password

-- A length and as many bytes.
unfoldable pub read_block : Reader (List ℕ)
unfolding read_u32 read
read_block = do n ← read_u32; read n

-- The end of `Load`: the body.
unfoldable pub load_body : ⦃prim : Primitives⦄ ⦃json : Json⦄ → List ℕ → Reader VaultData
unfolding read_block decrypt
load_body ⦃json = json⦄ key = do
  enc_body ← read_block
  body ← lift (or_wrong (decrypt key enc_body))
  lift (or_error other (json.data_in body))

-- `Load` from the key check on.
unfoldable pub load_checked : ⦃prim : Primitives⦄ ⦃json : Json⦄ → List ℕ → Reader VaultData
unfolding read_block decrypt load_body
load_checked key = do check ← read_block; lift (or_wrong (decrypt key check)); load_body key

-- `Load` from the parameters on.
unfoldable pub load_params :
    ⦃prim : Primitives⦄ ⦃json : Json⦄ → List ℕ → Option (List ℕ) → Reader VaultData
unfolding read_block composite_key stretch_key load_checked
load_params ⦃json = json⦄ password keyfile = do
  kdf ← read_block
  params ← lift (or_error invalid_vault (json.params_in kdf))
  keys ← lift (from_crypto (stretch_key (composite_key password keyfile params)))
  load_checked keys.0

-- `LocalDB.Load`, for a file that was opened; its version is read and not looked at.
unfoldable pub load_file :
    ⦃prim : Primitives⦄ ⦃json : Json⦄ → List ℕ → Option (List ℕ) → Reader VaultData
unfolding read read_u16 load_params
load_file password keyfile = do
  m ← read 4
  lift (if same_bytes m magic then ok tt else err invalid_vault)
  version ← read_u16
  load_params password keyfile

abbrev load_from :
    ⦃prim : Primitives⦄ ⦃json : Json⦄
    → List ℕ
    → Option (List ℕ)
    → Option (List ℕ)
    → Result VaultError VaultData
load_from password keyfile none = err vault_not_found
load_from password keyfile (some b) = (load_file password keyfile b).0

-- `LocalDB.Load`, where `os.Open` fails for want of the file or for another reason.
unfoldable pub load :
    ⦃prim : Primitives⦄ ⦃json : Json⦄ ⦃os : Os⦄
    → List ℕ
    → Option (List ℕ)
    → Exec Disk VaultError VaultData
unfolding load_file
load ⦃os = os⦄ password keyfile d =
    let d' = record d { calls = suc d.calls } in
    if os.fails d.calls then (err other, d') else (load_from password keyfile d.file, d')

-- `LocalDB.Exists`
unfoldable pub exists : Disk → Bool
exists d = elim d.file [ none ↦ false | some b ↦ true ]
