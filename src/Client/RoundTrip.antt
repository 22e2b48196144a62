-- ===== src/Client/RoundTrip.antt =====
-- `Save` and `Load` of internal/client/vault/localdb.go, one after the other.
use go_yandex_gophkeeper.Client.Blocks.{read-append, concat, read_block-append, write_all-file}
use go_yandex_gophkeeper.Crypto.Keys.{
  Primitives, KdfParams, stretch_key, composite_key, decrypt, CryptoError, PrimitiveLaws,
  default_kdf_params, encrypt, decrypt-encrypt,
}
use mathlib.Core.Path.{subst}
use go_yandex_gophkeeper.Client.LocalDb.{
  read_block, read_u32, write_all, read, zeros, Os, Disk, max_uint32, be32, contents, magic,
  truncate, load_file, write_vault, be16, Json, VaultData, too_big, load_body, load_params,
  load_checked, read_u16, or_error, save, from_crypto, drawing, load, key_check_text,
}
use go_yandex_gophkeeper.Base.{
  List, ◌∙◌, ◌∷◌, ◌++◌, ◌≡◌, ◌≤◌, ℕ, length, [], refl, some, ok, Bool-cases, bind-ok, inl, arith,
  inr, ap, if◌then◌else◌, err, Exec, Option, false, raise, bind-eq-ok, ◌>>◌, sym, lift, Result,
  none, ◌>>=◌, same_bytes,
}
use go_yandex_gophkeeper.Client.LocalDb

-- What encoding/json promises of these two types: what it has written, it reads back.
pub record JsonLaws (json : Json) : Type 0 where
  pub data_back : (v : VaultData) (b : List ℕ) → json.data_out v ≡ some b → json.data_in b ≡ some v
  pub params_back :
      (p : KdfParams) (b : List ℕ) → json.params_out p ≡ some b → json.params_in b ≡ some p

from_crypto-eq-ok :
    {A : Type 0} (r : Result CryptoError A) {a : A} → from_crypto r ≡ ok a → r ≡ ok a
from_crypto-eq-ok (ok b) h = ap ok (cc)
from_crypto-eq-ok (err e) h = absurd (cc)

or_error-eq-ok :
    {A : Type 0} (x : LocalDb.VaultError) (o : Option A) {a : A} → or_error x o ≡ ok a → o ≡ some a
or_error-eq-ok x none h = absurd (cc)
or_error-eq-ok x (some b) h = ap some (cc)

-- The file that `Save` writes.
abbrev vault_file : List ℕ → List ℕ → List ℕ → List ℕ
vault_file kdf check body =
    magic
    ++ (be16 1
        ++ (be32 (length kdf)
            ++ (kdf ++ (be32 (length check) ++ (check ++ (be32 (length body) ++ (body ++ [])))))))

abbrev blocks : List ℕ → List ℕ → List ℕ → List (List ℕ)
blocks kdf check body =
    be32 (length kdf) ∷ kdf ∷ be32 (length check) ∷ check ∷ be32 (length body) ∷ body ∷ []

abbrev headed : ⦃os : Os⦄ → List ℕ → List ℕ → List ℕ → Exec Disk LocalDb.VaultError Unit
headed kdf check body =
    if too_big kdf check body then raise LocalDb.other else write_all (blocks kdf check body)

truncate-file : ⦃os : Os⦄ (d d' : Disk) → truncate d ≡ (ok tt, d') → d'.file ≡ some []
unfolding truncate
truncate-file d d' e = ground arith

headed-file :
    ⦃os : Os⦄ (kdf check body : List ℕ) (d : Disk) (f : List ℕ)
    → d.file ≡ some f
    → (headed kdf check body d).0 ≡ ok tt
    → ((headed kdf check body d).1.file ≡ some (f ++ concat (blocks kdf check body)))
      × (too_big kdf check body ≡ false)
headed-file kdf check body d f at e = elim (Bool-cases (too_big kdf check body)) [
  | inl big ↦ absurd (ground arith)
  | inr fits ↦ (
    rw fits (
        write_all-file (blocks kdf check body) d f at (
          subst
            (λ b.
              ((if b then raise LocalDb.other else write_all (blocks kdf check body)) d).0 ≡ ok tt)
            fits e)),
    fits,
  )
]

write_vault-file :
    ⦃os : Os⦄ (kdf check body : List ℕ) (d : Disk)
    → (write_vault kdf check body d).0 ≡ ok tt
    → ((write_vault kdf check body d).1.file ≡ some (vault_file kdf check body))
      × (too_big kdf check body ≡ false)
unfolding write_vault
write_vault-file kdf check body d e =
    let (u, d1, e1, f1) =
      bind-eq-ok truncate (λ _. write_all (magic ∷ be16 1 ∷ []) >> headed kdf check body) d e in
    let (u2, d2, e2, f2) =
      bind-eq-ok (write_all (magic ∷ be16 1 ∷ [])) (λ _. headed kdf check body) d1 f1 in
    let at =
      write_all-file (magic ∷ be16 1 ∷ []) d1 [] (truncate-file d d1 e1) (ap (λ r. r.0) e2) in
    let at2 : d2.file ≡ some (magic ++ be16 1) = sym (ap (λ r. r.1.file) e2) ∙ at in
    let (done, fits) = headed-file kdf check body d2 (magic ++ be16 1) at2 f2 in
    (
      ap (λ r. r.1.file) (bind-ok truncate _ e1 ∙ bind-ok (write_all (magic ∷ be16 1 ∷ [])) _ e2)
          ∙ done,
      fits,
    )

module _ ⦃prim : Primitives⦄ ⦃json : Json⦄ where
  load_body-block :
      (key body rest plain : List ℕ) (vault : VaultData)
      → length body ≤ max_uint32
      → decrypt key body ≡ ok plain
      → json.data_in plain ≡ some vault
      → (load_body key (be32 (length body) ++ (body ++ rest))).0 ≡ ok vault
  unfolding load_body
  load_body-block key body rest plain vault fits hb hv =
      rw (load_body, read_block-append body rest fits, hb, hv) refl

  load_checked-block :
      (key check rest text : List ℕ) (vault : VaultData)
      → length check ≤ max_uint32
      → decrypt key check ≡ ok text
      → (load_body key rest).0 ≡ ok vault
      → (load_checked key (be32 (length check) ++ (check ++ rest))).0 ≡ ok vault
  unfolding load_checked
  load_checked-block key check rest text vault fits hc h =
      rw (load_checked, read_block-append check rest fits, hc) h

  load_params-block :
      (password : List ℕ) (keyfile : Option (List ℕ)) (kdf rest : List ℕ) (params : KdfParams)
      (keys : List ℕ × List ℕ) (vault : VaultData)
      → length kdf ≤ max_uint32
      → json.params_in kdf ≡ some params
      → stretch_key (composite_key password keyfile params) ≡ ok keys
      → (load_checked keys.0 rest).0 ≡ ok vault
      → (load_params password keyfile (be32 (length kdf) ++ (kdf ++ rest))).0 ≡ ok vault
  unfolding load_params
  load_params-block password keyfile kdf rest params keys vault fits hp hk h =
      rw (load_params, read_block-append kdf rest fits, hp, hk) h

  load_file-headed :
      (password : List ℕ) (keyfile : Option (List ℕ)) (rest : List ℕ)
      → load_file password keyfile (magic ++ (be16 1 ++ rest)) ≡ load_params password keyfile rest
  unfolding load_file read_u16
  load_file-headed password keyfile rest =
      bind-ok (read 4)
        (λ m.
          lift (if same_bytes m magic then ok tt else err LocalDb.invalid_vault)
          >> (read_u16 >>= λ v. load_params password keyfile))
        {s = magic ++ (be16 1 ++ rest)} (read-append magic (be16 1 ++ rest))

drawing-eq-ok :
    {A : Type 0} (m : Exec ℕ CryptoError A) (d d' : Disk) {a : A}
    → drawing m d ≡ (ok a, d')
    → (m d.draws).0 ≡ ok a
drawing-eq-ok m d d' e = from_crypto-eq-ok (m d.draws).0 (ap (λ r. r.0) e)

load-opened :
    ⦃prim : Primitives⦄ ⦃json : Json⦄ ⦃os : Os⦄ (password : List ℕ) (keyfile : Option (List ℕ))
    (d : Disk) (f : List ℕ)
    → d.file ≡ some f
    → os.fails d.calls ≡ false
    → (load password keyfile d).0 ≡ (load_file password keyfile f).0
unfolding load
load-opened password keyfile d f at up = rw (load, up, at) refl

module _ ⦃prim : Primitives⦄ ⦃json : Json⦄ where
  load_file-vault_file :
      (kdf check body password : List ℕ) (keyfile : Option (List ℕ)) (params : KdfParams)
      (keys : List ℕ × List ℕ) (text plain : List ℕ) (vault : VaultData)
      → too_big kdf check body ≡ false
      → json.params_in kdf ≡ some params
      → stretch_key (composite_key password keyfile params) ≡ ok keys
      → decrypt keys.0 check ≡ ok text
      → decrypt keys.0 body ≡ ok plain
      → json.data_in plain ≡ some vault
      → (load_file password keyfile (vault_file kdf check body)).0 ≡ ok vault
  load_file-vault_file kdf check body password keyfile params keys text plain vault fits hp hk hc hb
        hv =
      ap (λ r. r.0) (load_file-headed password keyfile _)
      ∙ load_params-block password keyfile kdf _ params keys vault (ground arith) hp hk (
          load_checked-block keys.0 check _ text vault (ground arith) hc
            (load_body-block keys.0 body [] plain vault (ground arith) hb hv))

-- What a `Save` that succeeds has computed and written.
save-eq-ok :
    ⦃prim : Primitives⦄ ⦃json : Json⦄ ⦃os : Os⦄ (laws : PrimitiveLaws prim) (vault : VaultData)
    (password : List ℕ) (keyfile : Option (List ℕ)) (d : Disk)
    → (save vault password keyfile d).0 ≡ ok tt
    → (params : KdfParams) × (keys : List ℕ × List ℕ) × (plain : List ℕ) × (kdf : List ℕ)
      × (check : List ℕ) × (body : List ℕ) × (stretch_key (composite_key password keyfile params)
          ≡ ok keys)
      × (json.data_out vault ≡ some plain)
      × (decrypt keys.0 body ≡ ok plain)
      × (json.params_out params ≡ some kdf)
      × (decrypt keys.0 check ≡ ok key_check_text)
      × ((save vault password keyfile d).1.file ≡ some (vault_file kdf check body))
      × (too_big kdf check body ≡ false)
unfolding save
save-eq-ok ⦃json = json⦄ laws vault password keyfile d e =
    let (params, d1, e1, f1) = bind-eq-ok (drawing default_kdf_params) _ d e in
    let (keys, d2, e2, f2) =
      bind-eq-ok (lift (from_crypto (stretch_key (composite_key password keyfile params)))) _ d1
        f1 in
    let (plain, d3, e3, f3) =
      bind-eq-ok (lift (or_error LocalDb.other (json.data_out vault))) _ d2 f2 in
    let (body, d4, e4, f4) = bind-eq-ok (drawing (encrypt keys.0 plain)) _ d3 f3 in
    let (kdf, d5, e5, f5) =
      bind-eq-ok (lift (or_error LocalDb.other (json.params_out params))) _ d4 f4 in
    let (check, d6, e6, f6) = bind-eq-ok (drawing (encrypt keys.0 key_check_text)) _ d5 f5 in
    let (at, fits) = write_vault-file kdf check body d6 f6 in
    let same =
      bind-ok (drawing default_kdf_params) _ e1
      ∙ bind-ok (lift (from_crypto (stretch_key (composite_key password keyfile params)))) _ e2
      ∙ bind-ok (lift (or_error LocalDb.other (json.data_out vault))) _ e3
      ∙ bind-ok (drawing (encrypt keys.0 plain)) _ e4
      ∙ bind-ok (lift (or_error LocalDb.other (json.params_out params))) _ e5
      ∙ bind-ok (drawing (encrypt keys.0 key_check_text)) (λ check. write_vault kdf check body)
          e6 in
    (
      params,
      keys,
      plain,
      kdf,
      check,
      body,
      from_crypto-eq-ok _ (ap (λ r. r.0) e2),
      or_error-eq-ok LocalDb.other _ (ap (λ r. r.0) e3),
      decrypt-encrypt laws keys.0 plain d3.draws (drawing-eq-ok (encrypt keys.0 plain) d3 d4 e4),
      or_error-eq-ok LocalDb.other _ (ap (λ r. r.0) e5),
      decrypt-encrypt laws keys.0 key_check_text d5.draws
          (drawing-eq-ok (encrypt keys.0 key_check_text) d5 d6 e6),
      ap (λ r. r.1.file) same ∙ at,
      fits,
    )

-- Where `Save` succeeds, `Load` with the same password and key file gives back what was saved.
pub load-save :
    ⦃prim : Primitives⦄ ⦃json : Json⦄ ⦃os : Os⦄ (laws : PrimitiveLaws prim) (codec : JsonLaws json)
    (vault : VaultData) (password : List ℕ) (keyfile : Option (List ℕ)) (d : Disk)
    → (save vault password keyfile d).0 ≡ ok tt
    → os.fails (save vault password keyfile d).1.calls ≡ false
    → (load password keyfile (save vault password keyfile d).1).0 ≡ ok vault
load-save ⦃json = json⦄ laws codec vault password keyfile d e up =
    let (params, keys, plain, kdf, check, body, hk, hd, hb, hp, hc, at, fits) =
      save-eq-ok laws vault password keyfile d e in
    load-opened password keyfile (save vault password keyfile d).1 (vault_file kdf check body) at up
    ∙ load_file-vault_file kdf check body password keyfile params keys key_check_text plain vault
        fits (codec.params_back params kdf hp) hk hc hb (codec.data_back vault plain hd)
