-- ===== src/Client/Tests.antt =====
-- Examples of a vault file that is saved and loaded.
mod SignIn
mod Calls
mod Screen
mod Cache
mod Flags
use go_yandex_gophkeeper.Client.RoundTrip.{JsonLaws, load-save}
use go_yandex_gophkeeper.Client.LocalDb.{Os, load, Disk, VaultData, Json, Item, save}
use go_yandex_gophkeeper.Crypto.Keys.{
  PrimitiveLaws, decrypt, Primitives, KdfParams, decrypt-encrypt, encrypt,
}
use mathlib.Core.Path.{subst}
use go_yandex_gophkeeper.Base.{
  eq_iff, List, ℕ, ◌≡◌, ◌∷◌, if◌then◌else◌, ◌++◌, ◌&&◌, none, some, Option, length, [], Bool, false,
  str_eq, refl, true, ok, suc, zero, Bool-cases, inr, arith, inl,
}

abbrev pub fill : ℕ → List ℕ
fill zero = []
fill (suc n) = 7 ∷ fill n

length-fill : (n : ℕ) → length (fill n) ≡ n
length-fill zero = refl
length-fill (suc n) = rw (length-fill n) refl

-- Cryptography that hides nothing, but keeps its promises.
abbrev pub plain_crypto : Primitives
plain_crypto = record {
  read = λ k n. some (fill n);
  aead_seal = λ key nonce plain. plain;
  aead_open = λ key nonce content. some content;
  argon2 = λ password salt time memory threads n. password;
  hkdf = λ key info n. some (fill n);
  sha256 = λ b. b;
}

filled : (k n : ℕ) (b : List ℕ) → Path (Option (List ℕ)) (some (fill n)) (some b) → fill n ≡ b
filled k n b h = cc

pub plain_crypto-PrimitiveLaws : PrimitiveLaws plain_crypto
plain_crypto-PrimitiveLaws = record {
  full = λ k n b h. subst (λ x. length x ≡ n) (filled k n b h) (length-fill n);
  opens = λ key nonce plain. refl;
}

-- A codec for the empty vaults of one user.
abbrev is_empty : List Item → Bool
is_empty [] = true
is_empty (i ∷ is) = false

abbrev one_user : VaultData → Bool
one_user v = str_eq v.user_id "u" && str_eq v.username "n" && is_empty v.items

abbrev vault_at : ℕ → VaultData
vault_at n = record { user_id = "u"; username = "n"; items = []; synced_at = n }

abbrev decode_vault : List ℕ → Option VaultData
decode_vault [] = none
decode_vault (n ∷ _) = some (vault_at n)

abbrev params_at : ℕ → ℕ → ℕ → List ℕ → KdfParams
params_at m t p salt = record { algo = "argon2id"; memory = m; time = t; threads = p; salt = salt }

abbrev decode_params : List ℕ → Option KdfParams
decode_params (m ∷ t ∷ p ∷ salt) = some (params_at m t p salt)
decode_params _ = none

abbrev codec : Json
codec = record {
  data_out = λ v. if one_user v then some (v.synced_at ∷ []) else none;
  data_in = decode_vault;
  params_out =
      λ p. if str_eq p.algo "argon2id" then some (p.memory ∷ p.time ∷ p.threads ∷ p.salt) else none;
  params_in = decode_params;
}

is_empty-nil : (is : List Item) → is_empty is ≡ true → [] ≡ is
is_empty-nil [] h = refl
is_empty-nil (i ∷ is) h = absurd (cc)

vault_back : (v : VaultData) (b : List ℕ) → codec.data_out v ≡ some b → decode_vault b ≡ some v
vault_back v b h = elim (Bool-cases (one_user v)) [
  | inr e ↦ absurd (ground arith)
  | inl e ↦
      let at : b ≡ v.synced_at ∷ [] = ground arith in
      let user : v.user_id ≡ "u" = (eq_iff v.user_id "u").0 (ground arith) in
      let name : v.username ≡ "n" = (eq_iff v.username "n").0 (ground arith) in
      let none' : [] ≡ v.items = is_empty-nil v.items (ground arith) in
      rw at (cc (user, name, none'))
]

params_back : (p : KdfParams) (b : List ℕ) → codec.params_out p ≡ some b → decode_params b ≡ some p
params_back p b h = elim (Bool-cases (str_eq p.algo "argon2id")) [
  | inr e ↦ absurd (ground arith)
  | inl e ↦
      let at : b ≡ p.memory ∷ p.time ∷ p.threads ∷ p.salt = ground arith in
      let algo : p.algo ≡ "argon2id" = (eq_iff p.algo "argon2id").0 e in rw at (cc (algo))
]

codec-JsonLaws : JsonLaws codec
codec-JsonLaws = record { data_back = vault_back; params_back = params_back }

abbrev steady : Os
steady = record { fails = λ n. false }

abbrev no_disk : Disk
no_disk = record { file = none; draws = 0; calls = 0 }

load-save_example :
    (load ⦃prim = plain_crypto⦄ ⦃json = codec⦄ ⦃os = steady⦄
      (1 ∷ [])
      none
      (save ⦃prim = plain_crypto⦄ ⦃json = codec⦄ ⦃os = steady⦄
        (vault_at 9)
        (1 ∷ [])
        none
        no_disk).1).0
    ≡ ok (vault_at 9)
unfolding save
load-save_example =
    load-save ⦃prim = plain_crypto⦄ ⦃json = codec⦄ ⦃os = steady⦄ plain_crypto-PrimitiveLaws
      codec-JsonLaws (vault_at 9) (1 ∷ []) none no_disk refl refl
