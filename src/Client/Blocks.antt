-- ===== src/Client/Blocks.antt =====
-- The reads and writes of internal/client/vault/localdb.go, one block at a time.
use go_yandex_gophkeeper.Crypto.Keys.{take-append, drop-append}
use mathlib.Core.Path.{subst}
use go_yandex_gophkeeper.Client.LocalDb.{
  read_block, read_u32, write_all, read, zeros, Os, Disk, max_uint32, be32, contents, magic,
  truncate, load_file, write_vault, be16, Json, VaultData, too_big, load_body, load_params,
  load_checked, read_u16, or_error, save, from_crypto, drawing, load, key_check_text,
}
use go_yandex_gophkeeper.Base.{
  List, ◌∙◌, ◌-◌, ◌∷◌, ◌++◌, ◌≡◌, ◌≤◌, ℕ, length, [], refl, some, ok, Bool-cases, bind-ok, inl,
  arith, inr, suc, ap, length-append, ◌%◌, ◌/◌, ◌+◌, ◌*◌, if◌then◌else◌, err,
}
use go_yandex_gophkeeper.Client.LocalDb

abbrev pub concat : List (List ℕ) → List ℕ
concat [] = []
concat (b ∷ bs) = b ++ concat bs

pub append_assoc : (xs ys zs : List ℕ) → (xs ++ ys) ++ zs ≡ xs ++ (ys ++ zs)
append_assoc [] ys zs = refl
append_assoc (x ∷ xs) ys zs = rw (append_assoc xs ys zs) refl

pub append_nil : (xs : List ℕ) → xs ++ [] ≡ xs
append_nil [] = refl
append_nil (x ∷ xs) = rw (append_nil xs) refl

pub write_all-file :
    ⦃os : Os⦄ (bs : List (List ℕ)) (d : Disk) (f : List ℕ)
    → d.file ≡ some f
    → (write_all bs d).0 ≡ ok tt
    → (write_all bs d).1.file ≡ some (f ++ concat bs)
unfolding write_all
write_all-file [] d f at e = rw (append_nil f) at
write_all-file ⦃os⦄ (b ∷ bs) d f at e = elim (Bool-cases (os.fails d.calls)) [
  | inl failed ↦ absurd (ground arith)
  | inr fine ↦
      let d' : Disk = record d { calls = suc d.calls; file = some (contents d.file ++ b) } in
      let at' : d'.file ≡ some (f ++ b) = rw at refl in
      let e' : (write_all bs d').0 ≡ ok tt =
        subst
          (λ r.
            (if r then (err LocalDb.other, record d { calls = suc d.calls }) else write_all bs d').0
            ≡ ok tt)
          fine e in
      rw fine (write_all-file bs d' (f ++ b) at' e' ∙ ap some (append_assoc f b (concat bs)))
]

zeros_none : (xs ys : List ℕ) → zeros (length xs - length (xs ++ ys)) ≡ []
unfolding zeros
zeros_none xs ys =
    let none' : length xs - length (xs ++ ys) ≡ 0 = omega (arith, length-append xs ys) in
    rw none' refl

pub read-append : (b rest : List ℕ) → read (length b) (b ++ rest) ≡ (ok b, rest)
unfolding read
read-append [] rest = refl
read-append (x ∷ xs) rest =
    rw (take-append xs rest (length xs) refl, drop-append xs rest (length xs) refl)
      (rw (zeros_none (x ∷ xs) rest) (rw (append_nil xs) refl))

be32_value :
    (n : ℕ)
    → n ≤ max_uint32
    → n / 16777216 % 256 * 16777216 + n / 65536 % 256 * 65536 + n / 256 % 256 * 256 + n % 256 ≡ n
be32_value n h = omega arith

read_u32-be32 : (n : ℕ) (rest : List ℕ) → n ≤ max_uint32 → read_u32 (be32 n ++ rest) ≡ (ok n, rest)
unfolding read_u32
read_u32-be32 n rest h = ap (λ m. (ok m, rest)) (be32_value n h)

pub read_block-append :
    (b rest : List ℕ)
    → length b ≤ max_uint32
    → read_block (be32 (length b) ++ (b ++ rest)) ≡ (ok b, rest)
unfolding read_block
read_block-append b rest h =
    bind-ok read_u32 read {s = be32 (length b) ++ (b ++ rest)}
      (read_u32-be32 (length b) (b ++ rest) h)
    ∙ read-append b rest
