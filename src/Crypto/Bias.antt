-- ===== src/Crypto/Bias.antt =====
-- The rejection sampling of `DerivePassword`.
use go_yandex_gophkeeper.Base.Int.{pos}
use go_yandex_gophkeeper.Crypto.Charset.{charset, PasswordOpts}
use go_yandex_gophkeeper.Base.{
  ℕ, ◌≤◌, ◌≡◌, ◌<◌, List, String, some, length, str_eq, none, suc, zero, refl, ltb, ◌+◌, ◌*◌,
  Bool-cases, [], arith, leb, inl, inr,
}
use go_yandex_gophkeeper.Crypto.Derive.{derive_loop, accept, derive_password, Hkdf, Salt, threshold}
use go_yandex_gophkeeper.Crypto.Derive
use mathlib.Core.Bool.{true, false}

-- The characters of a password of lower case and symbols without the ambiguous ones.
abbrev pub lower_and_symbols : ℕ → PasswordOpts
lower_and_symbols n = record {
  length = pos n;
  upper = false;
  digits = false;
  symbols = true;
  no_ambiguous = true;
}

ltb-of : {m n : ℕ} → m < n → ltb m n ≡ true
ltb-of h = ground arith

-- HKDF over SHA-256 gives up to 255 * 32 bytes for a salt.
abbrev pub Reads : Hkdf → Type 0
Reads hkdf =
    (key : List ℕ) (salt : Salt) (realm : String) (n : ℕ)
    → n ≤ 8160
    → (s : List ℕ) × (hkdf.read key salt realm n ≡ some s)

rejects_all : (n v : ℕ) (result : List ℕ) → accept (charset (lower_and_symbols n)) v result ≡ result
unfolding accept charset threshold
rejects_all n v result = ground arith

refill_at-Reads :
    ⦃hkdf : Hkdf⦄ (reads : Reads hkdf) (key : List ℕ) (realm : String) (n i : ℕ) (stream : List ℕ)
    → n ≤ 2040
    → (p : ℕ × List ℕ) × (Derive.refill_at key realm n i stream ≡ some p)
unfolding Derive.refill_at
refill_at-Reads reads key realm n i stream few =
    let (s, e) = reads key (Derive.refill i) realm (n * 4) (omega arith) in
    elim (Bool-cases (leb (length stream) (i * 4 + 3))) [
      | inl used ↦ ((0, s), rw used (rw e refl))
      | inr more ↦ ((i, stream), rw more refl)
    ]

derive_loop-stuck :
    ⦃hkdf : Hkdf⦄ (reads : Reads hkdf) (fuel : ℕ) (key : List ℕ) (realm : String) (m n i : ℕ)
    (stream result : List ℕ)
    → n ≤ 2040
    → length result < n
    → derive_loop fuel key realm (charset (lower_and_symbols m)) n i stream result ≡ none
unfolding derive_loop
derive_loop-stuck reads zero key realm m n i stream result few h = refl
derive_loop-stuck reads (suc fuel) key realm m n i stream result few h =
    let ((i', stream'), e) = refill_at-Reads reads key realm n i stream few in
    rw (derive_loop, ltb-of h, e, rejects_all)
      (derive_loop-stuck reads fuel key realm m n (suc i') stream' result few h)

-- With lower case and symbols but no ambiguous characters, no number of rounds makes a password of 4
-- to 2040 characters: the set has 51 characters, the bound of the accepted chunks wraps round to 0,
-- and every chunk of the stream is rejected. (HKDF has no more than 8160 bytes for one salt, four for
-- each character.)
pub derive_password_hangs :
    ⦃hkdf : Hkdf⦄ (reads : Reads hkdf) (fuel : ℕ) (key : List ℕ) (realm : String) (n : ℕ)
    → str_eq realm "" ≡ false
    → 4 ≤ n
    → n ≤ 2040
    → derive_password fuel key realm (lower_and_symbols n) ≡ none
unfolding derive_password
derive_password_hangs reads fuel key realm n named long few =
    let (s, e) = reads key Derive.first realm (n * 4) (omega arith) in
    let stuck = derive_loop-stuck reads fuel key realm n n 0 s [] few (omega arith) in ground arith
