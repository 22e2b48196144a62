-- ===== src/Crypto/Tests.antt =====
-- Examples of drawn and derived passwords.
use go_yandex_gophkeeper.Crypto.Passwords.{generate_password-eq-ok}
use go_yandex_gophkeeper.Crypto.Classes.{
  Covers, lower_class, upper_class, digit_class, symbol_class,
}
use go_yandex_gophkeeper.Crypto.Returns.{Draws, generate_password-returns}
use go_yandex_gophkeeper.Base.Int.{pos}
use go_yandex_gophkeeper.Crypto.Bias.{lower_and_symbols, derive_password_hangs}
use go_yandex_gophkeeper.Crypto.Charset.{contains, PasswordOpts, charset}
use go_yandex_gophkeeper.Base.{
  ◌∷◌, if◌then◌else◌, ◌≡◌, [], ltb, arith, some, ℕ, none, refl, length, List, ◌≤◌, ok, true, false,
}
use go_yandex_gophkeeper.Crypto.Generate.{Rand, generate_password}
use go_yandex_gophkeeper.Crypto.Derive.{derive_password, Hkdf}
use go_yandex_gophkeeper.Crypto.Coverage.{Bounded, count}

-- Every draw is 0.
abbrev zeros : Rand
zeros = record { int = λ k n. if ltb 0 n then some 0 else none }

zeros-Bounded : Bounded zeros
zeros-Bounded k n v h = ground arith

abbrev ordered : List ℕ
ordered = 1 ∷ 2 ∷ 3 ∷ []

abbrev shuffled : List ℕ
shuffled = 2 ∷ 3 ∷ 1 ∷ []

abbrev zero_stream : Hkdf
zero_stream = record { read = λ key salt realm n. some (0 ∷ 0 ∷ 0 ∷ 0 ∷ []) }

derive_password_hangs_example :
    derive_password ⦃hkdf = zero_stream⦄ 100 (1 ∷ []) "site" (lower_and_symbols 12) ≡ none
derive_password_hangs_example =
    derive_password_hangs ⦃hkdf = zero_stream⦄ (λ key salt realm n few. (_, refl)) 100 (1 ∷ [])
      "site" 12 refl (omega arith) (omega arith)

abbrev four : PasswordOpts
four = record { length = pos 4; upper = true; digits = true; symbols = true; no_ambiguous = false }

-- `A0!a`
abbrev drawn_pw : List ℕ
drawn_pw = 65 ∷ 48 ∷ 33 ∷ 97 ∷ []

generate_password-eq-ok_example :
    (pos 4 ≡ pos (length drawn_pw))
    × (4 ≤ length drawn_pw)
    × (count (contains (charset four)) drawn_pw ≡ length drawn_pw)
    × Covers drawn_pw (lower_class four)
    × Covers drawn_pw (upper_class four)
    × Covers drawn_pw (digit_class four)
    × Covers drawn_pw (symbol_class four)
unfolding generate_password
generate_password-eq-ok_example =
    generate_password-eq-ok ⦃rand = zeros⦄ zeros-Bounded four 0 {pw = drawn_pw} refl

zeros-Draws : Draws zeros
zeros-Draws k n = (0, ground arith)

generate_password-returns_example :
    (pw : List ℕ) × ((generate_password ⦃rand = zeros⦄ four 0).0 ≡ ok pw)
generate_password-returns_example =
    generate_password-returns ⦃rand = zeros⦄ zeros-Draws four 4 0 refl (omega arith)
