-- ===== src/Crypto/Passphrase.antt =====
-- internal/shared/crypto/passphrase.go: `GeneratePassphrase`. A passphrase is the list of its bytes.
use go_yandex_gophkeeper.Base.{
  Bool, true, List, [], ◌∷◌, ◌++◌, ℕ, zero, suc, ◌+◌, ◌-◌, ◌/◌, ◌%◌, ◌&&◌, if◌then◌else◌, ltb, leb,
  Exec, pure, ◌>>=◌, length, get_or,
}
use go_yandex_gophkeeper.Base.Int.{ℤ, pos, negsuc}
use go_yandex_gophkeeper.Crypto.Charset.{bytes}
use go_yandex_gophkeeper.Crypto.Generate.{Rand, GenError, rand_int, rand_failed}
use go_yandex_gophkeeper.Crypto.Wordlist.{passphrase_wordlist}

-- `PassphraseOpts`
pub record PassphraseOpts : Type 0 where
  pub words : ℤ
  pub separator : List ℕ
  pub capitalize : Bool
  pub include_num : Bool

-- `DefaultPassphraseOpts`
abbrev pub default_passphrase_opts : PassphraseOpts
default_passphrase_opts = record {
  words = pos 5;
  separator = bytes "-";
  capitalize = true;
  include_num = true;
}

-- At least two words.
abbrev pub word_count : ℤ → ℕ
word_count (pos n) = if ltb n 2 then 2 else n
word_count (negsuc n) = 2

-- `strings.ToUpper(w[:1]) + w[1:]`, for the letters of the list.
abbrev pub capitalized : List ℕ → List ℕ
capitalized [] = []
capitalized (c ∷ w) = (if leb 97 c && leb c 122 then c - 32 else c) ∷ w

abbrev pub spelled : Bool → List ℕ → List ℕ
spelled cap w = if cap then capitalized w else w

-- The loop over the words.
unfoldable pub draw_words : ⦃rand : Rand⦄ → Bool → ℕ → Exec ℕ GenError (List (List ℕ))
unfolding passphrase_wordlist
draw_words cap zero = pure []
draw_words cap (suc n) = do
  idx ← rand_int rand_failed (length passphrase_wordlist)
  rest ← draw_words cap n
  pure (spelled cap (bytes (get_or passphrase_wordlist idx "")) ∷ rest)

-- `strings.Join`
unfoldable pub join : List ℕ → List (List ℕ) → List ℕ
join sep [] = []
join sep (w ∷ []) = w
join sep (w ∷ v ∷ ws) = w ++ (sep ++ join sep (v ∷ ws))

-- The decimal digits of a number of four digits.
abbrev pub four_digits : ℕ → List ℕ
four_digits n = (48 + n / 1000 % 10) ∷ (48 + n / 100 % 10) ∷ (48 + n / 10 % 10) ∷ (48 + n % 10) ∷ []

abbrev pub with_number : ⦃rand : Rand⦄ → PassphraseOpts → List ℕ → Exec ℕ GenError (List ℕ)
with_number o result = do
  n ← rand_int rand_failed 9000
  pure (result ++ (o.separator ++ four_digits (n + 1000)))

-- `GeneratePassphrase`
unfoldable pub generate_passphrase : ⦃rand : Rand⦄ → PassphraseOpts → Exec ℕ GenError (List ℕ)
unfolding draw_words join
generate_passphrase o = do
  words ← draw_words o.capitalize (word_count o.words)
  (if o.include_num then with_number o (join o.separator words) else pure (join o.separator words))
