-- ===== src/Crypto/Generate.antt =====
-- internal/shared/crypto/passgen.go: `GeneratePassword`. The state is the number of draws made.
use go_yandex_gophkeeper.Base.{
  Option, List, ℕ, ◌+◌, ◌-◌, if◌then◌else◌, ◌==◌, ◌∷◌, ◌++◌, Result, Exec, drop, set, length, suc,
  get_or, ◌>>=◌, pure, err, [], raise, zero, some, ok, none,
}
use go_yandex_gophkeeper.Crypto.Charset.{
  charset, filter_chars, PasswordOpts, int_below, charset_lower, when, to_nat, charset_upper,
  charset_digits, charset_symbols,
}

pub data GenError : Type 0 where
  too_short empty_charset rand_failed panicked : GenError

-- crypto/rand: the k-th draw of a number below n; `none` is an error.
pub record Rand : Type 0 where
  pub int : ℕ → ℕ → Option ℕ

abbrev drawn : GenError → Option ℕ → Result GenError ℕ
drawn e none = err e
drawn e (some v) = ok v

abbrev pub rand_int : ⦃rand : Rand⦄ → GenError → ℕ → Exec ℕ GenError ℕ
rand_int ⦃rand⦄ e n k = (drawn e (rand.int k n), suc k)

-- `mustRandChar`, which panics when the draw fails.
unfoldable pub must_rand_char : ⦃rand : Rand⦄ → List ℕ → Exec ℕ GenError ℕ
must_rand_char set = do n ← rand_int panicked (length set); pure (get_or set n 0)

-- `required = append(required, mustRandChar(c))`, for a class that is enabled and not empty.
unfoldable pub require : ⦃rand : Rand⦄ → List ℕ → List ℕ → Exec ℕ GenError (List ℕ)
unfolding must_rand_char
require [] required = pure required
require (c ∷ cs) required = do d ← must_rand_char (c ∷ cs); pure (required ++ d ∷ [])

-- The characters that are guaranteed; the symbols are not filtered, and none of them is ambiguous.
unfoldable pub required_chars : ⦃rand : Rand⦄ → PasswordOpts → Exec ℕ GenError (List ℕ)
unfolding require filter_chars
required_chars o = do
  r0 ← require (filter_chars o.no_ambiguous charset_lower) []
  r1 ← require (when o.upper (filter_chars o.no_ambiguous charset_upper)) r0
  r2 ← require (when o.digits (filter_chars o.no_ambiguous charset_digits)) r1
  require (when o.symbols charset_symbols) r2

-- `for i := range result`
unfoldable pub rand_chars : ⦃rand : Rand⦄ → ℕ → List ℕ → Exec ℕ GenError (List ℕ)
unfolding must_rand_char
rand_chars zero set = pure []
rand_chars (suc n) set = do c ← must_rand_char set; rest ← rand_chars n set; pure (c ∷ rest)

-- `copy(result[:len(required)], required)`
unfoldable pub overwrite : List ℕ → List ℕ → List ℕ
overwrite required result = required ++ drop (length required) result

-- `b[i], b[j] = b[j], b[i]`
unfoldable pub swap : ℕ → ℕ → List ℕ → List ℕ
swap i j b = set (set b i (get_or b j 0)) j (get_or b i 0)

-- The loop of `shuffle`, from index `i` down to 1.
unfoldable pub shuffle_from : ⦃rand : Rand⦄ → ℕ → List ℕ → Exec ℕ GenError (List ℕ)
unfolding swap
shuffle_from zero b = pure b
shuffle_from (suc i) b = do j ← rand_int rand_failed (suc i + 1); shuffle_from i (swap (suc i) j b)

-- `shuffle`
unfoldable pub shuffle : ⦃rand : Rand⦄ → List ℕ → Exec ℕ GenError (List ℕ)
unfolding shuffle_from
shuffle b = shuffle_from (length b - 1) b

-- `GeneratePassword`, behind its guards.
unfoldable pub drawn_password : ⦃rand : Rand⦄ → PasswordOpts → ℕ → Exec ℕ GenError (List ℕ)
unfolding charset required_chars rand_chars overwrite shuffle
drawn_password o n = do
  required ← required_chars o
  result ← rand_chars n (charset o)
  shuffle (overwrite required result)

-- `GeneratePassword`
unfoldable pub generate_password : ⦃rand : Rand⦄ → PasswordOpts → Exec ℕ GenError (List ℕ)
unfolding charset drawn_password
generate_password o =
    if int_below o.length 4
    then raise too_short
    else if length (charset o) == 0
    then raise empty_charset
    else drawn_password o (to_nat o.length)
