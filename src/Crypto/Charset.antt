-- ===== src/Crypto/Charset.antt =====
-- internal/shared/crypto/passgen.go: the character sets. A password is the list of its bytes, and
-- each character is one byte.
use go_yandex_gophkeeper.Base.{
  List, Bool, String, ◌++◌, ◌==◌, ◌∷◌, if◌then◌else◌, true, ℕ, ltb, any, [], filter, false, not,
}
use go_yandex_gophkeeper.Base.Int.{ℤ, pos, negsuc}
use Prim.Native.Char.{code}

pub record PasswordOpts : Type 0 where
  pub length : ℤ
  pub upper : Bool
  pub digits : Bool
  pub symbols : Bool
  pub no_ambiguous : Bool

-- `DefaultPasswordOpts`
abbrev pub default_password_opts : PasswordOpts
default_password_opts = record {
  length = pos 20;
  upper = true;
  digits = true;
  symbols = true;
  no_ambiguous = false;
}

abbrev pub bytes : String → List ℕ
bytes String.[] = []
bytes (String.◌∷◌ c s) = code c ∷ bytes s

abbrev pub charset_lower : List ℕ
charset_lower = bytes "abcdefghijklmnopqrstuvwxyz"

abbrev pub charset_upper : List ℕ
charset_upper = bytes "ABCDEFGHIJKLMNOPQRSTUVWXYZ"

abbrev pub charset_digits : List ℕ
charset_digits = bytes "0123456789"

abbrev pub charset_symbols : List ℕ
charset_symbols = bytes "!@#$%^&*()-_=+[]{}|;:,.<>?"

abbrev pub charset_ambig : List ℕ
charset_ambig = bytes "l1IO0"

-- `strings.ContainsRune`
abbrev pub contains : List ℕ → ℕ → Bool
contains s c = any (λ d. d == c) s

-- `filterChars`, and the filter of the whole set.
unfoldable pub filter_chars : Bool → List ℕ → List ℕ
filter_chars no_ambiguous s =
    if no_ambiguous then filter (λ c. not (contains charset_ambig c)) s else s

-- The characters of a class that is enabled.
abbrev pub when : Bool → List ℕ → List ℕ
when b s = if b then s else []

-- The set that `GeneratePassword` and `DerivePassword` draw from.
unfoldable pub charset : PasswordOpts → List ℕ
unfolding filter_chars
charset o = filter_chars o.no_ambiguous (
    charset_lower
    ++ when o.upper charset_upper
    ++ when o.digits charset_digits
    ++ when o.symbols charset_symbols)

-- `len < n`, for a Go int.
abbrev pub int_below : ℤ → ℕ → Bool
int_below (pos n) m = ltb n m
int_below (negsuc n) m = true

abbrev pub to_nat : ℤ → ℕ
to_nat (pos n) = n
to_nat (negsuc n) = 0
