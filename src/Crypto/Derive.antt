-- ===== src/Crypto/Derive.antt =====
-- internal/shared/crypto/passgen.go: `DerivePassword`, on fuel.
use mathlib.Core.Bool.{true, false}
use go_yandex_gophkeeper.Crypto.Charset.{charset, PasswordOpts, int_below, to_nat}
use go_yandex_gophkeeper.Base.{
  List, ℕ, ◌-◌, ◌^◌, ◌%◌, ◌+◌, if◌then◌else◌, ◌∷◌, ◌==◌, ◌++◌, ◌*◌, leb, String, get_or, length,
  Option, Result, [], none, str_eq, some, err, suc, ltb, ok, zero,
}

pub data DeriveError : Type 0 where
  empty_realm too_short empty_charset hkdf_read : DeriveError

-- golang.org/x/crypto/hkdf over SHA-256: the first bytes of the stream for a key, a salt and an info,
-- where the salt of a refill carries the index; `none` is an error.
pub data Salt : Type 0 where
  first : Salt
  refill : ℕ → Salt

pub record Hkdf : Type 0 where
  pub read : List ℕ → Salt → String → ℕ → Option (List ℕ)

-- `(^uint32(0) - (^uint32(0))%modLen) + 1`, in 32 bits.
unfoldable pub threshold : ℕ → ℕ
threshold m = (4294967295 - 4294967295 % m + 1) % 2 ^ 32

-- The big-endian number of four bytes.
unfoldable pub chunk : List ℕ → ℕ → ℕ
chunk stream i =
    get_or stream (i * 4) 0 * 16777216
    + get_or stream (i * 4 + 1) 0 * 65536
    + get_or stream (i * 4 + 2) 0 * 256
    + get_or stream (i * 4 + 3) 0

-- `result = append(result, charset[v%modLen])`, unless `v` is rejected.
unfoldable pub accept : List ℕ → ℕ → List ℕ → List ℕ
unfolding threshold
accept set v result =
    if leb (threshold (length set)) v then result else result ++ get_or set (v % length set) 0 ∷ []

abbrev refilled : Option (List ℕ) → Option (ℕ × List ℕ)
refilled none = none
refilled (some s) = some (0, s)

-- The stream and the index that a round reads from.
unfoldable pub refill_at : ⦃hkdf : Hkdf⦄ → List ℕ → String → ℕ → ℕ → List ℕ → Option (ℕ × List ℕ)
refill_at ⦃hkdf⦄ key realm n i stream =
    if leb (length stream) (i * 4 + 3)
    then refilled (hkdf.read key (refill i) realm (n * 4))
    else some (i, stream)

-- The loop; the outer `none` is fuel that has run out.
unfoldable pub derive_loop :
    ⦃hkdf : Hkdf⦄
    → ℕ
    → List ℕ
    → String
    → List ℕ
    → ℕ
    → ℕ
    → List ℕ
    → List ℕ
    → Option (Result DeriveError (List ℕ))
unfolding refill_at accept chunk
derive_loop zero key realm set n i stream result = none
derive_loop (suc fuel) key realm set n i stream result = elim (ltb (length result) n) [
  | false ↦ some (ok result)
  | true ↦ elim (refill_at key realm n i stream) [
    | none ↦ some (err hkdf_read)
    | some (i', stream') ↦
        derive_loop fuel key realm set n (suc i') stream' (accept set (chunk stream' i') result)
  ]
]

abbrev derive_from :
    ⦃hkdf : Hkdf⦄
    → ℕ
    → List ℕ
    → String
    → List ℕ
    → ℕ
    → Option (List ℕ)
    → Option (Result DeriveError (List ℕ))
derive_from fuel key realm set n none = some (err hkdf_read)
derive_from fuel key realm set n (some stream) = derive_loop fuel key realm set n 0 stream []

-- `DerivePassword`
unfoldable pub derive_password :
    ⦃hkdf : Hkdf⦄ → ℕ → List ℕ → String → PasswordOpts → Option (Result DeriveError (List ℕ))
unfolding charset derive_loop
derive_password ⦃hkdf⦄ fuel key realm o =
    if str_eq realm ""
    then some (err empty_realm)
    else if int_below o.length 4
    then some (err too_short)
    else if length (charset o) == 0
    then some (err empty_charset)
    else derive_from fuel key realm (charset o) (to_nat o.length)
        (hkdf.read key first realm (to_nat o.length * 4))
