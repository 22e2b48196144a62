-- ===== src/Crypto/Passwords.antt =====
-- `GeneratePassword` of internal/shared/crypto/passgen.go, from its guards to its result.
use go_yandex_gophkeeper.Base.Int.{pos, ℤ, negsuc}
use go_yandex_gophkeeper.Crypto.Classes.{
  Covers, lower_class, overwrite-count, upper_class, digit_class, symbol_class,
  required_chars-Gains, overwrite-length, overwrite-all,
}
use go_yandex_gophkeeper.Crypto.Coverage.{Bounded, count, shuffle-count, rand_chars-count}
use go_yandex_gophkeeper.Crypto.Charset.{PasswordOpts, contains, charset, int_below, to_nat}
use go_yandex_gophkeeper.Crypto.Generate.{
  Rand, generate_password, shuffle, GenError, overwrite, required_chars, rand_chars, drawn_password,
  too_short, empty_charset,
}
use go_yandex_gophkeeper.Base.{
  List, ◌∙◌, ◌≡◌, ◌≤◌, ℕ, Exec, ok, length, inl, inr, arith, bind-eq-ok, ap, sym, ◌==◌,
  if◌then◌else◌, Bool, raise, refl, false, ltb,
}

Covers-overwrite :
    (class required result : List ℕ)
    → Covers required class
    → Covers (overwrite required result) class
Covers-overwrite class required result h = elim h [
  | inl e ↦ inl e
  | inr n ↦ inr (omega (arith, n, overwrite-count (contains class) required result))
]

Covers-count :
    (class b b' : List ℕ)
    → count (contains class) b' ≡ count (contains class) b
    → Covers b class
    → Covers b' class
Covers-count class b b' same h = elim h [ inl e ↦ inl e | inr n ↦ inr (omega (arith, n, same)) ]

long_enough : (n : ℕ) → 4 ≤ n → ltb n 4 ≡ false
long_enough n h = ground arith

guarded :
    (len : ℤ) (empty : Bool) (m : ℕ → Exec ℕ GenError (List ℕ)) (k : ℕ) {pw : List ℕ}
    → ((if int_below len 4
          then raise too_short
          else if empty
          then raise empty_charset
          else m (to_nat len))
        k).0
      ≡ ok pw
    → (n : ℕ) × (4 ≤ n) × (len ≡ pos n) × ((m n k).0 ≡ ok pw)
guarded (negsuc n) empty m k e = absurd (cc)
guarded (pos n) empty m k e = (n, ground arith, refl, ground arith)

pub unguarded :
    (len : ℤ) (n : ℕ) (empty : Bool) (m : ℕ → Exec ℕ GenError (List ℕ)) (k : ℕ) {pw : List ℕ}
    → len ≡ pos n
    → 4 ≤ n
    → empty ≡ false
    → (m n k).0 ≡ ok pw
    → ((if int_below len 4
          then raise too_short
          else if empty
          then raise empty_charset
          else m (to_nat len))
        k).0
      ≡ ok pw
unguarded len n empty m k at long some' e = rw (at, some') (rw (long_enough n long) e)

past_guards :
    ⦃rand : Rand⦄ (o : PasswordOpts) (k : ℕ) {pw : List ℕ}
    → (generate_password o k).0 ≡ ok pw
    → (n : ℕ) × (4 ≤ n) × (o.length ≡ pos n) × ((drawn_password o n k).0 ≡ ok pw)
unfolding generate_password
past_guards o k e = guarded o.length (length (charset o) == 0) (drawn_password o) k e

module _ ⦃rand : Rand⦄ (law : Bounded rand) where
  Covers-shuffle :
      (class required result : List ℕ) (k : ℕ) {pw : List ℕ}
      → (shuffle (overwrite required result) k).0 ≡ ok pw
      → Covers required class
      → Covers pw class
  Covers-shuffle class required result k {pw = pw} e h =
      Covers-count class (overwrite required result) pw
        ((shuffle-count law (overwrite required result) k e).1 (contains class))
        (Covers-overwrite class required result h)

  -- A password that `GeneratePassword` returns has the length that was asked for, which is at least 4;
  -- all its characters are of the set that the options give, and each class that is enabled, lower
  -- case always, has a character in it.
  pub generate_password-eq-ok :
      (o : PasswordOpts) (k : ℕ) {pw : List ℕ}
      → (generate_password o k).0 ≡ ok pw
      → (o.length ≡ pos (length pw))
        × (4 ≤ length pw)
        × (count (contains (charset o)) pw ≡ length pw)
        × Covers pw (lower_class o)
        × Covers pw (upper_class o)
        × Covers pw (digit_class o)
        × Covers pw (symbol_class o)
  unfolding drawn_password
  generate_password-eq-ok o k e =
      let (n, long, at, run) = past_guards o k e in
      let (required, k1, e1, f1) = bind-eq-ok (required_chars o) _ k run in
      let (result, k2, e2, f2) =
        bind-eq-ok (rand_chars n (charset o)) (λ result. shuffle (overwrite required result)) k1
          f1 in
      let (short, all, lower, upper, digit, symbol) =
        required_chars-Gains law o k (ap (λ x. x.0) e1) in
      let (many, inside) = rand_chars-count law n (charset o) k1 (ap (λ x. x.0) e2) in
      let (same, counts) = shuffle-count law (overwrite required result) k2 f2 in
      let size = overwrite-length required result (omega (arith, short, many, long)) in
      (
        at ∙ ap pos (sym (same ∙ size ∙ many)),
        omega (arith, same, size, many, long),
        counts (contains (charset o))
            ∙ overwrite-all (contains (charset o)) required result all (inside ∙ sym many)
            ∙ sym same,
        Covers-shuffle (lower_class o) required result k2 f2 lower,
        Covers-shuffle (upper_class o) required result k2 f2 upper,
        Covers-shuffle (digit_class o) required result k2 f2 digit,
        Covers-shuffle (symbol_class o) required result k2 f2 symbol,
      )
