-- ===== src/Crypto/Returns.antt =====
-- The actions of `GeneratePassword` that return from every state.
use go_yandex_gophkeeper.Crypto.Passwords.{unguarded}
use go_yandex_gophkeeper.Base.Int.{pos}
use go_yandex_gophkeeper.Crypto.Classes.{
  lower_class, charset_inhabited, upper_class, digit_class, symbol_class,
}
use go_yandex_gophkeeper.Crypto.Charset.{PasswordOpts, charset}
use go_yandex_gophkeeper.Crypto.Generate.{
  Rand, shuffle_from, generate_password, must_rand_char, require, rand_chars, GenError,
  required_chars, drawn_password, rand_int, shuffle, panicked, rand_failed, swap, overwrite,
}
use go_yandex_gophkeeper.Base.{
  Exec, pure, ◌≤◌, ◌+◌, ◌∙◌, ◌≡◌, ◌++◌, ◌∷◌, ℕ, List, suc, ok, ◌>>=◌, some, bind-ok, [], refl,
  length, zero, sym, get_or, ◌==◌, false, ap, arith,
}
use mathlib.Core.Path.{subst}
use native.Mathlib.Numerals.{add-one}

-- `m` returns a value from every state.
abbrev Returns : {A : Type 0} → Exec ℕ GenError A → Type 0
Returns {A = A} m = (k : ℕ) → (a : A) × (k' : ℕ) × (m k ≡ (ok a, k'))

Returns-bind :
    {A B : Type 0} (m : Exec ℕ GenError A) (f : A → Exec ℕ GenError B)
    → Returns m
    → ((a : A) → Returns (f a))
    → Returns (m >>= f)
Returns-bind m f rm rf k =
    let (a, k1, e) = rm k in let (b, k2, e2) = rf a k1 in (b, k2, bind-ok m f e ∙ e2)

Returns-pure : {A : Type 0} (a : A) → Returns (pure a)
Returns-pure a k = (a, k, refl)

filled : (s : List ℕ) (c : ℕ) (cs : List ℕ) → s ≡ c ∷ cs → (length s == 0) ≡ false
filled s c cs h = rw h (ground arith)

-- Every draw below a positive bound succeeds.
abbrev pub Draws : Rand → Type 0
Draws r = (k n : ℕ) → (v : ℕ) × (r.int k (suc n) ≡ some v)

module _ ⦃rand : Rand⦄ (draws : Draws rand) where
  rand_int-Returns : (e : GenError) (n : ℕ) → Returns (rand_int e (suc n))
  rand_int-Returns e n k = let (v, at) = draws k n in (v, suc k, rw at refl)

  must_rand_char-Returns : (c : ℕ) (cs : List ℕ) → Returns (must_rand_char (c ∷ cs))
  unfolding must_rand_char
  must_rand_char-Returns c cs =
      Returns-bind (rand_int panicked (suc (length cs))) (λ n. pure (get_or (c ∷ cs) n 0))
        (rand_int-Returns panicked (length cs)) (λ n. Returns-pure (get_or (c ∷ cs) n 0))

  require-Returns : (set required : List ℕ) → Returns (require set required)
  unfolding require
  require-Returns [] required = Returns-pure required
  require-Returns (c ∷ cs) required =
      Returns-bind (must_rand_char (c ∷ cs)) (λ d. pure (required ++ d ∷ []))
        (must_rand_char-Returns c cs) (λ d. Returns-pure (required ++ d ∷ []))

  required_chars-Returns : (o : PasswordOpts) → Returns (required_chars o)
  unfolding required_chars
  required_chars-Returns o =
      Returns-bind (require (lower_class o) []) _ (require-Returns (lower_class o) []) (λ r0.
        Returns-bind (require (upper_class o) r0) _ (require-Returns (upper_class o) r0) (λ r1.
          Returns-bind (require (digit_class o) r1) _ (require-Returns (digit_class o) r1)
            (λ r2. require-Returns (symbol_class o) r2)))

  rand_chars-Returns : (n : ℕ) (c : ℕ) (cs : List ℕ) → Returns (rand_chars n (c ∷ cs))
  unfolding rand_chars
  rand_chars-Returns zero c cs = Returns-pure []
  rand_chars-Returns (suc n) c cs =
      Returns-bind (must_rand_char (c ∷ cs)) _ (must_rand_char-Returns c cs) (λ d.
        Returns-bind (rand_chars n (c ∷ cs)) (λ rest. pure (d ∷ rest)) (rand_chars-Returns n c cs)
          (λ rest. Returns-pure (d ∷ rest)))

  shuffle_from-Returns : (i : ℕ) (b : List ℕ) → Returns (shuffle_from i b)
  unfolding shuffle_from
  shuffle_from-Returns zero b = Returns-pure b
  shuffle_from-Returns (suc i) b =
      Returns-bind (rand_int rand_failed (suc i + 1)) (λ j. shuffle_from i (swap (suc i) j b))
        (λ k. rw add-one (rand_int-Returns rand_failed (suc i) k))
        (λ j. shuffle_from-Returns i (swap (suc i) j b))

  drawn_password-Returns :
      (o : PasswordOpts) (n c : ℕ) (cs : List ℕ) → charset o ≡ c ∷ cs → Returns (drawn_password o n)
  unfolding drawn_password shuffle
  drawn_password-Returns o n c cs set =
      Returns-bind (required_chars o) _ (required_chars-Returns o) (λ required.
        Returns-bind (rand_chars n (charset o)) (λ result. shuffle (overwrite required result))
          (subst (λ s. Returns (rand_chars n s)) (sym set) (rand_chars-Returns n c cs))
          (λ result. shuffle_from-Returns _ (overwrite required result)))

  -- Where crypto/rand draws, `GeneratePassword` returns a password for every length of at least 4 and
  -- all other options: its set is never empty.
  pub generate_password-returns :
      (o : PasswordOpts) (n k : ℕ)
      → o.length ≡ pos n
      → 4 ≤ n
      → (pw : List ℕ) × ((generate_password o k).0 ≡ ok pw)
  unfolding generate_password
  generate_password-returns o n k at long =
      let (c, cs, set) = charset_inhabited o in
      let (pw, k', e) = drawn_password-Returns o n c cs set k in
      (
        pw,
        unguarded o.length n (length (charset o) == 0) (drawn_password o) k at long
            (filled (charset o) c cs set) (ap (λ x. x.0) e),
      )
