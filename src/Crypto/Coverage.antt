-- ===== src/Crypto/Coverage.antt =====
-- What the draws and the shuffle of `GeneratePassword` do to the characters.
use go_yandex_gophkeeper.Crypto.Charset.{contains}
use go_yandex_gophkeeper.Crypto.Generate.{
  swap, Rand, rand_chars, shuffle_from, must_rand_char, GenError, shuffle,
}
use go_yandex_gophkeeper.Base.{
  ℕ, Bool, List, ◌≡◌, ◌+◌, ◌<◌, ◌∷◌, if◌then◌else◌, ◌==◌, length, [], set, arith, get_or, suc, refl,
  zero, ◌⊎◌, some, ok, Option-cases, true, inl, inr, bind-eq-ok, ◌∙◌, ◌>>=◌, pure, ap, Result, ◌-◌,
}

-- How many characters pass the test.
abbrev pub count : (ℕ → Bool) → List ℕ → ℕ
count p [] = 0
count p (x ∷ xs) = (if p x then 1 else 0) + count p xs

abbrev one : Bool → ℕ
one b = if b then 1 else 0

length-set : (xs : List ℕ) (i v : ℕ) → length (set xs i v) ≡ length xs
length-set [] i v = refl
length-set (x ∷ xs) zero v = refl
length-set (x ∷ xs) (suc i) v = rw (length-set xs i v) refl

count-set :
    (p : ℕ → Bool) (xs : List ℕ) (i v : ℕ)
    → i < length xs
    → count p (set xs i v) + one (p (get_or xs i 0)) ≡ count p xs + one (p v)
count-set p [] i v h = absurd (omega arith)
count-set p (x ∷ xs) zero v h = omega arith
count-set p (x ∷ xs) (suc i) v h = omega (arith, count-set p xs i v (omega arith))

get_or-set :
    (xs : List ℕ) (i j v : ℕ)
    → i < length xs
    → get_or (set xs i v) j 0 ≡ (if i == j then v else get_or xs j 0)
get_or-set [] i j v h = absurd (omega arith)
get_or-set (x ∷ xs) zero zero v h = refl
get_or-set (x ∷ xs) zero (suc j) v h = ground arith
get_or-set (x ∷ xs) (suc i) zero v h = ground arith
get_or-set (x ∷ xs) (suc i) (suc j) v h = ground (arith, get_or-set xs i j v)

count-swap :
    (p : ℕ → Bool) (i j : ℕ) (b : List ℕ)
    → i < length b
    → j < length b
    → count p (swap i j b) ≡ count p b
unfolding swap
count-swap p i j b hi hj = ground (
  arith,
  count-set p b i (get_or b j 0) hi,
  count-set p (set b i (get_or b j 0)) j (get_or b i 0) (rw (length-set b i (get_or b j 0)) hj),
  get_or-set b i j (get_or b j 0) hi,
)

length-swap : (i j : ℕ) (b : List ℕ) → length (swap i j b) ≡ length b
unfolding swap
length-swap i j b =
    length-set (set b i (get_or b j 0)) j (get_or b i 0) ∙ length-set b i (get_or b j 0)

contains-get_or : (set : List ℕ) (n : ℕ) → n < length set → contains set (get_or set n 0) ≡ true
contains-get_or [] n h = absurd (omega arith)
contains-get_or (x ∷ xs) zero h = ground arith
contains-get_or (x ∷ xs) (suc n) h = ground (arith, contains-get_or xs n)

count-cons :
    (set : List ℕ) (n : ℕ) {c : ℕ} {rest b : List ℕ}
    → Path (Result GenError (List ℕ)) (ok (c ∷ rest)) (ok b)
    → contains set c ≡ true
    → (length rest ≡ n) × (count (contains set) rest ≡ n)
    → (length b ≡ suc n) × (count (contains set) b ≡ suc n)
count-cons set n e at h = ground arith

-- crypto/rand draws a number below the bound.
abbrev pub Bounded : Rand → Type 0
Bounded r = (k n v : ℕ) → r.int k n ≡ some v → v < n

module _ ⦃rand : Rand⦄ (law : Bounded rand) where
  shuffle_from-count :
      (p : ℕ → Bool) (i : ℕ) (b : List ℕ) (k : ℕ) {b' : List ℕ}
      → (i ≡ 0) ⊎ (i < length b)
      → (shuffle_from i b k).0 ≡ ok b'
      → (count p b' ≡ count p b) × (length b' ≡ length b)
  unfolding shuffle_from
  shuffle_from-count p zero b k h e = ground arith
  shuffle_from-count p (suc i) b k h e = elim (Option-cases (rand.int k (suc i + 1))) [
    | inl none' ↦ absurd (ground arith)
    | inr (j, drawn) ↦
        let inside : suc i < length b = elim h [ inl z ↦ absurd (omega (arith, z)) | inr l ↦ l ] in
        let at : j < length b = omega (arith, law k (suc i + 1) j drawn, inside) in
        let (same, long) =
          shuffle_from-count p i (swap (suc i) j b) (suc k)
            (inr (omega (arith, length-swap (suc i) j b, inside))) (ground arith) in
        (same ∙ count-swap p (suc i) j b inside at, long ∙ length-swap (suc i) j b)
  ]

  pub must_rand_char-at :
      (set : List ℕ) (k : ℕ) {c : ℕ} → (must_rand_char set k).0 ≡ ok c → contains set c ≡ true
  unfolding must_rand_char
  must_rand_char-at set k {c = c} e = elim (Option-cases (rand.int k (length set))) [
    | inl none' ↦ absurd (ground arith)
    | inr (n, drawn) ↦ ground (arith, contains-get_or set n (law k (length set) n drawn))
  ]

  -- The characters drawn for a password are as many as were asked for, each of them from the set.
  pub rand_chars-count :
      (n : ℕ) (set : List ℕ) (k : ℕ) {b : List ℕ}
      → (rand_chars n set k).0 ≡ ok b
      → (length b ≡ n) × (count (contains set) b ≡ n)
  unfolding rand_chars
  rand_chars-count zero set k e = ground arith
  rand_chars-count (suc n) set k e =
      let (c, k1, e1, f1) =
        bind-eq-ok (must_rand_char set) (λ d. rand_chars n set >>= λ rest. pure (d ∷ rest)) k e in
      let (rest, k2, e2, f2) = bind-eq-ok (rand_chars n set) (λ rest. pure (c ∷ rest)) k1 f1 in
      count-cons set n f2 (must_rand_char-at set k (ap (λ x. x.0) e1))
        (rand_chars-count n set k1 (ap (λ x. x.0) e2))

  -- A shuffle that returns has every character as often as before, since each of its swaps has, and
  -- its draws stay inside the password.
  pub shuffle-count :
      (b : List ℕ) (k : ℕ) {b' : List ℕ}
      → (shuffle b k).0 ≡ ok b'
      → (length b' ≡ length b) × ((p : ℕ → Bool) → count p b' ≡ count p b)
  unfolding shuffle
  shuffle-count b k e =
      let inside = elim b as (λ b. (length b - 1 ≡ 0) ⊎ (length b - 1 < length b)) [
        | [] ↦ inl refl
        | x ∷ xs ↦ inr (omega arith)
      ] in
      (
        (shuffle_from-count (λ x. true) (length b - 1) b k inside e).1,
        λ p. (shuffle_from-count p (length b - 1) b k inside e).0,
      )
