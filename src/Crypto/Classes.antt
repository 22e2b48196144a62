-- ===== src/Crypto/Classes.antt =====
-- A password that `GeneratePassword` returns: its length, its characters and its classes.
use mathlib.Core.Path.{subst}
use go_yandex_gophkeeper.Base.Int.{ℤ}
use go_yandex_gophkeeper.Crypto.Coverage.{count, Bounded, must_rand_char-at}
use go_yandex_gophkeeper.Crypto.Charset.{
  charset, filter_chars, contains, PasswordOpts, when, charset_symbols, charset_lower,
  charset_upper, charset_digits,
}
use go_yandex_gophkeeper.Crypto.Generate.{
  overwrite, Rand, GenError, require, must_rand_char, required_chars,
}
use go_yandex_gophkeeper.Base.{
  ℕ, List, ◌-◌, ◌≡◌, ◌||◌, ◌≤◌, ◌++◌, ◌+◌, ◌∷◌, Bool, length, arith, filter, drop, false, refl,
  length-append, Bool-cases, [], suc, zero, true, inl, inr, Result, ◌∙◌, ◌⊎◌, ap, ok, sym,
  bind-eq-ok, pure,
}

module _ (p : ℕ → Bool) where
  count-append : (xs ys : List ℕ) → count p (xs ++ ys) ≡ count p xs + count p ys
  count-append [] ys = omega arith
  count-append (x ∷ xs) ys = omega (arith, count-append xs ys)

  count_bound : (xs : List ℕ) → count p xs ≤ length xs
  count_bound [] = omega arith
  count_bound (x ∷ xs) = ground (arith, count_bound xs)

  count-drop :
      (n : ℕ) (xs : List ℕ) → count p xs ≡ length xs → count p (drop n xs) ≡ length (drop n xs)
  count-drop zero xs h = h
  count-drop (suc n) [] h = refl
  count-drop (suc n) (x ∷ xs) h = count-drop n xs (ground (arith, count_bound xs))

ok_inj : {a b : List ℕ} → Path (Result GenError (List ℕ)) (ok a) (ok b) → a ≡ b
ok_inj h = cc

length-drop : (n : ℕ) (xs : List ℕ) → length (drop n xs) ≡ length xs - n
length-drop zero xs = omega arith
length-drop (suc n) [] = omega arith
length-drop (suc n) (x ∷ xs) = omega (arith, length-drop n xs)

pub overwrite-length :
    (required result : List ℕ)
    → length required ≤ length result
    → length (overwrite required result) ≡ length result
unfolding overwrite
overwrite-length required result h = omega (
  arith,
  length-append required (drop (length required) result),
  length-drop (length required) result,
)

pub overwrite-count :
    (p : ℕ → Bool) (required result : List ℕ)
    → count p required ≤ count p (overwrite required result)
unfolding overwrite
overwrite-count p required result =
    omega (arith, count-append p required (drop (length required) result))

pub overwrite-all :
    (p : ℕ → Bool) (required result : List ℕ)
    → count p required ≡ length required
    → count p result ≡ length result
    → count p (overwrite required result) ≡ length (overwrite required result)
unfolding overwrite
overwrite-all p required result h k = omega (
  arith,
  count-append p required (drop (length required) result),
  length-append required (drop (length required) result),
  count-drop p (length required) result k,
  h,
)

contains-append :
    (xs ys : List ℕ) (c : ℕ) → contains (xs ++ ys) c ≡ (contains xs c || contains ys c)
contains-append [] ys c = refl
contains-append (x ∷ xs) ys c = ground (arith, contains-append xs ys c)

filter-append : (p : ℕ → Bool) (xs ys : List ℕ) → filter p (xs ++ ys) ≡ filter p xs ++ filter p ys
filter-append p [] ys = refl
filter-append p (x ∷ xs) ys = elim (Bool-cases (p x)) [
  | inl e ↦ rw e (rw (filter-append p xs ys) refl)
  | inr e ↦ rw e (filter-append p xs ys)
]

filter_chars-append :
    (b : Bool) (xs ys : List ℕ) → filter_chars b (xs ++ ys) ≡ filter_chars b xs ++ filter_chars b ys
unfolding filter_chars
filter_chars-append false xs ys = refl
filter_chars-append true xs ys = filter-append _ xs ys

filter_chars-when :
    (na b : Bool) (xs : List ℕ) → filter_chars na (when b xs) ≡ when b (filter_chars na xs)
unfolding filter_chars
filter_chars-when false true xs = refl
filter_chars-when true true xs = refl
filter_chars-when false false xs = refl
filter_chars-when true false xs = refl

-- No symbol is ambiguous.
filter_chars-symbols : (na : Bool) → filter_chars na charset_symbols ≡ charset_symbols
unfolding filter_chars
filter_chars-symbols false = refl
filter_chars-symbols true = refl

-- The set is made of the classes from which the guaranteed characters are drawn.
charset_by_class :
    (n : ℤ) (u d s na : Bool)
    → charset (record { length = n; upper = u; digits = d; symbols = s; no_ambiguous = na })
      ≡ filter_chars na charset_lower
        ++ when u (filter_chars na charset_upper)
        ++ when d (filter_chars na charset_digits)
        ++ when s charset_symbols
unfolding charset
charset_by_class n u d s na =
    filter_chars-append na (charset_lower ++ when u charset_upper ++ when d charset_digits)
      (when s charset_symbols)
    ∙ ap (λ t. t ++ filter_chars na (when s charset_symbols))
        (filter_chars-append na (charset_lower ++ when u charset_upper) (when d charset_digits)
          ∙ ap (λ t. t ++ filter_chars na (when d charset_digits))
              (filter_chars-append na charset_lower (when u charset_upper)))
    ∙ rw
        (
          filter_chars-when na u charset_upper,
          filter_chars-when na d charset_digits,
          filter_chars-when na s charset_symbols,
          filter_chars-symbols na,
        )
        refl

charset_classes :
    (o : PasswordOpts)
    → charset o
      ≡ filter_chars o.no_ambiguous charset_lower
        ++ when o.upper (filter_chars o.no_ambiguous charset_upper)
        ++ when o.digits (filter_chars o.no_ambiguous charset_digits)
        ++ when o.symbols charset_symbols
charset_classes o = charset_by_class o.length o.upper o.digits o.symbols o.no_ambiguous

-- The classes that are enabled.
abbrev pub lower_class : PasswordOpts → List ℕ
lower_class o = filter_chars o.no_ambiguous charset_lower

abbrev pub upper_class : PasswordOpts → List ℕ
upper_class o = when o.upper (filter_chars o.no_ambiguous charset_upper)

abbrev pub digit_class : PasswordOpts → List ℕ
digit_class o = when o.digits (filter_chars o.no_ambiguous charset_digits)

abbrev pub symbol_class : PasswordOpts → List ℕ
symbol_class o = when o.symbols charset_symbols

-- A class that is enabled has a character in the password.
abbrev pub Covers : List ℕ → List ℕ → Type 0
Covers password class = (class ≡ []) ⊎ (1 ≤ count (contains class) password)

-- `out` has what `required` has, and a character of `set` besides, unless `set` is empty; `q` holds of
-- all characters of `out` if it holds of all of `required`.
record Gains (q : ℕ → Bool) (set required out : List ℕ) : Type 0 where
  short : length out ≤ length required + 1
  mono : (p : ℕ → Bool) → count p required ≤ count p out
  all : count q required ≡ length required → count q out ≡ length out
  hit : (set ≡ []) ⊎ (1 ≤ count (contains set) out)

Gains-none : (q : ℕ → Bool) (required : List ℕ) → Gains q [] required required
Gains-none q required = record {
  short = omega arith;
  mono = λ p. omega arith;
  all = λ h. h;
  hit = inl refl;
}

Gains-one :
    (q : ℕ → Bool) (set required : List ℕ) (d : ℕ)
    → contains set d ≡ true
    → q d ≡ true
    → Gains q set required (required ++ d ∷ [])
Gains-one q set required d at h = record {
  short = omega (arith, length-append required (d ∷ []));
  mono = λ p. omega (arith, count-append p required (d ∷ []));
  all = λ k. ground (arith, count-append q required (d ∷ []), length-append required (d ∷ []));
  hit = inr (ground (arith, count-append (contains set) required (d ∷ [])));
}

Covers-Gains :
    (q : ℕ → Bool) {set required out : List ℕ}
    → Gains q set required out
    → (s : List ℕ) → Covers required s
    → Covers out s
Covers-Gains q g s h = elim h [
  | inl e ↦ inl e
  | inr n ↦ inr (omega (arith, n, g.mono (contains s)))
]

chain-Gains :
    (q : ℕ → Bool) (a b c d : List ℕ) {r0 r1 r2 out : List ℕ}
    → Gains q a [] r0
    → Gains q b r0 r1
    → Gains q c r1 r2
    → Gains q d r2 out
    → (length out ≤ 4)
      × (count q out ≡ length out)
      × Covers out a
      × Covers out b
      × Covers out c
      × Covers out d
chain-Gains q a b c d g0 g1 g2 g3 = (
  omega (arith, g0.short, g1.short, g2.short, g3.short),
  g3.all (g2.all (g1.all (g0.all refl))),
  Covers-Gains q g3 a (Covers-Gains q g2 a (Covers-Gains q g1 a g0.hit)),
  Covers-Gains q g3 b (Covers-Gains q g2 b g1.hit),
  Covers-Gains q g3 c g2.hit,
  g3.hit,
)

-- Each class is part of the set.
module _ (o : PasswordOpts) (c : ℕ) where
  charset-contains : contains (charset o) c ≡ (
      contains (lower_class o) c
      || contains (upper_class o) c
      || contains (digit_class o) c
      || contains (symbol_class o) c)
  charset-contains = rw (charset_classes o) (
      rw
        (
          contains-append (lower_class o ++ upper_class o ++ digit_class o) (symbol_class o) c,
          contains-append (lower_class o ++ upper_class o) (digit_class o) c,
          contains-append (lower_class o) (upper_class o) c,
        )
        refl)

  lower_inside : contains (lower_class o) c ≡ true → contains (charset o) c ≡ true
  lower_inside h = ground (arith, charset-contains)

  upper_inside : contains (upper_class o) c ≡ true → contains (charset o) c ≡ true
  upper_inside h = ground (arith, charset-contains)

  digit_inside : contains (digit_class o) c ≡ true → contains (charset o) c ≡ true
  digit_inside h = ground (arith, charset-contains)

  symbol_inside : contains (symbol_class o) c ≡ true → contains (charset o) c ≡ true
  symbol_inside h = ground (arith, charset-contains)

lower_inhabited : (na : Bool) → (c : ℕ) × (cs : List ℕ) × (filter_chars na charset_lower ≡ c ∷ cs)
unfolding filter_chars
lower_inhabited false = (_, _, refl)
lower_inhabited true = (_, _, refl)

pub charset_inhabited : (o : PasswordOpts) → (c : ℕ) × (cs : List ℕ) × (charset o ≡ c ∷ cs)
charset_inhabited o =
    let (c, cs, e) = lower_inhabited o.no_ambiguous in
    (
      c,
      cs ++ upper_class o ++ digit_class o ++ symbol_class o,
      charset_classes o ∙ ap (λ t. t ++ upper_class o ++ digit_class o ++ symbol_class o) e,
    )

-- What `require` adds: nothing for an empty class, else one character of the class.
module _ ⦃rand : Rand⦄ (law : Bounded rand) where
  require-shape :
      (set required : List ℕ) (k : ℕ) {out : List ℕ}
      → (require set required k).0 ≡ ok out
      → ((set ≡ []) × (out ≡ required))
        ⊎ ((d : ℕ) × (contains set d ≡ true) × (out ≡ required ++ d ∷ []))
  unfolding require
  require-shape [] required k e = inl (refl, sym (ok_inj e))
  require-shape (c ∷ cs) required k e =
      let (d, k1, e1, f1) =
        bind-eq-ok (must_rand_char (c ∷ cs)) (λ d. pure (required ++ d ∷ [])) k e in
      inr (d, must_rand_char-at law (c ∷ cs) k (ap (λ x. x.0) e1), sym (ok_inj f1))

  require-Gains :
      (q : ℕ → Bool) (set required : List ℕ) (k : ℕ) {out : List ℕ}
      → ((c : ℕ) → contains set c ≡ true → q c ≡ true)
      → (require set required k).0 ≡ ok out
      → Gains q set required out
  require-Gains q set required k {out = out} inside e = elim (require-shape set required k e) [
    | inl (empty, same) ↦
        subst (λ s. Gains q s required out) (sym empty)
          (subst (Gains q [] required) (sym same) (Gains-none q required))
    | inr (d, at, more) ↦
        subst (Gains q set required) (sym more) (Gains-one q set required d at (inside d at))
  ]

  pub required_chars-Gains :
      (o : PasswordOpts) (k : ℕ) {out : List ℕ}
      → (required_chars o k).0 ≡ ok out
      → (length out ≤ 4)
        × (count (contains (charset o)) out ≡ length out)
        × Covers out (lower_class o)
        × Covers out (upper_class o)
        × Covers out (digit_class o)
        × Covers out (symbol_class o)
  unfolding required_chars
  required_chars-Gains o k e =
      let q = contains (charset o) in
      let (r0, k0, e0, f0) = bind-eq-ok (require (lower_class o) []) _ k e in
      let (r1, k1, e1, f1) = bind-eq-ok (require (upper_class o) r0) _ k0 f0 in
      let (r2, k2, e2, f2) = bind-eq-ok (require (digit_class o) r1) _ k1 f1 in
      chain-Gains q (lower_class o) (upper_class o) (digit_class o) (symbol_class o)
        (require-Gains q (lower_class o) [] k (lower_inside o) (ap (λ x. x.0) e0))
        (require-Gains q (upper_class o) r0 k0 (upper_inside o) (ap (λ x. x.0) e1))
        (require-Gains q (digit_class o) r1 k1 (digit_inside o) (ap (λ x. x.0) e2))
        (require-Gains q (symbol_class o) r2 k2 (symbol_inside o) f2)
