-- ===== src/Client/Tui/Sorting.antt =====
-- internal/client/tui/app.go: the two nested loops by which `buildSidebar` and `filteredItems` sort,
-- `for i { for j > i { if less(xs[j], xs[i]) { swap } } }`.
use go_yandex_gophkeeper.Base.{
  Bool, false, List, [], ◌∷◌, ℕ, zero, suc, ◌≡◌, if◌then◌else◌, length, All, refl, arith,
  Bool-cases, true, ◌≤◌, inl, inr, any, ◌||◌,
}
use mathlib.Core.List.Perm
use mathlib.Core.List.{Perm}

-- A strict order in which what is not before the next is not before the one after it either.
pub record Order {ℓ} {A : Type ℓ} (less : A → A → Bool) : Type ℓ where
  pub asym : (x y : A) → less x y ≡ true → less y x ≡ false
  pub trans : (x y z : A) → less x y ≡ false → less y z ≡ false → less x z ≡ false

module _ {ℓ} {A : Type ℓ} (less : A → A → Bool) where
  -- The inner loop: what stands at place i in the end, and what stands after it.
  unfoldable pub inner_loop : A → List A → A × List A
  inner_loop x [] = (x, [])
  inner_loop x (y ∷ ys) =
      let (m, rest) = inner_loop (if less y x then y else x) ys in
      (m, (if less y x then x else y) ∷ rest)

  -- The outer loop, for the places from i on.
  unfoldable pub outer_loop : ℕ → List A → List A
  unfolding inner_loop
  outer_loop zero xs = xs
  outer_loop (suc n) [] = []
  outer_loop (suc n) (x ∷ xs) = let (m, rest) = inner_loop x xs in m ∷ outer_loop n rest

  unfoldable pub exchange_sort : List A → List A
  unfolding outer_loop
  exchange_sort xs = outer_loop (length xs) xs

  length-inner_loop : (x : A) (xs : List A) → length (inner_loop x xs).1 ≡ length xs
  unfolding inner_loop
  length-inner_loop x [] = refl
  length-inner_loop x (y ∷ ys) = omega (arith, length-inner_loop (if less y x then y else x) ys)

  -- No element of a list comes before the one in front of it.
  abbrev pub NoneBefore : A → List A → Type 0
  NoneBefore x ys = All (λ y. less y x ≡ false) ys

  abbrev pub IsSorted : List A → Type 0
  IsSorted [] = Unit
  IsSorted (x ∷ xs) = NoneBefore x xs × IsSorted xs

  swapped :
      (x y : A) (ys : List A)
      → less y x ≡ true
      → inner_loop x (y ∷ ys) ≡ ((inner_loop y ys).0, x ∷ (inner_loop y ys).1)
  unfolding inner_loop
  swapped x y ys e = rw e refl

  stayed :
      (x y : A) (ys : List A)
      → less y x ≡ false
      → inner_loop x (y ∷ ys) ≡ ((inner_loop x ys).0, y ∷ (inner_loop x ys).1)
  unfolding inner_loop
  stayed x y ys e = rw e refl

  -- The loops move elements, and nothing else.
  inner_loop-perm :
      (x : A) (xs : List A) → Perm ((inner_loop x xs).0 ∷ (inner_loop x xs).1) (x ∷ xs)
  inner_loop-perm x [] = unfold inner_loop in Perm.rfl
  inner_loop-perm x (y ∷ ys) = elim (Bool-cases (less y x)) [
    | inl e ↦
        rw (swapped x y ys e) (Perm.trans (Perm.swap _ _ _) (Perm.cons x (inner_loop-perm y ys)))
    | inr e ↦ rw (stayed x y ys e) (
        Perm.trans (Perm.swap _ _ _)
          (Perm.trans (Perm.cons y (inner_loop-perm x ys)) (Perm.swap _ _ _)))
  ]

  outer_loop-perm : (n : ℕ) (xs : List A) → Perm (outer_loop n xs) xs
  unfolding outer_loop
  outer_loop-perm zero xs = Perm.rfl
  outer_loop-perm (suc n) [] = Perm.rfl
  outer_loop-perm (suc n) (x ∷ xs) =
      Perm.trans (Perm.cons _ (outer_loop-perm n (inner_loop x xs).1)) (inner_loop-perm x xs)

  -- A test that some element passes is passed by some element afterwards, and the other way round.
  any-inner_loop :
      (p : A → Bool) (x : A) (xs : List A)
      → p (inner_loop x xs).0 || any p (inner_loop x xs).1 ≡ p x || any p xs
  any-inner_loop p x [] = unfold inner_loop in refl
  any-inner_loop p x (y ∷ ys) = elim (Bool-cases (less y x)) [
    | inl e ↦ rw (swapped x y ys e) (ground (arith, any-inner_loop p y ys))
    | inr e ↦ rw (stayed x y ys e) (ground (arith, any-inner_loop p x ys))
  ]

  any-outer_loop : (p : A → Bool) (n : ℕ) (xs : List A) → any p (outer_loop n xs) ≡ any p xs
  unfolding outer_loop
  any-outer_loop p zero xs = refl
  any-outer_loop p (suc n) [] = refl
  any-outer_loop p (suc n) (x ∷ xs) =
      rw (any-outer_loop p n (inner_loop x xs).1) (any-inner_loop p x xs)

  pub any-exchange_sort : (p : A → Bool) (xs : List A) → any p (exchange_sort xs) ≡ any p xs
  unfolding exchange_sort
  any-exchange_sort p xs = any-outer_loop p (length xs) xs

  -- What holds of every element holds of every element afterwards.
  module _ {κ} (P : A → Type κ) where
    All-inner_loop :
        (x : A) (xs : List A) → P x → All P xs → P (inner_loop x xs).0 × All P (inner_loop x xs).1
    All-inner_loop x [] p h = unfold inner_loop in (p, h)
    All-inner_loop x (y ∷ ys) p (q, h) = elim (Bool-cases (less y x)) [
      | inl e ↦ let (a, b) = All-inner_loop y ys q h in rw (swapped x y ys e) (a, (p, b))
      | inr e ↦ let (a, b) = All-inner_loop x ys p h in rw (stayed x y ys e) (a, (q, b))
    ]

    All-outer_loop : (n : ℕ) (xs : List A) → All P xs → All P (outer_loop n xs)
    unfolding outer_loop
    All-outer_loop zero xs h = h
    All-outer_loop (suc n) [] h = h
    All-outer_loop (suc n) (x ∷ xs) (p, h) =
        let (a, b) = All-inner_loop x xs p h in (a, All-outer_loop n (inner_loop x xs).1 b)

  module _ (order : Order less) where
    inner_loop-first :
        (x : A) (xs : List A)
        → NoneBefore (inner_loop x xs).0 (inner_loop x xs).1 × (less x (inner_loop x xs).0 ≡ false)
    inner_loop-first x [] =
        unfold inner_loop in
        (tt, elim (Bool-cases (less x x)) [ inl e ↦ order.asym x x e | inr e ↦ e ])
    inner_loop-first x (y ∷ ys) = elim (Bool-cases (less y x)) [
      | inl e ↦
          let (a, b) = inner_loop-first y ys in
          let c = order.trans x y (inner_loop y ys).0 (order.asym y x e) b in
          rw (swapped x y ys e) ((c, a), c)
      | inr e ↦
          let (a, b) = inner_loop-first x ys in
          rw (stayed x y ys e) ((order.trans y x (inner_loop x ys).0 e b, a), b)
    ]

    outer_loop-IsSorted : (n : ℕ) (xs : List A) → length xs ≤ n → IsSorted (outer_loop n xs)
    unfolding outer_loop
    outer_loop-IsSorted zero [] h = tt
    outer_loop-IsSorted zero (x ∷ xs) h = absurd (omega arith)
    outer_loop-IsSorted (suc n) [] h = tt
    outer_loop-IsSorted (suc n) (x ∷ xs) h = (
      All-outer_loop (λ y. less y (inner_loop x xs).0 ≡ false) n (inner_loop x xs).1
          (inner_loop-first x xs).0,
      outer_loop-IsSorted n (inner_loop x xs).1 (omega (arith, length-inner_loop x xs)),
    )

    -- The two loops sort.
    pub exchange_sort_sorts :
        (xs : List A) → Perm (exchange_sort xs) xs × IsSorted (exchange_sort xs)
    unfolding exchange_sort
    exchange_sort_sorts xs =
        (outer_loop-perm (length xs) xs, outer_loop-IsSorted (length xs) xs (omega arith))
