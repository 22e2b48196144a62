-- ===== src/Server/Pages.antt =====
-- The pages of `vaultRepo.List`, and the cursor from one to the next.
pub mod Page
use native.Mathlib.Numerals.{add-one}
use native.Mathlib.Decide.{dec_le}
use go_yandex_gophkeeper.Base.{
  ℕ, ◌≡◌, refl, Bool, false, List, ◌∷◌, ◌+◌, ◌≤◌, true, All, arith, length, get_elem?, take, filter,
  Bool-cases, ok, [], none, suc, inl, zero, inr, length-take, Option, ◌==◌, some, sym, ◌∙◌, Result,
  ◌⊎◌, Option-cases, ◌<◌, ◌++◌, ◌||◌, not, str_eq, eq_iff, ltb,
}
use go_yandex_gophkeeper.Base.Int.{ℤ, pos, negsuc}
use go_yandex_gophkeeper.Server.Storage.{VaultItem, ListFilter, Error}
use go_yandex_gophkeeper.Server.World.{Env, World}
use go_yandex_gophkeeper.Server.Postgres.Items
use go_yandex_gophkeeper.Server.Postgres.Items.{
  listed, precedes, order_by, insert_sorted, paginate, page_limit, rows, after_cursor, cursor_of,
}

module _ {A : Type 0} where
  pub take_short : (n : ℕ) (xs : List A) → length xs ≤ n → take n xs ≡ xs
  take_short zero [] h = refl
  take_short zero (x ∷ xs) h = absurd (omega arith)
  take_short (suc n) [] h = refl
  take_short (suc n) (x ∷ xs) h = rw (take_short n xs (omega arith))

  get_elem?_short : (n : ℕ) (xs : List A) → length xs ≤ n → get_elem? xs n ≡ none
  get_elem?_short n [] h = refl
  get_elem?_short zero (x ∷ xs) h = absurd (omega arith)
  get_elem?_short (suc n) (x ∷ xs) h = get_elem?_short n xs (omega arith)

  take-take_longer : (n : ℕ) (xs : List A) → take n (take (suc n) xs) ≡ take n xs
  take-take_longer zero xs = refl
  take-take_longer (suc n) [] = refl
  take-take_longer (suc n) (x ∷ xs) = rw (take-take_longer n xs)

  get_elem?-take_longer : (n : ℕ) (xs : List A) → get_elem? (take (suc n) xs) n ≡ get_elem? xs n
  get_elem?-take_longer n [] = refl
  get_elem?-take_longer zero (x ∷ xs) = refl
  get_elem?-take_longer (suc n) (x ∷ xs) = get_elem?-take_longer n xs

  pub All-take {κ} : (P : A → Type κ) (n : ℕ) (xs : List A) → All P xs → All P (take n xs)
  All-take P zero xs h = tt
  All-take P (suc n) [] h = tt
  All-take P (suc n) (x ∷ xs) h = (h.0, All-take P n xs h.1)

-- A page is the first `limit` rows, and the cursor is the row behind them, if there is one.
paginate-take :
    (limit : ℕ) (xs : List VaultItem)
    → paginate limit (take (limit + 1) xs) ≡ (take limit xs, cursor_of (get_elem? xs limit))
unfolding paginate
paginate-take limit xs = rw add-one (elim (dec_le (length xs) limit) [
  | yes short ↦
      rw
        (
          take_short (suc limit) xs (omega arith),
          take_short limit xs short,
          get_elem?_short limit xs short,
        )
        (ground arith)
  | no long ↦
      rw (take-take_longer limit xs, get_elem?-take_longer limit xs)
        (ground (arith, length-take (suc limit) xs))
])

-- Every row comes before those behind it.
abbrev pub IsOrdered : List VaultItem → Type 0
IsOrdered [] = Unit
IsOrdered (x ∷ xs) = All (λ y. precedes x y ≡ true) xs × IsOrdered xs

module _ (P : VaultItem → Type 0) where
  All-insert_sorted :
      (x : VaultItem) (xs : List VaultItem) → P x → All P xs → All P (insert_sorted x xs)
  unfolding insert_sorted
  All-insert_sorted x [] h hs = (h, tt)
  All-insert_sorted x (y ∷ ys) h hs = elim (Bool-cases (precedes x y)) [
    | inl first ↦ rw first (h, hs)
    | inr later ↦ rw later (hs.0, All-insert_sorted x ys h hs.1)
  ]

  pub All-order_by : (xs : List VaultItem) → All P xs → All P (order_by xs)
  unfolding order_by
  All-order_by [] h = tt
  All-order_by (x ∷ xs) h = All-insert_sorted x (order_by xs) h.0 (All-order_by xs h.1)

precedes_trans :
    (x y : VaultItem) (zs : List VaultItem)
    → precedes x y ≡ true
    → All (λ z. precedes y z ≡ true) zs
    → All (λ z. precedes x z ≡ true) zs
precedes_trans x y [] h hs = tt
precedes_trans x y (z ∷ zs) h hs = (ground arith, precedes_trans x y zs h hs.1)

precedes_total : (x y : VaultItem) → precedes x y ≡ false → precedes y x ≡ true
precedes_total x y h = ground arith

IsOrdered-insert_sorted :
    (x : VaultItem) (xs : List VaultItem) → IsOrdered xs → IsOrdered (insert_sorted x xs)
unfolding insert_sorted
IsOrdered-insert_sorted x [] h = (tt, tt)
IsOrdered-insert_sorted x (y ∷ ys) h = elim (Bool-cases (precedes x y)) [
  | inl first ↦ rw first ((first, precedes_trans x y ys first h.0), h)
  | inr later ↦
      rw later
        (All-insert_sorted _ x ys (precedes_total x y later) h.0, IsOrdered-insert_sorted x ys h.1)
]

pub IsOrdered-order_by : (xs : List VaultItem) → IsOrdered (order_by xs)
unfolding order_by
IsOrdered-order_by [] = tt
IsOrdered-order_by (x ∷ xs) = IsOrdered-insert_sorted x (order_by xs) (IsOrdered-order_by xs)

pub IsOrdered-take : (n : ℕ) (xs : List VaultItem) → IsOrdered xs → IsOrdered (take n xs)
IsOrdered-take zero xs h = tt
IsOrdered-take (suc n) [] h = tt
IsOrdered-take (suc n) (x ∷ xs) h = (All-take _ n xs h.0, IsOrdered-take n xs h.1)

pub All-filter : (p : VaultItem → Bool) (xs : List VaultItem) → All (λ i. p i ≡ true) (filter p xs)
All-filter p [] = tt
All-filter p (x ∷ xs) = elim (Bool-cases (p x)) [
  | inl e ↦ rw e (e, All-filter p xs)
  | inr e ↦ rw e (All-filter p xs)
]

-- All rows that the filter asks for, in order.
abbrev pub matching : ℕ → ListFilter → List VaultItem → List VaultItem
matching user f items = order_by (filter (listed user f) items)

-- `List`, when the database answers and its rows are read to the end: the page is the first rows of those that the filter asks for,
-- in order of update and ID, and the cursor is the ID of the first row that is left out.
pub list_lem :
    ⦃env : Env⦄ (user : ℕ) (f : ListFilter) (w : World)
    → env.down w.db.queries ≡ false
    → env.breaks w.db.queries ≡ none
    → (Items.list user f w).0
      ≡ ok (
        take (page_limit f.limit) (matching user f w.db.items),
        cursor_of (get_elem? (matching user f w.db.items) (page_limit f.limit)),
      )
unfolding Items.list
list_lem user f w up whole =
    rw (up, whole) (rw (paginate-take (page_limit f.limit) (matching user f w.db.items)) refl)

pub All-weaken :
    (P Q : VaultItem → Type 0)
    → ((i : VaultItem) → P i → Q i)
    → (xs : List VaultItem) → All P xs
    → All Q xs
All-weaken P Q f [] h = tt
All-weaken P Q f (x ∷ xs) h = (f x h.0, All-weaken P Q f xs h.1)

cursor_of-some :
    (o : Option VaultItem) {c : ℕ}
    → cursor_of o ≡ some c
    → (i : VaultItem) × (o ≡ some i) × (i.id ≡ c)
cursor_of-some none h = cc
cursor_of-some (some i) h = (i, refl, cc)

ok-pair_inj :
    {page page' : List VaultItem} {next next' : Option ℕ}
    → Path (Result Error (List VaultItem × Option ℕ)) (ok (page, next)) (ok (page', next'))
    → (page ≡ page') × (next ≡ next')
ok-pair_inj h = (cc, cc)

list-eq-ok :
    ⦃env : Env⦄ (user : ℕ) (f : ListFilter) (w : World) {page : List VaultItem} {next : Option ℕ}
    → env.down w.db.queries ≡ false
    → env.breaks w.db.queries ≡ none
    → (Items.list user f w).0 ≡ ok (page, next)
    → (page ≡ take (page_limit f.limit) (matching user f w.db.items))
      × (next ≡ cursor_of (get_elem? (matching user f w.db.items) (page_limit f.limit)))
list-eq-ok user f w up whole h = ok-pair_inj (sym h ∙ list_lem user f w up whole)

listed-after :
    (user : ℕ) (f : ListFilter) (c : ℕ) (i : VaultItem)
    → listed user (record f { cursor = some c }) i ≡ true
    → (i.id == c) ≡ false
listed-after user f c i h = ground arith

-- The page that is asked for with the cursor of the page before it leaves out the item that this
-- cursor names, and the page before it left it out too: it was behind the last item of that page.
-- Both pages are read to the end.
pub cursor_skips :
    ⦃env : Env⦄ (user : ℕ) (f : ListFilter) (w w' : World) (page page' : List VaultItem) (c : ℕ)
    (next : Option ℕ)
    → env.down w.db.queries ≡ false
    → env.down w'.db.queries ≡ false
    → env.breaks w.db.queries ≡ none
    → env.breaks w'.db.queries ≡ none
    → (Items.list user f w).0 ≡ ok (page, some c)
    → (Items.list user (record f { cursor = some c }) w').0 ≡ ok (page', next)
    → ((i : VaultItem) × (get_elem? (matching user f w.db.items) (page_limit f.limit) ≡ some i)
        × (i.id ≡ c)
        × (page ≡ take (page_limit f.limit) (matching user f w.db.items)))
      × All (λ i. (i.id == c) ≡ false) page'
cursor_skips user f w w' page page' c next up up' whole whole' first second =
    let (cut, behind) = list-eq-ok user f w up whole first in
    let (i, at, named) = cursor_of-some _ (sym behind) in
    let f' : ListFilter = record f { cursor = some c } in
    let (cut', _) = list-eq-ok user f' w' up' whole' second in
    (
      (i, at, named, cut),
      rw cut' (
          All-weaken _ _ (listed-after user f c) _ (
            All-take _ (page_limit f.limit) _ (
              All-order_by _ (filter (listed user f') w'.db.items)
                (All-filter (listed user f') w'.db.items)))),
    )
