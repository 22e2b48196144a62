-- ===== src/Server/Pages/Page.antt =====
-- What a page of `vaultRepo.List` holds, in the words of the request.
use mathlib.Core.List.Perm
use mathlib.Core.List.{Perm}
use go_yandex_gophkeeper.Base.{
  ℕ, ◌≡◌, refl, Bool, false, List, ◌∷◌, ◌≤◌, true, All, arith, length, get_elem?, take, filter,
  Bool-cases, ok, [], none, suc, inl, zero, inr, length-take, Option, some, ◌⊎◌, Option-cases, ◌<◌,
  ◌++◌, ◌||◌, not, str_eq, eq_iff, ltb,
}
use go_yandex_gophkeeper.Base.Int.{ℤ, pos, negsuc}
use go_yandex_gophkeeper.Server.Storage.{VaultItem, ListFilter}
use go_yandex_gophkeeper.Server.World.{Env, World}
use go_yandex_gophkeeper.Server.Postgres.Items
use go_yandex_gophkeeper.Server.Postgres.Items.{
  listed, precedes, order_by, insert_sorted, paginate, page_limit, rows, cursor_of, after_cursor,
}
use go_yandex_gophkeeper.Server.Pages.{
  matching, list_lem, IsOrdered, IsOrdered-take, IsOrdered-order_by, All-filter, All-weaken,
  All-take, All-order_by, take_short,
}

last_page :
    (limit : ℕ) (xs : List VaultItem) → cursor_of (get_elem? xs limit) ≡ none → take limit xs ≡ xs
last_page limit [] h = take_short limit [] (omega arith)
last_page zero (x ∷ xs) h = cc
last_page (suc n) (x ∷ xs) h = rw (last_page n xs h) refl

full :
    (n : ℕ) (xs : List VaultItem) (i : VaultItem) → get_elem? xs n ≡ some i → length (take n xs) ≡ n
full n [] i h = absurd (cc)
full zero (x ∷ xs) i h = refl
full (suc n) (x ∷ xs) i h = omega (arith, full n xs i h)

-- The size of a page, by the limit of the request.
abbrev pub SizeFor : ℤ → ℕ → Type 0
SizeFor (negsuc k) n = n ≡ 50
SizeFor (pos k) n = ((1 ≤ k) × (k ≤ 200) × (n ≡ k)) ⊎ (((k ≡ 0) ⊎ (200 < k)) × (n ≡ 50))

page_limit-SizeFor : (limit : ℤ) → SizeFor limit (page_limit limit)
unfolding page_limit
page_limit-SizeFor (negsuc k) = refl
page_limit-SizeFor (pos zero) = inr (inl refl, refl)
page_limit-SizeFor (pos (suc k)) = elim (Bool-cases (ltb 200 (suc k))) [
  | inl e ↦ rw e (inr (inr (ground arith), refl))
  | inr e ↦ rw e (inl (omega arith, ground arith, refl))
]

abbrev pub Behind : Option ℕ → ℕ → Type 0
Behind none id = Unit
Behind (some c) id = c < id

-- An item that a request of the user asks for.
pub record Wanted (user : ℕ) (f : ListFilter) (i : VaultItem) : Type 0 where
  pub own : i.user_id ≡ user
  pub typed : (f.type_filter ≡ "") ⊎ (i.type ≡ f.type_filter)
  pub behind : Behind f.cursor i.id

Behind-after_cursor : (c : Option ℕ) (i : VaultItem) → after_cursor c i ≡ true → Behind c i.id
Behind-after_cursor none i h = tt
Behind-after_cursor (some c) i h = ground arith

after_cursor-Behind : (c : Option ℕ) (i : VaultItem) → Behind c i.id → after_cursor c i ≡ true
after_cursor-Behind none i h = refl
after_cursor-Behind (some c) i h = ground arith

listed-Wanted :
    (user : ℕ) (f : ListFilter) (i : VaultItem) → listed user f i ≡ true → Wanted user f i
listed-Wanted user f i h = record {
  own = ground arith;
  typed = elim (Bool-cases (str_eq f.type_filter "")) [
    | inl e ↦ inl ((eq_iff f.type_filter "").0 e)
    | inr e ↦ inr ((eq_iff i.type f.type_filter).0 (ground arith))
  ];
  behind = Behind-after_cursor f.cursor i (ground arith);
}

typed-listed :
    (f : ListFilter) (i : VaultItem)
    → (f.type_filter ≡ "") ⊎ (i.type ≡ f.type_filter)
    → str_eq f.type_filter "" || str_eq i.type f.type_filter ≡ true
typed-listed f i (inl e) = let t = (eq_iff f.type_filter "").1 e in ground arith
typed-listed f i (inr e) = let t = (eq_iff i.type f.type_filter).1 e in ground arith

Wanted-listed :
    (user : ℕ) (f : ListFilter) (i : VaultItem) → Wanted user f i → listed user f i ≡ true
Wanted-listed user f i h =
    let a = after_cursor-Behind f.cursor i h.behind in
    let t = typed-listed f i h.typed in let o = h.own in ground arith

-- The order by update, the latest first, and then by ID: no item of a page comes before another
-- that was updated later, or at the same time with a smaller ID.
abbrev pub Before : VaultItem → VaultItem → Type 0
Before a b = (b.updated_at < a.updated_at) ⊎ ((a.updated_at ≡ b.updated_at) × (a.id ≤ b.id))

precedes-Before : (a b : VaultItem) → precedes a b ≡ true → Before a b
precedes-Before a b h = elim (Bool-cases (ltb b.updated_at a.updated_at)) [
  | inl e ↦ inl (ground arith)
  | inr e ↦ inr (ground arith, ground arith)
]

abbrev pub InOrder : List VaultItem → Type 0
InOrder [] = Unit
InOrder (x ∷ xs) = All (Before x) xs × InOrder xs

IsOrdered-InOrder : (xs : List VaultItem) → IsOrdered xs → InOrder xs
IsOrdered-InOrder [] h = tt
IsOrdered-InOrder (x ∷ xs) h =
    (All-weaken _ _ (λ y. precedes-Before x y) xs h.0, IsOrdered-InOrder xs h.1)

insert_sorted-Perm : (x : VaultItem) (xs : List VaultItem) → Perm (insert_sorted x xs) (x ∷ xs)
unfolding insert_sorted
insert_sorted-Perm x [] = Perm.rfl
insert_sorted-Perm x (y ∷ ys) = elim (Bool-cases (precedes x y)) [
  | inl e ↦ rw e Perm.rfl
  | inr e ↦ rw e (Perm.trans (Perm.cons y (insert_sorted-Perm x ys)) (Perm.swap _ _ _))
]

order_by-Perm : (xs : List VaultItem) → Perm (order_by xs) xs
unfolding order_by
order_by-Perm [] = Perm.rfl
order_by-Perm (x ∷ xs) =
    Perm.trans (insert_sorted-Perm x (order_by xs)) (Perm.cons x (order_by-Perm xs))

-- The rows that are left out are not asked for.
abbrev pub Unwanted : ℕ → ListFilter → VaultItem → Type 0
Unwanted user f i = ¬ Wanted user f i

unlisted-Unwanted :
    (user : ℕ) (f : ListFilter) (i : VaultItem) → not (listed user f i) ≡ true → Unwanted user f i
unlisted-Unwanted user f i h k = let l = Wanted-listed user f i k in ground arith

middle : (x : VaultItem) (xs ys : List VaultItem) → Perm (xs ++ x ∷ ys) (x ∷ xs ++ ys)
middle x [] ys = Perm.rfl
middle x (y ∷ xs) ys = Perm.trans (Perm.cons y (middle x xs ys)) (Perm.swap _ _ _)

filter-Perm :
    (p : VaultItem → Bool) (xs : List VaultItem)
    → Perm (filter p xs ++ filter (λ i. not (p i)) xs) xs
filter-Perm p [] = Perm.rfl
filter-Perm p (x ∷ xs) = elim (Bool-cases (p x)) [
  | inl e ↦ rw e (Perm.cons x (filter-Perm p xs))
  | inr e ↦ rw e (Perm.trans (middle x (filter p xs) _) (Perm.cons x (filter-Perm p xs)))
]

-- All items that the request asks for are in the page: the others are not asked for.
pub record HasAll (user : ℕ) (f : ListFilter) (items page : List VaultItem) : Type 0 where
  pub rest : List VaultItem
  pub all : Perm (page ++ rest) items
  pub others : All (Unwanted user f) rest

matching-HasAll :
    (user : ℕ) (f : ListFilter) (items : List VaultItem)
    → HasAll user f items (matching user f items)
matching-HasAll user f items = record {
  rest = filter (λ i. not (listed user f i)) items;
  all =
      Perm.trans (Perm.append_right _ (order_by-Perm (filter (listed user f) items)))
        (filter-Perm (listed user f) items);
  others =
      All-weaken _ _ (unlisted-Unwanted user f) _ (All-filter (λ i. not (listed user f i)) items);
}

last_or_full :
    (user : ℕ) (f : ListFilter) (items : List VaultItem) (limit : ℕ) (xs : List VaultItem)
    → HasAll user f items xs
    → ((cursor_of (get_elem? xs limit) ≡ none) × HasAll user f items (take limit xs))
      ⊎ ((i : VaultItem) × (cursor_of (get_elem? xs limit) ≡ some i.id)
          × (length (take limit xs) ≡ limit))
last_or_full user f items limit xs h = elim (Option-cases (get_elem? xs limit)) [
  | inl e ↦
      let c : cursor_of (get_elem? xs limit) ≡ none = rw e refl in
      inl (c, rw (last_page limit xs c) h)
  | inr (i, e) ↦ inr (i, rw e refl, full limit xs i e)
]

-- A page of `List` whose rows are read to the end has at most the number of items that was asked for
-- (50 where the request asks for none, a negative number, or more than 200). Each is the user's, has
-- the type that is asked for and, after a cursor, a larger ID. They stand in order of update, the
-- latest first, and of ID. Where there is no next cursor, every item that is asked for is in the
-- page; where there is one, the page is full.
pub list_page :
    ⦃env : Env⦄ (user : ℕ) (f : ListFilter) (w : World)
    → env.down w.db.queries ≡ false
    → env.breaks w.db.queries ≡ none
    → (page : List VaultItem) × (next : Option ℕ) × (n : ℕ) × ((Items.list user f w).0
        ≡ ok (page, next))
      × SizeFor f.limit n
      × (length page ≤ n)
      × All (Wanted user f) page
      × InOrder page
      × (((next ≡ none) × HasAll user f w.db.items page)
          ⊎ ((i : VaultItem) × (next ≡ some i.id) × (length page ≡ n)))
list_page user f w up whole =
    let limit = page_limit f.limit in
    let all = matching user f w.db.items in
    (
      take limit all,
      cursor_of (get_elem? all limit),
      limit,
      list_lem user f w up whole,
      page_limit-SizeFor f.limit,
      omega (arith, length-take limit all),
      All-take _ limit all (
          All-weaken _ _ (listed-Wanted user f) _ (
            All-order_by _ (filter (listed user f) w.db.items)
              (All-filter (listed user f) w.db.items))),
      IsOrdered-InOrder _
          (IsOrdered-take limit all (IsOrdered-order_by (filter (listed user f) w.db.items))),
      last_or_full user f w.db.items limit all (matching-HasAll user f w.db.items),
    )

-- When the reading of the rows breaks off within a page, `List` returns the rows that were read, and
-- no error and no cursor: the page looks like the last one.
pub list_breaks :
    ⦃env : Env⦄ (user : ℕ) (f : ListFilter) (w : World) (k : ℕ)
    → env.down w.db.queries ≡ false
    → env.breaks w.db.queries ≡ some k
    → k ≤ page_limit f.limit
    → (Items.list user f w).0 ≡ ok (take k (rows user f w.db.items), none)
unfolding Items.list paginate
list_breaks user f w k up broken few =
    rw (up, broken) (ground (arith, length-take k (rows user f w.db.items)))
