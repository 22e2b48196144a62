-- ===== src/Client/Tui/Sidebar/Shown.antt =====
-- internal/client/tui/app.go: which category shows an item, and in which order.
use go_yandex_gophkeeper.Base.{
  ap, ◌∙◌, Bool, true, false, List, [], ◌∷◌, ◌++◌, ◌≡◌, ◌&&◌, ◌||◌, not, any, filter, map, refl,
  arith, Bool-cases, inl, inr,
}
use mathlib.Core.List.{Perm}
use mathlib.Core.List.Perm
use go_yandex_gophkeeper.Client.Tui.Items.{VaultItem, Decoder, is_archived, is_trashed}
use go_yandex_gophkeeper.Client.Tui.Items.Order.{text_lt-Order}
use go_yandex_gophkeeper.Client.Tui.Sorting.{IsSorted, Order, exchange_sort_sorts}
use go_yandex_gophkeeper.Client.Tui.Model.{Model, SortMode, default, name, type_name}
use go_yandex_gophkeeper.Client.Tui.Sidebar.{
  CatEntry, sidebar_selectables, selected_cat, in_category, is_found, name_before, type_before,
  sorted_by, filtered_items, fixed_entries, last_entries, folder_entry, folders, is_item, entry,
  item,
}

module _ {A : Type 0} where
  pub any-append : (p : A → Bool) (xs ys : List A) → any p (xs ++ ys) ≡ any p xs || any p ys
  any-append p [] ys = refl
  any-append p (x ∷ xs) ys = ground (arith, any-append p xs ys)

  any-filter : (p q : A → Bool) (xs : List A) → any p (filter q xs) ≡ any (λ x. q x && p x) xs
  any-filter p q [] = refl
  any-filter p q (x ∷ xs) = elim (Bool-cases (q x)) [
    | inl e ↦ rw e (rw (any-filter p q xs) refl)
    | inr e ↦ rw e (any-filter p q xs)
  ]

  filter-filter :
      (p q : A → Bool) (xs : List A) → filter p (filter q xs) ≡ filter (λ x. q x && p x) xs
  filter-filter p q [] = refl
  filter-filter p q (x ∷ xs) = elim (Bool-cases (q x)) [
    | inl e ↦ rw e (rw (filter-filter p q xs) refl)
    | inr e ↦ rw e (filter-filter p q xs)
  ]

or_last : (a b c d : Bool) → c || d ≡ true → a || (b || (c || (d || false))) ≡ true
or_last a b c d h = ground arith

module _ ⦃json : Decoder⦄ where
  -- An item in the trash is shown by no category but the trash, one in the archive alone by no
  -- category but the archive, and the others by neither of the two.
  abbrev pub Separates : VaultItem → CatEntry → Type 0
  Separates i c =
      (is_trashed i ≡ true → in_category c i ≡ c.trashed)
      × (is_trashed i ≡ false
          → is_archived i ≡ true
          → in_category c i ≡ not c.trashed && c.archived)
      × (is_trashed i ≡ false
          → is_archived i ≡ false
          → in_category c i ≡ true
          → (c.trashed ≡ false) × (c.archived ≡ false))

  separates : (i : VaultItem) (c : CatEntry) → Separates i c
  unfolding in_category
  separates i c = (ground arith, λ h. ground arith, λ h k e. (ground arith, ground arith))

  abbrev all_items : CatEntry
  all_items = record (entry item "🏠" "All Items") { all = true }

  abbrev archive : CatEntry
  archive = record (entry item "🗃" "Archive") { archived = true }

  abbrev trash : CatEntry
  trash = record (entry item "🗑" "Trash") { trashed = true }

  -- The first and the last two of the categories that can be selected.
  first_selectable :
      (p : CatEntry → Bool) (items : List VaultItem)
      → p all_items ≡ true
      → any p (sidebar_selectables items) ≡ true
  unfolding sidebar_selectables
  first_selectable p items h = rw h refl

  last_selectable :
      (p : CatEntry → Bool) (items : List VaultItem)
      → p archive || p trash ≡ true
      → any p (sidebar_selectables items) ≡ true
  unfolding sidebar_selectables
  last_selectable p items h =
      let q : CatEntry → Bool = λ e. is_item e.kind && p e in
      let middle = map folder_entry (folders items) in
      any-filter p (λ e. is_item e.kind) (fixed_entries ++ (middle ++ last_entries))
      ∙ any-append q fixed_entries (middle ++ last_entries)
      ∙ ap (λ b. any q fixed_entries || b) (any-append q middle last_entries)
      ∙ or_last (any q fixed_entries) (any q middle) (p archive) (p trash) h

  archive_shows :
      (i : VaultItem) → is_archived i ≡ true → is_trashed i ≡ false → in_category archive i ≡ true
  unfolding in_category
  archive_shows i h k = ground arith

  trash_shows : (i : VaultItem) → in_category trash i ≡ is_trashed i
  unfolding in_category
  trash_shows i = refl

  all_shows :
      (i : VaultItem)
      → is_archived i ≡ false
      → is_trashed i ≡ false
      → in_category all_items i ≡ true
  unfolding in_category
  all_shows i h k = ground arith

  some_category :
      (i : VaultItem) (items : List VaultItem)
      → any (λ c. in_category c i) (sidebar_selectables items) ≡ true
  some_category i items = elim (Bool-cases (is_trashed i)) [
    | inl t ↦ last_selectable (λ c. in_category c i) items (ground (arith, trash_shows i))
    | inr t ↦ elim (Bool-cases (is_archived i)) [
      | inl a ↦ last_selectable (λ c. in_category c i) items (ground (arith, archive_shows i a t))
      | inr a ↦ first_selectable (λ c. in_category c i) items (all_shows i a t)
    ]
  ]

  -- Every item is shown by a category that can be selected, whatever the items are. One in the trash
  -- is shown by no category but the trash, one in the archive alone by no category but the archive,
  -- and the others by neither of the two.
  pub shown_once :
      (i : VaultItem) (items : List VaultItem)
      → (any (λ c. in_category c i) (sidebar_selectables items) ≡ true)
        × ((c : CatEntry) → Separates i c)
  shown_once i items = (some_category i items, separates i)

  -- The order that a sort mode stands for.
  abbrev pub IsOrderedBy : SortMode → List VaultItem → List VaultItem → Type 0
  IsOrderedBy default before after = after ≡ before
  IsOrderedBy name before after = IsSorted name_before after
  IsOrderedBy type_name before after = IsSorted type_before after

  name_before-Order : Order name_before
  unfolding name_before
  name_before-Order = record {
    asym = λ i j. text_lt-Order.asym (json.to_lower i.metadata) (json.to_lower j.metadata);
    trans = λ i j k.
        text_lt-Order.trans (json.to_lower i.metadata) (json.to_lower j.metadata)
          (json.to_lower k.metadata);
  }

  type_before-asym : (i j : VaultItem) → type_before i j ≡ true → type_before j i ≡ false
  unfolding type_before
  type_before-asym i j h = ground (arith, name_before-Order.asym i j)

  type_before_trans :
      (i j k : VaultItem)
      → type_before i j ≡ false
      → type_before j k ≡ false
      → type_before i k ≡ false
  unfolding type_before
  type_before_trans i j k h l = ground (arith, name_before-Order.trans i j k)

  sorted_by_lem :
      (mode : SortMode) (items : List VaultItem)
      → Perm (sorted_by mode items) items × IsOrderedBy mode items (sorted_by mode items)
  unfolding sorted_by
  sorted_by_lem default items = (Perm.rfl, refl)
  sorted_by_lem name items = exchange_sort_sorts name_before name_before-Order items
  sorted_by_lem type_name items =
      exchange_sort_sorts type_before
        (record { asym = type_before-asym; trans = type_before_trans }) items

  -- The items that the category and the search select, in the order of the vault.
  abbrev pub selected : {Input : Type 0} → Model Input → List VaultItem
  selected m =
      filter (λ i. in_category (selected_cat m.items m.cat_idx) i && is_found m.search_query i)
        m.items

  -- The list on the screen has the items of the vault that the selected category and the search
  -- select, each as often as the vault has it: in the vault's order by default, by name or by type
  -- and name in the two other modes.
  pub filtered_items_lem :
      {Input : Type 0} (m : Model Input)
      → Perm (filtered_items m) (selected m) × IsOrderedBy m.sort (selected m) (filtered_items m)
  unfolding filtered_items
  filtered_items_lem m =
      rw
        (filter-filter (is_found m.search_query) (in_category (selected_cat m.items m.cat_idx))
          m.items)
        (sorted_by_lem m.sort (selected m))
