-- ===== src/Client/Tui/Sidebar/Folders.antt =====
-- internal/client/tui/app.go: the folders of the sidebar.
use go_yandex_gophkeeper.Base.{
  String, Bool, List, [], ◌∷◌, ◌++◌, ◌≡◌, ◌&&◌, ◌||◌, not, any, arith, if◌then◌else◌, str_eq,
  eq_iff, ◌∙◌,
}
use go_yandex_gophkeeper.Client.Tui.Items.{
  VaultItem, Decoder, is_archived, is_trashed, get_item_folder, text_lt,
}
use go_yandex_gophkeeper.Client.Tui.Items.Order.{text_lt-Order}
use go_yandex_gophkeeper.Client.Tui.Sorting.{IsSorted, exchange_sort_sorts, any-exchange_sort}
use go_yandex_gophkeeper.Client.Tui.Sidebar.{collect, folders, is_new}
use go_yandex_gophkeeper.Client.Tui.Sidebar.Shown.{any-append}

module _ ⦃json : Decoder⦄ where
  -- Some item outside the archive and the trash is in the folder.
  abbrev pub in_use : String → List VaultItem → Bool
  in_use f items =
      any (λ i. str_eq f (get_item_folder i) && not (is_archived i) && not (is_trashed i)) items

  collect-any :
      (f : String) (acc : List String) (items : List VaultItem)
      → any (str_eq f) (collect acc items)
        ≡ any (str_eq f) acc || (not (str_eq f "") && in_use f items)
  unfolding collect
  collect-any f acc [] = ground arith
  collect-any f acc (i ∷ is) =
      collect-any f (if is_new acc i then acc ++ get_item_folder i ∷ [] else acc) is
      ∙ ground (
        arith,
        any-append (str_eq f) acc (get_item_folder i ∷ []),
        eq_iff f (get_item_folder i),
        eq_iff f "",
        eq_iff (get_item_folder i) "",
      )

  -- The folders of the sidebar are sorted, and a text is among them exactly when it is not empty and
  -- is the folder of an item that is neither in the archive nor in the trash.
  pub folders_lem :
      (items : List VaultItem)
      → IsSorted text_lt (folders items)
        × ((f : String) → any (str_eq f) (folders items) ≡ (not (str_eq f "") && in_use f items))
  unfolding folders
  folders_lem items = (
    (exchange_sort_sorts text_lt text_lt-Order (collect [] items)).1,
    λ f. any-exchange_sort text_lt (str_eq f) (collect [] items) ∙ collect-any f [] items,
  )
