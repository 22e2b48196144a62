-- ===== src/Client/Tui/Sidebar.antt =====
-- internal/client/tui/app.go: the categories of the sidebar, and the items that one of them shows.
pub mod Shown
pub mod Folders
use go_yandex_gophkeeper.Base.{
  String, Bool, true, false, List, [], ◌∷◌, ◌++◌, ℕ, ◌&&◌, ◌||◌, not, if◌then◌else◌, str_eq, any,
  filter, map, length, get_or, ltb, ◌==◌,
}
use go_yandex_gophkeeper.Server.Handler.Vault.{ItemType, credential, text, binary, card, otp}
use go_yandex_gophkeeper.Client.Tui.Items.{
  VaultItem, Decoder, get_item_folder, is_favorite, is_archived, is_trashed, is_ssh_key,
  is_file_item, same_type, text_lt, type_number,
}
use go_yandex_gophkeeper.Client.Tui.Sorting.{exchange_sort}
use go_yandex_gophkeeper.Client.Tui.Text.{contains}
use go_yandex_gophkeeper.Client.Tui.Model.{Model, SortMode, default, name, type_name}

-- `entryKind`
pub data EntryKind : Type 0 where
  section item divider : EntryKind

-- `catEntry`
pub record CatEntry : Type 0 where
  pub kind : EntryKind
  pub icon : String
  pub label : String
  pub types : List ItemType
  pub all : Bool
  pub fav : Bool
  pub archived : Bool
  pub trashed : Bool
  pub folder : String
  pub ssh_key : Bool
  pub is_file : Bool

abbrev pub entry : EntryKind → String → String → CatEntry
entry kind icon label = record {
  kind = kind;
  icon = icon;
  label = label;
  types = [];
  all = false;
  fav = false;
  archived = false;
  trashed = false;
  folder = "";
  ssh_key = false;
  is_file = false;
}

-- The entries above the folders, and those below.
abbrev pub fixed_entries : List CatEntry
fixed_entries =
    entry section "" "FILTERS"
    ∷ record (entry item "🏠" "All Items") { all = true }
    ∷ record (entry item "⭐" "Favorites") { fav = true }
    ∷ entry section "" "TYPES"
    ∷ record (entry item "🔑" "Login") { types = credential ∷ otp ∷ [] }
    ∷ record (entry item "💳" "Card") { types = card ∷ [] }
    ∷ record (entry item "👤" "Identity") { types = binary ∷ [] }
    ∷ record (entry item "📄" "Note") { types = text ∷ [] }
    ∷ record (entry item "🗝" "SSH Keys") { ssh_key = true }
    ∷ record (entry item "📎" "Files") { is_file = true }
    ∷ entry section "" "FOLDERS"
    ∷ []

abbrev pub folder_entry : String → CatEntry
folder_entry f = record (entry item "📁" f) { folder = f }

abbrev pub last_entries : List CatEntry
last_entries =
    entry divider "" ""
    ∷ record (entry item "🗃" "Archive") { archived = true }
    ∷ record (entry item "🗑" "Trash") { trashed = true }
    ∷ []

abbrev pub is_item : EntryKind → Bool
is_item item = true
is_item _ = false

module _ ⦃json : Decoder⦄ where
  -- A folder that is collected: it has a name, was not seen, and its item is in neither the archive
  -- nor the trash.
  abbrev pub is_new : List String → VaultItem → Bool
  is_new folders i =
      not (str_eq (get_item_folder i) "")
      && not (any (str_eq (get_item_folder i)) folders)
      && not (is_archived i)
      && not (is_trashed i)

  -- The loop that collects the folders; what was seen is what was collected.
  unfoldable pub collect : List String → List VaultItem → List String
  collect folders [] = folders
  collect folders (i ∷ is) =
      collect (if is_new folders i then folders ++ get_item_folder i ∷ [] else folders) is

  unfoldable pub folders : List VaultItem → List String
  unfolding collect exchange_sort text_lt
  folders items = exchange_sort text_lt (collect [] items)

  -- `buildSidebar`
  unfoldable pub build_sidebar : List VaultItem → List CatEntry
  unfolding folders
  build_sidebar items = fixed_entries ++ (map folder_entry (folders items) ++ last_entries)

  -- `sidebarSelectables`
  unfoldable pub sidebar_selectables : List VaultItem → List CatEntry
  unfolding build_sidebar
  sidebar_selectables items = filter (λ e. is_item e.kind) (build_sidebar items)

  -- `catCount`
  unfoldable pub cat_count : List VaultItem → ℕ
  unfolding sidebar_selectables
  cat_count items = length (sidebar_selectables items)

  -- `selectedCat`: the first entry where the index is out of range.
  unfoldable pub selected_cat : List VaultItem → ℕ → CatEntry
  unfolding sidebar_selectables
  selected_cat items idx =
      let sel = sidebar_selectables items in get_or sel idx (get_or sel 0 (entry section "" ""))

  -- An item under the types of a category: a file is left out of the identities.
  abbrev pub of_types : VaultItem → List ItemType → Bool
  of_types i [] = false
  of_types i (t ∷ ts) =
      if same_type i.type t then not (same_type t binary && is_file_item i) else of_types i ts

  -- The loop over the items in `filteredItems`.
  unfoldable pub in_category : CatEntry → VaultItem → Bool
  in_category cat i =
      if cat.trashed
      then is_trashed i
      else if cat.archived
      then is_archived i && not (is_trashed i)
      else if is_archived i || is_trashed i
      then false
      else if cat.ssh_key
      then is_ssh_key i
      else if cat.is_file
      then is_file_item i
      else if not (str_eq cat.folder "")
      then str_eq (get_item_folder i) cat.folder
      else if cat.all
      then true
      else if cat.fav
      then is_favorite i
      else of_types i cat.types

  -- The search.
  unfoldable pub is_found : String → VaultItem → Bool
  unfolding contains
  is_found query i = str_eq query "" || contains (json.to_lower i.metadata) (json.to_lower query)

  -- The comparisons of the two sorts.
  unfoldable pub name_before : VaultItem → VaultItem → Bool
  unfolding text_lt
  name_before i j = text_lt (json.to_lower i.metadata) (json.to_lower j.metadata)

  unfoldable pub type_before : VaultItem → VaultItem → Bool
  unfolding name_before
  type_before i j =
      ltb (type_number i.type) (type_number j.type)
      || type_number i.type == type_number j.type && name_before i j

  unfoldable pub sorted_by : SortMode → List VaultItem → List VaultItem
  unfolding exchange_sort name_before type_before
  sorted_by default items = items
  sorted_by name items = exchange_sort name_before items
  sorted_by type_name items = exchange_sort type_before items

  -- `filteredItems`
  unfoldable pub filtered_items : {Input : Type 0} → Model Input → List VaultItem
  unfolding selected_cat in_category is_found sorted_by
  filtered_items m = sorted_by m.sort (
      filter (is_found m.search_query)
        (filter (in_category (selected_cat m.items m.cat_idx)) m.items))
