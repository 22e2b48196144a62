-- ===== src/Server/Tests/Data.antt =====
-- Examples of items that are written, read and listed.
use go_yandex_gophkeeper.Base.Int.{pos}
use go_yandex_gophkeeper.Server.Pages.{matching, list_lem, cursor_skips}
use go_yandex_gophkeeper.Server.Crud.{get-create, get-delete, get-update, not_owned}
use go_yandex_gophkeeper.Server.Service.Vault.{new_item}
use go_yandex_gophkeeper.Server.Access.{Admits, carrying}
use go_yandex_gophkeeper.Server.Postgres.Items.{list, owned, known_type, listed}
use go_yandex_gophkeeper.Server.World.{Context, Env}
use go_yandex_gophkeeper.Server.Pages.Page.{
  list_page, list_breaks, SizeFor, Wanted, InOrder, HasAll,
}
use go_yandex_gophkeeper.Server.Integrity.{IsConsistent, run-IsConsistent}
use go_yandex_gophkeeper.Server.Isolation.{items_of, items_of-run}
use go_yandex_gophkeeper.Server.Tests.Demo.{demo, demo_world, item_at, acting_as, parsed-subject}
use go_yandex_gophkeeper.Server.Storage.{VaultItem, ListFilter, not_found}
use go_yandex_gophkeeper.Base.{
  List, Option, none, ℕ, ◌+◌, ◌≢◌, ◌⊎◌, ◌∷◌, ◌≤◌, ◌==◌, ◌≡◌, find, [], ok, get_elem?, err, some,
  length, All, take, refl, false, arith,
}
use go_yandex_gophkeeper.Server.World
use go_yandex_gophkeeper.Server.Postgres.Items
use go_yandex_gophkeeper.Server.Service.Vault
use go_yandex_gophkeeper.Server.App.{get_item, delete_item, run, Arrival}

abbrev E : World.Env
E = demo 900

abbrev as_alice : Context
as_alice = acting_as 1

-- The bearer of the demo's token, who is user 1, deletes an item; user 2 loses nothing.
abbrev script : List Arrival
script = (delete_item 13, carrying "t", 1000) ∷ (get_item 11, carrying "t", 5000) ∷ []

names_alice : (now id : ℕ) → Admits ⦃env = E⦄ (carrying "t") now id → id ≢ 2
names_alice now id (header, rest, p, h, valid', named) same =
    absurd (omega (arith, parsed-subject 900 now _ p valid', named, same))

items_of-run_example : items_of 2 (run ⦃env = E⦄ script demo_world).db.items ≡ item_at 13 2 ∷ []
items_of-run_example =
    items_of-run ⦃env = E⦄ 2 script demo_world
      ((refl, names_alice 1000), ((refl, names_alice 5000), tt))

run-IsConsistent_example : IsConsistent (run ⦃env = E⦄ script demo_world).db
run-IsConsistent_example =
    run-IsConsistent ⦃env = E⦄ script demo_world (refl, (refl, tt))
      (record {
        user_ids = (refl, tt);
        usernames = (refl, tt);
        emails = (refl, tt);
        session_ids = tt;
        refresh_tokens = tt;
        item_ids = (refl, (refl, (refl, tt)));
      })

abbrev made : VaultItem
made = record (new_item 100 1 "text" (1 ∷ []) "m") {
  version = 1;
  created_at = 1000;
  updated_at = 1000;
}

get-create_example :
    ((Vault.get ⦃env = E⦄ as_alice 100 1
        (Vault.create ⦃env = E⦄ as_alice 1 "text" (1 ∷ []) "m" demo_world).1).0
      ≡ ok made)
    × (made ≡ record (new_item 100 1 "text" (1 ∷ []) "m") {
      version = 1;
      created_at = 1000;
      updated_at = 1000;
    })
unfolding Vault.create known_type
get-create_example =
    get-create ⦃env = E⦄ as_alice 1 "text" "m" (1 ∷ []) demo_world {i = made} as_alice refl refl

abbrev revised : VaultItem
revised = record (item_at 11 1) { payload = 9 ∷ []; metadata = "n"; version = 2; updated_at = 1000 }

get-update_example :
    (old : VaultItem) × (find (owned 11 1) demo_world.db.items ≡ some old)
    × (revised ≡ record old {
      payload = 9 ∷ [];
      metadata = "n";
      version = old.version + 1;
      updated_at = 1000;
    })
    × ((Vault.get ⦃env = E⦄ as_alice 11 1
          (Vault.update ⦃env = E⦄ as_alice 11 1 (9 ∷ []) "n" demo_world).1).0
        ≡ ok revised)
unfolding Vault.update
get-update_example =
    get-update ⦃env = E⦄ as_alice 11 1 (9 ∷ []) "n" demo_world {i = revised} as_alice refl refl

not_owned_example :
    ((Vault.get ⦃env = E⦄ as_alice 13 1 demo_world).0 ≡ err not_found)
    × ((Vault.update ⦃env = E⦄ as_alice 13 1 (9 ∷ []) "n" demo_world).0 ≡ err not_found)
    × ((Vault.delete ⦃env = E⦄ as_alice 13 1 demo_world).0 ≡ err not_found)
    × ((Vault.update ⦃env = E⦄ as_alice 13 1 (9 ∷ []) "n" demo_world).1.db.items
        ≡ demo_world.db.items)
    × ((Vault.delete ⦃env = E⦄ as_alice 13 1 demo_world).1.db.items ≡ demo_world.db.items)
    × ((Vault.update ⦃env = E⦄ as_alice 13 1 (9 ∷ []) "n" demo_world).1.hub ≡ demo_world.hub)
    × ((Vault.delete ⦃env = E⦄ as_alice 13 1 demo_world).1.hub ≡ demo_world.hub)
not_owned_example = not_owned ⦃env = E⦄ as_alice 13 1 (9 ∷ []) "n" demo_world refl refl

get-delete_example :
    (Vault.get ⦃env = E⦄ as_alice 11 1 (Vault.delete ⦃env = E⦄ as_alice 11 1 demo_world).1).0
    ≡ err not_found
unfolding Vault.delete
get-delete_example = get-delete ⦃env = E⦄ as_alice as_alice 11 1 demo_world refl refl

abbrev one_each : Option ℕ → ListFilter
one_each c = record { type_filter = ""; limit = pos 1; cursor = c }

list_lem_example :
    (Items.list ⦃env = E⦄ 1 (one_each none) demo_world).0 ≡ ok (item_at 11 1 ∷ [], some 12)
unfolding Items.page_limit Items.order_by
list_lem_example = list_lem ⦃env = E⦄ 1 (one_each none) demo_world refl refl

list_page_example :
    (page : List VaultItem) × (next : Option ℕ) × (n : ℕ) × ((Items.list ⦃env = E⦄ 1
        (one_each none)
        demo_world).0
      ≡ ok (page, next))
    × SizeFor (pos 1) n
    × (length page ≤ n)
    × All (Wanted 1 (one_each none)) page
    × InOrder page
    × (((next ≡ none) × HasAll 1 (one_each none) demo_world.db.items page)
        ⊎ ((i : VaultItem) × (next ≡ some i.id) × (length page ≡ n)))
list_page_example = list_page ⦃env = E⦄ 1 (one_each none) demo_world refl refl

-- The reading of the rows breaks off after the first.
abbrev broken : Env
broken = record E { breaks = λ n. some 1 }

list_breaks_example :
    (Items.list ⦃env = broken⦄ 1 (one_each none) demo_world).0
    ≡ ok (take 1 (Items.rows 1 (one_each none) demo_world.db.items), none)
unfolding Items.page_limit
list_breaks_example =
    list_breaks ⦃env = broken⦄ 1 (one_each none) demo_world 1 refl refl (omega arith)

cursor_skips_example :
    ((i : VaultItem) × (get_elem? (matching 1 (one_each none) demo_world.db.items) 1 ≡ some i)
      × (i.id ≡ 12)
      × (item_at 11 1 ∷ [] ≡ take 1 (matching 1 (one_each none) demo_world.db.items)))
    × All (λ (i : VaultItem). (i.id == 12) ≡ false) []
unfolding list
cursor_skips_example =
    cursor_skips ⦃env = E⦄ 1 (one_each none) demo_world demo_world (item_at 11 1 ∷ []) [] 12 none
      refl refl refl refl refl refl
