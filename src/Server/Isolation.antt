-- ===== src/Server/Isolation.antt =====
-- What one user's requests can do to another user's items.
use go_yandex_gophkeeper.Base.{
  ℕ, ◌≡◌, refl, List, ◌∷◌, ◌∙◌, ◌==◌, ◌≢◌, filter, update_where, arith, not, [],
}
use go_yandex_gophkeeper.Server.Storage.{VaultItem}
use go_yandex_gophkeeper.Server.World.{Env, World}
use go_yandex_gophkeeper.Server.Postgres.Items.{owned, revise}
use go_yandex_gophkeeper.Server.Preserve.Tables.{ItemLaws, items-Preserved}
use go_yandex_gophkeeper.Server.Preserve.Requests.{AllActing, run-Keeps}
use go_yandex_gophkeeper.Server.App.{run, Arrival}

-- The rows of one user.
abbrev pub items_of : ℕ → List VaultItem → List VaultItem
items_of user items = filter (λ i. i.user_id == user) items

module _ (victim id user : ℕ) (other : user ≢ victim) where
  items_of-update :
      (new : VaultItem) (now : ℕ) (items : List VaultItem)
      → items_of victim (update_where (owned id user) (revise new now) items)
        ≡ items_of victim items
  items_of-update new now [] = refl
  items_of-update new now (i ∷ items) = ground (arith, items_of-update new now items)

  items_of-delete :
      (items : List VaultItem)
      → items_of victim (filter (λ i. not (owned id user i)) items) ≡ items_of victim items
  items_of-delete [] = refl
  items_of-delete (i ∷ items) = ground (arith, items_of-delete items)

Isolated-laws :
    (victim : ℕ) (rows : List VaultItem)
    → ItemLaws (λ items. items_of victim items ≡ rows) (λ u. u ≢ victim)
Isolated-laws victim rows = record {
  create_law = λ i items other fresh h. ground arith;
  update_law =
      λ new now items other h. items_of-update victim new.id new.user_id other new now items ∙ h;
  delete_law = λ id user items other h. items_of-delete victim id user other items ∙ h;
}

-- No sequence of requests whose tokens name other users changes, adds or removes an item of a user.
pub items_of-run :
    ⦃env : Env⦄ (victim : ℕ) (arrivals : List Arrival) (w : World)
    → AllActing (λ u. u ≢ victim) arrivals
    → items_of victim (run arrivals w).db.items ≡ items_of victim w.db.items
items_of-run victim arrivals w others =
    run-Keeps (items-Preserved (Isolated-laws victim (items_of victim w.db.items))) (λ w now h. h)
      arrivals w others refl
