-- ===== src/Server/Crud.antt =====
-- What a client reads back after it has written an item.
use go_yandex_gophkeeper.Server.Service.Vault.{new_item}
use go_yandex_gophkeeper.Base.{
  ℕ, ◌≡◌, refl, List, ◌∷◌, find, none, some, filter, false, String, ok, any, update_where, err, not,
  arith, [], Exec, ◌>>◌, pure, ap, Result, ◌∙◌, lift, ◌>>=◌, Option-cases, ◌+◌, inl, inr,
  bind-eq-ok, bind-ok, sym,
}
use go_yandex_gophkeeper.Server.Storage.{
  VaultItem, not_found, Action, Detail, Error, granted, vault_create, vault_update, created,
  touched,
}
use go_yandex_gophkeeper.Server.World.{Env, Context, World}
use go_yandex_gophkeeper.Server.Postgres.Items
use go_yandex_gophkeeper.Server.Postgres.Items.{owned, revise}
use go_yandex_gophkeeper.Server.Service.Vault
use go_yandex_gophkeeper.Server.Service.Audit.{log_audit}
use go_yandex_gophkeeper.Server.Service.Sync.{notify_upsert}

find-update_where :
    (id user : ℕ) (new : VaultItem) (now : ℕ) (items : List VaultItem) (i : VaultItem)
    → find (owned id user) items ≡ some i
    → find (owned id user) (update_where (owned id user) (revise new now) items)
      ≡ some (revise new now i)
find-update_where id user new now [] i h = cc
find-update_where id user new now (j ∷ items) i h =
    ground (arith, find-update_where id user new now items i)

find-filter_complement :
    (id user : ℕ) (items : List VaultItem)
    → find (owned id user) (filter (λ i. not (owned id user i)) items) ≡ none
find-filter_complement id user [] = refl
find-filter_complement id user (j ∷ items) = ground (arith, find-filter_complement id user items)

any-find_missing :
    (id user : ℕ) (items : List VaultItem)
    → find (owned id user) items ≡ none
    → any (owned id user) items ≡ false
any-find_missing id user [] h = refl
any-find_missing id user (j ∷ items) h = ground (arith, any-find_missing id user items)

module _ ⦃env : Env⦄ (ctx : Context) (id user : ℕ) (w : World) where
  -- The service's `Get` reads the row that has the ID and the owner.
  get-find :
      (i : VaultItem)
      → env.down w.db.queries ≡ false
      → find (owned id user) w.db.items ≡ some i
      → (Vault.get ctx id user w).0 ≡ ok i
  unfolding Vault.get
  get-find i up h = ground arith

  get-find_missing :
      env.down w.db.queries ≡ false
      → find (owned id user) w.db.items ≡ none
      → (Vault.get ctx id user w).0 ≡ err not_found
  unfolding Vault.get
  get-find_missing up h = ground arith

module _ ⦃env : Env⦄ (item : VaultItem) (w : World) {a : VaultItem} {w' : World} where
  items-create :
      Items.create item w ≡ (ok a, w')
      → (w'.db.items ≡ a ∷ w.db.items)
        × (a ≡ record item { id = a.id; version = 1; created_at = w.now; updated_at = w.now })
  unfolding Items.create
  items-create h = ground arith

log_audit-items :
    ⦃env : Env⦄ (ctx : Context) (user : ℕ) (a : Action) (d : Detail) (w : World)
    → (log_audit ctx user a granted d w).1.db.items ≡ w.db.items
unfolding log_audit
log_audit-items ctx user a d w = ground arith

pure-after :
    (x : VaultItem) (r : Result Error Unit) (s : World) {i : VaultItem}
    → ((lift r >>= λ _. pure x) s).0 ≡ ok i
    → (i ≡ x) × (((lift r >>= λ _. pure x) s).1 ≡ s)
pure-after x (ok _) s h = (cc, refl)
pure-after x (err e) s h = cc

notify_upsert-items :
    (user : ℕ) (x : VaultItem) (w : World) → (notify_upsert user x w).1.db.items ≡ w.db.items
unfolding notify_upsert
notify_upsert-items user x w = ground arith

-- What follows a write that has succeeded: the log, and the notification.
module _ ⦃env : Env⦄ (ctx : Context) (user : ℕ) (a : Action) (d : Detail) (x : VaultItem) where
  abbrev announced : Exec World Error VaultItem
  announced = do log_audit ctx user a granted d; notify_upsert user x; pure x

  announced_lem :
      (w : World) {i : VaultItem}
      → (announced w).0 ≡ ok i
      → (i ≡ x) × ((announced w).1.db.items ≡ w.db.items)
  unfolding log_audit
  announced_lem w h =
      let v = (log_audit ctx user a granted d w).1 in
      let (same, kept) = pure-after x (notify_upsert user x v).0 (notify_upsert user x v).1 h in
      (
        same,
        ap (λ (u : World). u.db.items) kept
            ∙ notify_upsert-items user x v
            ∙ log_audit-items ctx user a d w,
      )

module _ ⦃env : Env⦄ (ctx : Context) (user : ℕ) (type meta : String) (payload : List ℕ) (w : World)
    {i : VaultItem} where
  create-items :
      (Vault.create ctx user type payload meta w).0 ≡ ok i
      → ((Vault.create ctx user type payload meta w).1.db.items ≡ i ∷ w.db.items)
        × (i ≡ record (new_item i.id user type payload meta) {
          version = 1;
          created_at = w.now;
          updated_at = w.now;
        })
  unfolding Vault.create
  create-items h =
      let m = Items.create (new_item 0 user type payload meta) in
      let f = λ (x : VaultItem). announced ctx user vault_create (created x.id type meta) x in
      let (a, s, e, rest) = bind-eq-ok m f w h in
      let (same, kept) = announced_lem ctx user vault_create (created a.id type meta) a s rest in
      let (rows, shape) = items-create (new_item 0 user type payload meta) w e in
      (
        ap (λ (p : Result Error VaultItem × World). p.1.db.items) (bind-ok m f e)
            ∙ kept
            ∙ rows
            ∙ ap (λ (x : VaultItem). x ∷ w.db.items) (sym same),
        ground (arith, same, shape),
      )

  -- An item that was created is what its owner then reads, with the fields of the request and
  -- version 1, if the database answers the read.
  pub get-create :
      (ctx' : Context)
      → (Vault.create ctx user type payload meta w).0 ≡ ok i
      → env.down (Vault.create ctx user type payload meta w).1.db.queries ≡ false
      → ((Vault.get ctx' i.id user (Vault.create ctx user type payload meta w).1).0 ≡ ok i)
        × (i ≡ record (new_item i.id user type payload meta) {
          version = 1;
          created_at = w.now;
          updated_at = w.now;
        })
  get-create ctx' h up =
      let (rows, shape) = create-items h in
      (
        get-find ctx' i.id user (Vault.create ctx user type payload meta w).1 i up
            (rw rows (ground (arith, shape))),
        shape,
      )

module _ ⦃env : Env⦄ (new : VaultItem) (w : World) {a : VaultItem} {w' : World} where
  items-update :
      Items.update new w ≡ (ok a, w')
      → (old : VaultItem) × (find (owned new.id new.user_id) w.db.items ≡ some old)
        × (a ≡ revise new w.now old)
        × (w'.db.items ≡ update_where (owned new.id new.user_id) (revise new w.now) w.db.items)
  unfolding Items.update
  items-update h = elim (Option-cases (find (owned new.id new.user_id) w.db.items)) [
    | inl missing ↦ ground arith
    | inr (old, e) ↦ (old, e, ground arith, ground arith)
  ]

module _ ⦃env : Env⦄ (ctx : Context) (id user : ℕ) (payload : List ℕ) (meta : String) (w : World)
    {i : VaultItem} where
  -- An update that succeeds has changed a row of the caller: the result has the new payload and
  -- metadata and one version more, keeps all else, and is what the owner then reads, if the
  -- database answers the read.
  pub get-update :
      (ctx' : Context)
      → (Vault.update ctx id user payload meta w).0 ≡ ok i
      → env.down (Vault.update ctx id user payload meta w).1.db.queries ≡ false
      → (old : VaultItem) × (find (owned id user) w.db.items ≡ some old)
        × (i ≡ record old {
          payload = payload;
          metadata = meta;
          version = old.version + 1;
          updated_at = w.now;
        })
        × ((Vault.get ctx' id user (Vault.update ctx id user payload meta w).1).0 ≡ ok i)
  unfolding Vault.update
  get-update ctx' h up =
      let new = new_item id user "" payload meta in
      let m = Items.update new in
      let f = λ (x : VaultItem). announced ctx user vault_update (touched id meta) x in
      let (a, s, e, rest) = bind-eq-ok m f w h in
      let (same, kept) = announced_lem ctx user vault_update (touched id meta) a s rest in
      let (old, found, shape, rows) = items-update new w e in
      let all : (Vault.update ctx id user payload meta w).1.db.items
          ≡ update_where (owned id user) (revise new w.now) w.db.items =
        ap (λ (p : Result Error VaultItem × World). p.1.db.items) (bind-ok m f e) ∙ kept ∙ rows in
      (
        old,
        found,
        same ∙ shape,
        get-find ctx' id user (Vault.update ctx id user payload meta w).1 i up (
            ap (λ (l : List VaultItem). find (owned id user) l) all
            ∙ find-update_where id user new w.now w.db.items old found
            ∙ ap some (sym (same ∙ shape))),
      )

module _ ⦃env : Env⦄ (ctx : Context) (id user : ℕ) (payload : List ℕ) (meta : String)
    (w : World) where
  -- One who does not own an item can neither read, change nor delete it: each call answers
  -- ErrNotFound, the items and the subscribers' channels stay as they were.
  pub not_owned :
      env.down w.db.queries ≡ false
      → find (owned id user) w.db.items ≡ none
      → ((Vault.get ctx id user w).0 ≡ err not_found)
        × ((Vault.update ctx id user payload meta w).0 ≡ err not_found)
        × ((Vault.delete ctx id user w).0 ≡ err not_found)
        × ((Vault.update ctx id user payload meta w).1.db.items ≡ w.db.items)
        × ((Vault.delete ctx id user w).1.db.items ≡ w.db.items)
        × ((Vault.update ctx id user payload meta w).1.hub ≡ w.hub)
        × ((Vault.delete ctx id user w).1.hub ≡ w.hub)
  unfolding Vault.get Vault.update Vault.delete
  not_owned up missing =
      let gone = any-find_missing id user w.db.items missing in
      (
        ground arith,
        ground arith,
        ground arith,
        ground arith,
        ground arith,
        ground arith,
        ground arith,
      )

module _ ⦃env : Env⦄ (ctx ctx' : Context) (id user : ℕ) (w : World) where
  delete-items :
      (Vault.delete ctx id user w).0 ≡ ok tt
      → (Vault.delete ctx id user w).1.db.items ≡ filter (λ i. not (owned id user i)) w.db.items
  unfolding Vault.delete
  delete-items h = ground arith

  -- An item that was deleted is not found any more, if the database answers the read.
  pub get-delete :
      (Vault.delete ctx id user w).0 ≡ ok tt
      → env.down (Vault.delete ctx id user w).1.db.queries ≡ false
      → (Vault.get ctx' id user (Vault.delete ctx id user w).1).0 ≡ err not_found
  get-delete h up =
      get-find_missing ctx' id user (Vault.delete ctx id user w).1 up
        (rw (delete-items h) (find-filter_complement id user w.db.items))
