-- ===== src/Server/Postgres/Items.antt =====
-- internal/server/storage/postgres/vault.go, with the constraints of 00002_vault.sql.
use go_yandex_gophkeeper.Base.{
  ℕ, zero, suc, ◌+◌, ◌-◌, ◌^◌, String, Bool, true, not, ◌&&◌, ◌||◌, List, [], ◌∷◌, Option, none,
  some, Result, ok, err, Exec, ltb, leb, ◌==◌, str_eq, if◌then◌else◌, length, get_elem?, take, find,
  any, filter, update_where,
}
use go_yandex_gophkeeper.Base.Int.{ℤ, pos, negsuc}
use go_yandex_gophkeeper.Server.Storage.{Error, not_found, failure, VaultItem, ListFilter}
use go_yandex_gophkeeper.Server.World.{Env, Db, World, query}
use go_yandex_gophkeeper.Server.Postgres.Rows.{scan, draw_uuid, has_user, read_rows, is_null}

-- `CHECK (type IN ('credential','text','binary','card','otp'))`
unfoldable pub known_type : String → Bool
known_type t =
    str_eq t "credential"
    || str_eq t "text"
    || str_eq t "binary"
    || str_eq t "card"
    || str_eq t "otp"

abbrev pub insert_item : VaultItem → Db → Result Error VaultItem × Db
insert_item item d =
    if known_type item.type
      && has_user item.user_id d.users
      && not (any (λ i. i.id == item.id) d.items)
      && not (is_null item.payload)
    then (ok item, record d { items = item ∷ d.items })
    else (err failure, d)

-- `vaultRepo.Create`
unfoldable pub create : ⦃env : Env⦄ → VaultItem → Exec World Error VaultItem
unfolding query
create ⦃env⦄ item w =
    query
      (λ d.
        insert_item
          (record item {
            id = env.uuid d.drawn;
            version = 1;
            created_at = w.now;
            updated_at = w.now;
          })
          (draw_uuid d))
      w

-- `WHERE id = $1 AND user_id = $2`
abbrev pub owned : ℕ → ℕ → VaultItem → Bool
owned id user_id i = i.id == id && i.user_id == user_id

-- `vaultRepo.Get`
unfoldable pub get : ⦃env : Env⦄ → ℕ → ℕ → Exec World Error VaultItem
unfolding query
get id user_id = query (λ d. (scan (find (owned id user_id) d.items), d))

-- The SET clause.
abbrev pub revise : VaultItem → ℕ → VaultItem → VaultItem
revise new now i = record i {
  payload = new.payload;
  metadata = new.metadata;
  version = i.version + 1;
  updated_at = now;
}

-- The largest BIGINT; adding one to it is an error.
abbrev pub max_version : ℕ
max_version = 2 ^ 63 - 1

abbrev pub update_row : VaultItem → ℕ → Option VaultItem → Db → Result Error VaultItem × Db
update_row new now none d = (err not_found, d)
update_row new now (some i) d =
    if ltb i.version max_version && not (is_null new.payload)
    then (
      ok (revise new now i),
      record d { items = update_where (owned new.id new.user_id) (revise new now) d.items },
    )
    else (err failure, d)

-- `vaultRepo.Update`
unfoldable pub update : ⦃env : Env⦄ → VaultItem → Exec World Error VaultItem
unfolding query
update new w = query (λ d. update_row new w.now (find (owned new.id new.user_id) d.items) d) w

-- `vaultRepo.Delete`; `RowsAffected` is 0 when no row passes the test.
unfoldable pub delete : ⦃env : Env⦄ → ℕ → ℕ → Exec World Error Unit
unfolding query
delete id user_id = query (λ d.
    if any (owned id user_id) d.items
    then (ok tt, record d { items = filter (λ i. not (owned id user_id i)) d.items })
    else (err not_found, d))

-- `if limit <= 0 || limit > 200 { limit = 50 }`
unfoldable pub page_limit : ℤ → ℕ
page_limit (negsuc _) = 50
page_limit (pos zero) = 50
page_limit (pos (suc n)) = if ltb 200 (suc n) then 50 else suc n

-- `AND id > $k`, where a cursor was given.
abbrev pub after_cursor : Option ℕ → VaultItem → Bool
after_cursor none i = true
after_cursor (some c) i = ltb c i.id

-- The WHERE clause of `List`.
abbrev pub listed : ℕ → ListFilter → VaultItem → Bool
listed user_id f i =
    i.user_id == user_id
    && (str_eq f.type_filter "" || str_eq i.type f.type_filter)
    && after_cursor f.cursor i

-- `ORDER BY updated_at DESC, id`
abbrev pub precedes : VaultItem → VaultItem → Bool
precedes a b = ltb b.updated_at a.updated_at || (a.updated_at == b.updated_at && leb a.id b.id)

unfoldable pub insert_sorted : VaultItem → List VaultItem → List VaultItem
insert_sorted x [] = x ∷ []
insert_sorted x (y ∷ ys) = if precedes x y then x ∷ y ∷ ys else y ∷ insert_sorted x ys

unfoldable pub order_by : List VaultItem → List VaultItem
unfolding insert_sorted
order_by [] = []
order_by (x ∷ xs) = insert_sorted x (order_by xs)

-- The rows that the SELECT returns.
abbrev pub rows : ℕ → ListFilter → List VaultItem → List VaultItem
rows user_id f items = take (page_limit f.limit + 1) (order_by (filter (listed user_id f) items))

abbrev pub cursor_of : Option VaultItem → Option ℕ
cursor_of none = none
cursor_of (some i) = some i.id

-- The end of `List`: a row beyond the limit is cut off, and its ID is the next cursor.
unfoldable pub paginate : ℕ → List VaultItem → List VaultItem × Option ℕ
paginate limit items =
    if ltb limit (length items)
    then (take limit items, cursor_of (get_elem? items limit))
    else (items, none)

-- `vaultRepo.List`, which returns the rows that were read, also when the reading broke off.
unfoldable pub list : ⦃env : Env⦄ → ℕ → ListFilter → Exec World Error (List VaultItem × Option ℕ)
unfolding query page_limit order_by paginate
list ⦃env⦄ user_id f w =
    query
      (λ d. (
        ok (
            paginate (page_limit f.limit)
              (read_rows (env.breaks w.db.queries) (rows user_id f d.items))),
        d,
      ))
      w
