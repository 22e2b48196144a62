-- ===== src/Server/Wire.antt =====
-- What the clients see beside the items themselves: item types, the snapshot of a sync stream, and
-- the rate limit.
use go_yandex_gophkeeper.Server.Service.Audit.{log_audit}
use go_yandex_gophkeeper.Server.Middleware.Metadata.{metadata_values, internal, resource_exhausted}
use go_yandex_gophkeeper.Server.Middleware.RateLimit.{is_rate_limited, calls, client_ip, touch}
use Vault.{unspecified, credential, text, binary, card, otp}
use go_yandex_gophkeeper.Server.Storage.{VaultItem, ListFilter, Action, Outcome, Detail}
use go_yandex_gophkeeper.Server.Handler.Vault.{ItemType}
use go_yandex_gophkeeper.Server.World.{Env, Context, World}
use go_yandex_gophkeeper.Base.{
  none, List, ◌∷◌, ◌≡◌, ◌<◌, ◌≤◌, Bool, ℕ, String, false, Option, length, some, true, arith, ok,
  err, take, [], refl, length-take, get_elem?,
}
use go_yandex_gophkeeper.Server.Postgres.Items.{known_type, page_limit, cursor_of}
use go_yandex_gophkeeper.Server.App.{serve, handle, Rpc, full_method, create_item, from_wire}
use go_yandex_gophkeeper.Server.Handler.Vault
use go_yandex_gophkeeper.Server.Handler.Sync.{subscribe_stream, snapshot, sync_filter}
use go_yandex_gophkeeper.Server.Pages.{list_lem, matching}
use go_yandex_gophkeeper.Server.Service
use go_yandex_gophkeeper.Server.Postgres.Items

abbrev pub is_specified : ItemType → Bool
is_specified unspecified = false
is_specified _ = true

-- Every item type is stored under a name that is read back as the type, and a name is in the table's
-- CHECK if and only if its type is not the unspecified one.
pub item_type_roundtrip :
    (t : ItemType)
    → (Vault.to_proto_item_type (Vault.item_type_name t) ≡ t)
      × (known_type (Vault.item_type_name t) ≡ is_specified t)
unfolding Vault.to_proto_item_type Vault.item_type_name known_type
item_type_roundtrip unspecified = (refl, refl)
item_type_roundtrip credential = (refl, refl)
item_type_roundtrip text = (refl, refl)
item_type_roundtrip binary = (refl, refl)
item_type_roundtrip card = (refl, refl)
item_type_roundtrip otp = (refl, refl)

-- An item of unspecified type is answered with Internal, and is not stored.
pub create_unspecified :
    ⦃env : Env⦄ (ctx : Context) (id : ℕ) (payload : List ℕ) (meta : String) (w : World)
    → ctx.user_id ≡ some id
    → ((handle (create_item unspecified payload meta) ctx w).0 ≡ err internal)
      × ((handle (create_item unspecified payload meta) ctx w).1.db.items ≡ w.db.items)
unfolding handle Vault.create_item known_type
create_unspecified ctx id payload meta w acting = ground arith

length-snapshot :
    (known : List (ℕ × ℕ)) (items : List VaultItem) → length (snapshot known items) ≤ length items
unfolding snapshot
length-snapshot known [] = omega arith
length-snapshot known (i ∷ items) = ground (arith, length-snapshot known items)

list-hub : ⦃env : Env⦄ (user : ℕ) (f : ListFilter) (w : World) → (Items.list user f w).1.hub ≡ w.hub
unfolding Items.list
list-hub user f w = ground arith

log_audit-hub :
    ⦃env : Env⦄ (ctx : Context) (id : ℕ) (a : Action) (o : Outcome) (d : Detail) (w : World)
    → (log_audit ctx id a o d w).1.hub ≡ w.hub
unfolding log_audit
log_audit-hub ctx id a o d w = ground arith

vault_list-hub :
    ⦃env : Env⦄ (ctx : Context) (id : ℕ) (f : ListFilter) (w : World)
    → (Service.Vault.list ctx id f w).1.hub ≡ w.hub
unfolding Service.Vault.list
vault_list-hub ctx id f w = ground arith

vault_list_lem :
    ⦃env : Env⦄ (ctx : Context) (id : ℕ) (f : ListFilter) (w : World)
    → env.down w.db.queries ≡ false
    → env.breaks w.db.queries ≡ none
    → (Service.Vault.list ctx id f w).0
      ≡ ok (
        take (page_limit f.limit) (matching id f w.db.items),
        cursor_of (get_elem? (matching id f w.db.items) (page_limit f.limit)),
      )
unfolding Service.Vault.list
vault_list_lem ctx id f w up whole = rw up (cc (list_lem id f w up whole))

-- The snapshot that opens a sync stream is read from the first 50 items of the user, latest first:
-- it holds those of them that the client has in no version or in an older one, and so at most 50,
-- although the handler asks for 1000; then the stream reads a new channel. The rows are read to the
-- end.
pub subscribe_stream_lem :
    ⦃env : Env⦄ (ctx : Context) (id : ℕ) (known : List (ℕ × ℕ)) (w : World)
    → ctx.user_id ≡ some id
    → env.down w.db.queries ≡ false
    → env.breaks w.db.queries ≡ none
    → ((subscribe_stream ctx known w).0
        ≡ ok (snapshot known (take 50 (matching id sync_filter w.db.items)), w.hub.made))
      × (length (snapshot known (take 50 (matching id sync_filter w.db.items))) ≤ 50)
unfolding subscribe_stream
subscribe_stream_lem ctx id known w acting up whole = (
  rw acting (
      ground
        (arith, vault_list_lem ctx id sync_filter w up whole, vault_list-hub ctx id sync_filter w)),
  omega (
    arith,
    length-snapshot known (take 50 (matching id sync_filter w.db.items)),
    length-take 50 (matching id sync_filter w.db.items),
  ),
)

-- A client that names an address in `x-forwarded-for` that the server has not seen is not limited,
-- whatever it has sent under other addresses: a limiter allows a burst of ten.
pub serve-fresh_address :
    ⦃env : Env⦄ (rpc : Rpc) (md : List (String × List String)) (address : String)
    (rest : List String) (peer : Option String) (w : World)
    → ((past : List ℕ) (now : ℕ) → length past < 10 → env.allow past now ≡ true)
    → is_rate_limited (full_method rpc) ≡ true
    → metadata_values (from_wire (some md) peer) "x-forwarded-for" ≡ address ∷ rest
    → calls address w.limiters ≡ []
    → serve rpc (from_wire (some md) peer) w
      ≡ handle rpc
          (from_wire (some md) peer)
          (record w { limiters = touch address w.now w.limiters })
unfolding serve
serve-fresh_address rpc md address rest peer w burst limited named fresh =
    ground (arith, burst [] w.now)

-- A limited method over its limit is answered with ResourceExhausted, and the database is not asked.
pub serve-limited :
    ⦃env : Env⦄ (rpc : Rpc) (ctx : Context) (w : World)
    → is_rate_limited (full_method rpc) ≡ true
    → env.allow (calls (client_ip ctx) w.limiters) w.now ≡ false
    → ((serve rpc ctx w).0 ≡ err resource_exhausted) × ((serve rpc ctx w).1.db ≡ w.db)
unfolding serve
serve-limited rpc ctx w limited over = ground arith
