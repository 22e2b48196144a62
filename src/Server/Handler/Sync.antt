-- ===== src/Server/Handler/Sync.antt =====
-- internal/server/handler/sync.go: the snapshot that `Subscribe` sends, and its live events.
use go_yandex_gophkeeper.Base.{
  ℕ, Bool, true, List, [], ◌∷◌, Option, none, some, Result, ok, err, Exec, pure, raise, attempt,
  ◌>>=◌, ltb, ◌==◌, if◌then◌else◌, filter, map,
}
use go_yandex_gophkeeper.Base.Int.{pos}
use go_yandex_gophkeeper.Server.Storage.{Error, VaultItem, ListFilter}
use go_yandex_gophkeeper.Server.World.{Env, World, Hub, Context, SyncEvent, upsert, delete}
use go_yandex_gophkeeper.Server.Service.Sync.{put, subscribe}
use go_yandex_gophkeeper.Server.Service.Vault
use go_yandex_gophkeeper.Server.Middleware.Metadata.{Code, internal, status}
use go_yandex_gophkeeper.Server.Handler.Auth.{with_user}
use go_yandex_gophkeeper.Server.Handler.Vault.{ProtoItem, unspecified}

-- `storageItemToProto`, which leaves the type out.
unfoldable pub storage_item_to_proto : VaultItem → ProtoItem
storage_item_to_proto i = record {
  id = i.id;
  user_id = i.user_id;
  type = unspecified;
  payload = i.payload;
  metadata = i.metadata;
  version = i.version;
  created_at = i.created_at;
  updated_at = i.updated_at;
}

-- `syncpb.SyncEvent`
pub data ProtoEvent : Type 0 where
  upserted : ProtoItem → ProtoEvent
  removed : ℕ → ProtoEvent

-- The map `knownVersions`: a later entry for an item takes the place of an earlier one.
unfoldable pub known_version : List (ℕ × ℕ) → ℕ → Option ℕ
known_version [] id = none
known_version ((k, v) ∷ rest) id = elim (known_version rest id) [
  | some u ↦ some u
  | none ↦ if k == id then some v else none
]

abbrev outdated : Option ℕ → ℕ → Bool
outdated none version = true
outdated (some client) version = ltb client version

-- `!known || item.Version > clientVer`
unfoldable pub is_missing : List (ℕ × ℕ) → VaultItem → Bool
unfolding known_version
is_missing known i = outdated (known_version known i.id) i.version

-- The first loop of `Subscribe`: what is sent of the items that were listed.
unfoldable pub snapshot : List (ℕ × ℕ) → List VaultItem → List ProtoEvent
unfolding is_missing storage_item_to_proto
snapshot known items =
    map (λ i. upserted (storage_item_to_proto i)) (filter (is_missing known) items)

-- `storage.ListFilter{Limit: 1000}`
abbrev pub sync_filter : ListFilter
sync_filter = record { type_filter = ""; limit = pos 1000; cursor = none }

-- `h.syncSvc.Subscribe(userID)`, after the snapshot.
abbrev open_channel : ℕ → Exec World Code ℕ
open_channel user w = let (ch, hub) = subscribe user w.hub in (ok ch, record w { hub = hub })

abbrev listed_then :
    ℕ
    → List (ℕ × ℕ)
    → Result Error (List VaultItem × Option ℕ)
    → Exec World Code (List ProtoEvent × ℕ)
listed_then id known (err e) = raise (status e internal)
listed_then id known (ok (items, _)) = do ch ← open_channel id; pure (snapshot known items, ch)

-- `SyncHandler.Subscribe` up to its live loop, on a stream that takes every event: the events
-- sent, and the channel that the loop reads.
unfoldable pub subscribe_stream :
    ⦃env : Env⦄ → Context → List (ℕ × ℕ) → Exec World Code (List ProtoEvent × ℕ)
unfolding Vault.list snapshot subscribe
subscribe_stream ctx known =
    with_user ctx (λ id. attempt (Vault.list ctx id sync_filter) (listed_then id known))

-- The event that the live loop sends on.
unfoldable pub to_proto_event : SyncEvent → ProtoEvent
unfolding storage_item_to_proto
to_proto_event (upsert i) = upserted (storage_item_to_proto i)
to_proto_event (delete id) = removed id

abbrev pub left_with : ℕ → List SyncEvent → Hub → Hub
left_with ch rest h = record h {
  chans = put h.chans ch (record { buffer = rest; closed = (h.chans ch).closed });
}

abbrev pub next_event : ℕ → Hub → List SyncEvent → Option (ProtoEvent × Hub)
next_event ch h [] = none
next_event ch h (e ∷ rest) = some (to_proto_event e, left_with ch rest h)

-- One round of the live loop: the oldest event of the buffer, if there is one.
unfoldable pub receive : ℕ → Hub → Option (ProtoEvent × Hub)
unfolding to_proto_event
receive ch h = next_event ch h (h.chans ch).buffer
