-- ===== src/Server/Service/Sync.antt =====
-- internal/server/service/sync.go: each method as one step, which no other goroutine interrupts.
use go_yandex_gophkeeper.Base.{
  ℕ, suc, true, false, List, [], ◌∷◌, ◌++◌, Option, none, some, ok, err, Exec, ltb, ◌==◌,
  if◌then◌else◌, length,
}
use go_yandex_gophkeeper.Server.Storage.{Error, panicked, VaultItem}
use go_yandex_gophkeeper.Server.World.{World, Hub, Chan, SyncEvent, upsert, delete}

-- An assignment to one key of a map, or through one pointer.
abbrev pub put {ℓ} : {A : Type ℓ} → (ℕ → A) → ℕ → A → ℕ → A
put f k v j = if k == j then v else f j

-- `NewSyncService`
abbrev pub new_hub : Hub
new_hub = record {
  subscribers = λ _. [];
  chans = λ _. record { buffer = []; closed = true };
  made = 0;
}

-- `make(chan SyncEvent, 32)`
abbrev pub capacity : ℕ
capacity = 32

-- `SyncService.Subscribe`: the new channel.
unfoldable pub subscribe : ℕ → Hub → ℕ × Hub
subscribe user h = (
  h.made,
  record {
    subscribers = put h.subscribers user (h.subscribers user ++ h.made ∷ []);
    chans = put h.chans h.made (record { buffer = []; closed = false });
    made = suc h.made;
  },
)

-- The loop of the cleanup function: the first entry that is `ch` is taken out.
unfoldable pub remove_first : ℕ → List ℕ → List ℕ
remove_first ch [] = []
remove_first ch (c ∷ cs) = if c == ch then cs else c ∷ remove_first ch cs

abbrev pub cancelled : ℕ → ℕ → Hub → Hub
cancelled user ch h = record h {
  subscribers = put h.subscribers user (remove_first ch (h.subscribers user));
  chans = put h.chans ch (record { buffer = (h.chans ch).buffer; closed = true });
}

-- The function that `Subscribe` returns; `close` of a closed channel panics.
unfoldable pub cancel : ℕ → ℕ → Hub → Option Hub
unfolding remove_first
cancel user ch h = if (h.chans ch).closed then none else some (cancelled user ch h)

-- `select { case ch <- evt: default: }`: a send to a closed channel panics, and a send to a full
-- one is dropped.
unfoldable pub send : SyncEvent → ℕ → (ℕ → Chan) → Option (ℕ → Chan)
send evt ch chans =
    if (chans ch).closed
    then none
    else some (
        if ltb (length (chans ch).buffer) capacity
        then put chans ch (record { buffer = (chans ch).buffer ++ evt ∷ []; closed = false })
        else chans)

-- The loop of `notify`.
unfoldable pub send_all : SyncEvent → List ℕ → (ℕ → Chan) → Option (ℕ → Chan)
unfolding send
send_all evt [] chans = some chans
send_all evt (ch ∷ rest) chans = elim (send evt ch chans) [
  | none ↦ none
  | some chans' ↦ send_all evt rest chans'
]

abbrev pub with_chans : Hub → Option (ℕ → Chan) → Option Hub
with_chans h none = none
with_chans h (some chans) = some (record h { chans = chans })

-- `SyncService.notify`
unfoldable pub notify : ℕ → SyncEvent → Hub → Option Hub
unfolding send_all
notify user evt h = with_chans h (send_all evt (h.subscribers user) h.chans)

abbrev pub in_world : (Hub → Option Hub) → Exec World Error Unit
in_world f w = elim (f w.hub) [ none ↦ (err panicked, w) | some h ↦ (ok tt, record w { hub = h }) ]

-- `SyncService.NotifyUpsert`
unfoldable pub notify_upsert : ℕ → VaultItem → Exec World Error Unit
unfolding notify
notify_upsert user item = in_world (notify user (upsert item))

-- `SyncService.NotifyDelete`
unfoldable pub notify_delete : ℕ → ℕ → Exec World Error Unit
unfolding notify
notify_delete user id = in_world (notify user (delete id))
