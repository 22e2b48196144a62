-- ===== src/Server/Delivery/Channels.antt =====
-- Lists of channels: `remove_first` and `send_all`.
use go_yandex_gophkeeper.Server.World.{SyncEvent, Chan}
use go_yandex_gophkeeper.Server.Service.Sync.{send, send_all, remove_first, capacity, put}
use go_yandex_gophkeeper.Base.{
  ℕ, ◌||◌, ◌≡◌, ◌++◌, if◌then◌else◌, ◌==◌, ◌∷◌, Bool, List, any, ltb, false, true, arith, [], none,
  some, length, refl, Bool-cases, Option-cases, inl, inr,
}
use go_yandex_gophkeeper.Server.Integrity.{NoClash}

-- `ch` is in the list.
abbrev pub has : ℕ → List ℕ → Bool
has ch cs = any (λ c. c == ch) cs

abbrev pub same_chan : ℕ → ℕ → Bool
same_chan a b = b == a

pub has-append : (ch : ℕ) (cs ds : List ℕ) → has ch (cs ++ ds) ≡ (has ch cs || has ch ds)
has-append ch [] ds = refl
has-append ch (c ∷ cs) ds = ground (arith, has-append ch cs ds)

pub NoClash-snoc :
    (ch : ℕ) (cs : List ℕ)
    → NoClash same_chan cs
    → has ch cs ≡ false
    → NoClash same_chan (cs ++ ch ∷ [])
NoClash-snoc ch [] h fresh = (refl, tt)
NoClash-snoc ch (c ∷ cs) h fresh = ground (arith, NoClash-snoc ch cs, has-append c cs (ch ∷ []))

pub has-remove_first :
    (c ch : ℕ) (cs : List ℕ) → has c (remove_first ch cs) ≡ true → has c cs ≡ true
unfolding remove_first
has-remove_first c ch [] h = h
has-remove_first c ch (d ∷ cs) h = ground (arith, has-remove_first c ch cs)

has_not-remove_first :
    (c ch : ℕ) (cs : List ℕ) → has c cs ≡ false → has c (remove_first ch cs) ≡ false
unfolding remove_first
has_not-remove_first c ch [] h = h
has_not-remove_first c ch (d ∷ cs) h = ground (arith, has_not-remove_first c ch cs)

pub remove_first_gone :
    (ch : ℕ) (cs : List ℕ) → NoClash same_chan cs → has ch (remove_first ch cs) ≡ false
unfolding remove_first
remove_first_gone ch [] h = refl
remove_first_gone ch (d ∷ cs) h = ground (arith, remove_first_gone ch cs)

pub NoClash-remove_first :
    (ch : ℕ) (cs : List ℕ) → NoClash same_chan cs → NoClash same_chan (remove_first ch cs)
unfolding remove_first
NoClash-remove_first ch [] h = h
NoClash-remove_first ch (d ∷ cs) h =
    ground (arith, NoClash-remove_first ch cs, has_not-remove_first d ch cs)

-- The channel after an event was offered to it: a full buffer stays as it is.
abbrev pub offered : SyncEvent → Chan → Chan
offered evt c =
    if ltb (length c.buffer) capacity
    then record { buffer = c.buffer ++ evt ∷ []; closed = false }
    else c

send-open :
    (evt : SyncEvent) (ch : ℕ) (chans : ℕ → Chan)
    → (chans ch).closed ≡ false
    → (chans' : ℕ → Chan) × (send evt ch chans ≡ some chans')
      × ((c : ℕ) → chans' c ≡ (if ch == c then offered evt (chans c) else chans c))
unfolding send
send-open evt ch chans h = elim (Bool-cases (ltb (length (chans ch).buffer) capacity)) [
  | inl room ↦ (
    put chans ch (record { buffer = (chans ch).buffer ++ evt ∷ []; closed = false }),
    rw h (rw room refl),
    λ c. ground arith,
  )
  | inr full ↦ (chans, rw h (rw full refl), λ c. ground arith)
]

pub send_all-open :
    (evt : SyncEvent) (cs : List ℕ) (chans : ℕ → Chan)
    → NoClash same_chan cs
    → ((c : ℕ) → has c cs ≡ true → (chans c).closed ≡ false)
    → (chans' : ℕ → Chan) × (send_all evt cs chans ≡ some chans')
      × ((c : ℕ) → chans' c ≡ (if has c cs then offered evt (chans c) else chans c))
unfolding send_all
send_all-open evt [] chans distinct live = (chans, refl, λ c. refl)
send_all-open evt (d ∷ cs) chans distinct live =
    let (chans1, e1, law1) = send-open evt d chans (live d (ground arith)) in
    let (chans2, e2, law2) =
      send_all-open evt cs chans1 distinct.1 (λ c m. ground (arith, law1 c, live c)) in
    (chans2, rw (send_all, e1) e2, λ c. ground (arith, law1 c, law2 c))

send-closed :
    (evt : SyncEvent) (ch : ℕ) (chans : ℕ → Chan)
    → (chans ch).closed ≡ true
    → send evt ch chans ≡ none
unfolding send
send-closed evt ch chans h = rw h refl

send-keeps_closed :
    (evt : SyncEvent) (d ch : ℕ) (chans chans' : ℕ → Chan)
    → send evt d chans ≡ some chans'
    → (chans ch).closed ≡ true
    → (chans' ch).closed ≡ true
unfolding send
send-keeps_closed evt d ch chans chans' e h = elim (Bool-cases (chans d).closed) [
  | inl shut ↦ absurd (cc (send-closed evt d chans shut))
  | inr live ↦ let (chans1, e1, law1) = send-open evt d chans live in ground (arith, law1 ch)
]

-- A send to a closed channel panics, whatever comes before it.
pub send_all-closed :
    (evt : SyncEvent) (cs : List ℕ) (chans : ℕ → Chan) (ch : ℕ)
    → has ch cs ≡ true
    → (chans ch).closed ≡ true
    → send_all evt cs chans ≡ none
unfolding send_all
send_all-closed evt [] chans ch h closed = cc
send_all-closed evt (d ∷ cs) chans ch h closed = elim (Option-cases (send evt d chans)) [
  | inl e ↦ rw (send_all, e) refl
  | inr (chans', e) ↦
      rw (send_all, e)
        (send_all-closed evt cs chans' ch (ground (arith, send-closed evt d chans))
          (send-keeps_closed evt d ch chans chans' e closed))
]
