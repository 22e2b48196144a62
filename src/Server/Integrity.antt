-- ===== src/Server/Integrity.antt =====
-- Uniqueness of keys in the tables of the migrations.
use go_yandex_gophkeeper.Base.{
  ◌≡◌, refl, ◌∷◌, ◌==◌, List, Bool, filter, any, update_where, none, [], arith, false, str_eq, ◌||◌,
}
use go_yandex_gophkeeper.Server.Storage.{VaultItem, User, Session}
use go_yandex_gophkeeper.Server.World.{Env, Db, World}
use go_yandex_gophkeeper.Server.Postgres.Users
use go_yandex_gophkeeper.Server.Postgres.Sessions
use go_yandex_gophkeeper.Server.Preserve.Tables.{
  ItemLaws, items-Preserved, UserLaws, users-Preserved, SessionLaws, sessions-Preserved,
}
use go_yandex_gophkeeper.Server.Preserve.Requests.{AllActing, run-Keeps}
use go_yandex_gophkeeper.Server.App.{run, Arrival}

-- No row clashes with a later one.
abbrev pub NoClash : {A : Type 0} → (A → A → Bool) → List A → Type 0
NoClash clashes [] = Unit
NoClash clashes (x ∷ xs) = (any (clashes x) xs ≡ false) × NoClash clashes xs

module _ {A : Type 0} (clashes : A → A → Bool) (p : A → Bool) where
  any-filter :
      (x : A) (xs : List A) → any (clashes x) xs ≡ false → any (clashes x) (filter p xs) ≡ false
  any-filter x [] h = refl
  any-filter x (y ∷ ys) h = ground (arith, any-filter x ys)

  NoClash-filter : (xs : List A) → NoClash clashes xs → NoClash clashes (filter p xs)
  NoClash-filter [] h = tt
  NoClash-filter (x ∷ xs) h = ground (arith, any-filter x xs, NoClash-filter xs)

-- An update that leaves alone what `clashes` reads.
module _ {A : Type 0} (clashes : A → A → Bool) (p : A → Bool) (f : A → A)
    (left : (x y : A) → clashes (f x) y ≡ clashes x y)
    (right : (x y : A) → clashes x (f y) ≡ clashes x y) where
  any-update_where :
      (x : A) (xs : List A) → any (clashes x) (update_where p f xs) ≡ any (clashes x) xs
  any-update_where x [] = refl
  any-update_where x (y ∷ ys) = ground (arith, any-update_where x ys, right x y)

  any-left : (x : A) (xs : List A) → any (clashes (f x)) xs ≡ any (clashes x) xs
  any-left x [] = refl
  any-left x (y ∷ ys) = ground (arith, any-left x ys, left x y)

  NoClash-update_where : (xs : List A) → NoClash clashes xs → NoClash clashes (update_where p f xs)
  NoClash-update_where [] h = tt
  NoClash-update_where (x ∷ xs) h = ground (
    arith,
    any-update_where x xs,
    any-update_where (f x) xs,
    any-left x xs,
    NoClash-update_where xs,
  )

abbrev pub same_id : VaultItem → VaultItem → Bool
same_id i j = j.id == i.id

UniqueUsers-laws : UserLaws (NoClash Users.clashes)
UniqueUsers-laws = record {
  create_law = λ u users fresh h. (fresh, h);
  update_law =
      λ id b users h. NoClash-update_where Users.clashes _ _ (λ x y. refl) (λ x y. refl) users h;
}

UniqueSessions-laws : SessionLaws (NoClash Sessions.clashes)
UniqueSessions-laws = record {
  create_law = λ s sessions fresh h. (fresh, h);
  update_law = λ id sessions h.
      NoClash-update_where Sessions.clashes _ _ (λ x y. refl) (λ x y. refl) sessions h;
  delete_law = λ t sessions h. NoClash-filter Sessions.clashes _ sessions h;
}

UniqueItems-laws : ItemLaws (NoClash same_id) (λ _. Unit)
UniqueItems-laws = record {
  create_law = λ i items a fresh h. (fresh, h);
  update_law =
      λ new now items a h. NoClash-update_where same_id _ _ (λ x y. refl) (λ x y. refl) items h;
  delete_law = λ id user items a h. NoClash-filter same_id _ items h;
}

module _ {A : Type 0} (p q : A → A → Bool) where
  any-or : (x : A) (xs : List A) → any (λ y. p x y || q x y) xs ≡ any (p x) xs || any (q x) xs
  any-or x [] = refl
  any-or x (y ∷ ys) = ground (arith, any-or x ys)

  NoClash-or : (xs : List A) → NoClash p xs → NoClash q xs → NoClash (λ x y. p x y || q x y) xs
  NoClash-or [] h k = tt
  NoClash-or (x ∷ xs) h k = (ground (arith, any-or x xs, h.0, k.0), NoClash-or xs h.1 k.1)

  NoClash-left : (xs : List A) → NoClash (λ x y. p x y || q x y) xs → NoClash p xs
  NoClash-left [] h = tt
  NoClash-left (x ∷ xs) h = (ground (arith, any-or x xs, h.0), NoClash-left xs h.1)

  NoClash-right : (xs : List A) → NoClash (λ x y. p x y || q x y) xs → NoClash q xs
  NoClash-right [] h = tt
  NoClash-right (x ∷ xs) h = (ground (arith, any-or x xs, h.0), NoClash-right xs h.1)

-- Rows with the same ID, name, email or refresh token.
abbrev pub same_user_id : User → User → Bool
same_user_id u v = v.id == u.id

abbrev pub same_username : User → User → Bool
same_username u v = str_eq v.username u.username

abbrev pub same_email : User → User → Bool
same_email u v = str_eq v.email u.email

abbrev pub same_session_id : Session → Session → Bool
same_session_id s r = r.id == s.id

abbrev pub same_refresh_token : Session → Session → Bool
same_refresh_token s r = str_eq r.refresh_token s.refresh_token

-- No two accounts share an ID, a username or an email, no two sessions an ID or a refresh token, no
-- two items an ID.
pub record IsConsistent (d : Db) : Type 0 where
  pub user_ids : NoClash same_user_id d.users
  pub usernames : NoClash same_username d.users
  pub emails : NoClash same_email d.users
  pub session_ids : NoClash same_session_id d.sessions
  pub refresh_tokens : NoClash same_refresh_token d.sessions
  pub item_ids : NoClash same_id d.items

abbrev id_or_name : User → User → Bool
id_or_name u v = same_user_id u v || same_username u v

IsConsistent-users : {d : Db} → IsConsistent d → NoClash Users.clashes d.users
IsConsistent-users {d} h =
    NoClash-or id_or_name same_email d.users
      (NoClash-or same_user_id same_username d.users h.user_ids h.usernames) h.emails

IsConsistent-sessions : {d : Db} → IsConsistent d → NoClash Sessions.clashes d.sessions
IsConsistent-sessions {d} h =
    NoClash-or same_session_id same_refresh_token d.sessions h.session_ids h.refresh_tokens

-- The keys that the statements check, one by one.
of_clashes :
    (d : Db)
    → NoClash Users.clashes d.users
    → NoClash Sessions.clashes d.sessions
    → NoClash same_id d.items
    → IsConsistent d
of_clashes d u s i =
    let names = NoClash-left id_or_name same_email d.users u in
    record {
      user_ids = NoClash-left same_user_id same_username d.users names;
      usernames = NoClash-right same_user_id same_username d.users names;
      emails = NoClash-right id_or_name same_email d.users u;
      session_ids = NoClash-left same_session_id same_refresh_token d.sessions s;
      refresh_tokens = NoClash-right same_session_id same_refresh_token d.sessions s;
      item_ids = i;
    }

-- Over the wire, and whatever its token says.
abbrev pub AllWire : List Arrival → Type 0
AllWire [] = Unit
AllWire ((rpc, ctx, now) ∷ rest) = (ctx.user_id ≡ none) × AllWire rest

AllActing-of-AllWire :
    ⦃env : Env⦄ (arrivals : List Arrival) → AllWire arrivals → AllActing (λ _. Unit) arrivals
AllActing-of-AllWire [] h = tt
AllActing-of-AllWire ((rpc, ctx, now) ∷ rest) h = ((h.0, λ id a. tt), AllActing-of-AllWire rest h.1)

-- No sequence of requests makes two accounts that share an ID, a username or an email, two sessions
-- that share an ID or a refresh token, or two items that share an ID, where there were none before.
pub run-IsConsistent :
    ⦃env : Env⦄ (arrivals : List Arrival) (w : World)
    → AllWire arrivals
    → IsConsistent w.db
    → IsConsistent (run arrivals w).db
run-IsConsistent arrivals w wire h =
    let all = AllActing-of-AllWire arrivals wire in
    of_clashes (run arrivals w).db
      (run-Keeps (users-Preserved UniqueUsers-laws) (λ w now h. h) arrivals w all
        (IsConsistent-users h))
      (run-Keeps (sessions-Preserved UniqueSessions-laws) (λ w now h. h) arrivals w all
        (IsConsistent-sessions h))
      (run-Keeps (items-Preserved UniqueItems-laws) (λ w now h. h) arrivals w all h.item_ids)
