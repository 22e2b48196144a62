-- ===== src/Server/Postgres/Rows.antt =====
-- What the statements of several repositories share.
use go_yandex_gophkeeper.Base.{
  ℕ, suc, Bool, List, Option, none, some, Result, ok, err, ◌==◌, any, take, [], ◌∷◌, true, false,
}
use go_yandex_gophkeeper.Server.Storage.{Error, not_found, User}
use go_yandex_gophkeeper.Server.World.{Db}

-- `row.Scan` of a statement that returns one row or none (`pgx.ErrNoRows`): scanUser, scanItem.
abbrev pub scan : {A : Type 0} → Option A → Result Error A
scan none = err not_found
scan (some a) = ok a

-- `user_id UUID REFERENCES users(id)`
abbrev pub has_user : ℕ → List User → Bool
has_user id users = any (λ u. u.id == id) users

-- A statement that inserts a row draws one UUID for its key.
abbrev pub draw_uuid : Db → Db
draw_uuid d = record d { drawn = suc d.drawn }

-- `for rows.Next()`: when the connection breaks, the loop ends with the rows read so far, and
-- `rows.Err()`, which is not asked, has the error.
abbrev pub read_rows : {A : Type 0} → Option ℕ → List A → List A
read_rows none rows = rows
read_rows (some n) rows = take n rows

-- Bytes that are stored as NULL: protobuf reads an empty field as a nil slice.
abbrev pub is_null : List ℕ → Bool
is_null [] = true
is_null (b ∷ bs) = false
