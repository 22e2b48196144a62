-- ===== src/Server/Middleware/Metadata.antt =====
-- The gRPC status codes that the server answers with, and the incoming metadata.
use Prim.Native.Char.{code}
use go_yandex_gophkeeper.Base.{
  String, List, [], Option, none, some, ◌==◌, str_eq, if◌then◌else◌, find,
}
use go_yandex_gophkeeper.Server.Storage.{Error, panicked}
use go_yandex_gophkeeper.Server.World.{Context}

-- `codes.Code`; `crashed` stands for a request that ends the process by a panic.
pub data Code : Type 0 where
  unauthenticated already_exists internal not_found resource_exhausted crashed : Code

-- An error becomes the status that the handler chooses for it; no handler recovers from a panic.
abbrev pub status : Error → Code → Code
status panicked c = crashed
status e c = c

abbrev values : Option (String × List String) → List String
values none = []
values (some (k, vs)) = vs

-- `md.Get(key)`, where `md, ok := metadata.FromIncomingContext(ctx)`; no metadata has no values.
abbrev pub metadata_values : Context → String → List String
metadata_values ctx key = elim ctx.metadata [
  | none ↦ []
  | some md ↦ values (find (λ e. str_eq e.0 key) md)
]

-- `strings.TrimPrefix(s, prefix)`
unfoldable pub strip : String → String → Option String
strip String.[] s = some s
strip (String.◌∷◌ c p) String.[] = none
strip (String.◌∷◌ c p) (String.◌∷◌ d s) = if code c == code d then strip p s else none

abbrev or_whole : Option String → String → String
or_whole none s = s
or_whole (some rest) s = rest

unfoldable pub trim_prefix : String → String → String
unfolding strip
trim_prefix prefix s = or_whole (strip prefix s) s
