-- ===== src/Client/Tui/Text.antt =====
-- internal/client/tui/auth.go: `grpcMsg`, and what it uses of Go's strings.
use go_yandex_gophkeeper.Base.{
  String, Bool, true, false, ◌&&◌, ◌||◌, ◌==◌, if◌then◌else◌, Option, none, some,
}
use Prim.Native.Char.{code}

-- `strings.HasPrefix`
unfoldable pub has_prefix : String → String → Bool
has_prefix s String.[] = true
has_prefix String.[] (String.◌∷◌ d t) = false
has_prefix (String.◌∷◌ c s) (String.◌∷◌ d t) = code c == code d && has_prefix s t

-- `strings.Contains`
unfoldable pub contains : String → String → Bool
unfolding has_prefix
contains String.[] sub = has_prefix "" sub
contains (String.◌∷◌ c s) sub = has_prefix (String.◌∷◌ c s) sub || contains s sub

-- The text after the first two characters.
abbrev pub after_two : String → String
after_two (String.◌∷◌ c (String.◌∷◌ d s)) = s
after_two s = ""

abbrev later_or : Option String → Option String → Option String
later_or none o = o
later_or (some s) o = some s

-- `s[i+2:]` for `i = strings.LastIndex(s, ": ")`; `none` where there is no such i.
unfoldable pub after_last_colon : String → Option String
unfolding has_prefix
after_last_colon String.[] = none
after_last_colon (String.◌∷◌ c s) =
    later_or (after_last_colon s)
      (if has_prefix (String.◌∷◌ c s) ": " then some (after_two (String.◌∷◌ c s)) else none)

abbrev pub or_whole : String → Option String → String
or_whole s none = s
or_whole s (some t) = t

-- `grpcMsg`
unfoldable pub grpc_msg : String → String
unfolding contains after_last_colon
grpc_msg s =
    if contains s "connection refused"
      || contains s "no such host"
      || contains s "deadline exceeded"
      || contains s "Unavailable"
    then "Server unavailable"
    else or_whole s (after_last_colon s)
