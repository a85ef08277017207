-- ===== src/Redis/Match.antt =====
-- The patterns of pkg/client/redis/client.go: a literal followed by one or more characters of a
-- class, which are captured; the match of package regexp is the first one, and takes as many
-- characters as it can.
use Prim.Native.Char.{Char, code}
use cndb_redis.Base.{
  String, Bool, true, false, ◌&&◌, ◌||◌, Option, none, some, ◌==◌, leb, if◌then◌else◌,
}

-- the classes [0-9], [a-z] and [0-9a-zA-Z:.]
abbrev pub is_number : Char → Bool
is_number c = leb b'0' (code c) && leb (code c) b'9'

abbrev pub is_lower : Char → Bool
is_lower c = leb b'a' (code c) && leb (code c) b'z'

abbrev pub is_host : Char → Bool
is_host c =
    is_number c
    || (is_lower c
        || ((leb b'A' (code c) && leb (code c) b'Z') || (code c == b':' || code c == b'.')))

-- what stands behind the literal, where the text starts with it
unfoldable pub strip_prefix : String → String → Option String
strip_prefix String.[] s = some s
strip_prefix (String.◌∷◌ c lit) String.[] = none
strip_prefix (String.◌∷◌ c lit) (String.◌∷◌ d s) =
    let rest = strip_prefix lit s in if code c == code d then rest else none

-- the characters of the class at the front
unfoldable pub capture : (Char → Bool) → String → String
capture p String.[] = String.[]
capture p (String.◌∷◌ c s) = let rest = capture p s in if p c then String.◌∷◌ c rest else String.[]

-- a capture of one character or more
unfoldable pub non_empty : String → Option String
non_empty String.[] = none
non_empty (String.◌∷◌ c s) = some (String.◌∷◌ c s)

unfoldable pub capture_behind : (Char → Bool) → Option String → Option String
unfolding capture non_empty
capture_behind p none = none
capture_behind p (some s) = non_empty (capture p s)

-- the match that starts at the front of the text
unfoldable pub match_here : String → (Char → Bool) → String → Option String
unfolding strip_prefix capture_behind
match_here lit p s = capture_behind p (strip_prefix lit s)

unfoldable pub or_else : Option String → Option String → Option String
or_else none o = o
or_else (some m) o = some m

-- FindStringSubmatch(s)[1]
unfoldable pub find_submatch : String → (Char → Bool) → String → Option String
unfolding match_here or_else
find_submatch lit p String.[] = match_here lit p String.[]
find_submatch lit p (String.◌∷◌ c s) =
    or_else (match_here lit p (String.◌∷◌ c s)) (find_submatch lit p s)

unfoldable pub is_some : Option String → Bool
is_some none = false
is_some (some s) = true

-- strings.Contains
unfoldable pub contains_text : String → String → Bool
unfolding strip_prefix is_some
contains_text String.[] lit = is_some (strip_prefix lit String.[])
contains_text (String.◌∷◌ c s) lit =
    is_some (strip_prefix lit (String.◌∷◌ c s)) || contains_text s lit
