-- ===== src/Redis/Params.antt =====
-- The parameters of a custom setting of a sentinel, and the address of a node.
pub mod Split
use Prim.Native.Char.{code}
use cndb_redis.Base.{
  ℕ, String, ◌<>◌, Bool, true, false, ◌||◌, List, [], ◌∷◌, ◌==◌, if◌then◌else◌, str_eq, Result, ok,
  err,
}

-- the piece that a character is put in front of
unfoldable pub push_front : String → List String → List String
push_front c [] = c ∷ []
push_front c (piece ∷ pieces) = (c <> piece) ∷ pieces

-- strings.Split(s, " ")
unfoldable pub split_spaces : String → List String
unfolding push_front
split_spaces String.[] = "" ∷ []
split_spaces (String.◌∷◌ c s) =
    let rest = split_spaces s in
    if code c == b' ' then "" ∷ rest else push_front (String.◌∷◌ c "") rest

-- strings.Join(pieces, " ")
unfoldable pub join_spaces : List String → String
join_spaces [] = ""
join_spaces (piece ∷ []) = piece
join_spaces (piece ∷ other ∷ pieces) = piece <> (" " <> join_spaces (other ∷ pieces))

-- the cases of len(s) < 2
unfoldable pub parameters_of : String → List String → Result String (String × String)
unfolding join_spaces
parameters_of config (parameter ∷ value ∷ values) = ok (parameter, join_spaces (value ∷ values))
parameters_of config other = err ("configuration '" <> (config <> "' malformed"))

unfoldable pub get_config_parameters : String → Result String (String × String)
unfolding split_spaces parameters_of
get_config_parameters config = parameters_of config (split_spaces config)

unfoldable pub has_colon : String → Bool
has_colon String.[] = false
has_colon (String.◌∷◌ c s) = code c == b':' || has_colon s

-- net.JoinHostPort
unfoldable pub join_host_port : String → String → String
unfolding has_colon
join_host_port host port =
    if has_colon host then "[" <> (host <> ("]:" <> port)) else host <> (":" <> port)

abbrev pub redis_port : String
redis_port = "6379"

abbrev pub sentinel_port : String
sentinel_port = "26379"

-- rediscli.Options, whose DB is always 0
pub record Options : Type 0 where
  pub addr : String
  pub password : String

-- sentinels are reached without a password
unfoldable pub set_options : String → String → String → Options
unfolding join_host_port
set_options ip port auth = record {
  addr = join_host_port ip port;
  password = if str_eq port sentinel_port then "" else auth;
}
