-- ===== src/Util/Settings.antt =====
-- pkg/util/utils.go: the namespace of the operator's own metrics.
use Prim.Native.Char.{code}
use cndb_redis.Base.{String, ◌==◌, if◌then◌else◌, str_eq}

-- strings.ReplaceAll(in, "-", "_")
unfoldable pub replace_symbol : String → String
replace_symbol String.[] = ""
replace_symbol (String.◌∷◌ c s) = String.◌∷◌ (if code c == b'-' then "_" else c) (replace_symbol s)

-- the variables of the environment are a function; one that is not set reads as ""
unfoldable pub get_env_or_default : (String → String) → String → String → String
get_env_or_default getenv name default_val =
    if str_eq (getenv name) "" then default_val else getenv name
