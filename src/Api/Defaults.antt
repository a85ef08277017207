-- ===== src/Api/Defaults.antt =====
-- api/v1alpha1/constants.go, and the defaults that the two Validate methods share.
pub mod Fixpoints
use cndb_redis.Base.{
  ℕ, String, Bool, true, false, not, ◌&&◌, Option, none, some, List, [], ◌∷◌, if◌then◌else◌, str_eq,
  ◌≡◌, refl, arith,
}
use cndb_redis.Base.Int.{ℤ, pos, ltb_ℤ, eqb_ℤ}
use cndb_redis.Base.Dict.{Dict, lookup}
use cndb_redis.Api.Types.{RedisExporter}
use cndb_redis.Api.Persistence.{enable_persistence, disable_persistence}

abbrev pub max_name_length : ℕ
max_name_length = 48

abbrev pub default_redis_number : ℤ
default_redis_number = pos 3

abbrev pub default_sentinel_number : ℤ
default_sentinel_number = pos 3

abbrev pub default_standalone_redis_number : ℤ
default_standalone_redis_number = pos 1

abbrev pub default_redis_image : String
default_redis_image = "harbor.enmotech.com/cndb-redis/redis:5.0.4-alpine"

abbrev pub default_redis_exporter_image : String
default_redis_exporter_image = "harbor.enmotech.com/cndb-redis/redis-exporter:1.31.4"

abbrev pub default_image_pull_policy : String
default_image_pull_policy = "IfNotPresent"

abbrev pub default_slave_priority : String
default_slave_priority = "1"

-- if n == 0 { n = d }
unfoldable pub default_number : ℤ → ℤ → ℤ
default_number n d = if eqb_ℤ n (pos 0) then d else n

-- if s == "" { s = d }
unfoldable pub default_text : String → String → String
default_text s d = if str_eq s "" then d else s

unfoldable pub default_exporter : RedisExporter → RedisExporter
unfolding default_text
default_exporter e =
    if e.enabled
    then record e {
      image = default_text e.image default_redis_exporter_image;
      image_pull_policy = default_text e.image_pull_policy default_image_pull_policy;
    }
    else e

-- if config == nil { config = make(map[string]string) }
unfoldable pub made : Option (Dict String) → Dict String
made none = []
made (some config) = config

unfoldable pub persist : Bool → Dict String → Dict String
persist true config = disable_persistence config
persist false config = enable_persistence config

-- reflect.DeepEqual on values of a map: two maps agree on the keys of one of them
pub same_value : Option String → Option String → Bool
same_value none none = true
same_value none (some w) = false
same_value (some v) none = false
same_value (some v) (some w) = str_eq v w

pub agree_on : Dict String → Dict String → Dict String → Bool
unfolding same_value
agree_on [] m n = true
agree_on ((key, _) ∷ rest) m n = same_value (lookup key m) (lookup key n) && agree_on rest m n

-- reflect.DeepEqual on maps, and on maps of which one may be nil
unfoldable pub map_equal : Dict String → Dict String → Bool
unfolding agree_on
map_equal m n = agree_on m m n && agree_on n m n

unfoldable pub config_equal : Option (Dict String) → Option (Dict String) → Bool
unfolding map_equal
config_equal none none = true
config_equal none (some n) = false
config_equal (some m) none = false
config_equal (some m) (some n) = map_equal m n

unfoldable pub exporter_equal : RedisExporter → RedisExporter → Bool
exporter_equal d e = str_eq d.image e.image && str_eq d.image_pull_policy e.image_pull_policy
