-- ===== src/Standalone/Entries.antt =====
-- controllers/redisstandalone/cache/cache.go, which repeats redissentinel/cache over RedisStandalone.
use cndb_redis.Base.{ℕ, Bool, Option}
use cndb_redis.Base.Dict.{Dict}
use cndb_redis.Api.Types.{K8s, RedisStandaloneSpec, RedisStandalone}
use cndb_redis.Api.Views.{standalone_view}
use cndb_redis.Cache.{
  Meta, new_meta, update_meta, get_meta, add_meta, del_meta, cache, is_images_changed,
  is_scaling_down, is_scaling_up, is_resources_change,
}

module _ (k : K8s) where
  abbrev pub Store : Type 0
  Store = ℕ → RedisStandalone k

  abbrev pub new_standalone : Store → ℕ → Meta
  new_standalone = new_meta (standalone_view k)

  abbrev pub cache_standalone : Store → Dict Meta → ℕ → Store × Dict Meta × Option Meta
  cache_standalone = cache (standalone_view k)

  abbrev pub get_standalone : Store → Dict Meta → ℕ → Option Meta
  get_standalone = get_meta (standalone_view k)

  abbrev pub add_standalone : Store → Dict Meta → ℕ → Dict Meta
  add_standalone = add_meta (standalone_view k)

  abbrev pub del_standalone : Dict Meta → RedisStandalone k → Dict Meta
  del_standalone = del_meta (standalone_view k)

  abbrev pub update_standalone : Store → Meta → ℕ → Store × Meta
  update_standalone = update_meta (standalone_view k)

  abbrev pub is_standalone_image_changed : RedisStandaloneSpec k → RedisStandaloneSpec k → Bool
  is_standalone_image_changed = is_images_changed k

  abbrev pub is_standalone_scaling_down : RedisStandaloneSpec k → RedisStandaloneSpec k → Bool
  is_standalone_scaling_down = is_scaling_down k

  abbrev pub is_standalone_scaling_up : RedisStandaloneSpec k → RedisStandaloneSpec k → Bool
  is_standalone_scaling_up = is_scaling_up k

  abbrev pub is_standalone_resources_change : RedisStandaloneSpec k → RedisStandaloneSpec k → Bool
  is_standalone_resources_change = is_resources_change k
