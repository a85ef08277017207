-- ===== src/Util/Names.antt =====
-- pkg/util/name.go and controllers/redissentinel/util.go: the names of the resources of a cluster.
use cndb_redis.Base.{String, ◌<>◌, if◌then◌else◌, str_eq}
use cndb_redis.Api.Types.{K8s, RedisSentinel}

unfoldable pub generate_name : String → String → String
generate_name type_name meta_name = "redis" <> (type_name <> ("-" <> meta_name))

module _ {k : K8s} (rc : RedisSentinel k) where
  unfoldable pub get_redis_name : String
  get_redis_name = generate_name "-worker" rc.metadata.name

  unfoldable pub get_redis_shutdown_name : String
  get_redis_shutdown_name = generate_name "r-s" rc.metadata.name

  unfoldable pub get_redis_shutdown_config_map_name : String
  unfolding get_redis_shutdown_name
  get_redis_shutdown_config_map_name =
      if str_eq rc.spec.common.shutdown_config_map ""
      then get_redis_shutdown_name
      else rc.spec.common.shutdown_config_map

  unfoldable pub get_sentinel_name : String
  get_sentinel_name = generate_name "-sentinel" rc.metadata.name

  unfoldable pub get_sentinel_readiness_cm : String
  get_sentinel_readiness_cm = generate_name "-sentinel-readiness" rc.metadata.name

  unfoldable pub get_sentinel_headless_svc : String
  get_sentinel_headless_svc = generate_name "-sentinel-headless" rc.metadata.name
