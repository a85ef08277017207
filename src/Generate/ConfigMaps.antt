-- ===== src/Generate/ConfigMaps.antt =====
-- redissentinel/service/generator.go: the config maps.
use cndb_redis.Base.{String, ◌<>◌, List, [], ◌∷◌}
use cndb_redis.Base.Dict.{Dict}
use cndb_redis.Util.Names.{
  get_redis_name, get_redis_shutdown_config_map_name, get_sentinel_name, get_sentinel_readiness_cm,
}
use cndb_redis.Api.Types.{K8s, RedisSentinel}
use cndb_redis.Kube.Objects.{ConfigMap}
use cndb_redis.Generate.Parts.{new_kube_meta, component_labels}
use cndb_redis.Generate.Scripts.{
  to_upper, sentinel_config, redis_config, readiness_script, shutdown_script, with_auth_pass,
  with_require_pass,
}

-- the variables in which the pods find the sentinel service
unfoldable pub env_sentinel_host : String → String
unfolding to_upper
env_sentinel_host name = "REDIS_SENTINEL_" <> (to_upper name <> "_SERVICE_HOST")

unfoldable pub env_sentinel_port : String → String
unfolding to_upper
env_sentinel_port name = "REDIS_SENTINEL_" <> (to_upper name <> "_SERVICE_PORT_SENTINEL")

module _ {k : K8s} (rc : RedisSentinel k) (labels : Dict String)
    (owner_refs : List k.OwnerReference) where
  -- a config map of one file
  unfoldable pub config_map_of : String → String → String → String → ConfigMap k
  unfolding component_labels
  config_map_of name component file content = record {
    metadata =
        new_kube_meta k name rc.metadata.namespace
          (component_labels labels component rc.metadata.name) owner_refs;
    content = (file, content) ∷ [];
  }

  unfoldable pub generate_sentinel_config_map : ConfigMap k
  unfolding config_map_of get_sentinel_name with_auth_pass
  generate_sentinel_config_map =
      config_map_of (get_sentinel_name rc) "sentinel" "sentinel.conf"
        (with_auth_pass sentinel_config rc.spec.common.password)

  unfoldable pub generate_redis_config_map : ConfigMap k
  unfolding config_map_of get_redis_name with_require_pass
  generate_redis_config_map =
      config_map_of (get_redis_name rc) "redis" "redis.conf"
        (with_require_pass redis_config rc.spec.common.password)

  unfoldable pub generate_redis_shutdown_config_map : ConfigMap k
  unfolding config_map_of get_redis_shutdown_config_map_name shutdown_script env_sentinel_host
      env_sentinel_port
  generate_redis_shutdown_config_map =
      config_map_of (get_redis_shutdown_config_map_name rc) "redis" "shutdown.sh"
        (shutdown_script (env_sentinel_host rc.metadata.name) (env_sentinel_port rc.metadata.name))

  unfoldable pub generate_sentinel_readiness_probe_config_map : ConfigMap k
  unfolding config_map_of get_sentinel_readiness_cm
  generate_sentinel_readiness_probe_config_map =
      config_map_of (get_sentinel_readiness_cm rc) "redis" "readiness.sh" readiness_script
