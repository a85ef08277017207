-- ===== src/Generate/Standalone.antt =====
-- redisstandalone/service/generator.go: the objects of a standalone redis.
use cndb_redis.Base.{String, ◌<>◌, Option, some, List, [], ◌∷◌}
use cndb_redis.Base.Dict.{Dict}
use cndb_redis.Api.Types.{K8s, RedisStandalone, RedisExporter, RedisStorage}
use cndb_redis.Api.Defaults.{made}
use cndb_redis.Standalone.Check.{get_standalone_redis_name, get_standalone_shutdown_config_map_name}
use cndb_redis.Kube.Objects.{
  Container, Service, ConfigMap, StatefulSet, Volume, VolumeMount, config_map,
}
use cndb_redis.Generate.Parts.{
  new_kube_meta, component_labels, redis_configuration_volume_name,
  redis_shutdown_configuration_volume_name, get_redis_data_volume, get_redis_data_volume_name,
  append_volume, generate_selector_labels, create_redis_exporter_container, get_affinity,
  get_security_context, pull_policy,
}
use cndb_redis.Generate.Scripts.{
  redis_basic_config, standalone_shutdown_script, with_require_pass, with_settings,
}
use cndb_redis.Generate.Services.{tcp_port, monitor_labels}
use cndb_redis.Generate.Pods.{command_or, mount}
use cndb_redis.Generate.StatefulSets.{redis_stateful_set}

-- copies of functions of the package for sentinels
unfoldable pub standalone_selector_labels : String → String → Dict String
unfolding generate_selector_labels
standalone_selector_labels = generate_selector_labels

unfoldable pub standalone_exporter_container : (k : K8s) → RedisExporter → String → Container k
unfolding create_redis_exporter_container
standalone_exporter_container = create_redis_exporter_container

unfoldable pub standalone_data_volume : (k : K8s) → RedisStorage k → Option (Volume k)
unfolding get_redis_data_volume
standalone_data_volume = get_redis_data_volume

unfoldable pub standalone_data_volume_name : (k : K8s) → RedisStorage k → String
unfolding get_redis_data_volume_name
standalone_data_volume_name = get_redis_data_volume_name

-- the defaults of controllers/common
unfoldable pub standalone_affinity : (k : K8s) → Option k.Affinity → Dict String → Option k.Affinity
unfolding get_affinity
standalone_affinity = get_affinity

unfoldable pub standalone_security_context :
    (k : K8s) → Option k.PodSecurityContext → Option k.PodSecurityContext
unfolding get_security_context
standalone_security_context = get_security_context

unfoldable pub standalone_pull_policy : String → String
unfolding pull_policy
standalone_pull_policy = pull_policy

module _ {k : K8s} (rc : RedisStandalone k) where
  unfoldable pub standalone_command : List String
  unfolding command_or
  standalone_command = command_or rc.spec.command ("redis-server" ∷ "/etc/redis/redis.conf" ∷ [])

  unfoldable pub standalone_volume_mounts : List VolumeMount
  unfolding standalone_data_volume_name
  standalone_volume_mounts =
      mount redis_configuration_volume_name "/etc/redis"
      ∷ mount redis_shutdown_configuration_volume_name "/redis-shutdown"
      ∷ mount (standalone_data_volume_name k rc.spec.storage) "/data"
      ∷ []

  -- the modes are 0644 and 0744
  unfoldable pub standalone_volumes : List (Volume k)
  unfolding get_standalone_redis_name get_standalone_shutdown_config_map_name standalone_data_volume
      append_volume
  standalone_volumes =
      append_volume k
        (record {
          name = redis_configuration_volume_name;
          source = config_map (get_standalone_redis_name rc) (some 420);
        }
          ∷ record {
            name = redis_shutdown_configuration_volume_name;
            source = config_map (get_standalone_shutdown_config_map_name rc) (some 484);
          }
          ∷ [])
        (standalone_data_volume k rc.spec.storage)

module _ {k : K8s} (rc : RedisStandalone k) (labels : Dict String)
    (owner_refs : List k.OwnerReference) where
  unfoldable pub generate_standalone_service : Service k
  unfolding get_standalone_redis_name component_labels
  generate_standalone_service =
      let merged = component_labels labels "redis" rc.metadata.name in
      record {
        metadata =
            new_kube_meta k (get_standalone_redis_name rc) rc.metadata.namespace merged owner_refs;
        type = "ClusterIP";
        cluster_ip = "";
        ports = tcp_port "redis" 6379 ∷ [];
        selector = merged;
      }

  unfoldable pub generate_standalone_headless_service : Service k
  unfolding get_standalone_redis_name component_labels
  generate_standalone_headless_service =
      let merged = component_labels labels "redis" rc.metadata.name in
      record {
        metadata =
            new_kube_meta k (get_standalone_redis_name rc <> "-headless") rc.metadata.namespace
              merged owner_refs;
        type = "ClusterIP";
        cluster_ip = "None";
        ports = tcp_port "redis" 6379 ∷ [];
        selector = merged;
      }

  unfoldable pub generate_standalone_monitor_service : Service k
  unfolding get_standalone_redis_name component_labels monitor_labels
  generate_standalone_monitor_service =
      let merged = component_labels labels "redis" rc.metadata.name in
      record {
        metadata =
            new_kube_meta k (get_standalone_redis_name rc <> "-monitor") rc.metadata.namespace
              (monitor_labels merged) owner_refs;
        type = "ClusterIP";
        cluster_ip = "";
        ports = tcp_port "prometheus" 9121 ∷ [];
        selector = merged;
      }

  unfoldable pub generate_standalone_config_map : ConfigMap k
  unfolding get_standalone_redis_name component_labels with_require_pass with_settings made
  generate_standalone_config_map = record {
    metadata =
        new_kube_meta k (get_standalone_redis_name rc) rc.metadata.namespace
          (component_labels labels "redis" rc.metadata.name) owner_refs;
    content =
        (
          "redis.conf",
          with_settings (with_require_pass redis_basic_config rc.spec.password)
              (made rc.spec.config),
        )
        ∷ [];
  }

  unfoldable pub generate_standalone_shutdown_config_map : ConfigMap k
  unfolding get_standalone_shutdown_config_map_name component_labels
  generate_standalone_shutdown_config_map = record {
    metadata =
        new_kube_meta k (get_standalone_shutdown_config_map_name rc) rc.metadata.namespace
          (component_labels labels "redis" rc.metadata.name) owner_refs;
    content = ("shutdown.sh", standalone_shutdown_script) ∷ [];
  }

  unfoldable pub generate_standalone_stateful_set : StatefulSet k
  unfolding get_standalone_redis_name component_labels redis_stateful_set standalone_command
      standalone_volume_mounts standalone_volumes
  generate_standalone_stateful_set =
      redis_stateful_set k (get_standalone_redis_name rc) rc.metadata.namespace
        (component_labels labels "redis" rc.metadata.name) owner_refs rc.spec
        (standalone_command rc) (standalone_volume_mounts rc) (standalone_volumes rc)
