-- ===== src/Ensure/Standalone.antt =====
-- controllers/redisstandalone/service/client.go.
use cndb_redis.Base.{String, Bool, List, ◌||◌}
use cndb_redis.Base.Int.{ℤ}
use cndb_redis.Base.Dict.{Dict}
use cndb_redis.Api.Types.{K8s, RedisStandalone, RedisStandaloneSpec, ResourceRequirements}
use cndb_redis.Ops.{Op, pure}
use cndb_redis.Standalone.Check.{get_standalone_redis_name}
use cndb_redis.Kube.Objects.{Service, StatefulSet, service_kind, config_map_kind}
use cndb_redis.Kube.Kinds.{create_if_not_exists_service, create_if_not_exists_config_map}
use cndb_redis.Generate.Standalone.{
  generate_standalone_service, generate_standalone_headless_service,
  generate_standalone_monitor_service, generate_standalone_config_map,
  generate_standalone_shutdown_config_map, generate_standalone_stateful_set,
}
use cndb_redis.Ensure.{
  KubeClients, should_update_redis, exporter_changed, ensure_stateful_set,
  ensure_shutdown_config_map,
}
use cndb_redis.Reconcile.Handlers.{Ensures}

-- copies of functions of the package for sentinels
unfoldable pub standalone_should_update :
    {k : K8s} → ResourceRequirements k → ResourceRequirements k → ℤ → ℤ → Bool
unfolding should_update_redis
standalone_should_update = should_update_redis

unfoldable pub standalone_exporter_changed :
    {k : K8s} → RedisStandaloneSpec k → StatefulSet k → Bool
unfolding exporter_changed
standalone_exporter_changed = exporter_changed

module _ {k : K8s} {W : Type 0} (clients : KubeClients k W) (labels : Dict String)
    (owner_refs : List k.OwnerReference) (rc : RedisStandalone k) where
  unfoldable pub standalone_changed : StatefulSet k → ResourceRequirements k → Bool
  unfolding standalone_should_update standalone_exporter_changed
  standalone_changed old actual =
      standalone_should_update rc.spec.resources actual rc.spec.size old.replicas
      || standalone_exporter_changed rc.spec old

  unfoldable pub ensure_standalone_statefulset : Op W (Unit {0})
  unfolding ensure_stateful_set get_standalone_redis_name standalone_changed
      generate_standalone_stateful_set
  ensure_standalone_statefulset =
      ensure_stateful_set clients rc.metadata.namespace (get_standalone_redis_name rc)
        (generate_standalone_stateful_set rc labels owner_refs) standalone_changed

  unfoldable pub ensure_standalone_object_service : Service k → Op W (Unit {0})
  unfolding create_if_not_exists_service
  ensure_standalone_object_service =
      create_if_not_exists_service clients.services (service_kind k) rc.metadata.namespace

  unfoldable pub ensure_standalone_service : Op W (Unit {0})
  unfolding ensure_standalone_object_service generate_standalone_service
  ensure_standalone_service =
      ensure_standalone_object_service (generate_standalone_service rc labels owner_refs)

  unfoldable pub ensure_standalone_headless_service : Op W (Unit {0})
  unfolding ensure_standalone_object_service generate_standalone_headless_service
  ensure_standalone_headless_service =
      ensure_standalone_object_service (generate_standalone_headless_service rc labels owner_refs)

  unfoldable pub ensure_standalone_monitor_service : Op W (Unit {0})
  unfolding ensure_standalone_object_service generate_standalone_monitor_service
  ensure_standalone_monitor_service =
      ensure_standalone_object_service (generate_standalone_monitor_service rc labels owner_refs)

  unfoldable pub ensure_standalone_shutdown_config_map : Op W (Unit {0})
  unfolding ensure_shutdown_config_map generate_standalone_shutdown_config_map
  ensure_standalone_shutdown_config_map =
      ensure_shutdown_config_map clients rc.metadata.namespace rc.spec.shutdown_config_map
        (generate_standalone_shutdown_config_map rc labels owner_refs)

  unfoldable pub ensure_standalone_config_map : Op W (Unit {0})
  unfolding create_if_not_exists_config_map generate_standalone_config_map
  ensure_standalone_config_map =
      create_if_not_exists_config_map clients.config_maps (config_map_kind k) rc.metadata.namespace
        (generate_standalone_config_map rc labels owner_refs)

-- what the handler of standalone redis calls
abbrev pub standalone_ensures :
    {k : K8s} {W : Type 0}
    → KubeClients k W
    → Dict String
    → List k.OwnerReference
    → Ensures (RedisStandalone k) W
standalone_ensures clients labels owner_refs = record {
  ensure_redis_service = ensure_standalone_service clients labels owner_refs;
  ensure_sentinel_service = λ rc. pure tt;
  ensure_sentinel_headless_service = λ rc. pure tt;
  ensure_redis_headless_service = ensure_standalone_headless_service clients labels owner_refs;
  ensure_redis_monitor_service = ensure_standalone_monitor_service clients labels owner_refs;
  ensure_sentinel_config_map = λ rc. pure tt;
  ensure_sentinel_probe_config_map = λ rc. pure tt;
  ensure_redis_config_map = ensure_standalone_config_map clients labels owner_refs;
  ensure_redis_shutdown_config_map =
      ensure_standalone_shutdown_config_map clients labels owner_refs;
  ensure_redis_statefulset = ensure_standalone_statefulset clients labels owner_refs;
  ensure_sentinel_statefulset = λ rc. pure tt;
}
