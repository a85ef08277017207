-- ===== src/Ensure.antt =====
-- controllers/redissentinel/service/client.go: each object of a resource is created where it is missing,
-- and a stateful set is updated where it differs from the specification in what is compared.
pub mod Standalone
pub mod Settled
pub mod Sets
pub mod Stores
pub mod Converge
pub mod Numbers
pub mod OneSet
pub mod Clusters
pub mod Calls
pub mod Whole
pub mod Single
pub mod Healing
pub mod ClusterNumbers
use cndb_redis.Base.{
  ℕ, String, Bool, true, false, not, List, [], ◌∷◌, ◌||◌, if◌then◌else◌, str_eq, Result, ok, err,
}
use cndb_redis.Base.Int.{ℤ, eqb_ℤ}
use cndb_redis.Base.Dict.{Dict}
use cndb_redis.Util.Labels.{merge_labels}
use cndb_redis.Util.Names.{generate_name, get_redis_name, get_sentinel_name}
use cndb_redis.Api.Types.{K8s, RedisSentinel, RedisStandaloneSpec, ResourceRequirements}
use cndb_redis.Ops.{Op, Error, is_not_found, failure, pure, fail, ◌>>=◌, ◌>>◌, continue}
use cndb_redis.Kube.Crud.{ObjectClient}
use cndb_redis.Kube.Objects.{
  Service, ConfigMap, PodDisruptionBudget, StatefulSet, Container, service_kind, config_map_kind,
  budget_kind,
}
use cndb_redis.Kube.Kinds.{
  create_if_not_exists_service, create_if_not_exists_config_map,
  create_if_not_exists_pod_disruption_budget, get_config_map, get_service, delete_service,
  get_stateful_set, create_stateful_set, update_stateful_set,
}
use cndb_redis.Generate.Parts.{component_labels, exporter_container_name}
use cndb_redis.Generate.Services.{
  generate_sentinel_service, generate_redis_service, generate_redis_monitor_service,
  new_head_less_svc_for_cr, generate_pod_disruption_budget,
}
use cndb_redis.Generate.ConfigMaps.{
  generate_sentinel_config_map, generate_redis_config_map, generate_redis_shutdown_config_map,
  generate_sentinel_readiness_probe_config_map,
}
use cndb_redis.Generate.StatefulSets.{generate_redis_stateful_set, generate_sentinel_stateful_set}
use cndb_redis.Reconcile.Handlers.{Ensures}

-- k8s.Services, as far as objects are ensured
pub record KubeClients (k : K8s) (W : Type 0) : Type 0 where
  pub services : ObjectClient (Service k) W
  pub config_maps : ObjectClient (ConfigMap k) W
  pub budgets : ObjectClient (PodDisruptionBudget k) W
  pub stateful_sets : ObjectClient (StatefulSet k) W

-- the loop over the containers
unfoldable pub has_exporter : {k : K8s} → List (Container k) → Bool
has_exporter [] = false
has_exporter (c ∷ containers) =
    if str_eq c.name exporter_container_name then true else has_exporter containers

module _ {k : K8s} where
  unfoldable pub exporter_changed : RedisStandaloneSpec k → StatefulSet k → Bool
  unfolding has_exporter
  exporter_changed spec sts =
      if spec.exporter.enabled
      then (if has_exporter sts.template.spec.containers then false else true)
      else if has_exporter sts.template.spec.containers
      then true
      else false

  unfoldable pub should_update_redis :
      ResourceRequirements k → ResourceRequirements k → ℤ → ℤ → Bool
  should_update_redis expect actual expect_size replicas =
      if not (eqb_ℤ expect_size replicas)
      then true
      else if not (k.quantity_same (k.cpu actual.requests) (k.cpu expect.requests))
      then true
      else if not (k.quantity_same (k.memory actual.requests) (k.memory expect.requests))
      then true
      else if not (k.quantity_same (k.cpu actual.limits) (k.cpu expect.limits))
      then true
      else if not (k.quantity_same (k.memory actual.limits) (k.memory expect.limits))
      then true
      else false

  -- Containers[0]; without a container the index is out of range
  unfoldable pub first_resources : {W : Type 0} → List (Container k) → Op W (ResourceRequirements k)
  first_resources [] = fail (failure "index out of range")
  first_resources (c ∷ containers) = pure c.resources

  module _ {W : Type 0} (clients : KubeClients k W) where
    -- the stateful set that is there is updated if `changed` says so
    unfoldable pub update_if :
        String → StatefulSet k → (ResourceRequirements k → Bool) → StatefulSet k → Op W (Unit {0})
    unfolding first_resources update_stateful_set
    update_if namespace wanted changed old = do
      actual ← first_resources old.template.spec.containers
      if changed actual then update_stateful_set clients.stateful_sets namespace wanted else pure tt

    -- the result of GetStatefulSet
    unfoldable pub found_or_missing :
        String
        → StatefulSet k
        → (StatefulSet k → ResourceRequirements k → Bool)
        → Result Error (StatefulSet k) × W
        → Result Error (Unit {0}) × W
    unfolding update_if create_stateful_set
    found_or_missing namespace wanted changed (ok old, w) =
        update_if namespace wanted (changed old) old w
    found_or_missing namespace wanted changed (err e, w) =
        if is_not_found e
        then create_stateful_set clients.stateful_sets namespace wanted w
        else (err e, w)

    unfoldable pub ensure_stateful_set :
        String
        → String
        → StatefulSet k
        → (StatefulSet k → ResourceRequirements k → Bool)
        → Op W (Unit {0})
    unfolding found_or_missing get_stateful_set
    ensure_stateful_set namespace name wanted changed w =
        found_or_missing namespace wanted changed
          (get_stateful_set clients.stateful_sets namespace name w)

    -- a service that can be read is deleted; other errors of the read are passed over
    unfoldable pub delete_found :
        String → String → Result Error (Service k) × W → Result Error (Unit {0}) × W
    unfolding delete_service
    delete_found namespace name (ok service, w) = delete_service clients.services namespace name w
    delete_found namespace name (err e, w) = (ok tt, w)

    -- a config map of the user has to be there
    unfoldable pub ensure_shutdown_config_map : String → String → ConfigMap k → Op W (Unit {0})
    unfolding get_config_map create_if_not_exists_config_map
    ensure_shutdown_config_map namespace shutdown_config_map cm =
        if str_eq shutdown_config_map ""
        then create_if_not_exists_config_map clients.config_maps (config_map_kind k) namespace cm
        else get_config_map clients.config_maps namespace shutdown_config_map >>= λ found. pure tt

module _ {k : K8s} {W : Type 0} (clients : KubeClients k W) (labels : Dict String)
    (owner_refs : List k.OwnerReference) (rc : RedisSentinel k) where
  unfoldable pub ensure_service : Service k → Op W (Unit {0})
  unfolding create_if_not_exists_service
  ensure_service =
      create_if_not_exists_service clients.services (service_kind k) rc.metadata.namespace

  unfoldable pub ensure_config_map : ConfigMap k → Op W (Unit {0})
  unfolding create_if_not_exists_config_map
  ensure_config_map =
      create_if_not_exists_config_map clients.config_maps (config_map_kind k) rc.metadata.namespace

  unfoldable pub ensure_sentinel_service : Op W (Unit {0})
  unfolding ensure_service generate_sentinel_service
  ensure_sentinel_service = ensure_service (generate_sentinel_service rc labels owner_refs)

  unfoldable pub ensure_sentinel_headless_service : Op W (Unit {0})
  unfolding ensure_service new_head_less_svc_for_cr
  ensure_sentinel_headless_service = ensure_service (new_head_less_svc_for_cr rc labels owner_refs)

  unfoldable pub ensure_sentinel_config_map : Op W (Unit {0})
  unfolding ensure_config_map generate_sentinel_config_map
  ensure_sentinel_config_map = ensure_config_map (generate_sentinel_config_map rc labels owner_refs)

  unfoldable pub ensure_sentinel_probe_config_map : Op W (Unit {0})
  unfolding ensure_config_map generate_sentinel_readiness_probe_config_map
  ensure_sentinel_probe_config_map =
      ensure_config_map (generate_sentinel_readiness_probe_config_map rc labels owner_refs)

  -- two pods have to stay
  unfoldable pub ensure_pod_disruption_budget : String → String → Op W (Unit {0})
  unfolding generate_name component_labels generate_pod_disruption_budget
      create_if_not_exists_pod_disruption_budget
  ensure_pod_disruption_budget name component =
      create_if_not_exists_pod_disruption_budget clients.budgets (budget_kind k)
        rc.metadata.namespace
        (generate_pod_disruption_budget k (generate_name name rc.metadata.name)
          rc.metadata.namespace (component_labels labels component rc.metadata.name) owner_refs 2)

  unfoldable pub sentinel_changed : StatefulSet k → ResourceRequirements k → Bool
  unfolding should_update_redis
  sentinel_changed old actual =
      should_update_redis rc.spec.sentinel.resources actual rc.spec.sentinel.replicas old.replicas

  unfoldable pub ensure_sentinel_statefulset : Op W (Unit {0})
  unfolding ensure_pod_disruption_budget ensure_stateful_set get_sentinel_name sentinel_changed
      generate_sentinel_stateful_set
  ensure_sentinel_statefulset =
      ensure_pod_disruption_budget "-sentinel" "sentinel"
      >> ensure_stateful_set clients rc.metadata.namespace (get_sentinel_name rc)
          (generate_sentinel_stateful_set rc labels owner_refs) sentinel_changed

  unfoldable pub redis_changed : StatefulSet k → ResourceRequirements k → Bool
  unfolding should_update_redis exporter_changed
  redis_changed old actual =
      should_update_redis rc.spec.common.resources actual rc.spec.common.size old.replicas
      || exporter_changed rc.spec.common old

  unfoldable pub ensure_redis_statefulset : Op W (Unit {0})
  unfolding ensure_pod_disruption_budget ensure_stateful_set get_redis_name redis_changed
      generate_redis_stateful_set
  ensure_redis_statefulset =
      ensure_pod_disruption_budget "-cluster" "redis"
      >> ensure_stateful_set clients rc.metadata.namespace (get_redis_name rc)
          (generate_redis_stateful_set rc labels owner_refs) redis_changed

  unfoldable pub ensure_redis_config_map : Op W (Unit {0})
  unfolding ensure_config_map generate_redis_config_map
  ensure_redis_config_map = ensure_config_map (generate_redis_config_map rc labels owner_refs)

  unfoldable pub ensure_redis_shutdown_config_map : Op W (Unit {0})
  unfolding ensure_shutdown_config_map generate_redis_shutdown_config_map
  ensure_redis_shutdown_config_map =
      ensure_shutdown_config_map clients rc.metadata.namespace rc.spec.common.shutdown_config_map
        (generate_redis_shutdown_config_map rc labels owner_refs)

  unfoldable pub ensure_redis_service : Op W (Unit {0})
  unfolding ensure_service generate_redis_service
  ensure_redis_service = ensure_service (generate_redis_service rc labels owner_refs)

  unfoldable pub ensure_redis_monitor_service : Op W (Unit {0})
  unfolding ensure_service generate_redis_monitor_service
  ensure_redis_monitor_service =
      ensure_service (generate_redis_monitor_service rc labels owner_refs)

  unfoldable pub ensure_not_present_redis_service : Op W (Unit {0})
  unfolding delete_found get_service get_redis_name
  ensure_not_present_redis_service w =
      delete_found clients rc.metadata.namespace (get_redis_name rc)
        (get_service clients.services rc.metadata.namespace (get_redis_name rc) w)

-- what the handler of sentinels calls
abbrev pub sentinel_ensures :
    {k : K8s} {W : Type 0}
    → KubeClients k W
    → Dict String
    → List k.OwnerReference
    → Ensures (RedisSentinel k) W
sentinel_ensures clients labels owner_refs = record {
  ensure_redis_service = ensure_redis_service clients labels owner_refs;
  ensure_sentinel_service = ensure_sentinel_service clients labels owner_refs;
  ensure_sentinel_headless_service = ensure_sentinel_headless_service clients labels owner_refs;
  ensure_redis_headless_service = λ rc. pure tt;
  ensure_redis_monitor_service = ensure_redis_monitor_service clients labels owner_refs;
  ensure_sentinel_config_map = ensure_sentinel_config_map clients labels owner_refs;
  ensure_sentinel_probe_config_map = ensure_sentinel_probe_config_map clients labels owner_refs;
  ensure_redis_config_map = ensure_redis_config_map clients labels owner_refs;
  ensure_redis_shutdown_config_map = ensure_redis_shutdown_config_map clients labels owner_refs;
  ensure_redis_statefulset = ensure_redis_statefulset clients labels owner_refs;
  ensure_sentinel_statefulset = ensure_sentinel_statefulset clients labels owner_refs;
}
