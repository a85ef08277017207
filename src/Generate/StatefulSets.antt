-- ===== src/Generate/StatefulSets.antt =====
-- The stateful sets: redissentinel/service/generator.go, and the part of generateRedisStatefulSet that
-- redisstandalone/service/generator.go repeats. The owner that is written into the claim of the
-- resource shows in the claim template; the resource in memory is not changed by the model.
use cndb_redis.Base.{Bool, String, Option, none, some, List, [], ◌∷◌, ◌++◌, if◌then◌else◌}
use cndb_redis.Base.Dict.{Dict}
use cndb_redis.Util.Names.{get_redis_name, get_sentinel_name, get_sentinel_headless_svc}
use cndb_redis.Api.Types.{K8s, RedisSentinel, RedisStandaloneSpec}
use cndb_redis.Kube.Objects.{StatefulSet, Container, Volume, VolumeMount}
use cndb_redis.Generate.Parts.{
  new_kube_meta, component_labels, get_affinity, get_security_context,
  create_redis_exporter_container,
}
use cndb_redis.Generate.Pods.{
  redis_container, get_redis_command, get_redis_volume_mounts, get_redis_volumes,
  sentinel_init_container, sentinel_container, sentinel_volumes,
}

module _ (k : K8s) where
  -- without the owner where the data is kept after the deletion of the resource
  unfoldable pub claim_templates :
      Option k.PersistentVolumeClaim → Bool → List k.OwnerReference → List k.PersistentVolumeClaim
  claim_templates none keep_after_deletion owner_refs = []
  claim_templates (some claim) keep_after_deletion owner_refs =
      (if keep_after_deletion then claim else k.with_owner_references claim owner_refs) ∷ []

  -- if rc.Spec.Exporter.Enabled
  unfoldable pub exporter_containers : RedisStandaloneSpec k → List (Container k)
  unfolding create_redis_exporter_container
  exporter_containers spec =
      if spec.exporter.enabled
      then create_redis_exporter_container k spec.exporter spec.password ∷ []
      else []

  -- generateRedisStatefulSet, given what the two packages do differently
  unfoldable pub redis_stateful_set :
      String
      → String
      → Dict String
      → List k.OwnerReference
      → RedisStandaloneSpec k
      → List String
      → List VolumeMount
      → List (Volume k)
      → StatefulSet k
  unfolding get_affinity get_security_context redis_container claim_templates exporter_containers
  redis_stateful_set name namespace merged owner_refs spec command volume_mounts volumes = record {
    metadata = new_kube_meta k name namespace merged owner_refs;
    service_name = name;
    replicas = spec.size;
    update_strategy = "RollingUpdate";
    match_labels = merged;
    template = record {
      labels = merged;
      annotations = spec.annotations;
      spec = record {
        affinity = get_affinity k spec.affinity merged;
        tolerations = spec.tolerations;
        node_selector = spec.node_selector;
        security_context = get_security_context k spec.security_context;
        image_pull_secrets = spec.image_pull_secrets;
        init_containers = [];
        containers = redis_container spec command volume_mounts ∷ [] ++ exporter_containers spec;
        volumes = volumes;
      };
    };
    volume_claim_templates =
        claim_templates spec.storage.persistent_volume_claim spec.storage.keep_after_deletion
          owner_refs;
  }

module _ {k : K8s} (rc : RedisSentinel k) (labels : Dict String)
    (owner_refs : List k.OwnerReference) where
  unfoldable pub generate_redis_stateful_set : StatefulSet k
  unfolding get_redis_name component_labels redis_stateful_set get_redis_command
      get_redis_volume_mounts get_redis_volumes
  generate_redis_stateful_set =
      redis_stateful_set k (get_redis_name rc) rc.metadata.namespace
        (component_labels labels "redis" rc.metadata.name) owner_refs rc.spec.common
        (get_redis_command rc) (get_redis_volume_mounts rc) (get_redis_volumes rc)

  unfoldable pub generate_sentinel_stateful_set : StatefulSet k
  unfolding get_sentinel_name get_sentinel_headless_svc component_labels get_affinity
      get_security_context sentinel_init_container sentinel_container sentinel_volumes
  generate_sentinel_stateful_set =
      let merged = component_labels labels "sentinel" rc.metadata.name in
      record {
        metadata = new_kube_meta k (get_sentinel_name rc) rc.metadata.namespace merged owner_refs;
        service_name = get_sentinel_headless_svc rc;
        replicas = rc.spec.sentinel.replicas;
        update_strategy = "";
        match_labels = merged;
        template = record {
          labels = merged;
          annotations = rc.spec.sentinel.annotations;
          spec = record {
            affinity = get_affinity k rc.spec.sentinel.affinity merged;
            tolerations = rc.spec.sentinel.tolerations;
            node_selector = rc.spec.sentinel.node_selector;
            security_context = get_security_context k rc.spec.sentinel.security_context;
            image_pull_secrets = rc.spec.sentinel.image_pull_secrets;
            init_containers = sentinel_init_container rc ∷ [];
            containers = sentinel_container rc ∷ [];
            volumes = sentinel_volumes rc;
          };
        };
        volume_claim_templates = [];
      }
