-- ===== src/Generate/Services.antt =====
-- redissentinel/service/generator.go: the services and the disruption budgets.
use cndb_redis.Base.{ℕ, String, ◌<>◌, none, some, List, [], ◌∷◌}
use cndb_redis.Base.Dict.{Dict}
use cndb_redis.Util.Labels.{merge_labels}
use cndb_redis.Util.Names.{get_redis_name, get_sentinel_name, get_sentinel_headless_svc}
use cndb_redis.Api.Types.{K8s, RedisSentinel}
use cndb_redis.Kube.Objects.{Service, PodDisruptionBudget, ServicePort}
use cndb_redis.Generate.Parts.{new_kube_meta, component_labels}

-- a TCP port that is served by the port of that number
abbrev pub tcp_port : String → ℕ → ServicePort
tcp_port name port = record { name = name; port = port; target_port = some port; protocol = "TCP" }

-- labels with the mark of the monitoring service
unfoldable pub monitor_labels : Dict String → Dict String
unfolding merge_labels
monitor_labels labels = merge_labels (labels ∷ (("used-for", "monitor") ∷ []) ∷ [])

unfoldable pub generate_pod_disruption_budget :
    (k : K8s) → String → String → Dict String → List k.OwnerReference → ℕ → PodDisruptionBudget k
generate_pod_disruption_budget k name namespace labels owner_refs min_available = record {
  metadata = new_kube_meta k name namespace labels owner_refs;
  min_available = min_available;
  match_labels = labels;
}

module _ {k : K8s} (rc : RedisSentinel k) (labels : Dict String)
    (owner_refs : List k.OwnerReference) where
  unfoldable pub generate_sentinel_service : Service k
  unfolding get_sentinel_name component_labels
  generate_sentinel_service =
      let merged = component_labels labels "sentinel" rc.metadata.name in
      record {
        metadata = new_kube_meta k (get_sentinel_name rc) rc.metadata.namespace merged owner_refs;
        type = "";
        cluster_ip = "";
        ports = tcp_port "sentinel" 26379 ∷ [];
        selector = merged;
      }

  unfoldable pub generate_redis_service : Service k
  unfolding get_redis_name component_labels
  generate_redis_service =
      let merged = component_labels labels "redis" rc.metadata.name in
      record {
        metadata = new_kube_meta k (get_redis_name rc) rc.metadata.namespace merged owner_refs;
        type = "ClusterIP";
        cluster_ip = "None";
        ports = tcp_port "redis" 6379 ∷ [];
        selector = merged;
      }

  unfoldable pub generate_redis_monitor_service : Service k
  unfolding get_redis_name component_labels monitor_labels
  generate_redis_monitor_service =
      let merged = component_labels labels "redis" rc.metadata.name in
      record {
        metadata =
            new_kube_meta k (get_redis_name rc <> "-monitor") rc.metadata.namespace
              (monitor_labels merged) owner_refs;
        type = "ClusterIP";
        cluster_ip = "";
        ports = tcp_port "prometheus" 9121 ∷ [];
        selector = merged;
      }

  -- newHeadLessSvcForCR
  unfoldable pub new_head_less_svc_for_cr : Service k
  unfolding get_sentinel_headless_svc component_labels
  new_head_less_svc_for_cr =
      let merged = component_labels labels "sentinel" rc.metadata.name in
      record {
        metadata =
            new_kube_meta k (get_sentinel_headless_svc rc) rc.metadata.namespace merged owner_refs;
        type = "";
        cluster_ip = "None";
        ports = record { name = "sentinel"; port = 26379; target_port = none; protocol = "" } ∷ [];
        selector = merged;
      }
