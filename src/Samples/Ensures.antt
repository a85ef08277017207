-- ===== src/Samples/Ensures.antt =====
-- The objects of one cluster and of one standalone redis, and a server that stores them.
use cndb_redis.Base.{ℕ, String, Option, none, some, [], ◌∷◌, ◌≡◌, refl, sym, ◌∙◌, subst, ok, err}
use cndb_redis.Base.Int.{pos}
use cndb_redis.Base.Dict.{Dict}
use cndb_redis.Ops.{not_found, failure}
use cndb_redis.Util.Names.{generate_name}
use cndb_redis.Standalone.Check.{get_standalone_redis_name}
use cndb_redis.Kube.Crud.{ObjectClient, create_or_update_object}
use cndb_redis.Kube.Objects.{PodDisruptionBudget, StatefulSet, stateful_set_kind}
use cndb_redis.Kube.Server.{Holds, create_or_update_object-Holds}
use cndb_redis.Generate.Services.{
  generate_redis_service, generate_redis_monitor_service, generate_sentinel_service,
  new_head_less_svc_for_cr, generate_pod_disruption_budget,
}
use cndb_redis.Generate.StatefulSets.{
  exporter_containers, generate_redis_stateful_set, generate_sentinel_stateful_set,
}
use cndb_redis.Generate.Standalone.{generate_standalone_stateful_set}
use cndb_redis.Generate.Selectors.{Selects, generate-Selects}
use cndb_redis.Generate.Mounts.{IsMounted, generate-IsMounted}
use cndb_redis.Generate.ConfigMaps.{env_sentinel_host, env_sentinel_port}
use cndb_redis.Generate.ShellNames.{is_shell_name, env_sentinel-is_shell_name}
use cndb_redis.Ensure.{KubeClients, ensure_redis_statefulset}
use cndb_redis.Ensure.Settled.{with_image, ensure_redis_statefulset-settled}
use cndb_redis.Ensure.Sets.{without_version, HasContainer}
use cndb_redis.Generate.Pods.{redis_container}
use cndb_redis.Api.Types.{RedisSentinel}
use cndb_redis.Samples.Objects.{text_k8s, text_laws, cluster, single}
use cndb_redis.Samples.Servers.{Sets, put, sets, stored, set_laws, sets-Serves}

abbrev pub labels : Dict String
labels = ("team", "shop") ∷ []

wanted : StatefulSet text_k8s
unfolding generate_standalone_stateful_set
wanted = generate_standalone_stateful_set single labels []

abbrev pub nothing : Sets
nothing namespace name = none

-- an older set of the same name
pub outdated : Sets
outdated = put (record wanted { replicas = pos 7 }) nothing

create_or_update_object-Holds_example :
    (w' : Sets) × (create_or_update_object sets
        (stateful_set_kind text_k8s)
        wanted.metadata.namespace
        wanted
        outdated
      ≡ (ok tt, w'))
    × Holds (stateful_set_kind text_k8s) without_version sets stored wanted outdated w'
create_or_update_object-Holds_example =
    create_or_update_object-Holds (stateful_set_kind text_k8s) without_version sets stored set_laws
      sets-Serves wanted outdated (λ missing. tt) (λ old found. tt)

generate-Selects_example :
    Selects
      (generate_redis_service (cluster 1 (pos 3) "secret") labels []).selector
      (generate_redis_stateful_set (cluster 1 (pos 3) "secret") labels []).template.labels
    × Selects
        (generate_redis_monitor_service (cluster 1 (pos 3) "secret") labels []).selector
        (generate_redis_stateful_set (cluster 1 (pos 3) "secret") labels []).template.labels
    × Selects
        (generate_sentinel_service (cluster 1 (pos 3) "secret") labels []).selector
        (generate_sentinel_stateful_set (cluster 1 (pos 3) "secret") labels []).template.labels
    × Selects
        (new_head_less_svc_for_cr (cluster 1 (pos 3) "secret") labels []).selector
        (generate_sentinel_stateful_set (cluster 1 (pos 3) "secret") labels []).template.labels
    × (¬ Selects
        (generate_redis_service (cluster 1 (pos 3) "secret") labels []).selector
        (generate_sentinel_stateful_set (cluster 2 (pos 5) "") [] []).template.labels)
    × (¬ Selects
        (generate_sentinel_service (cluster 1 (pos 3) "secret") labels []).selector
        (generate_redis_stateful_set (cluster 2 (pos 5) "") [] []).template.labels)
    × (¬ Selects
        (generate_redis_monitor_service (cluster 1 (pos 3) "secret") labels []).selector
        (generate_sentinel_stateful_set (cluster 2 (pos 5) "") [] []).template.labels)
    × (¬ Selects
        (new_head_less_svc_for_cr (cluster 1 (pos 3) "secret") labels []).selector
        (generate_redis_stateful_set (cluster 2 (pos 5) "") [] []).template.labels)
generate-Selects_example =
    generate-Selects (cluster 1 (pos 3) "secret") (cluster 2 (pos 5) "") labels [] []

generate-IsMounted_example :
    IsMounted text_k8s (generate_redis_stateful_set (cluster 1 (pos 3) "secret") labels [])
    × IsMounted text_k8s (generate_sentinel_stateful_set (cluster 1 (pos 3) "secret") labels [])
    × IsMounted text_k8s (generate_standalone_stateful_set single labels [])
generate-IsMounted_example =
    generate-IsMounted text_k8s (λ c owners. refl) [] labels (cluster 1 (pos 3) "secret") single

env_sentinel-is_shell_name_example :
    (is_shell_name (env_sentinel_host "my-shop") ≡ is_shell_name "my-shop")
    × (is_shell_name (env_sentinel_port "my-shop") ≡ is_shell_name "my-shop")
env_sentinel-is_shell_name_example = env_sentinel-is_shell_name "my-shop"

abbrev pub refusing : {O W : Type 0} → ObjectClient O W
refusing = record {
  get = λ namespace name w. (err (not_found "not found"), w);
  create = λ o w. (err (failure "refused"), w);
  update = λ o w. (err (failure "refused"), w);
  delete = λ o w. (err (failure "refused"), w);
  list = λ namespace selected w. (ok [], w);
}

ensured_at :
    stored outdated single.metadata.namespace (get_standalone_redis_name single)
    ≡ some (record wanted { replicas = pos 7 })
unfolding outdated wanted generate_standalone_stateful_set
ensured_at = refl

pub outdated-HasContainer :
    (ss : StatefulSet text_k8s)
    → stored outdated single.metadata.namespace (get_standalone_redis_name single) ≡ some ss
    → HasContainer ss
unfolding wanted generate_standalone_stateful_set
outdated-HasContainer ss h =
    subst
      (λ (o : Option (StatefulSet text_k8s)). elim o [ none ↦ Unit {0} | some s ↦ HasContainer s ])
      (sym ensured_at ∙ h)
      (redis_container single.spec _ _, exporter_containers text_k8s single.spec, refl)

-- a cluster whose disruption budget and stateful set are there
abbrev rc : RedisSentinel text_k8s
rc = cluster 1 (pos 3) "secret"

budget : PodDisruptionBudget text_k8s
unfolding generate_pod_disruption_budget
budget =
    generate_pod_disruption_budget text_k8s (generate_name "-cluster" "shop") "prod" labels [] 2

generated : StatefulSet text_k8s
generated = generate_redis_stateful_set rc labels []

abbrev settled_clients : KubeClients text_k8s ℕ
settled_clients = record {
  services = refusing;
  config_maps = refusing;
  budgets = record refusing { get = λ namespace name w. (ok budget, w) };
  stateful_sets = record refusing { get = λ namespace name w. (ok generated, w) };
}

ensure_redis_statefulset-settled_example :
    ensure_redis_statefulset settled_clients labels [] (with_image rc "redis:7") 4 ≡ (ok tt, 4)
unfolding generated
ensure_redis_statefulset-settled_example =
    ensure_redis_statefulset-settled text_laws settled_clients rc labels labels [] [] "redis:7"
      budget generated 4 refl refl refl refl
