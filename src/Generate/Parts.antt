-- ===== src/Generate/Parts.antt =====
-- The parts that the generators of both packages share, and controllers/common/k8s_field_default.go.
use cndb_redis.Base.{String, Option, none, some, List, [], ◌∷◌, ◌++◌, if◌then◌else◌, str_eq}
use cndb_redis.Base.Dict.{Dict}
use cndb_redis.Util.Labels.{merge_labels}
use cndb_redis.Api.Types.{K8s, RedisExporter, RedisStorage}
use cndb_redis.Kube.Objects.{KubeMeta, Container, EnvVar, Volume, empty_dir}

unfoldable pub generate_selector_labels : String → String → Dict String
generate_selector_labels component name =
    ("app.kubernetes.io/part-of", "redis-cluster")
    ∷ ("app.kubernetes.io/component", component)
    ∷ ("app.kubernetes.io/name", name)
    ∷ []

-- labels = util.MergeLabels(labels, generateSelectorLabels(component, name))
unfoldable pub component_labels : Dict String → String → String → Dict String
unfolding merge_labels generate_selector_labels
component_labels labels component name =
    merge_labels (labels ∷ generate_selector_labels component name ∷ [])

unfoldable pub pull_policy : String → String
pull_policy spec_policy = if str_eq spec_policy "" then "Always" else spec_policy

abbrev pub exporter_container_name : String
exporter_container_name = "redis-exporter"

abbrev pub redis_storage_volume_name : String
redis_storage_volume_name = "redis-data"

abbrev pub redis_shutdown_configuration_volume_name : String
redis_shutdown_configuration_volume_name = "redis-shutdown-config"

abbrev pub redis_configuration_volume_name : String
redis_configuration_volume_name = "redis-conf"

-- the password of the exporter, if there is one
unfoldable pub password_env : String → List EnvVar
password_env password =
    if str_eq password ""
    then []
    else record { name = "REDIS_PASSWORD"; value = password; field_path = "" } ∷ []

module _ (k : K8s) where
  -- the metadata of a new object
  abbrev pub new_kube_meta : String → String → Dict String → List k.OwnerReference → KubeMeta k
  new_kube_meta name namespace labels owner_refs = record {
    name = name;
    namespace = namespace;
    labels = labels;
    owner_references = owner_refs;
    resource_version = "";
  }

  -- the affinity of the specification, or a soft anti-affinity
  unfoldable pub get_affinity : Option k.Affinity → Dict String → Option k.Affinity
  get_affinity (some affinity) labels = some affinity
  get_affinity none labels = some (k.preferred_anti_affinity 100 "kubernetes.io/hostname" labels)

  unfoldable pub get_security_context : Option k.PodSecurityContext → Option k.PodSecurityContext
  get_security_context (some secctx) = some secctx
  get_security_context none = none

  abbrev pub cpu_and_memory : String → String → Dict k.Quantity
  cpu_and_memory cpu memory = ("cpu", k.must_parse cpu) ∷ ("memory", k.must_parse memory) ∷ []

  unfoldable pub create_redis_exporter_container : RedisExporter → String → Container k
  unfolding pull_policy password_env
  create_redis_exporter_container exporter password = record {
    name = exporter_container_name;
    image = exporter.image;
    image_pull_policy = pull_policy exporter.image_pull_policy;
    env =
        record { name = "REDIS_ALIAS"; value = ""; field_path = "metadata.name" }
        ∷ password_env password;
    ports = record { name = "http-metrics"; container_port = 9121; protocol = "TCP" } ∷ [];
    volume_mounts = [];
    command = [];
    readiness_probe = none;
    liveness_probe = none;
    resources = record {
      limits = cpu_and_memory "100m" "200Mi";
      requests = cpu_and_memory "50m" "50Mi";
    };
    pre_stop = [];
  }

  -- none where the claim template makes the volume
  unfoldable pub data_volume :
      Option k.PersistentVolumeClaim → Option k.EmptyDirVolumeSource → Option (Volume k)
  data_volume (some claim) medium = none
  data_volume none (some medium) =
      some (record { name = redis_storage_volume_name; source = empty_dir medium })
  data_volume none none =
      some (record { name = redis_storage_volume_name; source = empty_dir k.no_medium })

  unfoldable pub get_redis_data_volume : RedisStorage k → Option (Volume k)
  unfolding data_volume
  get_redis_data_volume storage = data_volume storage.persistent_volume_claim storage.empty_dir

  -- the case of an EmptyDir is that of the default
  unfoldable pub data_volume_name : Option k.PersistentVolumeClaim → String
  data_volume_name (some claim) = k.claim_name claim
  data_volume_name none = redis_storage_volume_name

  unfoldable pub get_redis_data_volume_name : RedisStorage k → String
  unfolding data_volume_name
  get_redis_data_volume_name storage = data_volume_name storage.persistent_volume_claim

  -- if dataVolume != nil { volumes = append(volumes, *dataVolume) }
  unfoldable pub append_volume : List (Volume k) → Option (Volume k) → List (Volume k)
  append_volume volumes none = volumes
  append_volume volumes (some volume) = volumes ++ volume ∷ []
