-- ===== src/Kube/Objects.antt =====
-- The objects that the operator builds and reads, with the fields of k8s.io that it sets or reads.
-- A field that the operator leaves out has Go's zero value: "", 0, [] or none.
use cndb_redis.Base.{ℕ, String, Option, List}
use cndb_redis.Base.Int.{ℤ}
use cndb_redis.Base.Dict.{Dict}
use cndb_redis.Api.Types.{K8s, ResourceRequirements}
use cndb_redis.Kube.Crud.{ObjectKind}

-- a numeric TargetPort, or none where it is not set
pub record ServicePort : Type 0 where
  pub name : String
  pub port : ℕ
  pub target_port : Option ℕ
  pub protocol : String

pub record ContainerPort : Type 0 where
  pub name : String
  pub container_port : ℕ
  pub protocol : String

-- the value, or the path of the field that it is taken from
pub record EnvVar : Type 0 where
  pub name : String
  pub value : String
  pub field_path : String

pub record VolumeMount : Type 0 where
  pub name : String
  pub mount_path : String

-- a command that is run in the container
pub record Probe : Type 0 where
  pub initial_delay_seconds : ℕ
  pub period_seconds : ℕ
  pub failure_threshold : ℕ
  pub timeout_seconds : ℕ
  pub exec : List String

module _ (k : K8s) where
  -- of metav1.ObjectMeta
  pub record KubeMeta : Type 0 where
    pub name : String
    pub namespace : String
    pub labels : Dict String
    pub owner_references : List k.OwnerReference
    pub resource_version : String

  pub record Service : Type 0 where
    pub metadata : KubeMeta
    pub type : String
    pub cluster_ip : String
    pub ports : List ServicePort
    pub selector : Dict String

  pub record ConfigMap : Type 0 where
    pub metadata : KubeMeta
    pub content : Dict String

  pub record PodDisruptionBudget : Type 0 where
    pub metadata : KubeMeta
    pub min_available : ℕ
    pub match_labels : Dict String

  -- a config map with its file mode, or an empty directory
  pub data VolumeSource : Type 0 where
    config_map : String → Option ℕ → VolumeSource
    empty_dir : k.EmptyDirVolumeSource → VolumeSource

  pub record Volume : Type 0 where
    pub name : String
    pub source : VolumeSource

  pub record Container : Type 0 where
    pub name : String
    pub image : String
    pub image_pull_policy : String
    pub env : List EnvVar
    pub ports : List ContainerPort
    pub volume_mounts : List VolumeMount
    pub command : List String
    pub readiness_probe : Option Probe
    pub liveness_probe : Option Probe
    pub resources : ResourceRequirements k
    pub pre_stop : List String

  pub record PodSpec : Type 0 where
    pub affinity : Option k.Affinity
    pub tolerations : List k.Toleration
    pub node_selector : Dict String
    pub security_context : Option k.PodSecurityContext
    pub image_pull_secrets : List k.LocalObjectReference
    pub init_containers : List Container
    pub containers : List Container
    pub volumes : List Volume

  pub record PodTemplate : Type 0 where
    pub labels : Dict String
    pub annotations : Dict String
    pub spec : PodSpec

  pub record StatefulSet : Type 0 where
    pub metadata : KubeMeta
    pub service_name : String
    pub replicas : ℤ
    pub update_strategy : String
    pub match_labels : Dict String
    pub template : PodTemplate
    pub volume_claim_templates : List k.PersistentVolumeClaim

  abbrev pub service_kind : ObjectKind Service
  service_kind = record {
    namespace = λ o. o.metadata.namespace;
    name = λ o. o.metadata.name;
    resource_version = λ o. o.metadata.resource_version;
    with_resource_version =
        λ o v. record o { metadata = record o.metadata { resource_version = v } };
  }

  abbrev pub config_map_kind : ObjectKind ConfigMap
  config_map_kind = record {
    namespace = λ o. o.metadata.namespace;
    name = λ o. o.metadata.name;
    resource_version = λ o. o.metadata.resource_version;
    with_resource_version =
        λ o v. record o { metadata = record o.metadata { resource_version = v } };
  }

  abbrev pub budget_kind : ObjectKind PodDisruptionBudget
  budget_kind = record {
    namespace = λ o. o.metadata.namespace;
    name = λ o. o.metadata.name;
    resource_version = λ o. o.metadata.resource_version;
    with_resource_version =
        λ o v. record o { metadata = record o.metadata { resource_version = v } };
  }

  abbrev pub stateful_set_kind : ObjectKind StatefulSet
  stateful_set_kind = record {
    namespace = λ o. o.metadata.namespace;
    name = λ o. o.metadata.name;
    resource_version = λ o. o.metadata.resource_version;
    with_resource_version =
        λ o v. record o { metadata = record o.metadata { resource_version = v } };
  }
