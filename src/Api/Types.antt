-- ===== src/Api/Types.antt =====
-- api/v1alpha1/redissentinel_types.go and redisstandalone_types.go: the two custom resources. The
-- types of k8s.io that they hold are parameters, and of ObjectMeta the fields that the operator
-- reads are kept.
use cndb_redis.Base.{ℕ, String, Bool, Option, List, ◌∷◌, ◌≡◌, ◌≢◌, true}
use cndb_redis.Base.Int.{ℤ}
use cndb_redis.Base.Dict.{Dict}
use cndb_redis.Api.Status.{Status}

-- corev1 and apimachinery: the types, and the methods that the operator calls.
pub record K8s : Type 1 where
  pub Quantity : Type 0
  pub LocalObjectReference : Type 0
  pub Affinity : Type 0
  pub PodSecurityContext : Type 0
  pub Toleration : Type 0
  pub EmptyDirVolumeSource : Type 0
  pub PersistentVolumeClaim : Type 0
  pub OwnerReference : Type 0
  -- EmptyDirVolumeSource{}
  pub no_medium : EmptyDirVolumeSource
  -- the claim's name, and the claim with other owners
  pub claim_name : PersistentVolumeClaim → String
  pub with_owner_references : PersistentVolumeClaim → List OwnerReference → PersistentVolumeClaim
  -- an Affinity whose one term is a preferred PodAntiAffinity: weight, topology key, matched labels
  pub preferred_anti_affinity : ℕ → String → Dict String → Affinity
  -- resource.MustParse
  pub must_parse : String → Quantity
  -- Quantity.Size, the length of its serialised form
  pub quantity_size : Quantity → ℕ
  -- whether Quantity.Cmp returns 0
  pub quantity_same : Quantity → Quantity → Bool
  -- ResourceList.Cpu and ResourceList.Memory
  pub cpu : Dict Quantity → Quantity
  pub memory : Dict Quantity → Quantity
  -- ResourceRequirements.Size, and reflect.DeepEqual on the limits and requests
  pub requirements_size : Dict Quantity → Dict Quantity → ℕ
  pub requirements_equal : Dict Quantity × Dict Quantity → Dict Quantity × Dict Quantity → Bool

-- What the operator relies on: Quantity.Cmp and reflect.DeepEqual accept equal values, and the serialised form of
-- limits that are not empty is not empty.
pub record K8sLaws (k : K8s) : Type 0 where
  pub same_refl : (q : k.Quantity) → k.quantity_same q q ≡ true
  pub equal_refl : (r : Dict k.Quantity × Dict k.Quantity) → k.requirements_equal r r ≡ true
  pub size_pos :
      (q : String × k.Quantity) (limits requests : Dict k.Quantity)
      → k.requirements_size (q ∷ limits) requests ≢ 0

pub record RedisExporter : Type 0 where
  pub enabled : Bool
  pub image : String
  pub image_pull_policy : String

module _ (k : K8s) where
  open k use {
    Quantity, LocalObjectReference, Affinity, PodSecurityContext, Toleration, EmptyDirVolumeSource,
    PersistentVolumeClaim,
  }

  pub record ResourceRequirements : Type 0 where
    pub limits : Dict Quantity
    pub requests : Dict Quantity

  pub record RedisStorage : Type 0 where
    pub keep_after_deletion : Bool
    pub empty_dir : Option EmptyDirVolumeSource
    pub persistent_volume_claim : Option PersistentVolumeClaim

  pub record SentinelSettings : Type 0 where
    pub image : String
    pub image_pull_policy : String
    pub image_pull_secrets : List LocalObjectReference
    pub replicas : ℤ
    pub resources : ResourceRequirements
    pub custom_config : List String
    pub command : List String
    pub affinity : Option Affinity
    pub security_context : Option PodSecurityContext
    pub tolerations : List Toleration
    pub node_selector : Dict String
    pub annotations : Dict String

  -- `none` at `config` is the nil map.
  pub record RedisStandaloneSpec : Type 0 where
    pub size : ℤ
    pub resources : ResourceRequirements
    pub image : String
    pub image_pull_policy : String
    pub image_pull_secrets : List LocalObjectReference
    pub command : List String
    pub shutdown_config_map : String
    pub storage : RedisStorage
    pub password : String
    pub exporter : RedisExporter
    pub affinity : Option Affinity
    pub security_context : Option PodSecurityContext
    pub tolerations : List Toleration
    pub node_selector : Dict String
    pub config : Option (Dict String)
    pub annotations : Dict String
    pub disable_persistence : Bool

  -- The two specs share every field but the last.
  pub record RedisSentinelSpec : Type 0 where
    pub common : RedisStandaloneSpec
    pub open common use *
    pub sentinel : SentinelSettings

  pub record ObjectMeta : Type 0 where
    pub name : String
    pub namespace : String
    pub generation : ℕ
    pub labels : Dict String
    pub annotations : Dict String

  pub record RedisSentinel : Type 0 where
    pub metadata : ObjectMeta
    pub spec : RedisSentinelSpec
    pub status : Status

  pub record RedisStandalone : Type 0 where
    pub metadata : ObjectMeta
    pub spec : RedisStandaloneSpec
    pub status : Status
