-- ===== src/Api/ValidateSentinel.antt =====
-- api/v1alpha1/redissentinel_validate.go: the defaults and the checks of a RedisSentinel.
pub mod Fixpoint
pub mod Requirements
use Prim.Native.String.{len}
use cndb_redis.Base.{
  ℕ, String, Bool, true, false, not, ◌&&◌, Option, none, some, List, [], ◌∷◌, if◌then◌else◌, str_eq,
  ltb, ◌==◌, Result, ok, err,
}
use cndb_redis.Base.Int.{ℤ, pos, ltb_ℤ, eqb_ℤ}
use cndb_redis.Base.Dict.{Dict, insert}
use cndb_redis.Api.Types.{
  K8s, ResourceRequirements, RedisStandaloneSpec, SentinelSettings, RedisSentinelSpec,
  RedisSentinel,
}
use cndb_redis.Api.Defaults.{
  max_name_length, default_redis_number, default_sentinel_number, default_redis_image,
  default_slave_priority, default_number, default_text, default_exporter, made, persist,
  config_equal, exporter_equal,
}

-- a number that is given and below the minimum
unfoldable pub below_minimum : ℤ → ℤ → Bool
below_minimum n minimum = not (eqb_ℤ n (pos 0)) && ltb_ℤ n minimum

module _ (k : K8s) where
  unfoldable pub default_sentinel_resource : ResourceRequirements k
  default_sentinel_resource = record {
    limits = ("cpu", k.must_parse "100m") ∷ ("memory", k.must_parse "60Mi") ∷ [];
    requests = ("cpu", k.must_parse "20m") ∷ ("memory", k.must_parse "16Mi") ∷ [];
  }

  unfoldable pub default_resources : ResourceRequirements k → ResourceRequirements k
  unfolding default_sentinel_resource
  default_resources r =
      if k.requirements_size r.limits r.requests == 0 then default_sentinel_resource else r

  -- the settings of redis: `slave-priority` is always written
  unfoldable pub sentinel_config : Bool → Option (Dict String) → Dict String
  sentinel_config disabled config =
      persist disabled (insert "slave-priority" default_slave_priority (made config))

  unfoldable pub default_size : RedisStandaloneSpec k → RedisStandaloneSpec k
  default_size s = record s { size = default_number s.size default_redis_number }

  unfoldable pub default_common : RedisStandaloneSpec k → RedisStandaloneSpec k
  unfolding sentinel_config
  default_common s = record s {
    image = default_text s.image default_redis_image;
    config = some (sentinel_config s.disable_persistence s.config);
    exporter = default_exporter s.exporter;
  }

  unfoldable pub default_settings : SentinelSettings k → SentinelSettings k
  unfolding default_resources
  default_settings s = record s {
    replicas = default_number s.replicas default_sentinel_number;
    image = default_text s.image default_redis_image;
    resources = default_resources s.resources;
  }

  -- reflect.DeepEqual, on the fields that Validate may have written
  unfoldable pub common_equal : RedisStandaloneSpec k → RedisStandaloneSpec k → Bool
  common_equal s t =
      eqb_ℤ s.size t.size
      && (str_eq s.image t.image
          && (config_equal s.config t.config && exporter_equal s.exporter t.exporter))

  unfoldable pub settings_equal : SentinelSettings k → SentinelSettings k → Bool
  settings_equal s t =
      eqb_ℤ s.replicas t.replicas
      && (str_eq s.image t.image
          && k.requirements_equal (s.resources.limits, s.resources.requests)
              (t.resources.limits, t.resources.requests))

  unfoldable pub sentinel_equal : RedisSentinel k → RedisSentinel k → Bool
  sentinel_equal r t =
      common_equal r.spec.common t.spec.common && settings_equal r.spec.sentinel t.spec.sentinel

  unfoldable pub with_default_size : RedisSentinel k → RedisSentinel k
  with_default_size r = record r { spec = record r.spec { common = default_size r.spec.common } }

  unfoldable pub with_defaults : RedisSentinel k → RedisSentinel k
  with_defaults r = record r {
    spec = record {
      common = default_common r.spec.common;
      sentinel = default_settings r.spec.sentinel;
    };
  }

  -- The resource is changed in place, also on the way to an error; `true` says that it was changed.
  unfoldable pub validate_sentinel : RedisSentinel k → RedisSentinel k × Result String Bool
  validate_sentinel r =
      let sized = with_default_size r in
      let r' = with_defaults sized in
      if ltb max_name_length (len r.metadata.name)
      then (r, err "name length can't be higher than 48")
      else if below_minimum r.spec.common.size default_redis_number
      then (r, err "number of redis in spec is less than the minimum")
      else if below_minimum r.spec.sentinel.replicas default_sentinel_number
      then (sized, err "number of sentinels in spec is less than the minimum")
      else (r', ok (not (sentinel_equal r' r)))
