-- ===== src/Samples/Validation.antt =====
-- Validate on the sample resources.
use Prim.Native.String.{len}
use cndb_redis.Api.Types.{RedisSentinel}
use cndb_redis.Base.{[], Bool, ◌≤◌, ◌↔◌, ◌⊎◌, true, false, some, ok, err, ◌≡◌, refl}
use cndb_redis.Base.Int.{pos, ◌≤ℤ◌}
use cndb_redis.Base.Dict.{lookup, insert}
use cndb_redis.Api.Persistence.{disable_persistence}
use cndb_redis.Api.Defaults.{made, persist, default_number}
use cndb_redis.Api.ValidateSentinel.{
  validate_sentinel, with_defaults, with_default_size, below_minimum, sentinel_equal, common_equal,
  default_common, default_size, sentinel_config,
}
use cndb_redis.Api.ValidateSentinel.Fixpoint.{validate_sentinel_twice}
use cndb_redis.Api.ValidateSentinel.Requirements.{
  IsComplete, validate_sentinel-IsComplete, validate_sentinel_accepts_iff,
}
use cndb_redis.Api.ValidateStandalone.{
  validate_standalone, with_standalone_defaults, wrong_size, standalone_equal,
  default_standalone_spec,
}
use cndb_redis.Api.ValidateStandalone.Fixpoint.{validate_standalone_twice}
use cndb_redis.Generate.Services.{
  generate_redis_service, generate_sentinel_service, new_head_less_svc_for_cr,
  generate_redis_monitor_service,
}
use cndb_redis.Generate.Lengths.{FitsLimit, validate_sentinel-FitsLimit}
use cndb_redis.Samples.Objects.{text_k8s, text_laws, cluster, single}

first_time :
    validate_sentinel text_k8s (cluster 1 (pos 0) "secret")
    ≡ (with_defaults text_k8s (with_default_size text_k8s (cluster 1 (pos 0) "secret")), ok true)
unfolding validate_sentinel below_minimum sentinel_equal common_equal with_defaults default_common
    with_default_size default_size default_number
first_time = refl

too_few :
    (validate_sentinel text_k8s (cluster 1 (pos 2) "secret")).1
    ≡ err "number of redis in spec is less than the minimum"
unfolding validate_sentinel below_minimum
too_few = refl

written_config :
    lookup "save"
      (made (validate_sentinel text_k8s (cluster 1 (pos 0) "secret")).0.spec.common.config)
    ≡ some ""
unfolding validate_sentinel below_minimum with_defaults default_common with_default_size
    default_size sentinel_config made persist disable_persistence insert lookup
written_config = refl

validate_sentinel_twice_example :
    validate_sentinel text_k8s
      (with_defaults text_k8s (with_default_size text_k8s (cluster 1 (pos 0) "secret")))
    ≡ (with_defaults text_k8s (with_default_size text_k8s (cluster 1 (pos 0) "secret")), ok false)
validate_sentinel_twice_example =
    validate_sentinel_twice text_k8s text_laws (cluster 1 (pos 0) "secret") _ true first_time

validate_sentinel-IsComplete_example :
    IsComplete text_k8s
      (with_defaults text_k8s (with_default_size text_k8s (cluster 1 (pos 0) "secret")))
validate_sentinel-IsComplete_example =
    validate_sentinel-IsComplete text_k8s (cluster 1 (pos 0) "secret") _ true first_time

validate_sentinel-FitsLimit_example :
    let r' = with_defaults text_k8s (with_default_size text_k8s (cluster 1 (pos 0) "secret")) in
    FitsLimit (generate_redis_service r' [] []).metadata.name
    × FitsLimit (generate_sentinel_service r' [] []).metadata.name
    × (FitsLimit (generate_redis_monitor_service r' [] []).metadata.name ↔ (len "shop" ≤ 42))
    × (FitsLimit (new_head_less_svc_for_cr r' [] []).metadata.name ↔ (len "shop" ≤ 39))
validate_sentinel-FitsLimit_example =
    validate_sentinel-FitsLimit [] [] (cluster 1 (pos 0) "secret") _ true first_time

validate_sentinel_accepts_iff_example :
    ((r' : RedisSentinel text_k8s) × (m : Bool) × (validate_sentinel text_k8s
          (cluster 1 (pos 5) "secret")
        ≡ (r', ok m)))
    ↔ ((len "shop" ≤ 48)
        × ((pos 5 ≡ pos 0) ⊎ (pos 3 ≤ℤ pos 5))
        × ((pos 0 ≡ pos 0) ⊎ (pos 3 ≤ℤ pos 0)))
validate_sentinel_accepts_iff_example =
    validate_sentinel_accepts_iff text_k8s (cluster 1 (pos 5) "secret")

first_single :
    validate_standalone text_k8s single ≡ (with_standalone_defaults text_k8s single, ok true)
unfolding validate_standalone wrong_size standalone_equal with_standalone_defaults
    default_standalone_spec default_number
first_single = refl

validate_standalone_twice_example :
    ((with_standalone_defaults text_k8s single).spec.size ≡ pos 1)
    × (validate_standalone text_k8s (with_standalone_defaults text_k8s single)
        ≡ (with_standalone_defaults text_k8s single, ok false))
validate_standalone_twice_example = validate_standalone_twice text_k8s single _ true first_single
