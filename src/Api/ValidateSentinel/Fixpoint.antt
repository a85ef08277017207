-- ===== src/Api/ValidateSentinel/Fixpoint.antt =====
-- A resource that Validate has accepted is accepted again, and not changed again.
use Prim.Native.String.{len}
use cndb_redis.Base.{
  String, Bool, true, false, not, Option, some, ◌≡◌, arith, ap, Result, ok, ltb, eq_refl, ◌∙◌,
}
use cndb_redis.Base.Int.{ℤ, pos}
use cndb_redis.Base.Dict.{Dict, lookup, insert, insert-same, lookup-insert_self}
use cndb_redis.Api.Types.{
  K8s, K8sLaws, ResourceRequirements, RedisStandaloneSpec, SentinelSettings, RedisSentinel,
}
use cndb_redis.Api.Defaults.{max_name_length, default_redis_image, default_number, made, persist}
use cndb_redis.Api.Defaults.Fixpoints.{
  default_number_twice, default_text_twice, default_exporter_twice, persist_twice,
  config_equal_refl, exporter_equal_refl, eqb_ℤ_refl,
}
use cndb_redis.Api.Persistence.Settings.{lookup-enable_persistence, lookup-disable_persistence}
use cndb_redis.Api.ValidateSentinel.{
  below_minimum, default_resources, sentinel_config, default_size, default_common, default_settings,
  common_equal, settings_equal, sentinel_equal, with_default_size, with_defaults, validate_sentinel,
}

pub lookup-persist-slave_priority :
    (disabled : Bool) (config : Dict String)
    → lookup "slave-priority" config ≡ some "1"
    → lookup "slave-priority" (persist disabled config) ≡ some "1"
unfolding persist
lookup-persist-slave_priority true config h = rw lookup-disable_persistence h
lookup-persist-slave_priority false config h = rw (lookup-enable_persistence, h)

module _ (k : K8s) where
  sentinel_config_twice :
      (disabled : Bool) (config : Option (Dict String))
      → sentinel_config k disabled (some (sentinel_config k disabled config))
        ≡ sentinel_config k disabled config
  unfolding sentinel_config made
  sentinel_config_twice disabled config =
      let c = insert "slave-priority" "1" (made config) in
      let kept : insert "slave-priority" "1" (persist disabled c) ≡ persist disabled c =
        insert-same "slave-priority" "1" (persist disabled c) (
          lookup-persist-slave_priority disabled c
            (lookup-insert_self "slave-priority" "1" (made config))) in
      ap (persist disabled) kept ∙ persist_twice disabled c

  default_common_twice :
      (s : RedisStandaloneSpec k)
      → default_common k (default_size k (default_common k (default_size k s)))
        ≡ default_common k (default_size k s)
  unfolding default_common default_size
  default_common_twice s = cc (
    default_number_twice s.size (pos 3),
    default_text_twice s.image default_redis_image,
    default_exporter_twice s.exporter,
    sentinel_config_twice s.disable_persistence s.config,
  )

  -- what an accepted resource has passed, and what it has become
  pub record Accepted (r r' : RedisSentinel k) (modified : Bool) : Type 0 where
    pub short_name : ltb max_name_length (len r.metadata.name) ≡ false
    pub size_given : below_minimum r.spec.common.size (pos 3) ≡ false
    pub replicas_given : below_minimum r.spec.sentinel.replicas (pos 3) ≡ false
    pub defaulted : r' ≡ with_defaults k (with_default_size k r)
    pub compared : modified ≡ not (sentinel_equal k (with_defaults k (with_default_size k r)) r)

  pub validate_sentinel-Accepted :
      (r r' : RedisSentinel k) (modified : Bool)
      → validate_sentinel k r ≡ (r', ok modified)
      → Accepted r r' modified
  unfolding validate_sentinel
  validate_sentinel-Accepted r r' modified h = ground arith

  pub validate_sentinel-accepts :
      (r : RedisSentinel k)
      → ltb max_name_length (len r.metadata.name) ≡ false
      → below_minimum r.spec.common.size (pos 3) ≡ false
      → below_minimum r.spec.sentinel.replicas (pos 3) ≡ false
      → validate_sentinel k r ≡ (
        with_defaults k (with_default_size k r),
        ok (not (sentinel_equal k (with_defaults k (with_default_size k r)) r)),
      )
  unfolding validate_sentinel
  validate_sentinel-accepts r short size replicas = rw (short, size, replicas)

  below_minimum-default :
      (n : ℤ)
      → below_minimum n (pos 3) ≡ false
      → below_minimum (default_number n (pos 3)) (pos 3) ≡ false
  unfolding below_minimum default_number
  below_minimum-default n h = ground arith

module _ (k : K8s) (laws : K8sLaws k) where
  default_resources_twice :
      (r : ResourceRequirements k)
      → default_resources k (default_resources k r) ≡ default_resources k r
  unfolding default_resources
  default_resources_twice r = ground (arith, laws.size_pos)

  default_settings_twice :
      (s : SentinelSettings k) → default_settings k (default_settings k s) ≡ default_settings k s
  unfolding default_settings
  default_settings_twice s = cc (
    default_number_twice s.replicas (pos 3),
    default_text_twice s.image default_redis_image,
    default_resources_twice s.resources,
  )

  sentinel_equal_refl : (r : RedisSentinel k) → sentinel_equal k r r ≡ true
  unfolding sentinel_equal common_equal settings_equal
  sentinel_equal_refl r = rw (
    eqb_ℤ_refl r.spec.common.size,
    eq_refl r.spec.common.image,
    config_equal_refl r.spec.common.config,
    exporter_equal_refl r.spec.common.exporter,
    eqb_ℤ_refl r.spec.sentinel.replicas,
    eq_refl r.spec.sentinel.image,
    laws.equal_refl (r.spec.sentinel.resources.limits, r.spec.sentinel.resources.requests),
  )

  with_defaults_twice :
      (r : RedisSentinel k)
      → with_defaults k (with_default_size k (with_defaults k (with_default_size k r)))
        ≡ with_defaults k (with_default_size k r)
  unfolding with_defaults with_default_size
  with_defaults_twice r =
      cc (default_common_twice k r.spec.common, default_settings_twice r.spec.sentinel)

  Accepted-again :
      (r : RedisSentinel k) {r' : RedisSentinel k} {modified : Bool}
      → Accepted k r r' modified
      → validate_sentinel k (with_defaults k (with_default_size k r))
        ≡ (with_defaults k (with_default_size k r), ok false)
  unfolding with_defaults with_default_size default_common default_size default_settings
  Accepted-again r a =
      validate_sentinel-accepts k (with_defaults k (with_default_size k r)) a.short_name
        (below_minimum-default k r.spec.common.size a.size_given)
        (below_minimum-default k r.spec.sentinel.replicas a.replicas_given)
      ∙ settled (with_defaults_twice r)
    where
      settled :
          {v w : RedisSentinel k}
          → v ≡ w
          → ◌≡◌ {A = RedisSentinel k × Result String Bool}
              (v, ok (not (sentinel_equal k v w)))
              (w, ok false)
      settled {v} {w} e = rw (e, sentinel_equal_refl w)

  -- A resource that Validate accepts is accepted when it comes back, and reported as not modified.
  pub validate_sentinel_twice :
      (r r' : RedisSentinel k) (modified : Bool)
      → validate_sentinel k r ≡ (r', ok modified)
      → validate_sentinel k r' ≡ (r', ok false)
  validate_sentinel_twice r r' modified h =
      let a = validate_sentinel-Accepted k r r' modified h in rw a.defaulted (Accepted-again r a)
