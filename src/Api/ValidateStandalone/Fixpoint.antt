-- ===== src/Api/ValidateStandalone/Fixpoint.antt =====
-- What a validated RedisStandalone has, and that a second call changes nothing.
use Prim.Native.String.{len}
use cndb_redis.Base.{Bool, true, false, ◌≡◌, arith, ok, ltb, eq_refl}
use cndb_redis.Base.Int.{ℤ, pos}
use cndb_redis.Api.Types.{K8s, RedisStandaloneSpec, RedisStandalone}
use cndb_redis.Api.Defaults.{max_name_length, default_redis_image, default_number, made}
use cndb_redis.Api.Defaults.Fixpoints.{
  default_number_twice, default_text_twice, default_exporter_twice, persist_twice,
  config_equal_refl, exporter_equal_refl, eqb_ℤ_refl,
}
use cndb_redis.Api.ValidateStandalone.{
  default_standalone_spec, standalone_equal, with_standalone_defaults, wrong_size,
  validate_standalone,
}

module _ (k : K8s) where
  default_standalone_spec_twice :
      (s : RedisStandaloneSpec k)
      → default_standalone_spec k (default_standalone_spec k s) ≡ default_standalone_spec k s
  unfolding default_standalone_spec made
  default_standalone_spec_twice s = cc (
    default_number_twice s.size (pos 1),
    default_text_twice s.image default_redis_image,
    default_exporter_twice s.exporter,
    persist_twice s.disable_persistence (made s.config),
  )

  with_standalone_defaults_twice :
      (r : RedisStandalone k)
      → with_standalone_defaults k (with_standalone_defaults k r) ≡ with_standalone_defaults k r
  unfolding with_standalone_defaults
  with_standalone_defaults_twice r = cc (default_standalone_spec_twice r.spec)

  standalone_equal_refl : (r : RedisStandalone k) → standalone_equal k r r ≡ true
  unfolding standalone_equal
  standalone_equal_refl r = rw (
    eqb_ℤ_refl r.spec.size,
    eq_refl r.spec.image,
    config_equal_refl r.spec.config,
    exporter_equal_refl r.spec.exporter,
  )

  wrong_size-default :
      (n : ℤ)
      → wrong_size k n ≡ false
      → (default_number n (pos 1) ≡ pos 1) × (wrong_size k (default_number n (pos 1)) ≡ false)
  unfolding wrong_size default_number
  wrong_size-default n h = ground arith

  record Accepted (r r' : RedisStandalone k) : Type 0 where
    short_name : ltb max_name_length (len r.metadata.name) ≡ false
    size_given : wrong_size k r.spec.size ≡ false
    defaulted : r' ≡ with_standalone_defaults k r

  validate_standalone-Accepted :
      (r r' : RedisStandalone k) (modified : Bool)
      → validate_standalone k r ≡ (r', ok modified)
      → Accepted r r'
  unfolding validate_standalone
  validate_standalone-Accepted r r' modified h = ground arith

  settled :
      (r : RedisStandalone k)
      → ltb max_name_length (len r.metadata.name) ≡ false
      → wrong_size k r.spec.size ≡ false
      → with_standalone_defaults k r ≡ r
      → validate_standalone k r ≡ (r, ok false)
  unfolding validate_standalone
  settled r short size e = rw (short, size, e, standalone_equal_refl r)

  -- A validated resource runs one redis, and is validated again without a change.
  pub validate_standalone_twice :
      (r r' : RedisStandalone k) (modified : Bool)
      → validate_standalone k r ≡ (r', ok modified)
      → (r'.spec.size ≡ pos 1) × (validate_standalone k r' ≡ (r', ok false))
  validate_standalone_twice r r' modified h =
      let a = validate_standalone-Accepted r r' modified h in rw a.defaulted (again r a)
    where
      again :
          (r : RedisStandalone k) {r' : RedisStandalone k}
          → Accepted r r'
          → ((with_standalone_defaults k r).spec.size ≡ pos 1)
            × (validate_standalone k (with_standalone_defaults k r)
                ≡ (with_standalone_defaults k r, ok false))
      again r a =
          let (one, given) = wrong_size-default r.spec.size a.size_given in
          unfold with_standalone_defaults default_standalone_spec in
          (
            one,
            settled (with_standalone_defaults k r) a.short_name given
                (with_standalone_defaults_twice r),
          )
