-- ===== src/Api/ValidateSentinel/Requirements.antt =====
-- Which resources Validate accepts, and what an accepted resource has.
use Prim.Native.String.{len}
use cndb_redis.Base.{
  zero, suc, ◌≤◌, String, Bool, true, false, some, ◌≡◌, ◌≢◌, ◌↔◌, ◌⊎◌, inl, inr, refl, arith, ok,
  Bool-cases, eq_iff,
}
use cndb_redis.Base.Int.{ℤ, pos, negsuc, ◌≤ℤ◌}
use cndb_redis.Base.Dict.{Dict, lookup, lookup-insert_self}
use cndb_redis.Api.Types.{K8s, RedisExporter, RedisSentinel}
use cndb_redis.Api.Defaults.{
  default_redis_image, default_redis_exporter_image, default_number, default_text, default_exporter,
  made, persist,
}
use cndb_redis.Api.Persistence.Settings.{lookup-disable_persistence}
use cndb_redis.Api.ValidateSentinel.{
  below_minimum, sentinel_config, default_size, default_common, default_settings, with_default_size,
  with_defaults, validate_sentinel,
}
use cndb_redis.Api.ValidateSentinel.Fixpoint.{
  Accepted, validate_sentinel-accepts, validate_sentinel-Accepted, lookup-persist-slave_priority,
}

-- At least three pods of each kind, the images and the settings that are always there.
pub record IsComplete (k : K8s) (r : RedisSentinel k) : Type 0 where
  pub name_fits : len r.metadata.name ≤ 48
  pub enough_redis : pos 3 ≤ℤ r.spec.common.size
  pub enough_sentinels : pos 3 ≤ℤ r.spec.sentinel.replicas
  pub has_image : r.spec.common.image ≢ ""
  pub has_sentinel_image : r.spec.sentinel.image ≢ ""
  pub has_exporter_image : r.spec.common.exporter.enabled ≡ true → r.spec.common.exporter.image ≢ ""
  pub has_priority : lookup "slave-priority" (made r.spec.common.config) ≡ some "1"
  pub has_appendonly :
      r.spec.common.disable_persistence ≡ true
      → lookup "appendonly" (made r.spec.common.config) ≡ some "no"

number_enough : (n : ℤ) → below_minimum n (pos 3) ≡ false → pos 3 ≤ℤ default_number n (pos 3)
unfolding below_minimum default_number
number_enough n h = ground arith

default_text-ne-empty : (s d : String) → d ≢ "" → default_text s d ≢ ""
unfolding default_text
default_text-ne-empty s d h = ground (arith, eq_iff s "")

image-ne-empty : default_redis_image ≢ ""
image-ne-empty h = cc

default_exporter_image :
    (e : RedisExporter) → (default_exporter e).enabled ≡ true → (default_exporter e).image ≢ ""
unfolding default_exporter
default_exporter_image e on = elim (Bool-cases e.enabled) [
  | inl enabled ↦ rw enabled (default_text-ne-empty e.image default_redis_exporter_image (λ h. cc))
  | inr disabled ↦ absurd (ground arith)
]

appendonly_off :
    (disabled : Bool) (config : Dict String)
    → disabled ≡ true
    → lookup "appendonly" (persist disabled config) ≡ some "no"
unfolding persist
appendonly_off true config h = lookup-disable_persistence "appendonly" config
appendonly_off false config h = cc

number_given_iff : (n : ℤ) → (below_minimum n (pos 3) ≡ false) ↔ ((n ≡ pos 0) ⊎ (pos 3 ≤ℤ n))
unfolding below_minimum
number_given_iff n = (λ h. given n h, λ h. not_below n h)
  where
    given : (n : ℤ) → below_minimum n (pos 3) ≡ false → (n ≡ pos 0) ⊎ (pos 3 ≤ℤ n)
    given (pos zero) h = inl refl
    given (pos (suc n)) h = inr (ground arith)
    given (negsuc n) h = absurd (ground arith)

    not_below : (n : ℤ) → (n ≡ pos 0) ⊎ (pos 3 ≤ℤ n) → below_minimum n (pos 3) ≡ false
    not_below n (inl e) = rw e
    not_below n (inr h) = ground arith

module _ (k : K8s) where
  -- Every resource that Validate accepts has a name of at most 48 bytes, at least three redis and
  -- three sentinel pods, an image for redis, for the sentinels and, where it is enabled, for the
  -- exporter, slave-priority 1 in its settings and, with persistence disabled, appendonly no.
  pub validate_sentinel-IsComplete :
      (r r' : RedisSentinel k) (modified : Bool)
      → validate_sentinel k r ≡ (r', ok modified)
      → IsComplete k r'
  validate_sentinel-IsComplete r r' modified h =
      let a = validate_sentinel-Accepted k r r' modified h in rw a.defaulted (complete r a)
    where
      complete :
          (r : RedisSentinel k) {r' : RedisSentinel k} {modified : Bool}
          → Accepted k r r' modified
          → IsComplete k (with_defaults k (with_default_size k r))
      complete r a =
          unfold with_defaults with_default_size default_size default_common default_settings
            default_exporter made in
          record {
            name_fits = let h = a.short_name in ground arith;
            enough_redis = number_enough r.spec.common.size a.size_given;
            enough_sentinels = number_enough r.spec.sentinel.replicas a.replicas_given;
            has_image = default_text-ne-empty r.spec.common.image _ image-ne-empty;
            has_sentinel_image = default_text-ne-empty r.spec.sentinel.image _ image-ne-empty;
            has_exporter_image = default_exporter_image r.spec.common.exporter;
            has_priority =
                unfold sentinel_config in
                lookup-persist-slave_priority r.spec.common.disable_persistence _
                  (lookup-insert_self "slave-priority" "1" (made r.spec.common.config));
            has_appendonly =
                unfold sentinel_config in appendonly_off r.spec.common.disable_persistence _;
          }

  -- Validate accepts exactly the resources whose name has at most 48 bytes and whose numbers of
  -- redis and of sentinel pods are left out, as 0, or are at least 3.
  pub validate_sentinel_accepts_iff :
      (r : RedisSentinel k)
      → ((r' : RedisSentinel k) × (m : Bool) × (validate_sentinel k r ≡ (r', ok m))) ↔ (
          (len r.metadata.name ≤ 48)
          × ((r.spec.common.size ≡ pos 0) ⊎ (pos 3 ≤ℤ r.spec.common.size))
          × ((r.spec.sentinel.replicas ≡ pos 0) ⊎ (pos 3 ≤ℤ r.spec.sentinel.replicas)))
  validate_sentinel_accepts_iff r = (
    λ (r', m, h).
        let a = validate_sentinel-Accepted k r r' m h in
        (
          let s = a.short_name in ground arith,
          (number_given_iff r.spec.common.size).0 a.size_given,
          (number_given_iff r.spec.sentinel.replicas).0 a.replicas_given,
        ),
    λ (short, size, replicas). (
      _,
      _,
      validate_sentinel-accepts k r (ground arith) ((number_given_iff r.spec.common.size).1 size)
          ((number_given_iff r.spec.sentinel.replicas).1 replicas),
    ),
  )
