-- ===== src/Api/ValidateStandalone.antt =====
-- api/v1alpha1/redisstandalone_validate.go: the defaults and the checks of a RedisStandalone.
pub mod Fixpoint
use Prim.Native.String.{len}
use cndb_redis.Base.{String, Bool, not, ◌&&◌, some, if◌then◌else◌, str_eq, ltb, Result, ok, err}
use cndb_redis.Base.Int.{ℤ, pos, eqb_ℤ}
use cndb_redis.Api.Types.{K8s, RedisStandaloneSpec, RedisStandalone}
use cndb_redis.Api.Defaults.{
  max_name_length, default_standalone_redis_number, default_redis_image, default_number,
  default_text, default_exporter, made, persist, config_equal, exporter_equal,
}

module _ (k : K8s) where
  unfoldable pub default_standalone_spec : RedisStandaloneSpec k → RedisStandaloneSpec k
  default_standalone_spec s = record s {
    size = default_number s.size default_standalone_redis_number;
    image = default_text s.image default_redis_image;
    exporter = default_exporter s.exporter;
    config = some (persist s.disable_persistence (made s.config));
  }

  -- reflect.DeepEqual, on the fields that Validate may have written
  unfoldable pub standalone_equal : RedisStandalone k → RedisStandalone k → Bool
  standalone_equal r t =
      eqb_ℤ r.spec.size t.spec.size
      && (str_eq r.spec.image t.spec.image
          && (config_equal r.spec.config t.spec.config
              && exporter_equal r.spec.exporter t.spec.exporter))

  unfoldable pub with_standalone_defaults : RedisStandalone k → RedisStandalone k
  with_standalone_defaults r = record r { spec = default_standalone_spec r.spec }

  -- a size that is given and is not 1
  unfoldable pub wrong_size : ℤ → Bool
  wrong_size n = not (eqb_ℤ n (pos 0)) && not (eqb_ℤ n default_standalone_redis_number)

  unfoldable pub validate_standalone : RedisStandalone k → RedisStandalone k × Result String Bool
  validate_standalone r =
      let r' = with_standalone_defaults r in
      if ltb max_name_length (len r.metadata.name)
      then (r, err "name length can't be higher than 48")
      else if wrong_size r.spec.size
      then (r, err "standalone mode, number of redis in spec must be set 1")
      else (r', ok (not (standalone_equal r' r)))
