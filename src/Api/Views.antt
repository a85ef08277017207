-- ===== src/Api/Views.antt =====
-- What the two custom resources share: metadata, the common part of the spec, and the status. The
-- packages redissentinel and redisstandalone repeat one another over it.
use cndb_redis.Base.{String, ◌≡◌, refl}
use cndb_redis.Api.Status.{Status}
use cndb_redis.Api.Types.{K8s, ObjectMeta, RedisStandaloneSpec, RedisSentinel, RedisStandalone}

pub record View (k : K8s) (O : Type 0) : Type 0 where
  pub metadata : O → ObjectMeta k
  pub spec : O → RedisStandaloneSpec k
  pub status : O → Status
  pub with_spec : O → RedisStandaloneSpec k → O
  -- the message of a new entry of the cache
  pub bootstrap_message : String
  pub with_status : O → Status → O
  pub spec-with_spec : (o : O) (s : RedisStandaloneSpec k) → spec (with_spec o s) ≡ s
  pub metadata-with_spec :
      (o : O) (s : RedisStandaloneSpec k) → metadata (with_spec o s) ≡ metadata o
  pub status-with_spec : (o : O) (s : RedisStandaloneSpec k) → status (with_spec o s) ≡ status o
  pub status-with_status : (o : O) (s : Status) → status (with_status o s) ≡ s
  pub spec-with_status : (o : O) (s : Status) → spec (with_status o s) ≡ spec o
  pub metadata-with_status : (o : O) (s : Status) → metadata (with_status o s) ≡ metadata o

abbrev pub sentinel_view : (k : K8s) → View k (RedisSentinel k)
sentinel_view k = record {
  metadata = λ r. r.metadata;
  spec = λ r. r.spec.common;
  status = λ r. r.status;
  with_spec = λ r s. record r { spec = record r.spec { common = s } };
  bootstrap_message = "Bootstrap redis cluster";
  with_status = λ r s. record r { status = s };
  spec-with_spec = λ r s. refl;
  metadata-with_spec = λ r s. refl;
  status-with_spec = λ r s. refl;
  status-with_status = λ r s. refl;
  spec-with_status = λ r s. refl;
  metadata-with_status = λ r s. refl;
}

abbrev pub standalone_view : (k : K8s) → View k (RedisStandalone k)
standalone_view k = record {
  metadata = λ r. r.metadata;
  spec = λ r. r.spec;
  status = λ r. r.status;
  with_spec = λ r s. record r { spec = s };
  bootstrap_message = "Bootstrap redis standalone cluster";
  with_status = λ r s. record r { status = s };
  spec-with_spec = λ r s. refl;
  metadata-with_spec = λ r s. refl;
  status-with_spec = λ r s. refl;
  status-with_status = λ r s. refl;
  spec-with_status = λ r s. refl;
  metadata-with_status = λ r s. refl;
}
