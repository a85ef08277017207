-- ===== src/Generate/Lengths.antt =====
-- How long the names of the services of a cluster are, against the limit of Validate.
use Prim.Native.String.{len}
use text.Mathlib.TextPositions.{len-append}
use cndb_redis.Base.{◌+◌, ◌≤◌, String, Bool, ◌<>◌, ◌≡◌, ◌↔◌, ap, List, arith, ok}
use cndb_redis.Base.Dict.{Dict}
use cndb_redis.Api.Types.{K8s, RedisSentinel}
use cndb_redis.Api.ValidateSentinel.{validate_sentinel, with_defaults, with_default_size}
use cndb_redis.Api.ValidateSentinel.Fixpoint.{validate_sentinel-Accepted}
use cndb_redis.Util.Names.{
  generate_name, get_redis_name, get_sentinel_name, get_sentinel_headless_svc,
}
use cndb_redis.Generate.Services.{
  generate_redis_service, generate_sentinel_service, new_head_less_svc_for_cr,
  generate_redis_monitor_service,
}

-- Kubernetes refuses a service whose name has more than 63 characters. What characters they are, it
-- restricts, too, which is not looked at here.
abbrev pub FitsLimit : String → Type 0
FitsLimit name = len name ≤ 63

len-generate_name :
    (type_name name : String) → len (generate_name type_name name) ≡ 6 + len type_name + len name
unfolding generate_name
len-generate_name type_name name =
    rw
      (
        len-append "redis" (type_name <> ("-" <> name)),
        len-append type_name ("-" <> name),
        len-append "-" name,
      )
      (omega arith)

module _ {k : K8s} (labels : Dict String) (owner_refs : List k.OwnerReference)
    (r r' : RedisSentinel k) (modified : Bool) where
  same_name : validate_sentinel k r ≡ (r', ok modified) → r'.metadata.name ≡ r.metadata.name
  unfolding with_defaults with_default_size
  same_name h =
      ap (λ (o : RedisSentinel k). o.metadata.name)
        (validate_sentinel-Accepted k r r' modified h).defaulted

  -- Of a cluster that Validate accepts, the names of the services of redis and of the sentinels have
  -- at most 63 bytes. The name of the monitor service has at most 63 exactly if the name of the
  -- cluster has at most 42 bytes, and that of the headless service exactly if it has at most 39,
  -- although Validate accepts 48.
  pub validate_sentinel-FitsLimit :
      validate_sentinel k r ≡ (r', ok modified)
      → FitsLimit (generate_redis_service r' labels owner_refs).metadata.name
        × FitsLimit (generate_sentinel_service r' labels owner_refs).metadata.name
        × (FitsLimit (generate_redis_monitor_service r' labels owner_refs).metadata.name
            ↔ (len r.metadata.name ≤ 42))
        × (FitsLimit (new_head_less_svc_for_cr r' labels owner_refs).metadata.name
            ↔ (len r.metadata.name ≤ 39))
  unfolding generate_redis_service generate_sentinel_service generate_redis_monitor_service
      new_head_less_svc_for_cr get_redis_name get_sentinel_name get_sentinel_headless_svc
  validate_sentinel-FitsLimit h =
      let accepted = validate_sentinel-Accepted k r r' modified h in
      let short : len r.metadata.name ≤ 48 = let s = accepted.short_name in ground arith in
      let same : len r'.metadata.name ≡ len r.metadata.name = ap len (same_name h) in
      let redis : len (get_redis_name r') ≡ 13 + len r'.metadata.name =
        len-generate_name "-worker" r'.metadata.name in
      let sentinel : len (get_sentinel_name r') ≡ 15 + len r'.metadata.name =
        len-generate_name "-sentinel" r'.metadata.name in
      let headless : len (get_sentinel_headless_svc r') ≡ 24 + len r'.metadata.name =
        len-generate_name "-sentinel-headless" r'.metadata.name in
      let monitor : len (get_redis_name r' <> "-monitor") ≡ len (get_redis_name r') + 8 =
        len-append (get_redis_name r') "-monitor" in
      (
        omega arith,
        omega arith,
        (λ fits. omega arith, λ fits. omega arith),
        (λ fits. omega arith, λ fits. omega arith),
      )
