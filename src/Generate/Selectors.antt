-- ===== src/Generate/Selectors.antt =====
-- The selectors of the generated objects, against the labels of the generated pods.
use cndb_redis.Base.{String, false, ◌≢◌, str_eq, some, List, [], ◌≡◌, refl, ◌∙◌, arith, eq_iff}
use cndb_redis.Base.Dict.{Dict, lookup}
use cndb_redis.Util.Labels.{lookup-merge_into, merge_labels, merge_each, merge_into}
use cndb_redis.Api.Types.{K8s, RedisSentinel}
use cndb_redis.Generate.Parts.{component_labels, generate_selector_labels}
use cndb_redis.Generate.Services.{
  generate_redis_service, generate_redis_monitor_service, generate_sentinel_service,
  new_head_less_svc_for_cr,
}
use cndb_redis.Generate.StatefulSets.{
  generate_redis_stateful_set, generate_sentinel_stateful_set, redis_stateful_set,
}

-- every label of the selector is a label of the pods
abbrev pub Selects : Dict String → Dict String → Type 0
Selects selector labels =
    (key v : String) → lookup key selector ≡ some v → lookup key labels ≡ some v

lookup-component_labels :
    (labels : Dict String) (component name : String)
    → lookup "app.kubernetes.io/component" (component_labels labels component name) ≡ some component
unfolding component_labels merge_labels merge_each
lookup-component_labels labels component name =
    lookup-merge_into (merge_into [] labels) (generate_selector_labels component name)
      "app.kubernetes.io/component"
      (unfold generate_selector_labels lookup in (refl, (refl, (refl, tt))))
    ∙ (unfold generate_selector_labels lookup in refl)

differ : (a b : String) → str_eq a b ≡ false → a ≢ b
differ a b h = ground (arith, eq_iff a b)

-- the components differ, whatever the other labels are
apart :
    (a b : Dict String) (name name' c d : String)
    → c ≢ d
    → ¬ Selects (component_labels a c name) (component_labels b d name')
apart a b name name' c d ne selects =
    let found = selects "app.kubernetes.io/component" c (lookup-component_labels a c name) in
    let there = lookup-component_labels b d name' in ne (cc)

module _ {k : K8s} (rc other : RedisSentinel k) (labels labels' : Dict String)
    (owner_refs : List k.OwnerReference) where
  -- Made with the same labels, the redis service and the monitor service select the pods of redis, and
  -- the two sentinel services those of the sentinels. Neither of the first two
  -- selects the pods of the sentinels, and neither of the other two those of redis, of any resource and
  -- whatever labels the user gives.
  pub generate-Selects :
      Selects
        (generate_redis_service rc labels owner_refs).selector
        (generate_redis_stateful_set rc labels owner_refs).template.labels
      × Selects
          (generate_redis_monitor_service rc labels owner_refs).selector
          (generate_redis_stateful_set rc labels owner_refs).template.labels
      × Selects
          (generate_sentinel_service rc labels owner_refs).selector
          (generate_sentinel_stateful_set rc labels owner_refs).template.labels
      × Selects
          (new_head_less_svc_for_cr rc labels owner_refs).selector
          (generate_sentinel_stateful_set rc labels owner_refs).template.labels
      × (¬ Selects
          (generate_redis_service rc labels owner_refs).selector
          (generate_sentinel_stateful_set other labels' owner_refs).template.labels)
      × (¬ Selects
          (generate_sentinel_service rc labels owner_refs).selector
          (generate_redis_stateful_set other labels' owner_refs).template.labels)
      × (¬ Selects
          (generate_redis_monitor_service rc labels owner_refs).selector
          (generate_sentinel_stateful_set other labels' owner_refs).template.labels)
      × (¬ Selects
          (new_head_less_svc_for_cr rc labels owner_refs).selector
          (generate_redis_stateful_set other labels' owner_refs).template.labels)
  unfolding generate_redis_service generate_redis_monitor_service generate_sentinel_service
      new_head_less_svc_for_cr generate_redis_stateful_set generate_sentinel_stateful_set
      redis_stateful_set
  generate-Selects = (
    (λ key v h. h),
    (λ key v h. h),
    (λ key v h. h),
    (λ key v h. h),
    apart labels labels' rc.metadata.name other.metadata.name "redis" "sentinel"
        (differ "redis" "sentinel" refl),
    apart labels labels' rc.metadata.name other.metadata.name "sentinel" "redis"
        (differ "sentinel" "redis" refl),
    apart labels labels' rc.metadata.name other.metadata.name "redis" "sentinel"
        (differ "redis" "sentinel" refl),
    apart labels labels' rc.metadata.name other.metadata.name "sentinel" "redis"
        (differ "sentinel" "redis" refl),
  )
