-- ===== src/Ensure/Clusters.antt =====
-- The two stateful sets of a cluster and their disruption budgets.
use cndb_redis.Base.{String, Bool, List, [], ◌≡◌, refl, sym, ap, ◌∙◌, inr}
use cndb_redis.Base.Dict.{Dict}
use cndb_redis.Api.Types.{K8s, K8sLaws, RedisSentinel, ResourceRequirements}
use cndb_redis.Util.Names.{generate_name, get_redis_name, get_sentinel_name}
use cndb_redis.Util.Apart.{get_redis_name-ne}
use cndb_redis.Ops.{◌>>◌}
use cndb_redis.Ops.Settles.{Settles, next-Settles, Lasts}
use cndb_redis.Kube.Creates.{IsThere, create_if_not_exists_object-Settles}
use cndb_redis.Kube.Kinds.{create_if_not_exists_pod_disruption_budget}
use cndb_redis.Generate.Parts.{component_labels}
use cndb_redis.Kube.Objects.{StatefulSet, PodDisruptionBudget, budget_kind}
use cndb_redis.Generate.Services.{generate_pod_disruption_budget}
use cndb_redis.Generate.Pods.{redis_container, sentinel_container}
use cndb_redis.Generate.StatefulSets.{
  redis_stateful_set, exporter_containers, generate_redis_stateful_set,
  generate_sentinel_stateful_set,
}
use cndb_redis.Ensure.{
  KubeClients, has_exporter, redis_changed, sentinel_changed, ensure_pod_disruption_budget,
  ensure_stateful_set, ensure_redis_statefulset, ensure_sentinel_statefulset,
}
use cndb_redis.Ensure.Settled.{IsWanted, changed-same, should_update_redis-same}
use cndb_redis.Ensure.Sets.{Settable, Settable-unchanged, IsTarget, InPlace, InPlace-unchanged}
use cndb_redis.Ensure.Stores.{Stores, Answers, Grows, Grows-trans, Beside, Beside-refl}
use cndb_redis.Ensure.OneSet.{OnlySet, Set-Settles}

-- the disruption budget of a component of a cluster
abbrev pub budget_of :
    {k : K8s}
    → RedisSentinel k
    → Dict String
    → List k.OwnerReference
    → String
    → String
    → PodDisruptionBudget k
budget_of {k} rc labels owner_refs name component =
    generate_pod_disruption_budget k (generate_name name rc.metadata.name) rc.metadata.namespace
      (component_labels labels component rc.metadata.name) owner_refs 2

module _ {k : K8s} {W : Type 0} (clients : KubeClients k W) (stores : Stores k W)
    (rc : RedisSentinel k) (labels : Dict String) (owner_refs : List k.OwnerReference) where
  abbrev pub RedisInPlace : W → Type 0
  RedisInPlace =
      InPlace clients stores.stateful_sets rc.metadata.namespace (get_redis_name rc)
        (redis_changed clients labels owner_refs rc)

  abbrev pub SentinelInPlace : W → Type 0
  SentinelInPlace =
      InPlace clients stores.stateful_sets rc.metadata.namespace (get_sentinel_name rc)
        (sentinel_changed clients labels owner_refs rc)

  abbrev pub Budgeted : String → W → Type 0
  Budgeted name =
      IsThere (budget_kind k) clients.budgets stores.budgets rc.metadata.namespace
        (generate_name name rc.metadata.name)

  -- the budget and the set are there, and ensuring them changes nothing
  abbrev pub RedisSettled : W → Type 0
  RedisSettled w = Budgeted "-cluster" w × RedisInPlace w

  abbrev pub SentinelSettled : W → Type 0
  SentinelSettled w = Budgeted "-sentinel" w × SentinelInPlace w

  Budgeted-lasts : (name : String) → Lasts (Grows stores) (Budgeted name)
  Budgeted-lasts name w w' h there = (there.0, h.budgets _ _ there.0 there.1)

module _ {k : K8s} {W : Type 0} (clients : KubeClients k W) (stores : Stores k W) (laws : K8sLaws k)
    (answers : Answers stores clients) (rc : RedisSentinel k) (labels : Dict String)
    (owner_refs : List k.OwnerReference) where
  Budget-Settles :
      {pre : W → Type 0} (name component : String)
      → answers.budgets.accepts (budget_of rc labels owner_refs name component)
      → Settles
          (Beside stores)
          pre
          (ensure_pod_disruption_budget clients labels owner_refs rc name component)
          (Budgeted clients stores rc labels owner_refs name)
  unfolding ensure_pod_disruption_budget generate_pod_disruption_budget
      create_if_not_exists_pod_disruption_budget
  Budget-Settles name component accepted =
      create_if_not_exists_object-Settles (budget_kind k) clients.budgets stores.budgets
        rc.metadata.namespace (budget_of rc labels owner_refs name component) answers.budgets
        accepted (Beside-refl stores) refl

  redis-IsTarget :
      IsTarget rc.metadata.namespace
        (get_redis_name rc)
        (generate_redis_stateful_set rc labels owner_refs)
        (redis_changed clients labels owner_refs rc)
  unfolding generate_redis_stateful_set redis_stateful_set exporter_containers redis_changed
  redis-IsTarget = record {
    in_namespace = refl;
    named = refl;
    without = refl;
    settles = λ ss h.
        let w : IsWanted laws rc.spec.common ss = record {
          redis = redis_container rc.spec.common _ _;
          containers = ap (λ (o : StatefulSet k). o.template.spec.containers) h;
          not_exporter = unfold has_exporter redis_container in refl;
          resources = unfold redis_container in refl;
          replicas = ap (λ (o : StatefulSet k). o.replicas) h;
        } in
        (
          w.redis,
          exporter_containers k rc.spec.common,
          w.containers,
          changed-same laws rc.spec.common ss w,
        );
  }

  sentinel-IsTarget :
      IsTarget rc.metadata.namespace
        (get_sentinel_name rc)
        (generate_sentinel_stateful_set rc labels owner_refs)
        (sentinel_changed clients labels owner_refs rc)
  unfolding generate_sentinel_stateful_set sentinel_changed
  sentinel-IsTarget = record {
    in_namespace = refl;
    named = refl;
    without = refl;
    settles = λ ss h.
        let replicas : ss.replicas ≡ rc.spec.sentinel.replicas =
          ap (λ (o : StatefulSet k). o.replicas) h in
        (
          sentinel_container rc,
          [],
          ap (λ (o : StatefulSet k). o.template.spec.containers) h,
          rw replicas (
              unfold sentinel_container in
              should_update_redis-same laws rc.spec.sentinel.resources rc.spec.sentinel.replicas),
        );
  }

  module _ (name : String) (wanted : StatefulSet k)
      (changed : StatefulSet k → ResourceRequirements k → Bool)
      (target : IsTarget rc.metadata.namespace name wanted changed) where
    -- the disruption budget first, and then the set
    Budget-Set-Settles :
        (budget component : String)
        → answers.budgets.accepts (budget_of rc labels owner_refs budget component)
        → Settles
            (OnlySet clients stores rc.metadata.namespace name)
            (Settable clients stores.stateful_sets answers.sets rc.metadata.namespace name wanted)
            (ensure_pod_disruption_budget clients labels owner_refs rc budget component
              >> ensure_stateful_set clients rc.metadata.namespace name wanted changed)
            (λ w.
              Budgeted clients stores rc labels owner_refs budget w
              × InPlace clients stores.stateful_sets rc.metadata.namespace name changed w)
    Budget-Set-Settles budget component accepted =
        next-Settles _ _
          (λ w v u beside only. record {
            grows = Grows-trans stores w v u beside.grows only.grows;
            elsewhere = λ a b other. only.elsewhere a b other ∙ beside.same_sets a b;
          })
          (λ w h. h)
          (λ w v beside.
            Settable-unchanged clients stores.stateful_sets answers.sets w v (beside.same_sets _ _))
          (λ w v only. Budgeted-lasts clients stores rc labels owner_refs budget w v only.grows)
          (Budget-Settles budget component accepted)
          (Set-Settles clients stores laws answers rc.metadata.namespace name wanted changed target)

  -- both sets and their budgets are in place after both operations, in the order of Ensure
  pub ensure_statefulsets-Settles :
      answers.budgets.accepts (budget_of rc labels owner_refs "-cluster" "redis")
      → answers.budgets.accepts (budget_of rc labels owner_refs "-sentinel" "sentinel")
      → Settles
          (Grows stores)
          (λ w.
            Settable clients stores.stateful_sets answers.sets rc.metadata.namespace
              (get_redis_name rc)
              (generate_redis_stateful_set rc labels owner_refs)
              w
            × Settable clients stores.stateful_sets answers.sets rc.metadata.namespace
                (get_sentinel_name rc)
                (generate_sentinel_stateful_set rc labels owner_refs)
                w)
          (ensure_redis_statefulset clients labels owner_refs rc
            >> ensure_sentinel_statefulset clients labels owner_refs rc)
          (λ w.
            RedisSettled clients stores rc labels owner_refs w
            × SentinelSettled clients stores rc labels owner_refs w)
  unfolding ensure_redis_statefulset ensure_sentinel_statefulset
  ensure_statefulsets-Settles cluster_budget sentinel_budget =
      next-Settles {q = RedisSettled clients stores rc labels owner_refs}
        {q' = SentinelSettled clients stores rc labels owner_refs} _ _
        (λ w v u redis sentinel. Grows-trans stores w v u redis.grows sentinel.grows) (λ w h. h.0)
        (λ w v only h.
          Settable-unchanged clients stores.stateful_sets answers.sets w v
            (only.elsewhere _ _ (inr (λ e. get_redis_name-ne rc rc (sym e)))) h.1)
        (λ w v only h. (
          Budgeted-lasts clients stores rc labels owner_refs "-cluster" w v only.grows h.0,
          InPlace-unchanged clients stores.stateful_sets w v
              (only.elsewhere _ _ (inr (get_redis_name-ne rc rc))) h.1,
        ))
        (Budget-Set-Settles (get_redis_name rc) (generate_redis_stateful_set rc labels owner_refs)
          (redis_changed clients labels owner_refs rc) redis-IsTarget "-cluster" "redis"
          cluster_budget)
        (Budget-Set-Settles (get_sentinel_name rc)
          (generate_sentinel_stateful_set rc labels owner_refs)
          (sentinel_changed clients labels owner_refs rc) sentinel-IsTarget "-sentinel" "sentinel"
          sentinel_budget)
