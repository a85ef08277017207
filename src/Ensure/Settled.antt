-- ===== src/Ensure/Settled.antt =====
-- When a stateful set is as the specification wants it, and what that leaves out.
use cndb_redis.Base.{
  String, Bool, true, false, ◌||◌, List, [], ◌∷◌, ◌≡◌, refl, ap, ◌∙◌, Bool-cases, inl, inr,
  if◌then◌else◌, ok, err,
}
use cndb_redis.Base.Int.{ℤ, eqb_ℤ, eqb_ℤ_iff}
use cndb_redis.Base.Dict.{Dict}
use cndb_redis.Util.Names.{generate_name, get_redis_name}
use cndb_redis.Api.Types.{K8s, K8sLaws, RedisSentinel, RedisStandaloneSpec, ResourceRequirements}
use cndb_redis.Ops.{Error, is_not_found, continue, pure}
use cndb_redis.Kube.Crud.{
  get_object, create_object, update_object, create_if_not_exists_object, present_or_missing,
}
use cndb_redis.Kube.Objects.{StatefulSet, Container, PodDisruptionBudget}
use cndb_redis.Kube.Kinds.{
  get_stateful_set, create_stateful_set, update_stateful_set,
  create_if_not_exists_pod_disruption_budget,
}
use cndb_redis.Generate.Parts.{create_redis_exporter_container}
use cndb_redis.Generate.Services.{generate_pod_disruption_budget}
use cndb_redis.Generate.Pods.{redis_container}
use cndb_redis.Generate.StatefulSets.{
  redis_stateful_set, exporter_containers, generate_redis_stateful_set,
}
use cndb_redis.Ensure.{
  KubeClients, should_update_redis, has_exporter, exporter_changed, first_resources, update_if,
  found_or_missing, ensure_stateful_set, redis_changed, ensure_pod_disruption_budget,
  ensure_redis_statefulset,
}

pub or_first : (a b : Bool) → (a || b) ≡ false → a ≡ false
or_first true b h = h
or_first false b h = refl

-- a set in which there is nothing to update has the replicas of the specification
pub should_update_redis-replicas :
    {k : K8s} (expect actual : ResourceRequirements k) (size replicas : ℤ)
    → should_update_redis expect actual size replicas ≡ false
    → eqb_ℤ size replicas ≡ true
unfolding should_update_redis
should_update_redis-replicas expect actual size replicas h =
    elim (Bool-cases (eqb_ℤ size replicas)) [
      | inl same ↦ same
      | inr differ ↦ absurd (let l = rw differ at h in cc)
    ]

module _ {k : K8s} (laws : K8sLaws k) where
  eqb_ℤ_refl : (n : ℤ) → eqb_ℤ n n ≡ true
  eqb_ℤ_refl n = (eqb_ℤ_iff n n).1 refl

  pub should_update_redis-same :
      (r : ResourceRequirements k) (n : ℤ) → should_update_redis r r n n ≡ false
  unfolding should_update_redis
  should_update_redis-same r n =
      rw
        (
          eqb_ℤ_refl n,
          laws.same_refl (k.cpu r.requests),
          laws.same_refl (k.memory r.requests),
          laws.same_refl (k.cpu r.limits),
          laws.same_refl (k.memory r.limits),
        )
        refl

  has_exporter-if :
      (spec : RedisStandaloneSpec k) (enabled : Bool)
      → has_exporter (
          if enabled
          then create_redis_exporter_container k spec.exporter spec.password ∷ []
          else [])
        ≡ enabled
  unfolding has_exporter create_redis_exporter_container
  has_exporter-if spec true = refl
  has_exporter-if spec false = refl

  -- the first container of the set is that of the specification, and the exporter is there if it is
  -- enabled
  pub record IsWanted (spec : RedisStandaloneSpec k) (old : StatefulSet k) : Type 0 where
    pub redis : Container k
    pub containers : old.template.spec.containers ≡ redis ∷ exporter_containers k spec
    pub not_exporter :
        has_exporter (redis ∷ exporter_containers k spec)
        ≡ has_exporter (exporter_containers k spec)
    pub resources : redis.resources ≡ spec.resources
    pub replicas : old.replicas ≡ spec.size

  exporter_changed-same :
      (spec : RedisStandaloneSpec k) (old : StatefulSet k)
      → IsWanted spec old
      → exporter_changed spec old ≡ false
  unfolding exporter_changed
  exporter_changed-same spec old h =
      let found : has_exporter old.template.spec.containers ≡ spec.exporter.enabled =
        ap (λ (cs : List (Container k)). has_exporter cs) h.containers
        ∙ h.not_exporter
        ∙ (unfold exporter_containers in has_exporter-if spec spec.exporter.enabled) in
      elim (Bool-cases spec.exporter.enabled) [
        | inl e ↦ rw (found, e) refl
        | inr e ↦ rw (found, e) refl
      ]

  -- the test of both packages finds nothing to update
  pub changed-same :
      (spec : RedisStandaloneSpec k) (old : StatefulSet k) (h : IsWanted spec old)
      → (should_update_redis spec.resources h.redis.resources spec.size old.replicas
          || exporter_changed spec old)
        ≡ false
  unfolding exporter_changed
  changed-same spec old h =
      rw (h.resources, h.replicas, should_update_redis-same spec.resources spec.size)
        (exporter_changed-same spec old h)

  module _ {W : Type 0} (clients : KubeClients k W) where
    found_or_missing-same :
        (namespace : String) (wanted old : StatefulSet k)
        (changed : StatefulSet k → ResourceRequirements k → Bool) (c : Container k)
        (cs : List (Container k)) (w : W)
        → old.template.spec.containers ≡ c ∷ cs
        → changed old c.resources ≡ false
        → found_or_missing clients namespace wanted changed (ok old, w) ≡ (ok tt, w)
    unfolding found_or_missing update_if first_resources
    found_or_missing-same namespace wanted old changed c cs w containers same =
        ap
          (λ (cs : List (Container k)). continue (first_resources cs w) (λ actual.
            if changed old actual
            then update_stateful_set clients.stateful_sets namespace wanted
            else pure tt))
          containers
        ∙ rw same refl

    pub ensure_stateful_set-same :
        (namespace name : String) (wanted old : StatefulSet k)
        (changed : StatefulSet k → ResourceRequirements k → Bool) (c : Container k)
        (cs : List (Container k)) (w : W)
        → clients.stateful_sets.get namespace name w ≡ (ok old, w)
        → old.template.spec.containers ≡ c ∷ cs
        → changed old c.resources ≡ false
        → ensure_stateful_set clients namespace name wanted changed w ≡ (ok tt, w)
    unfolding ensure_stateful_set get_stateful_set get_object
    ensure_stateful_set-same namespace name wanted old changed c cs w stored containers same =
        rw stored (found_or_missing-same namespace wanted old changed c cs w containers same)

    pub ensure_stateful_set-changed :
        (namespace name : String) (wanted old : StatefulSet k)
        (changed : StatefulSet k → ResourceRequirements k → Bool) (c : Container k)
        (cs : List (Container k)) (w : W)
        → clients.stateful_sets.get namespace name w ≡ (ok old, w)
        → old.template.spec.containers ≡ c ∷ cs
        → changed old c.resources ≡ true
        → ensure_stateful_set clients namespace name wanted changed w
          ≡ clients.stateful_sets.update wanted w
    unfolding ensure_stateful_set get_stateful_set get_object found_or_missing update_if
        first_resources update_stateful_set update_object
    ensure_stateful_set-changed namespace name wanted old changed c cs w stored containers differs =
        rw stored (
          ap
            (λ (cs : List (Container k)). continue (first_resources cs w) (λ actual.
              if changed old actual then clients.stateful_sets.update wanted else pure tt))
            containers
          ∙ rw differs refl)

    pub ensure_stateful_set-missing :
        (namespace name : String) (wanted : StatefulSet k)
        (changed : StatefulSet k → ResourceRequirements k → Bool) (e : Error) (w : W)
        → clients.stateful_sets.get namespace name w ≡ (err e, w)
        → is_not_found e ≡ true
        → ensure_stateful_set clients namespace name wanted changed w
          ≡ clients.stateful_sets.create wanted w
    unfolding ensure_stateful_set get_stateful_set get_object found_or_missing create_stateful_set
        create_object
    ensure_stateful_set-missing namespace name wanted changed e w missing gone =
        rw (missing, gone) refl

-- another image of redis in the specification
abbrev pub with_image : {k : K8s} → RedisSentinel k → String → RedisSentinel k
with_image rc image = record rc {
  spec = record rc.spec { common = record rc.spec.common { image = image } };
}

module _ {k : K8s} (laws : K8sLaws k) {W : Type 0} (clients : KubeClients k W)
    (rc : RedisSentinel k) (labels labels' : Dict String)
    (owner_refs owner_refs' : List k.OwnerReference) where
  generated-IsWanted :
      (image : String) (old : StatefulSet k)
      → old.replicas ≡ (generate_redis_stateful_set rc labels owner_refs).replicas
      → old.template.spec.containers
        ≡ (generate_redis_stateful_set rc labels owner_refs).template.spec.containers
      → IsWanted laws (with_image rc image).spec.common old
  unfolding generate_redis_stateful_set redis_stateful_set exporter_containers
  generated-IsWanted image old replicas containers = record {
    redis = redis_container rc.spec.common _ _;
    containers = containers;
    not_exporter = unfold has_exporter redis_container in refl;
    resources = unfold redis_container in refl;
    replicas = replicas;
  }

  -- Once the disruption budget and a stateful set with the generated replicas and containers are there,
  -- EnsureRedisStatefulset succeeds and sends nothing to the server, also where the specification asks
  -- for another image of redis by now: a change of the image alone never reaches the stateful set.
  pub ensure_redis_statefulset-settled :
      (image : String) (budget : PodDisruptionBudget k) (old : StatefulSet k) (w : W)
      → clients.budgets.get rc.metadata.namespace (generate_name "-cluster" rc.metadata.name) w
        ≡ (ok budget, w)
      → clients.stateful_sets.get rc.metadata.namespace (get_redis_name rc) w ≡ (ok old, w)
      → old.replicas ≡ (generate_redis_stateful_set rc labels owner_refs).replicas
      → old.template.spec.containers
        ≡ (generate_redis_stateful_set rc labels owner_refs).template.spec.containers
      → ensure_redis_statefulset clients labels' owner_refs' (with_image rc image) w ≡ (ok tt, w)
  unfolding ensure_redis_statefulset ensure_pod_disruption_budget generate_pod_disruption_budget
      create_if_not_exists_pod_disruption_budget create_if_not_exists_object present_or_missing
      get_object
  ensure_redis_statefulset-settled image budget old w there stored replicas containers =
      let wanted = generated-IsWanted image old replicas containers in
      rw (there, stored)
        (found_or_missing-same laws clients rc.metadata.namespace
          (generate_redis_stateful_set (with_image rc image) labels' owner_refs') old
          (redis_changed clients labels' owner_refs' (with_image rc image)) wanted.redis
          (exporter_containers k rc.spec.common) w wanted.containers
          (unfold redis_changed in changed-same laws (with_image rc image).spec.common old wanted))
