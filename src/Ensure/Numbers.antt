-- ===== src/Ensure/Numbers.antt =====
-- The checks read the stateful sets that the same client ensures: k8s.Services over one client, and
-- CheckRedisNumber after EnsureRedisStatefulset.
use cndb_redis.Base.{
  String, true, false, Option, List, ◌≡◌, refl, Bool-cases, inl, inr, if◌then◌else◌, Result, ok,
  err,
}
use cndb_redis.Base.Int.{ℤ, eqb_ℤ}
use cndb_redis.Base.Dict.{Dict}
use cndb_redis.Api.Types.{K8s, K8sLaws, RedisStandalone, ResourceRequirements}
use cndb_redis.Ops.{Error, failure}
use cndb_redis.Client.{Pod, Notice, Services, RedisClient}
use cndb_redis.Kube.Crud.{ObjectClient, get_object}
use cndb_redis.Kube.Kinds.{get_stateful_set, get_stateful_set_pods}
use cndb_redis.Kube.Objects.{StatefulSet, stateful_set_kind}
use cndb_redis.Kube.Server.{Serves}
use cndb_redis.Generate.Standalone.{generate_standalone_stateful_set}
use cndb_redis.Standalone.Check.{get_standalone_redis_name, check_standalone_number}
use cndb_redis.Sentinel.Check.{same_number}
use cndb_redis.Ensure.{KubeClients}
use cndb_redis.Ensure.Settled.{or_first, should_update_redis-replicas}
use cndb_redis.Ensure.Standalone.{
  standalone_changed, standalone_should_update, ensure_standalone_statefulset,
}
use cndb_redis.Ensure.Converge.{IsInPlace, ensure_standalone_statefulset-IsInPlace}
use cndb_redis.Ensure.Sets.{without_version, Settable, AcceptsUnversioned}

-- what the checks read of a set: the replicas of its specification, and the ready replicas of the
-- status that the server keeps
unfoldable pub read_set :
    {k : K8s} {W : Type 0}
    → (W → ℤ)
    → Result Error (StatefulSet k) × W
    → Result Error cndb_redis.Client.StatefulSet × W
read_set ready (ok ss, w) = (ok (record { replicas = ss.replicas; ready_replicas = ready w }), w)
read_set ready (err e, w) = (err e, w)

-- the services of pkg/client/k8s as the checks use them
unfoldable pub kube_services :
    {k : K8s} {W : Type 0}
    → KubeClients k W
    → ObjectClient Pod W
    → (W → String → String → ℤ)
    → (Notice → W → W)
    → Services W
unfolding read_set get_stateful_set get_stateful_set_pods
kube_services clients pods ready emit = record {
  get_stateful_set = λ namespace name w.
      read_set (λ v. ready v namespace name)
        (get_stateful_set clients.stateful_sets namespace name w);
  get_stateful_set_pods = get_stateful_set_pods clients.stateful_sets pods (λ ss. ss.match_labels);
  emit = emit;
}

-- CheckRedisNumber where only the ready replicas count
abbrev pub readiness :
    {k : K8s} {W : Type 0}
    → (W → String → String → ℤ)
    → RedisStandalone k
    → W
    → Result Error (Unit {0})
readiness ready rc w =
    if eqb_ℤ rc.spec.size (ready w rc.metadata.namespace (get_standalone_redis_name rc))
    then ok tt
    else err (failure "waiting all of redis pods become ready")

-- a set in which there is nothing to update has the replicas of the specification
standalone_changed-replicas :
    {k : K8s} {W : Type 0} (clients : KubeClients k W) (labels : Dict String)
    (owner_refs : List k.OwnerReference) (rc : RedisStandalone k) (ss : StatefulSet k)
    (actual : ResourceRequirements k)
    → standalone_changed clients labels owner_refs rc ss actual ≡ false
    → eqb_ℤ rc.spec.size ss.replicas ≡ true
unfolding standalone_changed standalone_should_update
standalone_changed-replicas clients labels owner_refs rc ss actual h =
    should_update_redis-replicas rc.spec.resources actual rc.spec.size ss.replicas (or_first _ _ h)

module _ {k : K8s} {W : Type 0} (clients : KubeClients k W) (pods : ObjectClient Pod W)
    (ready : W → String → String → ℤ) (emit : Notice → W → W) (redis : RedisClient W)
    (stored : W → String → String → Option (StatefulSet k)) (laws : K8sLaws k)
    (server : Serves (stateful_set_kind k) without_version clients.stateful_sets stored)
    (unversioned : AcceptsUnversioned clients stored server) (rc : RedisStandalone k)
    (labels : Dict String) (owner_refs : List k.OwnerReference) where
  pub check_standalone_number-in_place :
      (w : W)
      → IsInPlace clients stored laws server unversioned rc labels owner_refs w
      → check_standalone_number (kube_services clients pods ready emit) redis rc w
        ≡ (readiness ready rc w, w)
  unfolding check_standalone_number same_number kube_services read_set get_stateful_set get_object
  check_standalone_number-in_place w h =
      let same =
        standalone_changed-replicas clients labels owner_refs rc h.kept h.first.resources h.same in
      rw (server.get-found _ _ h.kept w h.at_name, same)
        (elim (Bool-cases
          (eqb_ℤ rc.spec.size (ready w rc.metadata.namespace (get_standalone_redis_name rc)))) [
            | inl all ↦ rw all refl
            | inr some_wait ↦ rw some_wait refl
          ])

  -- After EnsureRedisStatefulset of a standalone redis, CheckRedisNumber over the same client never
  -- finds another number of pods than the specification has: it succeeds when all of them are ready
  -- and otherwise waits for them. The server answers by the API conventions and carries out the write
  -- of the set as it is sent, and the set, if one is stored, is not without containers.
  pub ensure_standalone_statefulset-check_standalone_number :
      (w : W)
      → Settable clients stored server rc.metadata.namespace
          (get_standalone_redis_name rc)
          (generate_standalone_stateful_set rc labels owner_refs)
          w
      → (w' : W) × (ensure_standalone_statefulset clients labels owner_refs rc w ≡ (ok tt, w'))
        × (check_standalone_number (kube_services clients pods ready emit) redis rc w'
            ≡ (readiness ready rc w', w'))
  ensure_standalone_statefulset-check_standalone_number w populated =
      let (w', ensured, in_place) =
        ensure_standalone_statefulset-IsInPlace clients stored laws server unversioned rc labels
          owner_refs w populated in
      (w', ensured, check_standalone_number-in_place w' in_place)
