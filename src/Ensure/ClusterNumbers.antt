-- ===== src/Ensure/ClusterNumbers.antt =====
-- CheckRedisNumber and CheckSentinelNumber after Ensure of a cluster, over the same client.
use cndb_redis.Base.{
  String, true, false, List, ◌≡◌, refl, Bool-cases, inl, inr, if◌then◌else◌, Result, ok, err,
}
use cndb_redis.Base.Int.{ℤ, eqb_ℤ}
use cndb_redis.Base.Dict.{Dict}
use cndb_redis.Api.Types.{K8s, K8sLaws, RedisSentinel, ResourceRequirements}
use cndb_redis.Util.Names.{get_redis_name}
use cndb_redis.Ops.{Error, failure}
use cndb_redis.Client.{Pod, Notice, RedisClient, Timer}
use cndb_redis.Kube.Crud.{ObjectClient, get_object}
use cndb_redis.Kube.Kinds.{get_stateful_set}
use cndb_redis.Kube.Objects.{StatefulSet}
use cndb_redis.Sentinel.Check.{same_number, check_redis_number, check_sentinel_number}
use cndb_redis.Ensure.{KubeClients, redis_changed, sentinel_changed, sentinel_ensures}
use cndb_redis.Ensure.Settled.{or_first, should_update_redis-replicas}
use cndb_redis.Ensure.Stores.{Stores, Answers, Grows}
use cndb_redis.Ensure.Clusters.{RedisInPlace, SentinelInPlace}
use cndb_redis.Ensure.Calls.{IsReady}
use cndb_redis.Ensure.Whole.{OwnedBy, IsAccepted, ensure_sentinel-Settles}
use cndb_redis.Reconcile.Handlers.{ensure_sentinel}
use cndb_redis.Ensure.Numbers.{read_set, kube_services}

-- CheckRedisNumber of a cluster where only the ready replicas count
abbrev pub cluster_readiness :
    {k : K8s} {W : Type 0}
    → (W → String → String → ℤ)
    → RedisSentinel k
    → W
    → Result Error (Unit {0})
cluster_readiness ready rc w =
    if eqb_ℤ rc.spec.common.size (ready w rc.metadata.namespace (get_redis_name rc))
    then ok tt
    else err (failure "waiting all of redis pods become ready")

module _ {k : K8s} {W : Type 0} (clients : KubeClients k W) (pods : ObjectClient Pod W)
    (ready : W → String → String → ℤ) (emit : Notice → W → W) (redis : RedisClient W)
    (timer : Timer W) (stores : Stores k W) (laws : K8sLaws k) (answers : Answers stores clients)
    (rc : RedisSentinel k) (labels : Dict String) (owner_refs : List k.OwnerReference) where
  redis_changed-replicas :
      (ss : StatefulSet k) (actual : ResourceRequirements k)
      → redis_changed clients labels owner_refs rc ss actual ≡ false
      → eqb_ℤ rc.spec.common.size ss.replicas ≡ true
  unfolding redis_changed
  redis_changed-replicas ss actual h =
      should_update_redis-replicas rc.spec.common.resources actual rc.spec.common.size ss.replicas
        (or_first _ _ h)

  sentinel_changed-replicas :
      (ss : StatefulSet k) (actual : ResourceRequirements k)
      → sentinel_changed clients labels owner_refs rc ss actual ≡ false
      → eqb_ℤ rc.spec.sentinel.replicas ss.replicas ≡ true
  unfolding sentinel_changed
  sentinel_changed-replicas ss actual h =
      should_update_redis-replicas rc.spec.sentinel.resources actual rc.spec.sentinel.replicas
        ss.replicas h

  check_redis_number-in_place :
      (w : W)
      → RedisInPlace clients stores rc labels owner_refs w
      → check_redis_number (kube_services clients pods ready emit) redis rc w
        ≡ (cluster_readiness ready rc w, w)
  unfolding check_redis_number same_number kube_services read_set get_stateful_set get_object
  check_redis_number-in_place w h =
      let same = redis_changed-replicas h.kept h.first.resources h.same in
      rw (answers.sets.get-found _ _ h.kept w h.at_name, same)
        (elim (Bool-cases
          (eqb_ℤ rc.spec.common.size (ready w rc.metadata.namespace (get_redis_name rc)))) [
            | inl all ↦ rw all refl
            | inr some_wait ↦ rw some_wait refl
          ])

  check_sentinel_number-in_place :
      (w : W)
      → SentinelInPlace clients stores rc labels owner_refs w
      → check_sentinel_number (kube_services clients pods ready emit) redis rc w ≡ (ok tt, w)
  unfolding check_sentinel_number same_number kube_services read_set get_stateful_set get_object
  check_sentinel_number-in_place w h =
      let same = sentinel_changed-replicas h.kept h.first.resources h.same in
      rw (answers.sets.get-found _ _ h.kept w h.at_name, same) refl

  -- Ensure of a cluster succeeds, and it removes or changes no service, config map or disruption
  -- budget that is there. Run again it leaves the server as it is, so one run settles all of its
  -- nine calls, and the checks over the same client never find another number of pods than the
  -- specification has: CheckRedisNumber succeeds when all redis pods are ready and otherwise waits
  -- for them, and CheckSentinelNumber succeeds. This is so for every state of the server in which
  -- the stateful sets that are stored are not without containers, and the config map that the user
  -- names for the shutdown script, if any, is there, provided that the server answers by the API
  -- conventions and carries out, as they are sent, the writes that it is asked for: that it refuses
  -- none, for a name that is too long or a field that must not change, and fills in no fields.
  pub ensure_sentinel_settled :
      (w : W)
      → IsAccepted clients stores answers rc labels owner_refs
      → IsReady clients stores answers rc.metadata.namespace rc.spec.common.shutdown_config_map
          (OwnedBy rc labels owner_refs)
          w
      → let services = kube_services clients pods ready emit in
        let ensure =
          ensure_sentinel k services redis timer (sentinel_ensures clients labels owner_refs) rc in
        (w' : W) × (ensure w ≡ (ok tt, w'))
        × Grows stores w w'
        × (ensure w' ≡ (ok tt, w'))
        × (check_redis_number services redis rc w' ≡ (cluster_readiness ready rc w', w'))
        × (check_sentinel_number services redis rc w' ≡ (ok tt, w'))
  ensure_sentinel_settled w accepted h =
      let settles =
        ensure_sentinel-Settles (kube_services clients pods ready emit) redis timer clients stores
          laws answers rc labels owner_refs accepted in
      let (w', ran, grows, done) = settles.run w h in
      let (redises, sentinels) = done.1.1.1.1.1.1.1 in
      (
        w',
        ran,
        grows,
        settles.again w' done,
        check_redis_number-in_place w' redises.1,
        check_sentinel_number-in_place w' sentinels.1,
      )
