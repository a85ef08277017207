-- ===== src/Ensure/Healing.antt =====
-- CheckAndHeal of a cluster right after its Ensure; Do of controllers/redissentinel_handler.go emits
-- one event between them.
use cndb_redis.Base.{
  String, List, ◌≡◌, refl, ◌∙◌, ap, Bool-cases, inl, inr, if◌then◌else◌, ok, err, Result,
}
use cndb_redis.Base.Int.{ℤ, eqb_ℤ}
use cndb_redis.Base.Dict.{Dict}
use cndb_redis.Api.Types.{K8s, K8sLaws, RedisSentinel}
use cndb_redis.Cache.{StateType}
use cndb_redis.Util.Names.{get_redis_name}
use cndb_redis.Ops.{Error, ◌>>◌, continue}
use cndb_redis.Client.{Pod, Notice, RedisClient, Timer, Services, update_sentinel_status}
use cndb_redis.Kube.Crud.{ObjectClient}
use cndb_redis.Sentinel.Check.{need_requeue, check_redis_number, check_sentinel_number}
use cndb_redis.Sentinel.Handler.{
  notify, unless_sentinels_differ, wait_for_redis, heal_masters, check_and_heal,
}
use cndb_redis.Ensure.{KubeClients, sentinel_ensures}
use cndb_redis.Ensure.Stores.{Stores, Answers}
use cndb_redis.Ensure.Calls.{IsReady}
use cndb_redis.Ensure.Whole.{OwnedBy, IsAccepted}
use cndb_redis.Ensure.Numbers.{kube_services}
use cndb_redis.Ensure.ClusterNumbers.{cluster_readiness, ensure_sentinel_settled}
use cndb_redis.Reconcile.Handlers.{ensure_sentinel}

module _ {k : K8s} {W : Type 0} (api : Services W) (redis : RedisClient W) (timer : Timer W)
    (rc : RedisSentinel k) (auth : String) (state : StateType)
    (ready : W → String → String → ℤ) where
  -- the masters where all redis pods are ready, and otherwise an event and a requeue
  abbrev pub heal_or_wait : W → Result Error (Unit {0}) × W
  heal_or_wait w =
      if eqb_ℤ rc.spec.common.size (ready w rc.metadata.namespace (get_redis_name rc))
      then heal_masters api redis timer rc auth state w
      else (err need_requeue, api.emit (update_sentinel_status "wait for all redis server start") w)

  -- where the numbers of pods are those of the specification
  check_and_heal-counted :
      (w : W)
      → check_redis_number api redis rc w ≡ (cluster_readiness ready rc w, w)
      → check_sentinel_number api redis rc w ≡ (ok tt, w)
      → check_and_heal api redis timer rc auth state w ≡ heal_or_wait w
  unfolding check_and_heal wait_for_redis unless_sentinels_differ notify
  check_and_heal-counted w redises sentinels =
      elim (Bool-cases
        (eqb_ℤ rc.spec.common.size (ready w rc.metadata.namespace (get_redis_name rc)))) [
          | inl all ↦ rw (redises, all, sentinels) refl
          | inr some_wait ↦ rw (redises, some_wait) refl
        ]

module _ {k : K8s} {W : Type 0} (clients : KubeClients k W) (pods : ObjectClient Pod W)
    (ready : W → String → String → ℤ) (emit : Notice → W → W) (redis : RedisClient W)
    (timer : Timer W) (stores : Stores k W) (laws : K8sLaws k) (answers : Answers stores clients)
    (rc : RedisSentinel k) (labels : Dict String) (owner_refs : List k.OwnerReference) where
  -- CheckAndHeal right after Ensure of a cluster goes on to the masters exactly if all redis pods
  -- are ready, and otherwise reports that it waits for them and asks for a requeue. It never
  -- reports success without a look at redis: the branch in which CheckSentinelNumber fails is not
  -- taken. This is so for every state of the server in which the stateful sets that are stored are
  -- not without containers, and the config map that the user names for the shutdown script, if any,
  -- is there, provided that the server answers by the API conventions and carries out, as they are
  -- sent, the writes that it is asked for: that it refuses none, for a name that is too long or a
  -- field that must not change, and fills in no fields.
  pub ensure_sentinel-check_and_heal :
      (auth : String) (state : StateType) (w : W)
      → IsAccepted clients stores answers rc labels owner_refs
      → IsReady clients stores answers rc.metadata.namespace rc.spec.common.shutdown_config_map
          (OwnedBy rc labels owner_refs)
          w
      → let services = kube_services clients pods ready emit in
        let ensure =
          ensure_sentinel k services redis timer (sentinel_ensures clients labels owner_refs) rc in
        (w' : W) × (ensure w ≡ (ok tt, w'))
        × ((ensure >> check_and_heal services redis timer rc auth state) w
            ≡ heal_or_wait services redis timer rc auth state ready w')
  ensure_sentinel-check_and_heal auth state w accepted h =
      let services = kube_services clients pods ready emit in
      let heal = check_and_heal services redis timer rc auth state in
      let (w', ensured, grows, again, redises, sentinels) =
        ensure_sentinel_settled clients pods ready emit redis timer stores laws answers rc labels
          owner_refs w accepted h in
      (
        w',
        ensured,
        ap (λ (q : Result Error (Unit {0}) × W). continue q (λ _. heal)) ensured
            ∙ check_and_heal-counted services redis timer rc auth state ready w' redises sentinels,
      )
