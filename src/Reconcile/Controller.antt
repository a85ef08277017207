-- ===== src/Reconcile/Controller.antt =====
-- controllers/redissentinel_controller.go and redisstandalone_controller.go: Reconcile, which turns
-- what Do returns into a queue entry, the filter of the events, and the labels that Do hands on.
use cndb_redis.Base.{
  ℕ, String, ◌<>◌, Bool, true, false, not, [], ◌∷◌, if◌then◌else◌, str_eq, ◌==◌, Result, ok, err,
}
use cndb_redis.Base.Dict.{Dict, erase}
use cndb_redis.Util.Labels.{merge_labels, should_manage}
use cndb_redis.Api.Types.{ObjectMeta, K8s}
use cndb_redis.Cache.{get_namespaced_name, write}
use cndb_redis.Ops.{Op, Error, error_text, is_not_found}
use cndb_redis.Sentinel.Check.{need_requeue, need_requeue_immediately}
use cndb_redis.Reconcile.{World}

-- ctrl.Result; the delay is in seconds, and 0 asks for nothing
pub record ReconcileResult : Type 0 where
  pub requeue : Bool
  pub requeue_after : ℕ

abbrev pub done : ReconcileResult
done = record { requeue = false; requeue_after = 0 }

abbrev pub requeue_now : ReconcileResult
requeue_now = record { requeue = true; requeue_after = 0 }

abbrev pub after_seconds : ℕ → ReconcileResult
after_seconds n = record { requeue = false; requeue_after = n }

-- the switch on err.Error(), with the delay of NeedRequeueMsg
unfoldable pub answer_to : ℕ → Error → Result Error ReconcileResult
answer_to delay e =
    if str_eq (error_text e) (error_text need_requeue_immediately)
    then ok requeue_now
    else if str_eq (error_text e) (error_text need_requeue)
    then ok (after_seconds delay)
    else err e

-- `fetch` is client.Get of the kind of the resource. What it fetches is a new object, at `p`.
module _ {O W : Type 0} (fetch : String → String → Op W O) (p : ℕ)
    (do_it : Op (World O W) (Unit {0})) where
  unfoldable pub after_get :
      String
      → String
      → (Result Error (Unit {0}) × World O W → Result Error ReconcileResult × World O W)
      → World O W
      → Result Error O × W
      → Result Error ReconcileResult × World O W
  unfolding get_namespaced_name erase write
  after_get namespace name answered s (ok o, w) =
      answered (do_it (record s { store = write s.store p o; outside = w }))
  after_get namespace name answered s (err e, w) =
      if is_not_found e
      then (
        ok done,
        record s { entries = erase (get_namespaced_name namespace name) s.entries; outside = w },
      )
      else (err e, record s { outside = w })

  -- RedisStandaloneReconciler.Reconcile
  unfoldable pub standalone_answer :
      ℕ → Result Error (Unit {0}) × World O W → Result Error ReconcileResult × World O W
  unfolding answer_to
  standalone_answer reconcile_time (ok tt, s) = (ok (after_seconds reconcile_time), s)
  standalone_answer reconcile_time (err e, s) = (answer_to reconcile_time e, s)

  unfoldable pub reconcile_standalone : ℕ → String → String → Op (World O W) ReconcileResult
  unfolding after_get standalone_answer
  reconcile_standalone reconcile_time namespace name s =
      after_get namespace name (standalone_answer reconcile_time) s (fetch namespace name s.outside)

  -- CheckSentinelReadyReplicas, whose error only shortens the delay
  unfoldable pub readiness_answer :
      ℕ → World O W → Result Error (Unit {0}) × W → Result Error ReconcileResult × World O W
  readiness_answer reconcile_time s (ok tt, w) =
      (ok (after_seconds reconcile_time), record s { outside = w })
  readiness_answer reconcile_time s (err e, w) = (ok (after_seconds 20), record s { outside = w })

  unfoldable pub sentinel_answer :
      (O → Op W (Unit {0}))
      → ℕ
      → Result Error (Unit {0}) × World O W
      → Result Error ReconcileResult × World O W
  unfolding readiness_answer answer_to
  sentinel_answer check_ready reconcile_time (ok tt, s) =
      readiness_answer reconcile_time s (check_ready (s.store p) s.outside)
  sentinel_answer check_ready reconcile_time (err e, s) = (answer_to 20 e, s)

  -- RedisSentinelReconciler.Reconcile
  unfoldable pub reconcile_sentinel :
      (O → Op W (Unit {0})) → ℕ → String → String → Op (World O W) ReconcileResult
  unfolding after_get sentinel_answer
  reconcile_sentinel check_ready reconcile_time namespace name s =
      after_get namespace name (sentinel_answer check_ready reconcile_time) s
        (fetch namespace name s.outside)

abbrev pub default_labels : Dict String
default_labels = ("app.kubernetes.io/managed-by", "redis-operator") ∷ []

module _ {k : K8s} where
  -- CreateFunc; the logs and the metrics of the predicates are left out
  unfoldable pub accepts_create : ObjectMeta k → Bool
  unfolding should_manage
  accepts_create o = should_manage o.annotations

  unfoldable pub accepts_delete : ObjectMeta k → Bool → Bool
  unfolding should_manage
  accepts_delete o delete_state_unknown =
      if should_manage o.annotations then not delete_state_unknown else false

  unfoldable pub accepts_update : ObjectMeta k → ObjectMeta k → Bool
  unfolding should_manage
  accepts_update old new =
      if should_manage new.annotations then not (old.generation == new.generation) else false

  -- the same predicates of the controller of standalone redis, which counts no metric
  unfoldable pub standalone_accepts_create : ObjectMeta k → Bool
  unfolding accepts_create
  standalone_accepts_create o = accepts_create o

  unfoldable pub standalone_accepts_delete : ObjectMeta k → Bool → Bool
  unfolding accepts_delete
  standalone_accepts_delete o delete_state_unknown = accepts_delete o delete_state_unknown

  unfoldable pub standalone_accepts_update : ObjectMeta k → ObjectMeta k → Bool
  unfolding accepts_update
  standalone_accepts_update old new = accepts_update old new

  -- getLabels
  unfoldable pub get_labels : ObjectMeta k → Dict String
  unfolding merge_labels
  get_labels o = merge_labels (
      default_labels
      ∷ (("lovelycat.io/v1alpha1", o.namespace <> ("_" <> o.name)) ∷ [])
      ∷ o.labels
      ∷ [])
