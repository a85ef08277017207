-- ===== src/Reconcile.antt =====
-- controllers/redissentinel_handler.go and redisstandalone_handler.go: Do and updateStatus.
-- The two handlers differ in the resource only, so Do is written once, over what they share.
pub mod Handlers
pub mod Healthy
pub mod Controller
pub mod Requeue
pub mod Unlocked
pub mod Regular
pub mod Clusters
pub mod Keyed
use cndb_redis.Base.{
  ℕ, String, Bool, true, false, Option, none, some, List, [], ◌∷◌, if◌then◌else◌, str_eq, Result,
  ok, err,
}
use cndb_redis.Base.Dict.{Dict}
use cndb_redis.Api.Status.{
  Condition, Status, Clock, condition_creating, condition_scaling, condition_scaling_down,
  condition_upgrading, condition_healthy, set_create_condition, set_scaling_up_condition,
  set_scaling_down_condition, set_upgrading_condition, set_updating_condition, set_failed_condition,
  set_ready_condition, desc_conditions_by_time,
}
use cndb_redis.Api.Types.{K8s, RedisSentinel, RedisStandalone}
use cndb_redis.Api.Views.{View, sentinel_view, standalone_view}
use cndb_redis.Api.ValidateSentinel.{validate_sentinel}
use cndb_redis.Api.ValidateStandalone.{validate_standalone}
use cndb_redis.Cache.{StateType, check, Meta, write, cache}
use cndb_redis.Ops.{Op, Error, failure, error_text, pure, fail, ◌>>=◌, ◌>>◌, on_error}
use cndb_redis.Client.{
  Notice, ensure_cluster, check_cluster, create_cluster, health_cluster, new_slave_add,
  slave_remove, update_sentinel_status, failed_cluster, set_cluster_error, set_cluster_ok, Services,
  RedisClient, Timer,
}
use cndb_redis.Sentinel.Check.{need_requeue, need_requeue_immediately}
use cndb_redis.Sentinel.Handler.{check_and_heal}
use cndb_redis.Standalone.Check.{check_and_heal_standalone}

-- the objects in memory, the cache, and the world outside
pub record World (O W : Type 0) : Type 0 where
  pub store : ℕ → O
  pub entries : Dict Meta
  pub outside : W

-- client.Update and client.Status().Update: on success the object becomes the server's answer
pub record Writer (O W : Type 0) : Type 0 where
  pub put_spec : O → Op W O
  pub put_status : O → Op W O
  pub clock : W → Clock

-- what the two handlers do on their own
pub record Steps (O W : Type 0) : Type 0 where
  pub validate : O → O × Result String Bool
  pub ensure : O → Op W (Unit {0})
  pub heal : O → StateType → String → Op W (Unit {0})

-- the switch of updateStatus on meta.Status
unfoldable pub announced : String → String → Status → Clock → Status
announced status message s c =
    if str_eq status condition_creating
    then set_create_condition s message c c
    else if str_eq status condition_scaling
    then set_scaling_up_condition s message c c
    else if str_eq status condition_scaling_down
    then set_scaling_down_condition s message c c
    else if str_eq status condition_upgrading
    then set_upgrading_condition s message c c
    else set_updating_condition s message c c

unfoldable pub notice_of : String → String → Notice
notice_of status message =
    if str_eq status condition_creating
    then create_cluster
    else if str_eq status condition_scaling
    then new_slave_add message
    else if str_eq status condition_scaling_down
    then slave_remove message
    else update_sentinel_status message

-- len(status) > 0 && status[0].Type == ClusterConditionHealthy
unfoldable pub first_is_healthy : List Condition → Bool
first_is_healthy [] = false
first_is_healthy (c ∷ cs) = str_eq c.type condition_healthy

module _ {k : K8s} {O W : Type 0} (v : View k O) (api : Services W) (writer : Writer O W)
    (steps : Steps O W) where
  unfoldable pub emit : Notice → Op (World O W) (Unit {0})
  emit notice s = (ok tt, record s { outside = api.emit notice s.outside })

  -- the gauge of the resource at the pointer
  unfoldable pub emit_gauge : (String → String → Notice) → ℕ → Op (World O W) (Unit {0})
  unfolding emit
  emit_gauge notice p s =
      emit (notice (v.metadata (s.store p)).namespace (v.metadata (s.store p)).name) s

  unfoldable pub returned :
      {A : Type 0} → World O W → Result Error A × W → Result Error A × World O W
  returned s (r, w) = (r, record s { outside = w })

  unfoldable pub answered : ℕ → World O W → Result Error O × W → Result Error (Unit {0}) × World O W
  answered p s (ok o, w) = (ok tt, record s { store = write s.store p o; outside = w })
  answered p s (err e, w) = (err e, record s { outside = w })

  unfoldable pub set_status : ℕ → (Status → Clock → Status) → Op (World O W) (Unit {0})
  set_status p f s =
      let status = f (v.status (s.store p)) (writer.clock s.outside) in
      (ok tt, record s { store = write s.store p (v.with_status (s.store p) status) })

  -- UpdateSentinelSpec and UpdateStandaloneSpec
  unfoldable pub update_spec : ℕ → Op (World O W) (Unit {0})
  unfolding answered
  update_spec p s = answered p s (writer.put_spec (s.store p) s.outside)

  -- UpdateSentinelStatus and UpdateStandaloneStatus: the conditions are sorted in place first
  unfoldable pub send_status : ℕ → Op (World O W) (Unit {0})
  unfolding set_status answered
  send_status p =
      set_status p (λ status c. desc_conditions_by_time status)
      >> (λ s. answered p s (writer.put_status (s.store p) s.outside))

  -- updateStatus
  unfoldable pub announce : StateType → Meta → Op (World O W) (Unit {0})
  unfolding emit notice_of set_status announced send_status
  announce check meta = pure tt
  announce state meta = do
    emit (notice_of meta.status meta.message)
    set_status meta.obj (announced meta.status meta.message)
    send_status meta.obj

  -- FailedCluster, SetFailedCondition and the update of the status
  unfoldable pub report_failure : ℕ → Error → Op (World O W) (Unit {0})
  unfolding emit set_status send_status
  report_failure p e = do
    emit (failed_cluster (error_text e))
    set_status p (λ status c. set_failed_condition status (error_text e) c c)
    send_status p

  unfoldable pub ensure_objects : ℕ → Meta → Op (World O W) (Unit {0})
  unfolding emit emit_gauge returned report_failure
  ensure_objects p meta =
      emit ensure_cluster
      >> on_error (λ s. returned s (steps.ensure (s.store meta.obj) s.outside))
          (λ e. report_failure p e >> emit_gauge set_cluster_error p >> fail e)

  -- pods that the user has removed
  unfoldable pub restart : ℕ → Op (World O W) (Unit {0})
  unfolding first_is_healthy emit set_status send_status
  restart p s =
      (if first_is_healthy (v.status (s.store p)).conditions
          then (do
            emit create_cluster
            set_status p (λ status c.
                set_create_condition status
                  "redis server or sentinel server be removed by user, restart" c c)
            send_status p)
          else pure tt)
        s

  unfoldable pub heal_failed : ℕ → Error → Op (World O W) (Unit {0})
  unfolding emit_gauge report_failure restart
  heal_failed p e =
      emit_gauge set_cluster_error p
      >> (if str_eq (error_text e) (error_text need_requeue) then restart p else report_failure p e)
      >> fail e

  unfoldable pub heal_objects : ℕ → Meta → Op (World O W) (Unit {0})
  unfolding emit returned heal_failed
  heal_objects p meta =
      emit check_cluster
      >> on_error
          (λ s. returned s (steps.heal (s.store meta.obj) meta.state meta.password s.outside))
          (heal_failed p)

  unfoldable pub mark_ready : ℕ → Op (World O W) (Unit {0})
  unfolding emit emit_gauge set_status send_status
  mark_ready p = do
    emit health_cluster
    set_status p (λ status c. set_ready_condition status "Cluster ok" c c)
    send_status p
    emit_gauge set_cluster_ok p

  -- MetaMap.Cache; a missing entry would panic
  unfoldable pub cached :
      World O W → (ℕ → O) × Dict Meta × Option Meta → Result Error Meta × World O W
  cached s (store, entries, some meta) = (ok meta, record s { store = store; entries = entries })
  cached s (store, entries, none) =
      (err (failure "interface conversion"), record s { store = store; entries = entries })

  unfoldable pub after_validate : ℕ → Op (World O W) (Unit {0})
  unfolding cached announce ensure_objects heal_objects mark_ready
  after_validate p = do
    meta ← λ s. cached s (cache v s.store s.entries p)
    announce meta.state meta
    ensure_objects p meta
    heal_objects p meta
    mark_ready p

  unfoldable pub validated : ℕ → Result String Bool → Op (World O W) (Unit {0})
  unfolding emit_gauge update_spec after_validate
  validated p (err text) = emit_gauge set_cluster_error p >> fail (failure text)
  validated p (ok true) = update_spec p >> fail need_requeue_immediately
  validated p (ok false) = after_validate p

  unfoldable pub do_resource : ℕ → Op (World O W) (Unit {0})
  unfolding validated
  do_resource p s =
      let (o, r) = steps.validate (s.store p) in
      validated p r (record s { store = write s.store p o })
