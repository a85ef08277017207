-- ===== src/Sentinel/Handler.antt =====
-- controllers/redissentinel_handler.go: CheckAndHeal and the loops that it uses.
pub mod Waiting
pub mod Run
pub mod Exits
use cndb_redis.Base.{
  ℕ, zero, suc, ◌+◌, String, Bool, true, false, Option, none, some, List, [], ◌∷◌, if◌then◌else◌,
  ltb, leb, Result, ok, err,
}
use cndb_redis.Base.Int.{ℤ, pos, ltb_ℤ, sub_ℕ}
use cndb_redis.Util.Names.{get_redis_name}
use cndb_redis.Api.Types.{K8s, RedisSentinel}
use cndb_redis.Cache.{StateType, create, update, check}
use cndb_redis.Ops.{
  Op, Error, failure, error_text, pure, fail, continue, ◌>>=◌, ◌>>◌, rescue, on_error, for_each,
}
use cndb_redis.Client.{Pod, Services, RedisClient, Timer, update_sentinel_status, failed_cluster}
use cndb_redis.Sentinel.Check.{
  need_requeue, check_redis_config, check_redis_number, check_sentinel_number,
  ensure_sentinel_ready, get_redises_ips, get_sentinels_ips, check_all_slaves_from_master,
  check_sentinel_number_in_memory, check_sentinel_slaves_number_in_memory, check_sentinel_monitor,
  get_master_ip, get_number_masters,
}
use cndb_redis.Sentinel.Heal.{
  set_oldest_as_master, set_master_on_all, new_sentinel_monitor, restore_sentinel,
  set_sentinel_custom_config, set_redis_custom_config,
}

-- in seconds: timeOut and checkInterval
abbrev pub time_out : ℕ
time_out = 30

abbrev pub check_interval : ℕ
check_interval = 5

-- 100000 hours, in seconds
abbrev pub longest : ℤ
longest = pos 360000000

-- if alive < minTime { minTime = alive }
unfoldable pub min_alive : ℕ → Option ℕ → ℤ → ℤ
min_alive now none min_time = min_time
min_alive now (some start) min_time =
    if ltb_ℤ (sub_ℕ now start) min_time then sub_ℕ now start else min_time

module _ {W : Type 0} (timer : Timer W) (body : Op W (Unit {0})) where
  -- one turn of the loop: success ends it, and an error waits for the next turn
  unfoldable pub next_turn :
      (W → Option (Result Error (Unit {0}) × W))
      → Result Error (Unit {0}) × W
      → Option (Result Error (Unit {0}) × W)
  next_turn again (ok u, w) = some (ok u, w)
  next_turn again (err e, w) = again (timer.sleep check_interval w)

  -- the loop of waitRestoreSentinelSlavesOK on fuel; `none` where the fuel ran out
  unfoldable pub wait_loop : ℕ → ℕ → W → Option (Result Error (Unit {0}) × W)
  unfolding next_turn
  wait_loop zero deadline w = none
  wait_loop (suc fuel) deadline w =
      let turn = next_turn (wait_loop fuel deadline) (body w) in
      if leb deadline (timer.now w)
      then some (err (failure "wait for resetore sentinel slave timeout"), w)
      else turn

unfoldable pub settled :
    {W : Type 0} → Option (Result Error (Unit {0}) × W) → W → Result Error (Unit {0}) × W
settled none w = (err (failure "wait for resetore sentinel slave timeout"), w)
settled (some r) w = r

-- the error of CheckSentinelNumber ends CheckAndHeal with nil
unfoldable pub unless_sentinels_differ :
    {W : Type 0}
    → Services W
    → Result Error (Unit {0}) × W
    → Op W (Unit {0})
    → Result Error (Unit {0}) × W
unless_sentinels_differ api (ok u, w) rest = rest w
unless_sentinels_differ api (err e, w) rest = (ok tt, api.emit (failed_cluster (error_text e)) w)

module _ {k : K8s} {W : Type 0} (api : Services W) (redis : RedisClient W) (timer : Timer W)
    (rc : RedisSentinel k) (auth : String) where
  unfoldable pub min_start_times : ℕ → List Pod → ℤ → ℤ
  unfolding min_alive
  min_start_times now [] min_time = min_time
  min_start_times now (p ∷ ps) min_time =
      min_start_times now ps (min_alive now p.start_time min_time)

  -- GetMinimumRedisPodTime, whose result is only logged
  unfoldable pub get_minimum_redis_pod_time : Op W ℤ
  unfolding min_start_times get_redis_name
  get_minimum_redis_pod_time = do
    pods ← api.get_stateful_set_pods rc.metadata.namespace (get_redis_name rc)
    λ w. (ok (min_start_times (timer.now w) pods longest), w)

  unfoldable pub notify : String → Op W (Unit {0})
  notify message w = (ok tt, api.emit (update_sentinel_status message) w)

  unfoldable pub set_redis_config : Op W (Unit {0})
  unfolding notify get_redises_ips check_redis_config set_redis_custom_config for_each
  set_redis_config = do
    redises ← get_redises_ips api redis rc
    for_each redises (λ rip. on_error (check_redis_config api redis rc rip auth) (λ e.
        notify "set custom config for redis server"
        >> set_redis_custom_config api redis rc rip auth))

  -- meta.State is Check when nothing has changed
  unfoldable pub set_sentinel_config : StateType → List String → Op W (Unit {0})
  unfolding set_sentinel_custom_config for_each
  set_sentinel_config check sentinels = pure tt
  set_sentinel_config create sentinels =
      for_each sentinels (λ sip. set_sentinel_custom_config api redis rc sip auth)
  set_sentinel_config update sentinels =
      for_each sentinels (λ sip. set_sentinel_custom_config api redis rc sip auth)

  -- seven turns are enough, at five seconds each
  unfoldable pub wait_restore_sentinel_slaves_ok : String → Op W (Unit {0})
  unfolding settled wait_loop check_sentinel_slaves_number_in_memory
  wait_restore_sentinel_slaves_ok sentinel w =
      settled
        (wait_loop timer (check_sentinel_slaves_number_in_memory api redis rc sentinel auth) 7
          (timer.now w + time_out) w)
        w

  -- the case of no master
  unfoldable pub heal_without_master : List String → Op W (Unit {0})
  unfolding get_minimum_redis_pod_time set_oldest_as_master
  heal_without_master (ip ∷ []) = redis.make_master ip auth
  heal_without_master other = do
    _ ← get_minimum_redis_pod_time
    set_oldest_as_master api redis rc auth

  -- switch nMasters
  unfoldable pub settle_masters : ℕ → Op W (Unit {0})
  unfolding notify heal_without_master get_redises_ips
  settle_masters zero = do
    notify "set master"
    ips ← get_redises_ips api redis rc
    heal_without_master ips
  settle_masters (suc zero) = pure tt
  settle_masters (suc (suc n)) = fail (failure "more than one master, fix manually")

  unfoldable pub point_at_master : String → String → Op W (Unit {0})
  unfolding check_sentinel_monitor new_sentinel_monitor
  point_at_master master sip =
      on_error (check_sentinel_monitor api redis rc sip master auth)
        (λ e. new_sentinel_monitor api redis rc sip master auth)

  unfoldable pub restore_slaves : String → Op W (Unit {0})
  unfolding check_sentinel_slaves_number_in_memory restore_sentinel wait_restore_sentinel_slaves_ok
  restore_slaves sip =
      on_error (check_sentinel_slaves_number_in_memory api redis rc sip auth)
        (λ e. restore_sentinel api redis rc sip auth >> wait_restore_sentinel_slaves_ok sip)

  unfoldable pub restore_sentinels : String → Op W (Unit {0})
  unfolding check_sentinel_number_in_memory restore_sentinel
  restore_sentinels sip =
      on_error (check_sentinel_number_in_memory api redis rc sip auth)
        (λ e. restore_sentinel api redis rc sip auth)

  -- CheckAndHeal after the numbers of pods have been compared
  unfoldable pub heal_masters : StateType → Op W (Unit {0})
  unfolding get_number_masters settle_masters get_master_ip check_all_slaves_from_master
      set_master_on_all set_redis_config get_sentinels_ips for_each point_at_master restore_slaves
      restore_sentinels set_sentinel_config ensure_sentinel_ready
  heal_masters state = do
    n ← get_number_masters api redis rc auth
    settle_masters n
    master ← get_master_ip api redis rc auth
    on_error (check_all_slaves_from_master api redis rc master auth)
        (λ e. set_master_on_all api redis rc master auth)
    set_redis_config
    sentinels ← get_sentinels_ips api redis rc
    for_each sentinels (point_at_master master)
    for_each sentinels restore_slaves
    for_each sentinels restore_sentinels
    set_sentinel_config state sentinels
    ensure_sentinel_ready api redis rc

  -- too few redis pods: the error is replaced by ErrNeedRequeue
  unfoldable pub wait_for_redis : Op W (Unit {0})
  unfolding check_redis_number notify
  wait_for_redis =
      on_error (check_redis_number api redis rc)
        (λ e. notify "wait for all redis server start" >> fail need_requeue)

  unfoldable pub check_and_heal : StateType → Op W (Unit {0})
  unfolding wait_for_redis unless_sentinels_differ check_sentinel_number heal_masters
  check_and_heal state = wait_for_redis >> (λ w.
      unless_sentinels_differ api (check_sentinel_number api redis rc w) (heal_masters state))
