-- ===== src/Standalone/Check.antt =====
-- controllers/redisstandalone/service/check.go and heal.go, and CheckAndHeal of
-- controllers/redisstandalone_handler.go.
pub mod Settled
use cndb_redis.Base.{ℕ, String, Bool, ◌&&◌, List, [], ◌∷◌, if◌then◌else◌, str_eq, Result, ok, err}
use cndb_redis.Base.Dict.{Dict}
use cndb_redis.Util.Names.{generate_name}
use cndb_redis.Api.Types.{K8s, RedisStandalone}
use cndb_redis.Api.Defaults.{made}
use cndb_redis.Ops.{
  Op, Error, failure, pure, fail, continue, ◌>>=◌, ◌>>◌, rescue, on_error, for_each,
}
use cndb_redis.Client.{Pod, StatefulSet, Services, RedisClient, update_sentinel_status}
use cndb_redis.Sentinel.Check.{need_requeue, config_conflict, fail_if, same_number, running_ips}
use cndb_redis.Sentinel.Heal.{is_empty}

module _ {k : K8s} (rc : RedisStandalone k) where
  unfoldable pub get_standalone_redis_name : String
  unfolding generate_name
  get_standalone_redis_name = generate_name "-standalone" rc.metadata.name

  unfoldable pub get_standalone_shutdown_name : String
  unfolding generate_name
  get_standalone_shutdown_name = generate_name "r-s" rc.metadata.name

  unfoldable pub get_standalone_shutdown_config_map_name : String
  unfolding get_standalone_shutdown_name
  get_standalone_shutdown_config_map_name =
      if str_eq rc.spec.shutdown_config_map ""
      then get_standalone_shutdown_name
      else rc.spec.shutdown_config_map

module _ {k : K8s} {W : Type 0} (api : Services W) (redis : RedisClient W)
    (rc : RedisStandalone k) where
  unfoldable pub get_standalone_ips : Op W (List String)
  unfolding running_ips get_standalone_redis_name
  get_standalone_ips = do
    pods ← api.get_stateful_set_pods rc.metadata.namespace (get_standalone_redis_name rc)
    pure (running_ips pods)

  unfoldable pub check_standalone_config : String → String → Op W (Unit {0})
  unfolding config_conflict fail_if made
  check_standalone_config addr auth = do
    configs ← redis.get_all_redis_config addr auth
    fail_if (config_conflict (made rc.spec.config) configs)

  unfoldable pub check_standalone_number : Op W (Unit {0})
  unfolding same_number get_standalone_redis_name
  check_standalone_number = do
    ss ← api.get_stateful_set rc.metadata.namespace (get_standalone_redis_name rc)
    same_number rc.spec.size ss.replicas (failure "number of redis pods differ from specification")
    same_number rc.spec.size ss.ready_replicas (failure "waiting all of redis pods become ready")

  unfoldable pub set_standalone_custom_config : String → String → Op W (Unit {0})
  unfolding is_empty made
  set_standalone_custom_config ip auth =
      if is_empty (made rc.spec.config) && str_eq auth ""
      then pure tt
      else redis.set_custom_redis_config ip (made rc.spec.config) auth

  unfoldable pub notify_standalone : String → Op W (Unit {0})
  notify_standalone message w = (ok tt, api.emit (update_sentinel_status message) w)

  -- one turn of the loop of setRedisConfig
  unfoldable pub settle_config : String → String → Op W (Unit {0})
  unfolding check_standalone_config set_standalone_custom_config notify_standalone
  settle_config auth rip = on_error (check_standalone_config rip auth) (λ e.
      notify_standalone "set custom config for redis server"
      >> set_standalone_custom_config rip auth)

  unfoldable pub set_standalone_config : String → Op W (Unit {0})
  unfolding get_standalone_ips for_each settle_config
  set_standalone_config auth = do
    redises ← get_standalone_ips
    for_each redises (settle_config auth)

  unfoldable pub wait_for_standalone : Op W (Unit {0})
  unfolding check_standalone_number notify_standalone
  wait_for_standalone =
      on_error check_standalone_number
        (λ e. notify_standalone "wait for all redis server start" >> fail need_requeue)

  unfoldable pub check_and_heal_standalone : String → Op W (Unit {0})
  unfolding wait_for_standalone set_standalone_config
  check_and_heal_standalone auth = wait_for_standalone >> set_standalone_config auth
