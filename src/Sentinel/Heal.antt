-- ===== src/Sentinel/Heal.antt =====
-- controllers/redissentinel/service/heal.go: how a cluster is brought back to one master.
pub mod Replication
pub mod Masters
use cndb_redis.Base.{
  ℕ, ◌+◌, ◌/◌, String, Bool, true, false, ◌&&◌, Option, none, some, List, [], ◌∷◌, if◌then◌else◌,
  str_eq, ltb, sort_slice, Result, ok, err,
}
use cndb_redis.Base.Int.{ℤ, pos, negsuc, pos_part, neg_part, wrap_parts}
use cndb_redis.Base.Dict.{Dict}
use cndb_redis.Strconv.{format_int}
use cndb_redis.Util.Names.{get_redis_name}
use cndb_redis.Api.Types.{K8s, RedisSentinel}
use cndb_redis.Api.Defaults.{made}
use cndb_redis.Ops.{Op, failure, pure, fail, continue, ◌>>=◌, ◌>>◌, for_each}
use cndb_redis.Client.{Pod, Services, RedisClient}

-- metav1.Time.Before on the creation times
unfoldable pub created_before : Pod → Pod → Bool
created_before a b = ltb a.creation_timestamp b.creation_timestamp

unfoldable pub is_empty {ℓ} : {A : Type ℓ} → List A → Bool
is_empty [] = true
is_empty (x ∷ xs) = false

-- an int32 divided by 2, towards zero
unfoldable pub half : ℤ → ℤ
half (pos n) = pos (n / 2)
half (negsuc n) = wrap_parts 32 0 ((n + 1) / 2)

-- rc.Spec.Sentinel.Replicas/2 + 1, in int32
unfoldable pub get_quorum : {k : K8s} → RedisSentinel k → ℤ
unfolding half
get_quorum rc =
    let n = half rc.spec.sentinel.replicas in wrap_parts 32 (pos_part n + 1) (neg_part n)

module _ {W : Type 0} (redis : RedisClient W) (auth : String) where
  -- the loop of SetOldestAsMaster: `new_master_ip` is "" until a pod has been made master
  unfoldable pub promote_first : String → List Pod → Op W (Unit {0})
  promote_first new_master_ip [] = pure tt
  promote_first new_master_ip (pod ∷ pods) =
      let first = redis.make_master pod.pod_ip auth >> promote_first pod.pod_ip pods in
      let later =
        redis.make_slave_of pod.pod_ip new_master_ip auth >> promote_first new_master_ip pods in
      if str_eq new_master_ip "" then first else later

  unfoldable pub follow : String → Pod → Op W (Unit {0})
  follow master_ip pod =
      if str_eq pod.pod_ip master_ip
      then redis.make_master master_ip auth
      else redis.make_slave_of pod.pod_ip master_ip auth

  unfoldable pub promote_oldest : List Pod → Op W (Unit {0})
  unfolding is_empty created_before promote_first sort_slice
  promote_oldest pods =
      if is_empty pods
      then fail (failure "number of redis pods are 0")
      else promote_first "" (sort_slice created_before pods)

module _ {k : K8s} {W : Type 0} (api : Services W) (redis : RedisClient W)
    (rc : RedisSentinel k) where
  unfoldable pub set_oldest_as_master : String → Op W (Unit {0})
  unfolding promote_oldest get_redis_name
  set_oldest_as_master auth = do
    pods ← api.get_stateful_set_pods rc.metadata.namespace (get_redis_name rc)
    promote_oldest redis auth pods

  unfoldable pub set_master_on_all : String → String → Op W (Unit {0})
  unfolding follow for_each get_redis_name
  set_master_on_all master_ip auth = do
    pods ← api.get_stateful_set_pods rc.metadata.namespace (get_redis_name rc)
    for_each pods (follow redis auth master_ip)

  unfoldable pub new_sentinel_monitor : String → String → String → Op W (Unit {0})
  unfolding get_quorum
  new_sentinel_monitor ip monitor auth =
      redis.monitor_redis ip monitor (format_int (get_quorum rc)) auth

  unfoldable pub restore_sentinel : String → String → Op W (Unit {0})
  restore_sentinel ip auth = redis.reset_sentinel ip auth

  unfoldable pub set_sentinel_custom_config : String → String → Op W (Unit {0})
  unfolding is_empty
  set_sentinel_custom_config ip auth =
      if is_empty rc.spec.sentinel.custom_config
      then pure tt
      else redis.set_custom_sentinel_config ip rc.spec.sentinel.custom_config auth

  unfoldable pub set_redis_custom_config : String → String → Op W (Unit {0})
  unfolding is_empty made
  set_redis_custom_config ip auth =
      if is_empty (made rc.spec.common.config) && str_eq auth ""
      then pure tt
      else redis.set_custom_redis_config ip (made rc.spec.common.config) auth
