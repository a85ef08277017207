-- ===== src/Client.antt =====
-- The interfaces through which the controllers reach Kubernetes (pkg/client/k8s) and redis
-- (pkg/client/redis/client.go), and the objects that they exchange.
use cndb_redis.Base.{ℕ, String, Bool, Option, List}
use cndb_redis.Base.Int.{ℤ}
use cndb_redis.Base.Dict.{Dict}
use cndb_redis.Ops.{Op}

-- of corev1.Pod, what the checks read
pub record Pod : Type 0 where
  pub name : String
  pub phase : String
  pub pod_ip : String
  pub creation_timestamp : ℕ
  pub start_time : Option ℕ

-- of appsv1.StatefulSet, what the checks read
pub record StatefulSet : Type 0 where
  pub replicas : ℤ
  pub ready_replicas : ℤ

-- k8s.Event, and the metrics of pkg/metrics: reports that cannot fail
pub data Notice : Type 0 where
  ensure_cluster check_cluster create_cluster health_cluster : Notice
  new_slave_add slave_remove update_sentinel_status failed_cluster : String → Notice
  set_cluster_error set_cluster_ok : String → String → Notice

-- k8s.Services, as far as the checks and the healing use it
pub record Services (W : Type 0) : Type 0 where
  pub get_stateful_set : String → String → Op W StatefulSet
  pub get_stateful_set_pods : String → String → Op W (List Pod)
  pub emit : Notice → W → W

-- redis.Client: the address of a node, the call's arguments, and the password
pub record RedisClient (W : Type 0) : Type 0 where
  pub get_number_sentinels_in_memory : String → String → Op W ℤ
  pub get_number_sentinel_slaves_in_memory : String → String → Op W ℤ
  pub reset_sentinel : String → String → Op W (Unit {0})
  pub get_slave_master_ip : String → String → Op W String
  pub is_master : String → String → Op W Bool
  pub monitor_redis : String → String → String → String → Op W (Unit {0})
  pub make_master : String → String → Op W (Unit {0})
  pub make_slave_of : String → String → String → Op W (Unit {0})
  pub get_sentinel_monitor : String → String → Op W String
  pub set_custom_sentinel_config : String → List String → String → Op W (Unit {0})
  pub set_custom_redis_config : String → Dict String → String → Op W (Unit {0})
  pub get_all_redis_config : String → String → Op W (Dict String)

-- the clock, in seconds, and time.Sleep
pub record Timer (W : Type 0) : Type 0 where
  pub now : W → ℕ
  pub sleep : ℕ → W → W
