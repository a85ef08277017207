-- ===== src/Samples/Healing.antt =====
-- CheckAndHeal on a running cluster, and the wait for a restored sentinel. The state is a clock.
use cndb_redis.Base.{
  ℕ, ◌+◌, String, Bool, true, none, some, List, [], ◌∷◌, ◌≡◌, ◌≢◌, ◌↔◌, refl, arith, All, str_eq,
  if◌then◌else◌, ok, err,
}
use cndb_redis.Base.Int.{ℤ, pos, mul_wrap}
use cndb_redis.Base.Dict.{Dict, lookup}
use cndb_redis.Api.Types.{RedisSentinel, RedisStandalone}
use cndb_redis.Util.Names.{generate_name}
use cndb_redis.Util.Memory.{parse_redis_mem_conf}
use cndb_redis.Strconv.{format_int}
use cndb_redis.Ops.{Op, failure}
use cndb_redis.Client.{Pod, Services, RedisClient, Timer}
use cndb_redis.Sentinel.Check.{
  check_redis_number, check_sentinel_number, get_master_ip, get_number_masters, config_conflict,
}
use cndb_redis.Sentinel.Check.Masters.{get_master_ip_iff}
use cndb_redis.Sentinel.Check.Configs.{Passes, config_conflict_iff}
use cndb_redis.Sentinel.Handler.{wait_loop, time_out}
use cndb_redis.Sentinel.Handler.Waiting.{Elapses, wait_loop_terminates}
use cndb_redis.Samples.Objects.{text_k8s, common, cluster, single}
use cndb_redis.Standalone.Check.{check_and_heal_standalone}
use cndb_redis.Ops.Success.{Turns}
use cndb_redis.Standalone.Check.Settled.{
  IsCounted, AreRunning, IsSettled, check_and_heal_standalone-ok,
}

abbrev pub clock_timer : Timer ℕ
clock_timer = record { now = λ w. w; sleep = λ n w. w + n }

abbrev never : Op ℕ (Unit {0})
never w = (err (failure "sentinel's slaves in memory mismatch"), w)

never_laws : Elapses clock_timer never
never_laws = record { after_sleep = λ n w. omega arith; after_body = λ w. omega arith }

wait_loop_terminates_example : wait_loop clock_timer never 7 (100 + time_out) 100 ≢ none
wait_loop_terminates_example = wait_loop_terminates clock_timer never never_laws 100

wait_run :
    wait_loop clock_timer never 7 130 100
    ≡ some (err (failure "wait for resetore sentinel slave timeout"), 130)
unfolding wait_loop
wait_run = refl

abbrev pub running : RedisSentinel text_k8s
running =
    let c = cluster 1 (pos 3) "" in
    record c { spec = record c.spec { sentinel = record c.spec.sentinel { replicas = pos 3 } } }

abbrev worker : String → Pod
worker ip = record {
  name = ip;
  phase = "Running";
  pod_ip = ip;
  creation_timestamp = 1;
  start_time = none;
}

abbrev pub services : ℤ → Services ℕ
services sentinels = record {
  get_stateful_set = λ namespace name w. (
    if str_eq name "redis-sentinel-shop"
        then ok (record { replicas = sentinels; ready_replicas = sentinels })
        else ok (record { replicas = pos 3; ready_replicas = pos 3 }),
    w,
  );
  get_stateful_set_pods =
      λ namespace name w. (ok (worker "10.0.0.1" ∷ worker "10.0.0.2" ∷ worker "10.0.0.3" ∷ []), w);
  emit = λ notice w. w + 1;
}

abbrev pub client : {W : Type 0} → (String → Bool) → RedisClient W
client is_master = record {
  get_number_sentinels_in_memory = λ ip auth w. (ok (pos 3), w);
  get_number_sentinel_slaves_in_memory = λ ip auth w. (ok (pos 2), w);
  reset_sentinel = λ ip auth w. (ok tt, w);
  get_slave_master_ip = λ ip auth w. (ok "10.0.0.2", w);
  is_master = λ ip auth w. (ok (is_master ip), w);
  monitor_redis = λ ip monitor quorum auth w. (ok tt, w);
  make_master = λ ip auth w. (ok tt, w);
  make_slave_of = λ ip to auth w. (ok tt, w);
  get_sentinel_monitor = λ ip auth w. (ok "10.0.0.2", w);
  set_custom_sentinel_config = λ ip config auth w. (ok tt, w);
  set_custom_redis_config = λ ip config auth w. (ok tt, w);
  get_all_redis_config = λ ip auth w. (ok (("maxmemory", "1073741824") ∷ []), w);
}

abbrev pub second : RedisClient ℕ
second = client (λ ip. str_eq ip "10.0.0.2")

abbrev every : RedisClient ℕ
every = client (λ ip. true)

get_master_ip_iff_example :
    (get_number_masters (services (pos 3)) second running "" 5 ≡ (ok 1, 5))
    ↔ ((m : String) × (get_master_ip (services (pos 3)) second running "" 5 ≡ (ok m, 5)))
get_master_ip_iff_example = get_master_ip_iff (services (pos 3)) second running "" 5 5

abbrev wanted_settings : Dict String
wanted_settings = ("maxmemory", "1gb") ∷ ("appendonly", "no") ∷ []

abbrev reported : Dict String
reported = ("appendonly", "no") ∷ ("maxmemory", "1073741824") ∷ []

config_conflict_iff_example :
    (config_conflict wanted_settings reported ≡ none) ↔ All (Passes reported) wanted_settings
config_conflict_iff_example = config_conflict_iff wanted_settings reported

no_conflict : config_conflict wanted_settings reported ≡ none
unfolding config_conflict parse_redis_mem_conf format_int mul_wrap lookup
no_conflict = refl

redis_counted : (n : ℤ) → check_redis_number (services n) every running 5 ≡ (ok tt, 5)
unfolding check_redis_number generate_name
redis_counted n = refl

sentinels_missing :
    check_sentinel_number (services (pos 2)) every running 5
    ≡ (err (failure "number of sentinel pods differ from specification"), 5)
unfolding check_sentinel_number generate_name
sentinels_missing = refl

sentinels_counted : check_sentinel_number (services (pos 3)) every running 5 ≡ (ok tt, 5)
unfolding check_sentinel_number generate_name
sentinels_counted = refl

three_masters : get_number_masters (services (pos 3)) every running "" 5 ≡ (ok 3, 5)
unfolding get_number_masters
three_masters = refl

abbrev alone : RedisStandalone text_k8s
alone = record single { spec = common (pos 3) "" }

alone_run : check_and_heal_standalone (services (pos 3)) second alone "" 5 ≡ (ok tt, 5)
unfolding check_and_heal_standalone generate_name parse_redis_mem_conf format_int mul_wrap lookup
alone_run = refl

check_and_heal_standalone-ok_example :
    (v : ℕ) × IsCounted (services (pos 3)) second alone "" 5 v
    × ((pods : List Pod) × (u : ℕ) × ((services (pos 3)).get_stateful_set_pods "prod"
            "redis-standalone-shop" v
          ≡ (ok pods, u))
        × ((rips : List String) × AreRunning pods rips
            × Turns (IsSettled (services (pos 3)) second alone "") rips u 5))
check_and_heal_standalone-ok_example =
    check_and_heal_standalone-ok (services (pos 3)) second alone "" 5 5 alone_run
