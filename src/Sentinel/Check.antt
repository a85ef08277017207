-- ===== src/Sentinel/Check.antt =====
-- controllers/redissentinel/service/check.go: what is compared with the specification.
pub mod Masters
pub mod Configs
use cndb_redis.Base.{
  ℕ, ◌+◌, String, ◌<>◌, Bool, true, false, Option, none, some, List, [], ◌∷◌, ◌++◌, if◌then◌else◌,
  str_eq, Result, ok, err,
}
use cndb_redis.Base.Int.{ℤ, pos, eqb_ℤ, sub_wrap}
use cndb_redis.Base.Dict.{Dict, lookup}
use cndb_redis.Strconv.{ParseError}
use cndb_redis.Util.Memory.{parse_redis_mem_conf}
use cndb_redis.Util.Names.{get_redis_name, get_sentinel_name}
use cndb_redis.Api.Types.{K8s, RedisSentinel}
use cndb_redis.Api.Defaults.{made}
use cndb_redis.Ops.{Op, Error, failure, pure, fail, ◌>>=◌, ◌>>◌, for_each}
use cndb_redis.Client.{Pod, Services, RedisClient}

-- controllers/common/common.go: ErrNeedRequeue and ErrNeedRequeueImmediately
abbrev pub need_requeue : Error
need_requeue = failure "need requeue"

abbrev pub need_requeue_immediately : Error
need_requeue_immediately = failure "need requeue immediately"

-- the settings whose values are memory sizes
abbrev pub parse_config_map : List String
parse_config_map =
    "maxmemory" ∷ "proto-max-bulk-len" ∷ "client-query-buffer-limit" ∷ "repl-backlog-size"
    ∷ "auto-aof-rewrite-min-size" ∷ "active-defrag-ignore-bytes" ∷ "hash-max-ziplist-entries"
    ∷ "hash-max-ziplist-value" ∷ "stream-node-max-bytes" ∷ "set-max-intset-entries"
    ∷ "zset-max-ziplist-entries" ∷ "zset-max-ziplist-value" ∷ "hll-sparse-max-bytes" ∷ []

unfoldable pub contains : List String → String → Bool
contains [] key = false
contains (x ∷ xs) key = if str_eq x key then true else contains xs key

-- configs[key], which is "" where the key is missing
unfoldable pub value_of : Option String → String
value_of none = ""
value_of (some v) = v

-- the value that is expected of redis, or none where the size cannot be read and is passed over
unfoldable pub readable : Result ParseError String → Option String
readable (ok v) = some v
readable (err e) = none

unfoldable pub expected : String → String → Option String
unfolding contains readable
expected key value =
    if contains parse_config_map key then readable (parse_redis_mem_conf value) else some value

-- whether the value passes, against what redis reports
unfoldable pub agrees : Option String → String → Bool
agrees none current = true
agrees (some v) current = str_eq v current

unfoldable pub conflict_text : String → Option String → String → String
unfolding value_of
conflict_text key want current =
    key <> (" configs conflict, expect: " <> (value_of want <> (", current: " <> current)))

-- the loop over rc.Spec.Config: the error for the first key in conflict
unfoldable pub config_conflict : Dict String → Dict String → Option String
unfolding expected agrees value_of conflict_text
config_conflict [] configs = none
config_conflict ((key, value) ∷ rest) configs =
    if agrees (expected key value) (value_of (lookup key configs))
    then config_conflict rest configs
    else some (conflict_text key (expected key value) (value_of (lookup key configs)))

unfoldable pub fail_if : {W : Type 0} → Option String → Op W (Unit {0})
fail_if none = pure tt
fail_if (some text) = fail (failure text)

-- if the numbers differ, the error
unfoldable pub same_number : {W : Type 0} → ℤ → ℤ → Error → Op W (Unit {0})
same_number a b e = if eqb_ℤ a b then pure tt else fail e

unfoldable pub running_ips : List Pod → List String
running_ips [] = []
running_ips (p ∷ ps) =
    let rest = running_ips ps in if str_eq p.phase "Running" then p.pod_ip ∷ rest else rest

unfoldable pub count_master : Bool → ℕ → ℕ
count_master true n = n + 1
count_master false n = n

unfoldable pub add_master : Bool → String → List String → List String
add_master true ip masters = masters ++ ip ∷ []
add_master false ip masters = masters

-- len(masters) != 1
unfoldable pub only_master : {W : Type 0} → List String → Op W String
only_master (m ∷ []) = pure m
only_master other = fail (failure "number of redis nodes known as master is different than 1")

module _ {W : Type 0} (redis : RedisClient W) (auth : String) where
  unfoldable pub masters_loop : List String → ℕ → Op W ℕ
  unfolding count_master
  masters_loop [] n = pure n
  masters_loop (ip ∷ ips) n = do
    master ← redis.is_master ip auth
    masters_loop ips (count_master master n)

  unfoldable pub collect_masters : List String → List String → Op W (List String)
  unfolding add_master
  collect_masters [] masters = pure masters
  collect_masters (ip ∷ ips) masters = do
    master ← redis.is_master ip auth
    collect_masters ips (add_master master ip masters)

module _ {k : K8s} {W : Type 0} (api : Services W) (redis : RedisClient W)
    (rc : RedisSentinel k) where
  unfoldable pub check_redis_config : String → String → Op W (Unit {0})
  unfolding config_conflict fail_if made
  check_redis_config addr auth = do
    configs ← redis.get_all_redis_config addr auth
    fail_if (config_conflict (made rc.spec.common.config) configs)

  unfoldable pub check_redis_number : Op W (Unit {0})
  unfolding same_number get_redis_name
  check_redis_number = do
    ss ← api.get_stateful_set rc.metadata.namespace (get_redis_name rc)
    same_number rc.spec.common.size ss.replicas
        (failure "number of redis pods differ from specification")
    same_number rc.spec.common.size ss.ready_replicas
        (failure "waiting all of redis pods become ready")

  unfoldable pub check_sentinel_number : Op W (Unit {0})
  unfolding same_number get_sentinel_name
  check_sentinel_number = do
    d ← api.get_stateful_set rc.metadata.namespace (get_sentinel_name rc)
    same_number rc.spec.sentinel.replicas d.replicas
        (failure "number of sentinel pods differ from specification")

  unfoldable pub ensure_sentinel_ready : Op W (Unit {0})
  unfolding same_number get_sentinel_name
  ensure_sentinel_ready = do
    d ← api.get_stateful_set rc.metadata.namespace (get_sentinel_name rc)
    same_number rc.spec.sentinel.replicas d.ready_replicas need_requeue

  unfoldable pub check_sentinel_ready_replicas : Op W (Unit {0})
  unfolding same_number get_sentinel_name
  check_sentinel_ready_replicas = do
    d ← api.get_stateful_set rc.metadata.namespace (get_sentinel_name rc)
    same_number rc.spec.sentinel.replicas d.ready_replicas
        (failure "waiting all of sentinel pods become ready")

  unfoldable pub get_redises_ips : Op W (List String)
  unfolding running_ips get_redis_name
  get_redises_ips = do
    pods ← api.get_stateful_set_pods rc.metadata.namespace (get_redis_name rc)
    pure (running_ips pods)

  unfoldable pub get_sentinels_ips : Op W (List String)
  unfolding running_ips get_sentinel_name
  get_sentinels_ips = do
    pods ← api.get_stateful_set_pods rc.metadata.namespace (get_sentinel_name rc)
    pure (running_ips pods)

  -- a node that reports no master passes
  unfoldable pub check_slave : String → String → String → Op W (Unit {0})
  check_slave master rip slave =
      if str_eq slave ""
      then pure tt
      else if str_eq slave master
      then pure tt
      else fail (
          failure
            ("slave " <> (rip <> (" don't have the master " <> (master <> (", has " <> slave))))))

  unfoldable pub check_all_slaves_from_master : String → String → Op W (Unit {0})
  unfolding get_redises_ips check_slave for_each
  check_all_slaves_from_master master auth = do
    rips ← get_redises_ips
    for_each rips (λ rip. redis.get_slave_master_ip rip auth >>= check_slave master rip)

  unfoldable pub check_sentinel_number_in_memory : String → String → Op W (Unit {0})
  unfolding same_number
  check_sentinel_number_in_memory sentinel auth = do
    n ← redis.get_number_sentinels_in_memory sentinel auth
    same_number n rc.spec.sentinel.replicas (failure "sentinels in memory mismatch")

  unfoldable pub check_sentinel_slaves_number_in_memory : String → String → Op W (Unit {0})
  unfolding same_number sub_wrap
  check_sentinel_slaves_number_in_memory sentinel auth = do
    n ← redis.get_number_sentinel_slaves_in_memory sentinel auth
    same_number n (sub_wrap 32 rc.spec.common.size (pos 1))
        (failure "sentinel's slaves in memory mismatch")

  unfoldable pub check_sentinel_monitor : String → String → String → Op W (Unit {0})
  check_sentinel_monitor sentinel monitor auth = do
    actual ← redis.get_sentinel_monitor sentinel auth
    if str_eq actual monitor
        then pure tt
        else fail
            (failure "the monitor on the sentinel config does not match with the expected one")

  unfoldable pub get_master_ip : String → Op W String
  unfolding get_redises_ips collect_masters only_master
  get_master_ip auth = do
    rips ← get_redises_ips
    masters ← collect_masters redis auth rips []
    only_master masters

  unfoldable pub get_number_masters : String → Op W ℕ
  unfolding get_redises_ips masters_loop
  get_number_masters auth = do rips ← get_redises_ips; masters_loop redis auth rips 0
