-- ===== src/Samples/Addresses.antt =====
-- Redis nodes behind their addresses, and what the client reads from their answers.
use cndb_redis.Base.{
  String, ◌<>◌, true, false, List, [], ◌∷◌, ◌≡◌, ◌≢◌, ◌↔◌, refl, arith, eq_iff, eq_refl,
  if◌then◌else◌, str_eq, Result, ok, subst, ap,
}
use cndb_redis.Base.Int.{pos}
use cndb_redis.Ops.{Error}
use cndb_redis.Redis.Params.{redis_port, join_host_port, get_config_parameters}
use cndb_redis.Redis.Params.Split.{has_space, get_config_parameters_iff}
use cndb_redis.Redis.Commands.{
  Value, fields, RedisConn, redis_client, is_sentinel_ready, slave_info_field_by_name,
  get_number_sentinel_slaves_in_memory,
}
use cndb_redis.Base.Dict.{Dict, lookup}
use cndb_redis.Redis.Roles.{SlaveOf, redis_client-Replicates}
use cndb_redis.Redis.Replicas.{get_number_sentinel_slaves_in_memory-eligible}
use cndb_redis.Sentinel.Heal.Replication.{Role, master, slave_of, Replicates}

abbrev Addresses : Type 0
Addresses = String → Role

-- the role that the arguments of SLAVEOF give
abbrev told : String → String → Role
told host port = if str_eq port "ONE" then master else slave_of host

abbrev infos : List (Dict String)
infos =
    (("name", "10.0.0.2") ∷ ("slave-priority", "100") ∷ [])
    ∷ (("name", "10.0.0.3") ∷ ("slave-priority", "0") ∷ [])
    ∷ []

abbrev blobs : List Value
blobs =
    fields ("name" ∷ "10.0.0.2" ∷ "slave-priority" ∷ "100" ∷ [])
    ∷ fields ("name" ∷ "10.0.0.3" ∷ "slave-priority" ∷ "0" ∷ [])
    ∷ []

abbrev report : String
report = "master0:name=mymaster,status=ok,slaves=2,sentinels=3"

abbrev conn : RedisConn Addresses
conn = record {
  info = λ o section w. (ok report, w);
  slice_cmd = λ o words w. (ok blobs, w);
  int_cmd = λ o words w. (ok (pos 1), w);
  bool_cmd = λ o words w. (ok true, w);
  status_cmd = λ o words w. (ok tt, w);
  slave_of = λ o host port w. (ok tt, λ a. if str_eq a o.addr then told host port else w a);
  config_get = λ o pattern w. (ok [], w);
  config_set = λ o key value w. (ok tt, w);
}

abbrev role_at : Addresses → String → Role
role_at w a = w a

became :
    (address : String) (role : Role) (w w' : Addresses)
    → (λ (a : String). if str_eq a address then role else w a) ≡ w'
    → (w' address ≡ role) × ((a : String) → a ≢ address → w' a ≡ w a)
became address role w w' e =
    subst (λ (v : Addresses). (v address ≡ role) × ((a : String) → a ≢ address → v a ≡ w a)) e
      (rw (eq_refl address), λ a h. ground (arith, eq_iff a address))

conn_laws : SlaveOf conn role_at
conn_laws = record {
  no_one = λ o w w' e.
      became o.addr master w w' (ap (λ (q : Result Error (Unit {0}) × Addresses). q.1) e);
  of_host = λ o host w w' e.
      became o.addr (slave_of host) w w' (ap (λ (q : Result Error (Unit {0}) × Addresses). q.1) e);
}

redis_client-Replicates_example :
    Replicates (redis_client conn) (λ w ip. w (join_host_port ip redis_port))
redis_client-Replicates_example = redis_client-Replicates conn role_at conn_laws

get_config_parameters_iff_example :
    (get_config_parameters "down-after-milliseconds 5000 ms"
      ≡ ok ("down-after-milliseconds", "5000 ms"))
    ↔ ((◌≡◌ {A = String} "down-after-milliseconds 5000 ms"
          ("down-after-milliseconds" <> (" " <> "5000 ms")))
        × (has_space "down-after-milliseconds" ≡ false))
get_config_parameters_iff_example =
    get_config_parameters_iff "down-after-milliseconds 5000 ms" "down-after-milliseconds" "5000 ms"

reports_ready : (w : Addresses) → is_sentinel_ready report w ≡ (ok tt, w)
unfolding is_sentinel_ready
reports_ready w = refl

no_roles : Addresses
no_roles a = master

get_number_sentinel_slaves_in_memory-eligible_example :
    get_number_sentinel_slaves_in_memory conn "10.0.0.9" "" no_roles ≡ (ok (pos 1), no_roles)
unfolding slave_info_field_by_name lookup
get_number_sentinel_slaves_in_memory-eligible_example =
    get_number_sentinel_slaves_in_memory-eligible conn "10.0.0.9" "" report infos no_roles no_roles
      no_roles refl (reports_ready no_roles) refl
