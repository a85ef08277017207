-- ===== src/Samples/Roles.antt =====
-- Three redis nodes whose roles are kept in a function, and how they are healed.
use cndb_redis.Base.{
  ℕ, String, Bool, true, false, none, List, [], ◌∷◌, ◌≡◌, ◌≢◌, ◌⊎◌, refl, arith, All, eq_iff,
  eq_refl, if◌then◌else◌, str_eq, insert_by, Result, ok, subst, ap,
}
use cndb_redis.Base.Int.{pos}
use cndb_redis.Ops.{Error, for_each}
use cndb_redis.Client.{Pod, RedisClient}
use cndb_redis.Sentinel.Heal.{promote_oldest, follow}
use cndb_redis.Sentinel.Heal.Replication.{Role, master, slave_of, Replicates, wanted, follow-roles}
use cndb_redis.Sentinel.Heal.Masters.{OwnAddresses, Oldest, In, promote_oldest-roles}

abbrev Nodes : Type 0
Nodes = String → Role

abbrev become : String → Role → Nodes → Nodes
become ip role w j = if str_eq j ip then role else w j

abbrev is_master_role : Role → Bool
is_master_role master = true
is_master_role (slave_of ip) = false

abbrev master_of : Role → String
master_of master = ""
master_of (slave_of ip) = ip

abbrev memory_client : RedisClient Nodes
memory_client = record {
  get_number_sentinels_in_memory = λ ip auth w. (ok (pos 3), w);
  get_number_sentinel_slaves_in_memory = λ ip auth w. (ok (pos 2), w);
  reset_sentinel = λ ip auth w. (ok tt, w);
  get_slave_master_ip = λ ip auth w. (ok (master_of (w ip)), w);
  is_master = λ ip auth w. (ok (is_master_role (w ip)), w);
  monitor_redis = λ ip monitor quorum auth w. (ok tt, w);
  make_master = λ ip auth w. (ok tt, become ip master w);
  make_slave_of = λ ip to auth w. (ok tt, become ip (slave_of to) w);
  get_sentinel_monitor = λ ip auth w. (ok "", w);
  set_custom_sentinel_config = λ ip config auth w. (ok tt, w);
  set_custom_redis_config = λ ip config auth w. (ok tt, w);
  get_all_redis_config = λ ip auth w. (ok [], w);
}

abbrev role_at : Nodes → String → Role
role_at w ip = w ip

became :
    (ip : String) (role : Role) (w w' : Nodes)
    → become ip role w ≡ w'
    → (w' ip ≡ role) × ((j : String) → j ≢ ip → w' j ≡ w j)
became ip role w w' e =
    subst (λ (v : Nodes). (v ip ≡ role) × ((j : String) → j ≢ ip → v j ≡ w j)) e
      (rw (eq_refl ip), λ j h. ground (arith, eq_iff j ip))

memory_laws : Replicates memory_client role_at
memory_laws = record {
  make_master-role =
      λ ip auth w w' e. became ip master w w' (ap (λ (q : Result Error (Unit {0}) × Nodes). q.1) e);
  make_slave_of-role = λ ip to auth w w' e.
      became ip (slave_of to) w w' (ap (λ (q : Result Error (Unit {0}) × Nodes). q.1) e);
}

abbrev pod : String → ℕ → Pod
pod ip created = record {
  name = ip;
  phase = "Running";
  pod_ip = ip;
  creation_timestamp = created;
  start_time = none;
}

abbrev pods : List Pod
pods = pod "10.0.0.1" 7 ∷ pod "10.0.0.2" 4 ∷ pod "10.0.0.3" 9 ∷ []

abbrev all_masters : Nodes
all_masters ip = master

abbrev healed : Nodes
healed =
    become "10.0.0.3" (slave_of "10.0.0.2")
      (become "10.0.0.1" (slave_of "10.0.0.2") (become "10.0.0.2" master all_masters))

abbrev told : Nodes
told =
    become "10.0.0.3" (slave_of "10.0.0.2")
      (become "10.0.0.2" master (become "10.0.0.1" (slave_of "10.0.0.2") all_masters))

oldest_run : promote_oldest memory_client "" pods all_masters ≡ (ok tt, healed)
unfolding promote_oldest insert_by
oldest_run = refl

follow_run : for_each pods (follow memory_client "" "10.0.0.2") all_masters ≡ (ok tt, told)
unfolding for_each follow
follow_run = refl

differ : (a b : String) → str_eq a b ≡ false → a ≢ b
differ a b h = ground (arith, eq_iff a b)

pods-OwnAddresses : OwnAddresses pods
pods-OwnAddresses = (
  differ "10.0.0.1" "" refl,
  (differ "10.0.0.1" "10.0.0.2" refl, (differ "10.0.0.1" "10.0.0.3" refl, tt)),
  (
    differ "10.0.0.2" "" refl,
    (differ "10.0.0.2" "10.0.0.3" refl, tt),
    (differ "10.0.0.3" "" refl, tt, tt),
  ),
)

promote_oldest-roles_example :
    (m : Pod) × In m pods
    × Oldest m pods
    × (healed m.pod_ip ≡ master)
    × All (λ q. (q ≡ m) ⊎ (healed q.pod_ip ≡ slave_of m.pod_ip)) pods
promote_oldest-roles_example =
    promote_oldest-roles memory_client role_at memory_laws "" pods all_masters healed
      pods-OwnAddresses oldest_run

follow-roles_example : All (λ p. told p.pod_ip ≡ wanted "10.0.0.2" p.pod_ip) pods
follow-roles_example =
    follow-roles memory_client role_at memory_laws "" "10.0.0.2" pods all_masters told follow_run
