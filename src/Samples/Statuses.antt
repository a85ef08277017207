-- ===== src/Samples/Statuses.antt =====
-- Conditions and persistence settings on concrete statuses and maps.
use cndb_redis.Base.{some, [], ◌∷◌, ◌≡◌, refl, arith, head?}
use cndb_redis.Api.Status.{
  Status, Condition, set_cluster_condition, clear_condition, desc_conditions_by_time,
}
use cndb_redis.Api.Status.Conditions.{
  find, merge, find-set_cluster_condition, set_cluster_condition-NodupTypes, NodupTypes,
}
use cndb_redis.Api.Status.Order.{head-desc_conditions_by_time}
use cndb_redis.Samples.Objects.{condition, clock}

abbrev two : Status
two = record {
  conditions = condition "Healthy" "Cluster ok" 5 ∷ condition "Creating" "Bootstrap" 3 ∷ [];
  master_ip = "";
  sentinel_ip = "";
}

abbrev scaling : Condition
scaling = condition "Creating" "again" 7

two-NodupTypes : NodupTypes two.conditions
unfolding find
two-NodupTypes = (refl, (refl, tt))

find-set_cluster_condition_example :
    find (set_cluster_condition two scaling (clock 8)).conditions "Creating"
    ≡ some (merge (find two.conditions "Creating") scaling (clock 8))
find-set_cluster_condition_example = find-set_cluster_condition two scaling (clock 8) "Creating"

set_cluster_condition-NodupTypes_example :
    NodupTypes (set_cluster_condition two scaling (clock 8)).conditions
    × NodupTypes (clear_condition two "Healthy").conditions
set_cluster_condition-NodupTypes_example =
    set_cluster_condition-NodupTypes two scaling (clock 8) "Healthy" two-NodupTypes

head-desc_conditions_by_time_example :
    head? (desc_conditions_by_time (set_cluster_condition two scaling (clock 8))).conditions
    ≡ some (merge (find two.conditions "Creating") scaling (clock 8))
head-desc_conditions_by_time_example =
    head-desc_conditions_by_time two scaling (clock 8) (omega arith, (omega arith, tt))
      (omega arith, (omega arith, tt))
