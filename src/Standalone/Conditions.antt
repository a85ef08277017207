-- ===== src/Standalone/Conditions.antt =====
-- api/v1alpha1/redisstandalone_status.go, which repeats redissentinel_status.go.
use cndb_redis.Base.{ℕ, String, Option, List}
use cndb_redis.Api.Status.{
  Condition, Status, Clock, desc_conditions_by_time, set_scaling_up_condition, set_create_condition,
  set_scaling_down_condition, set_upgrading_condition, set_updating_condition, set_ready_condition,
  set_failed_condition, clear_condition, set_cluster_condition, get_cluster_condition,
  new_cluster_condition,
}

abbrev pub StandaloneStatus : Type 0
StandaloneStatus = Status

abbrev pub desc_standalone_conditions : StandaloneStatus → StandaloneStatus
desc_standalone_conditions = desc_conditions_by_time

abbrev pub set_standalone_scaling_up : StandaloneStatus → String → Clock → Clock → StandaloneStatus
set_standalone_scaling_up = set_scaling_up_condition

abbrev pub set_standalone_create : StandaloneStatus → String → Clock → Clock → StandaloneStatus
set_standalone_create = set_create_condition

abbrev pub set_standalone_scaling_down :
    StandaloneStatus → String → Clock → Clock → StandaloneStatus
set_standalone_scaling_down = set_scaling_down_condition

abbrev pub set_standalone_upgrading : StandaloneStatus → String → Clock → Clock → StandaloneStatus
set_standalone_upgrading = set_upgrading_condition

abbrev pub set_standalone_updating : StandaloneStatus → String → Clock → Clock → StandaloneStatus
set_standalone_updating = set_updating_condition

abbrev pub set_standalone_ready : StandaloneStatus → String → Clock → Clock → StandaloneStatus
set_standalone_ready = set_ready_condition

abbrev pub set_standalone_failed : StandaloneStatus → String → Clock → Clock → StandaloneStatus
set_standalone_failed = set_failed_condition

abbrev pub clear_standalone_condition : StandaloneStatus → String → StandaloneStatus
clear_standalone_condition = clear_condition

abbrev pub set_standalone_condition : StandaloneStatus → Condition → Clock → StandaloneStatus
set_standalone_condition = set_cluster_condition

abbrev pub get_standalone_condition : List Condition → String → Option (ℕ × Condition)
get_standalone_condition = get_cluster_condition

abbrev pub new_standalone_condition : String → String → String → String → Clock → Condition
new_standalone_condition = new_cluster_condition
