-- ===== src/Api/Status.antt =====
-- api/v1alpha1/redissentinel_status.go: the conditions in the status of a resource.
pub mod Conditions
pub mod Order
use cndb_redis.Base.{
  ℕ, zero, suc, String, Bool, ◌&&◌, Option, none, some, List, [], ◌∷◌, ◌++◌, if◌then◌else◌, str_eq,
  ltb, set, remove_at, sort_slice,
}

-- ConditionType, ConditionStatus and the times that are stored as text are Go strings.
pub record Condition : Type 0 where
  pub type : String
  pub status : String
  pub last_update_time : String
  pub last_update_at : ℕ
  pub last_transition_time : String
  pub reason : String
  pub message : String

pub record Status : Type 0 where
  pub conditions : List Condition
  pub master_ip : String
  pub sentinel_ip : String

-- What a function that reads the clock gets: `time.Now()` in the format RFC 3339, and `metav1.Now()`.
pub record Clock : Type 0 where
  pub now_string : String
  pub now : ℕ

-- the constants of type ConditionType, and corev1.ConditionTrue
abbrev pub condition_available : String
condition_available = "Available"

abbrev pub condition_healthy : String
condition_healthy = "Healthy"

abbrev pub condition_running : String
condition_running = "Running"

abbrev pub condition_creating : String
condition_creating = "Creating"

abbrev pub condition_recovering : String
condition_recovering = "Recovering"

abbrev pub condition_scaling : String
condition_scaling = "Scaling"

abbrev pub condition_scaling_down : String
condition_scaling_down = "ScalingDown"

abbrev pub condition_upgrading : String
condition_upgrading = "Upgrading"

abbrev pub condition_updating : String
condition_updating = "Updating"

abbrev pub condition_failed : String
condition_failed = "Failed"

abbrev pub condition_true : String
condition_true = "True"

-- the position of the first condition of the type, and the condition; (-1, nil) is `none`
shift : Option (ℕ × Condition) → Option (ℕ × Condition)
shift none = none
shift (some (i, c)) = some (suc i, c)

pub get_cluster_condition : List Condition → String → Option (ℕ × Condition)
unfolding shift
get_cluster_condition [] t = none
get_cluster_condition (c ∷ cs) t =
    let rest = shift (get_cluster_condition cs t) in if str_eq t c.type then some (0, c) else rest

pub new_cluster_condition : String → String → String → String → Clock → Condition
new_cluster_condition t status reason message clock = record {
  type = t;
  status = status;
  last_update_time = clock.now_string;
  last_update_at = clock.now;
  last_transition_time = clock.now_string;
  reason = reason;
  message = message;
}

-- the test by which an old condition is only touched
pub same_condition : Condition → Condition → Bool
same_condition cp c =
    str_eq cp.status c.status && str_eq cp.reason c.reason && str_eq cp.message c.message

store_condition : List Condition → Option (ℕ × Condition) → Condition → Clock → List Condition
unfolding same_condition
store_condition cs none c clock = cs ++ c ∷ []
store_condition cs (some (i, cp)) c clock =
    if same_condition cp c
    then set cs i (record cp { last_update_at = clock.now; last_update_time = clock.now_string })
    else set cs i c

pub set_cluster_condition : Status → Condition → Clock → Status
unfolding store_condition get_cluster_condition
set_cluster_condition s c clock = record s {
  conditions = store_condition s.conditions (get_cluster_condition s.conditions c.type) c clock;
}

clear_at : List Condition → Option (ℕ × Condition) → List Condition
clear_at cs none = cs
clear_at cs (some (i, _)) = remove_at cs i

pub clear_condition : Status → String → Status
unfolding clear_at get_cluster_condition
clear_condition s t = record s {
  conditions = clear_at s.conditions (get_cluster_condition s.conditions t);
}

-- newest first
pub later_condition : Condition → Condition → Bool
later_condition a b = ltb b.last_update_at a.last_update_at

pub desc_conditions_by_time : Status → Status
unfolding later_condition sort_slice
desc_conditions_by_time s = record s { conditions = sort_slice later_condition s.conditions }

-- Each of these reads the clock twice: for the new condition, and for an old one that is touched.
pub set_scaling_up_condition : Status → String → Clock → Clock → Status
unfolding new_cluster_condition set_cluster_condition
set_scaling_up_condition s message c1 c2 =
    set_cluster_condition s
      (new_cluster_condition condition_scaling condition_true "Scaling up" message c1) c2

pub set_create_condition : Status → String → Clock → Clock → Status
unfolding new_cluster_condition set_cluster_condition
set_create_condition s message c1 c2 =
    set_cluster_condition s
      (new_cluster_condition condition_creating condition_true "Creating" message c1) c2

pub set_scaling_down_condition : Status → String → Clock → Clock → Status
unfolding new_cluster_condition set_cluster_condition
set_scaling_down_condition s message c1 c2 =
    set_cluster_condition s
      (new_cluster_condition condition_scaling condition_true "Scaling down" message c1) c2

pub set_upgrading_condition : Status → String → Clock → Clock → Status
unfolding new_cluster_condition set_cluster_condition
set_upgrading_condition s message c1 c2 =
    set_cluster_condition s
      (new_cluster_condition condition_upgrading condition_true "Cluster upgrading" message c1) c2

pub set_updating_condition : Status → String → Clock → Clock → Status
unfolding new_cluster_condition set_cluster_condition
set_updating_condition s message c1 c2 =
    set_cluster_condition s
      (new_cluster_condition condition_updating condition_true "Cluster updating" message c1) c2

pub set_ready_condition : Status → String → Clock → Clock → Status
unfolding new_cluster_condition set_cluster_condition
set_ready_condition s message c1 c2 =
    set_cluster_condition s
      (new_cluster_condition condition_healthy condition_true "Cluster available" message c1) c2

pub set_failed_condition : Status → String → Clock → Clock → Status
unfolding new_cluster_condition set_cluster_condition
set_failed_condition s message c1 c2 =
    set_cluster_condition s
      (new_cluster_condition condition_failed condition_true "Cluster failed" message c1) c2
