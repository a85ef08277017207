-- ===== src/Kube/Events.antt =====
-- pkg/client/k8s/event.go: the event that each notice records. The object that it is about is not kept.
use cndb_redis.Base.{String, Option, none, some}
use cndb_redis.Api.Status.{
  condition_creating, condition_scaling, condition_scaling_down, condition_updating,
  condition_upgrading, condition_failed, condition_healthy,
}
use cndb_redis.Client.{
  Notice, ensure_cluster, check_cluster, create_cluster, health_cluster, new_slave_add,
  slave_remove, update_sentinel_status, failed_cluster, set_cluster_error, set_cluster_ok,
}

-- the arguments of record.EventRecorder's Event
pub record Event : Type 0 where
  pub event_type : String
  pub reason : String
  pub message : String

abbrev pub normal : String → String → Event
normal reason message = record { event_type = "Normal"; reason = reason; message = message }

abbrev pub warning : String → String → Event
warning reason message = record { event_type = "Warning"; reason = reason; message = message }

unfoldable pub upgraded_cluster : String → Event
upgraded_cluster message = normal condition_upgrading message

-- the metrics record no event
unfoldable pub event_of : Notice → Option Event
event_of (new_slave_add message) = some (normal condition_scaling message)
event_of (slave_remove message) = some (normal condition_scaling_down message)
event_of create_cluster = some (normal condition_creating "Bootstrap redis cluster")
event_of (update_sentinel_status message) = some (normal condition_updating message)
event_of ensure_cluster = some (normal "Ensure" "Makes sure of redis cluster ready")
event_of check_cluster = some (normal "CheckAndHeal" "Check and heal the redis cluster problems")
event_of (failed_cluster message) = some (warning condition_failed message)
event_of health_cluster = some (normal condition_healthy "Redis cluster is healthy")
event_of (set_cluster_error namespace name) = none
event_of (set_cluster_ok namespace name) = none
