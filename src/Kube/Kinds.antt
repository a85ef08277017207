-- ===== src/Kube/Kinds.antt =====
-- The services of pkg/client/k8s, kind by kind: statefulset.go, deployment.go, configmap.go, service.go,
-- pod.go, poddisruptionbudget.go and namespaces.go repeat the same code.
use cndb_redis.Base.{String, List}
use cndb_redis.Base.Dict.{Dict}
use cndb_redis.Ops.{Op}
use cndb_redis.Kube.Crud.{
  ObjectKind, ObjectClient, get_object, create_object, update_object, delete_object, list_objects,
  create_or_update_object, create_if_not_exists_object, get_object_pods,
}

-- statefulset.go
module _ {O W : Type 0} (client : ObjectClient O W) where
  unfoldable pub get_stateful_set : String → String → Op W O
  unfolding get_object
  get_stateful_set = get_object client

  unfoldable pub create_stateful_set : String → O → Op W (Unit {0})
  unfolding create_object
  create_stateful_set = create_object client

  unfoldable pub update_stateful_set : String → O → Op W (Unit {0})
  unfolding update_object
  update_stateful_set = update_object client

  unfoldable pub create_or_update_stateful_set : ObjectKind O → String → O → Op W (Unit {0})
  unfolding create_or_update_object
  create_or_update_stateful_set = create_or_update_object client

  unfoldable pub create_if_not_exists_stateful_set : ObjectKind O → String → O → Op W (Unit {0})
  unfolding create_if_not_exists_object
  create_if_not_exists_stateful_set = create_if_not_exists_object client

  unfoldable pub delete_stateful_set : String → String → Op W (Unit {0})
  unfolding delete_object
  delete_stateful_set = delete_object client

  unfoldable pub list_stateful_sets : String → Op W (List O)
  unfolding list_objects
  list_stateful_sets = list_objects client

  unfoldable pub get_stateful_set_pods :
      {P : Type 0} → ObjectClient P W → (O → Dict String) → String → String → Op W (List P)
  unfolding get_object_pods
  get_stateful_set_pods = get_object_pods client

-- deployment.go
module _ {O W : Type 0} (client : ObjectClient O W) where
  unfoldable pub get_deployment : String → String → Op W O
  unfolding get_object
  get_deployment = get_object client

  unfoldable pub create_deployment : String → O → Op W (Unit {0})
  unfolding create_object
  create_deployment = create_object client

  unfoldable pub update_deployment : String → O → Op W (Unit {0})
  unfolding update_object
  update_deployment = update_object client

  unfoldable pub create_or_update_deployment : ObjectKind O → String → O → Op W (Unit {0})
  unfolding create_or_update_object
  create_or_update_deployment = create_or_update_object client

  unfoldable pub delete_deployment : String → String → Op W (Unit {0})
  unfolding delete_object
  delete_deployment = delete_object client

  unfoldable pub list_deployments : String → Op W (List O)
  unfolding list_objects
  list_deployments = list_objects client

  unfoldable pub get_deployment_pods :
      {P : Type 0} → ObjectClient P W → (O → Dict String) → String → String → Op W (List P)
  unfolding get_object_pods
  get_deployment_pods = get_object_pods client

-- configmap.go
module _ {O W : Type 0} (client : ObjectClient O W) where
  unfoldable pub get_config_map : String → String → Op W O
  unfolding get_object
  get_config_map = get_object client

  unfoldable pub create_config_map : String → O → Op W (Unit {0})
  unfolding create_object
  create_config_map = create_object client

  unfoldable pub update_config_map : String → O → Op W (Unit {0})
  unfolding update_object
  update_config_map = update_object client

  unfoldable pub create_or_update_config_map : ObjectKind O → String → O → Op W (Unit {0})
  unfolding create_or_update_object
  create_or_update_config_map = create_or_update_object client

  unfoldable pub create_if_not_exists_config_map : ObjectKind O → String → O → Op W (Unit {0})
  unfolding create_if_not_exists_object
  create_if_not_exists_config_map = create_if_not_exists_object client

  unfoldable pub delete_config_map : String → String → Op W (Unit {0})
  unfolding delete_object
  delete_config_map = delete_object client

  unfoldable pub list_config_maps : String → Op W (List O)
  unfolding list_objects
  list_config_maps = list_objects client

-- service.go
module _ {O W : Type 0} (client : ObjectClient O W) where
  unfoldable pub get_service : String → String → Op W O
  unfolding get_object
  get_service = get_object client

  unfoldable pub create_service : String → O → Op W (Unit {0})
  unfolding create_object
  create_service = create_object client

  unfoldable pub update_service : String → O → Op W (Unit {0})
  unfolding update_object
  update_service = update_object client

  unfoldable pub create_or_update_service : ObjectKind O → String → O → Op W (Unit {0})
  unfolding create_or_update_object
  create_or_update_service = create_or_update_object client

  unfoldable pub create_if_not_exists_service : ObjectKind O → String → O → Op W (Unit {0})
  unfolding create_if_not_exists_object
  create_if_not_exists_service = create_if_not_exists_object client

  unfoldable pub delete_service : String → String → Op W (Unit {0})
  unfolding delete_object
  delete_service = delete_object client

  unfoldable pub list_services : String → Op W (List O)
  unfolding list_objects
  list_services = list_objects client

-- pod.go
module _ {O W : Type 0} (client : ObjectClient O W) where
  unfoldable pub get_pod : String → String → Op W O
  unfolding get_object
  get_pod = get_object client

  unfoldable pub create_pod : String → O → Op W (Unit {0})
  unfolding create_object
  create_pod = create_object client

  unfoldable pub update_pod : String → O → Op W (Unit {0})
  unfolding update_object
  update_pod = update_object client

  unfoldable pub create_or_update_pod : ObjectKind O → String → O → Op W (Unit {0})
  unfolding create_or_update_object
  create_or_update_pod = create_or_update_object client

  unfoldable pub delete_pod : String → String → Op W (Unit {0})
  unfolding delete_object
  delete_pod = delete_object client

  unfoldable pub list_pods : String → Op W (List O)
  unfolding list_objects
  list_pods = list_objects client

-- poddisruptionbudget.go
module _ {O W : Type 0} (client : ObjectClient O W) where
  unfoldable pub get_pod_disruption_budget : String → String → Op W O
  unfolding get_object
  get_pod_disruption_budget = get_object client

  unfoldable pub create_pod_disruption_budget : String → O → Op W (Unit {0})
  unfolding create_object
  create_pod_disruption_budget = create_object client

  unfoldable pub update_pod_disruption_budget : String → O → Op W (Unit {0})
  unfolding update_object
  update_pod_disruption_budget = update_object client

  unfoldable pub create_or_update_pod_disruption_budget :
      ObjectKind O → String → O → Op W (Unit {0})
  unfolding create_or_update_object
  create_or_update_pod_disruption_budget = create_or_update_object client

  unfoldable pub create_if_not_exists_pod_disruption_budget :
      ObjectKind O → String → O → Op W (Unit {0})
  unfolding create_if_not_exists_object
  create_if_not_exists_pod_disruption_budget = create_if_not_exists_object client

  unfoldable pub delete_pod_disruption_budget : String → String → Op W (Unit {0})
  unfolding delete_object
  delete_pod_disruption_budget = delete_object client

-- namespaces.go: a namespace is asked for by its name, twice
unfoldable pub get_name_space : {O W : Type 0} → ObjectClient O W → String → Op W O
unfolding get_object
get_name_space client namespace = get_object client namespace namespace
