-- ===== src/Samples/Numbers.antt =====
-- Ensure of a standalone redis of which the server stores an older stateful set.
use cndb_redis.Base.{String, [], true, none, ◌≡◌, ok}
use cndb_redis.Ops.{Op}
use cndb_redis.Client.{Services}
use cndb_redis.Standalone.Check.{check_standalone_number}
use cndb_redis.Ensure.Sets.{Settable}
use cndb_redis.Kube.Objects.{StatefulSet}
use cndb_redis.Ensure.Stores.{Grows}
use cndb_redis.Ensure.Calls.{IsReady}
use cndb_redis.Ensure.Standalone.{standalone_ensures}
use cndb_redis.Ensure.Numbers.{kube_services, readiness}
use cndb_redis.Ensure.Single.{OwnedBySingle, IsSingleAccepted, ensure_standalone_settled}
use cndb_redis.Reconcile.Handlers.{ensure_standalone}
use cndb_redis.Samples.Objects.{text_k8s, text_laws, single}
use cndb_redis.Samples.Shelves.{Shelves, shelf_clients, shelf_stores, shelf_answers}
use cndb_redis.Samples.Healing.{client}
use cndb_redis.Samples.Ensures.{labels, refusing, outdated, outdated-HasContainer}
use cndb_redis.Samples.ClusterSets.{one_ready, unheard, still}

shelved : Shelves
shelved = record {
  services = λ namespace name. none;
  config_maps = λ namespace name. none;
  budgets = λ namespace name. none;
  sets = outdated;
}

shelved-Settable :
    (name : String) (wanted : StatefulSet text_k8s)
    → OwnedBySingle single labels [] name wanted
    → Settable shelf_clients shelf_stores.stateful_sets shelf_answers.sets single.metadata.namespace
        name wanted shelved
unfolding shelved
shelved-Settable name wanted (e, _) = record {
  over = λ old h. (outdated-HasContainer old (rw e at h), tt);
  fresh = λ missing. tt;
}

single-IsSingleAccepted : IsSingleAccepted shelf_clients shelf_stores shelf_answers single labels []
single-IsSingleAccepted = record {
  service = tt;
  headless_service = tt;
  monitor_service = λ e. tt;
  redis_config = tt;
  shutdown_config = λ e. tt;
}

shelved-IsReady :
    IsReady shelf_clients shelf_stores shelf_answers single.metadata.namespace
      single.spec.shutdown_config_map
      (OwnedBySingle single labels [])
      shelved
shelved-IsReady = record { settable = shelved-Settable; shutdown = λ own. absurd (cc) }

abbrev services : Services Shelves
services = kube_services shelf_clients refusing one_ready unheard

abbrev ensure : Op Shelves (Unit {0})
ensure =
    ensure_standalone text_k8s services (client (λ ip. true)) still
      (standalone_ensures shelf_clients labels []) single

ensure_standalone_settled_example :
    (w' : Shelves) × (ensure shelved ≡ (ok tt, w'))
    × Grows shelf_stores shelved w'
    × (ensure w' ≡ (ok tt, w'))
    × (check_standalone_number services (client (λ ip. true)) single w'
        ≡ (readiness one_ready single w', w'))
ensure_standalone_settled_example =
    ensure_standalone_settled shelf_clients shelf_stores text_laws shelf_answers single labels []
      single-IsSingleAccepted refusing one_ready unheard (client (λ ip. true)) still shelved
      shelved-IsReady
