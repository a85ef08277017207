-- ===== src/Samples/ClusterSets.antt =====
-- Ensure of a cluster of which the server stores one stateful set with another number of pods.
use cndb_redis.Base.{inl, inr, String, [], true, Option, none, some, ◌≡◌, refl, sym, ◌∙◌, subst, ok}
use cndb_redis.Base.Int.{ℤ, pos}
use cndb_redis.Api.Types.{RedisSentinel}
use cndb_redis.Ops.{Op, ◌>>◌}
use cndb_redis.Util.Names.{generate_name, get_redis_name, get_sentinel_name}
use cndb_redis.Client.{Services, Timer, Notice}
use cndb_redis.Kube.Objects.{StatefulSet}
use cndb_redis.Sentinel.Check.{check_redis_number, check_sentinel_number}
use cndb_redis.Generate.Pods.{redis_container}
use cndb_redis.Generate.StatefulSets.{
  exporter_containers, redis_stateful_set, generate_redis_stateful_set,
}
use cndb_redis.Ensure.{sentinel_ensures}
use cndb_redis.Ensure.Sets.{Settable, HasContainer}
use cndb_redis.Ensure.Stores.{Grows}
use cndb_redis.Ensure.Calls.{IsReady}
use cndb_redis.Ensure.Whole.{OwnedBy, IsAccepted}
use cndb_redis.Ensure.ClusterNumbers.{cluster_readiness, ensure_sentinel_settled}
use cndb_redis.Ensure.Healing.{heal_or_wait, ensure_sentinel-check_and_heal}
use cndb_redis.Sentinel.Handler.{check_and_heal}
use cndb_redis.Cache.{create}
use cndb_redis.Ensure.Numbers.{kube_services}
use cndb_redis.Reconcile.Handlers.{ensure_sentinel}
use cndb_redis.Samples.Objects.{text_k8s, text_laws, cluster}
use cndb_redis.Samples.Servers.{put}
use cndb_redis.Samples.Shelves.{Shelves, shelf_clients, shelf_stores, shelf_answers}
use cndb_redis.Samples.Healing.{client}
use cndb_redis.Samples.Ensures.{labels, refusing, nothing}

abbrev rc : RedisSentinel text_k8s
rc = cluster 1 (pos 3) "secret"

generated : StatefulSet text_k8s
generated = generate_redis_stateful_set rc labels []

-- seven pods where three are wanted, and nothing else is there
scaled : Shelves
scaled = record {
  services = λ namespace name. none;
  config_maps = λ namespace name. none;
  budgets = λ namespace name. none;
  sets = put (record generated { replicas = pos 7 }) nothing;
}

scaled_at :
    scaled.sets rc.metadata.namespace (get_redis_name rc)
    ≡ some (record generated { replicas = pos 7 })
unfolding scaled generated generate_redis_stateful_set redis_stateful_set get_redis_name
    generate_name
scaled_at = refl

scaled_missing : scaled.sets rc.metadata.namespace (get_sentinel_name rc) ≡ none
unfolding scaled generated generate_redis_stateful_set redis_stateful_set get_redis_name
    get_sentinel_name generate_name
scaled_missing = refl

redis-HasContainer :
    (ss : StatefulSet text_k8s)
    → scaled.sets rc.metadata.namespace (get_redis_name rc) ≡ some ss
    → HasContainer ss
unfolding generated generate_redis_stateful_set redis_stateful_set
redis-HasContainer ss h =
    subst
      (λ (o : Option (StatefulSet text_k8s)). elim o [ none ↦ Unit {0} | some s ↦ HasContainer s ])
      (sym scaled_at ∙ h)
      (redis_container rc.spec.common _ _, exporter_containers text_k8s rc.spec.common, refl)

OwnedBy-Settable :
    (name : String) (wanted : StatefulSet text_k8s)
    → OwnedBy rc labels [] name wanted
    → Settable shelf_clients shelf_stores.stateful_sets shelf_answers.sets rc.metadata.namespace
        name wanted scaled
OwnedBy-Settable name wanted (inl (e, _)) = record {
  over = λ old h. (redis-HasContainer old (rw e at h), tt);
  fresh = λ missing. tt;
}
OwnedBy-Settable name wanted (inr (e, _)) = record {
  over = λ old h. absurd (let h' = rw e at h in let e' = sym scaled_missing ∙ h' in cc);
  fresh = λ missing. tt;
}

scaled-IsAccepted : IsAccepted shelf_clients shelf_stores shelf_answers rc labels []
scaled-IsAccepted = record {
  redis_service = tt;
  sentinel_service = tt;
  headless_service = tt;
  monitor_service = λ e. tt;
  sentinel_config = tt;
  probe_config = tt;
  shutdown_config = λ e. tt;
  redis_budget = tt;
  sentinel_budget = tt;
}

scaled-IsReady :
    IsReady shelf_clients shelf_stores shelf_answers rc.metadata.namespace
      rc.spec.common.shutdown_config_map
      (OwnedBy rc labels [])
      scaled
scaled-IsReady = record { settable = OwnedBy-Settable; shutdown = λ own. absurd (cc) }

abbrev pub one_ready : Shelves → String → String → ℤ
one_ready w namespace name = pos 1

abbrev pub unheard : Notice → Shelves → Shelves
unheard notice w = w

abbrev pub still : Timer Shelves
still = record { now = λ w. 0; sleep = λ n w. w }

abbrev services : Services Shelves
services = kube_services shelf_clients refusing one_ready unheard

abbrev ensure : Op Shelves (Unit {0})
ensure =
    ensure_sentinel text_k8s services (client (λ ip. true)) still
      (sentinel_ensures shelf_clients labels []) rc

ensure_sentinel_settled_example :
    (w' : Shelves) × (ensure scaled ≡ (ok tt, w'))
    × Grows shelf_stores scaled w'
    × (ensure w' ≡ (ok tt, w'))
    × (check_redis_number services (client (λ ip. true)) rc w'
        ≡ (cluster_readiness one_ready rc w', w'))
    × (check_sentinel_number services (client (λ ip. true)) rc w' ≡ (ok tt, w'))
ensure_sentinel_settled_example =
    ensure_sentinel_settled shelf_clients refusing one_ready unheard (client (λ ip. true)) still
      shelf_stores text_laws shelf_answers rc labels [] scaled scaled-IsAccepted scaled-IsReady

ensure_sentinel-check_and_heal_example :
    (w' : Shelves) × (ensure scaled ≡ (ok tt, w'))
    × ((ensure >> check_and_heal services (client (λ ip. true)) still rc "secret" create) scaled
        ≡ heal_or_wait services (client (λ ip. true)) still rc "secret" create one_ready w')
ensure_sentinel-check_and_heal_example =
    ensure_sentinel-check_and_heal shelf_clients refusing one_ready unheard (client (λ ip. true))
      still shelf_stores text_laws shelf_answers rc labels [] "secret" create scaled
      scaled-IsAccepted scaled-IsReady
