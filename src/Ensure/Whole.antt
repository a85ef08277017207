-- ===== src/Ensure/Whole.antt =====
-- Ensure of controllers/redissentinel_handler.go over the clients of the service, run again and again.
use cndb_redis.Base.{str_eq, ◌⊎◌, inl, inr, String, true, List, ◌≡◌, refl}
use cndb_redis.Base.Dict.{Dict}
use cndb_redis.Api.Types.{K8s, K8sLaws, RedisSentinel}
use cndb_redis.Ops.{◌>>◌}
use cndb_redis.Ops.Settles.{Settles, when-Settles}
use cndb_redis.Client.{Services, RedisClient, Timer}
use cndb_redis.Util.Names.{get_redis_name, get_sentinel_name}
use cndb_redis.Ensure.{
  ensure_service, ensure_config_map, KubeClients, ensure_redis_shutdown_config_map,
  sentinel_ensures, ensure_redis_statefulset, ensure_sentinel_statefulset, ensure_redis_service,
  ensure_sentinel_service, ensure_sentinel_headless_service, ensure_redis_monitor_service,
  ensure_sentinel_config_map, ensure_sentinel_probe_config_map,
}
use cndb_redis.Generate.Services.{
  generate_redis_service, generate_sentinel_service, new_head_less_svc_for_cr,
  generate_redis_monitor_service,
}
use cndb_redis.Generate.ConfigMaps.{
  config_map_of, generate_sentinel_config_map, generate_sentinel_readiness_probe_config_map,
  generate_redis_shutdown_config_map,
}
use cndb_redis.Ensure.Stores.{Stores, Answers, Grows, Beside-refl}
use cndb_redis.Kube.Objects.{StatefulSet}
use cndb_redis.Generate.StatefulSets.{generate_redis_stateful_set, generate_sentinel_stateful_set}
use cndb_redis.Ensure.Clusters.{
  budget_of, RedisSettled, SentinelSettled, ensure_statefulsets-Settles,
}
use cndb_redis.Reconcile.Handlers.{ensure_sentinel}
use cndb_redis.Ensure.Calls.{
  IsReady, ServiceIsThere, MapIsThere, ShutdownIsThere, service-lasts, map-lasts,
  ShutdownIsThere-lasts, Service-Settles, ConfigMap-Settles, Shutdown-Settles, before-Settles,
}

-- the stateful sets of a cluster
abbrev pub OwnedBy :
    {k : K8s}
    → RedisSentinel k
    → Dict String
    → List k.OwnerReference
    → String
    → StatefulSet k
    → Type 0
OwnedBy rc labels owner_refs name wanted =
    ((name ≡ get_redis_name rc) × (wanted ≡ generate_redis_stateful_set rc labels owner_refs))
    ⊎ ((name ≡ get_sentinel_name rc)
        × (wanted ≡ generate_sentinel_stateful_set rc labels owner_refs))

-- the server carries out a create of every other object of a cluster; Kubernetes does not, for
-- instance, where the name of a service is too long
pub record IsAccepted {k : K8s} {W : Type 0} (clients : KubeClients k W) (stores : Stores k W)
    (answers : Answers stores clients) (rc : RedisSentinel k) (labels : Dict String)
    (owner_refs : List k.OwnerReference) : Type 0 where
  pub redis_service : answers.services.accepts (generate_redis_service rc labels owner_refs)
  pub sentinel_service : answers.services.accepts (generate_sentinel_service rc labels owner_refs)
  pub headless_service : answers.services.accepts (new_head_less_svc_for_cr rc labels owner_refs)
  pub monitor_service :
      rc.spec.common.exporter.enabled ≡ true
      → answers.services.accepts (generate_redis_monitor_service rc labels owner_refs)
  pub sentinel_config :
      answers.config_maps.accepts (generate_sentinel_config_map rc labels owner_refs)
  pub probe_config :
      answers.config_maps.accepts
        (generate_sentinel_readiness_probe_config_map rc labels owner_refs)
  pub shutdown_config :
      str_eq rc.spec.common.shutdown_config_map "" ≡ true
      → answers.config_maps.accepts (generate_redis_shutdown_config_map rc labels owner_refs)
  pub redis_budget : answers.budgets.accepts (budget_of rc labels owner_refs "-cluster" "redis")
  pub sentinel_budget :
      answers.budgets.accepts (budget_of rc labels owner_refs "-sentinel" "sentinel")

module _ {k : K8s} {W : Type 0} (api : Services W) (redis : RedisClient W) (timer : Timer W)
    (clients : KubeClients k W) (stores : Stores k W) (laws : K8sLaws k)
    (answers : Answers stores clients) (rc : RedisSentinel k) (labels : Dict String)
    (owner_refs : List k.OwnerReference)
    (accepted : IsAccepted clients stores answers rc labels owner_refs) where
  -- what is there once Ensure has run, in its order
  abbrev pub IsEnsured : W → Type 0
  IsEnsured w =
      ServiceIsThere clients stores answers rc.metadata.namespace rc.spec.common.shutdown_config_map
        (OwnedBy rc labels owner_refs) (generate_redis_service rc labels owner_refs).metadata.name w
      × (ServiceIsThere clients stores answers rc.metadata.namespace
            rc.spec.common.shutdown_config_map (OwnedBy rc labels owner_refs)
            (generate_sentinel_service rc labels owner_refs).metadata.name w
          × (ServiceIsThere clients stores answers rc.metadata.namespace
                rc.spec.common.shutdown_config_map (OwnedBy rc labels owner_refs)
                (new_head_less_svc_for_cr rc labels owner_refs).metadata.name w
              × ((rc.spec.common.exporter.enabled ≡ true
                    → ServiceIsThere clients stores answers rc.metadata.namespace
                        rc.spec.common.shutdown_config_map (OwnedBy rc labels owner_refs)
                        (generate_redis_monitor_service rc labels owner_refs).metadata.name w)
                  × (MapIsThere clients stores answers rc.metadata.namespace
                        rc.spec.common.shutdown_config_map (OwnedBy rc labels owner_refs)
                        (generate_sentinel_config_map rc labels owner_refs).metadata.name w
                      × (MapIsThere clients stores answers rc.metadata.namespace
                            rc.spec.common.shutdown_config_map (OwnedBy rc labels owner_refs)
                            (generate_sentinel_readiness_probe_config_map rc labels
                              owner_refs).metadata.name
                            w
                          × (ShutdownIsThere clients stores answers rc.metadata.namespace
                                rc.spec.common.shutdown_config_map (OwnedBy rc labels owner_refs)
                                (generate_redis_shutdown_config_map rc labels
                                  owner_refs).metadata.name
                                w
                              × (RedisSettled clients stores rc labels owner_refs w
                                  × SentinelSettled clients stores rc labels owner_refs w)))))))

  last_two :
      Settles
        (Grows stores)
        (IsReady clients stores answers rc.metadata.namespace rc.spec.common.shutdown_config_map
          (OwnedBy rc labels owner_refs))
        (ensure_redis_statefulset clients labels owner_refs rc
          >> ensure_sentinel_statefulset clients labels owner_refs rc)
        (λ w.
          RedisSettled clients stores rc labels owner_refs w
          × SentinelSettled clients stores rc labels owner_refs w)
  last_two =
      let both =
        ensure_statefulsets-Settles clients stores laws answers rc labels owner_refs
          accepted.redis_budget accepted.sentinel_budget in
      record {
        run = λ w ready.
            both.run w
              (ready.settable _ _ (inl (refl, refl)), ready.settable _ _ (inr (refl, refl)));
        again = both.again;
      }

  pub ensure_sentinel-Settles :
      Settles
        (Grows stores)
        (IsReady clients stores answers rc.metadata.namespace rc.spec.common.shutdown_config_map
          (OwnedBy rc labels owner_refs))
        (ensure_sentinel k api redis timer (sentinel_ensures clients labels owner_refs) rc)
        IsEnsured
  unfolding ensure_sentinel ensure_service ensure_config_map ensure_redis_service
      ensure_sentinel_service ensure_sentinel_headless_service ensure_redis_monitor_service
      ensure_sentinel_config_map ensure_sentinel_probe_config_map ensure_redis_shutdown_config_map
  ensure_sentinel-Settles =
      let service =
        Service-Settles clients stores answers rc.metadata.namespace
          rc.spec.common.shutdown_config_map (OwnedBy rc labels owner_refs) in
      let map =
        ConfigMap-Settles clients stores answers rc.metadata.namespace
          rc.spec.common.shutdown_config_map (OwnedBy rc labels owner_refs) in
      let service-lasts =
        service-lasts clients stores answers rc.metadata.namespace
          rc.spec.common.shutdown_config_map (OwnedBy rc labels owner_refs) in
      let map-lasts =
        map-lasts clients stores answers rc.metadata.namespace rc.spec.common.shutdown_config_map
          (OwnedBy rc labels owner_refs) in
      let step =
        before-Settles clients stores answers rc.metadata.namespace
          rc.spec.common.shutdown_config_map (OwnedBy rc labels owner_refs) in
      step _ _ _ _ (service-lasts _)
        (service (generate_redis_service rc labels owner_refs) accepted.redis_service
          (unfold generate_redis_service in refl))
        (step _ _ _ _ (service-lasts _)
          (service (generate_sentinel_service rc labels owner_refs) accepted.sentinel_service
            (unfold generate_sentinel_service in refl))
          (step _ _ _ _ (service-lasts _)
            (service (new_head_less_svc_for_cr rc labels owner_refs) accepted.headless_service
              (unfold new_head_less_svc_for_cr in refl))
            (step _ _ _ _ (λ w v h there e. service-lasts _ w v h (there e))
              (when-Settles rc.spec.common.exporter.enabled _ (Beside-refl stores) (λ e.
                service (generate_redis_monitor_service rc labels owner_refs)
                  (accepted.monitor_service e) (unfold generate_redis_monitor_service in refl)))
              (step _ _ _ _ (map-lasts _)
                (map (generate_sentinel_config_map rc labels owner_refs) accepted.sentinel_config
                  (unfold generate_sentinel_config_map config_map_of in refl))
                (step _ _ _ _ (map-lasts _)
                  (map (generate_sentinel_readiness_probe_config_map rc labels owner_refs)
                    accepted.probe_config
                    (unfold generate_sentinel_readiness_probe_config_map config_map_of in refl))
                  (step _ _ _ _
                    (ShutdownIsThere-lasts clients stores answers rc.metadata.namespace
                      rc.spec.common.shutdown_config_map (OwnedBy rc labels owner_refs) _)
                    (Shutdown-Settles clients stores answers rc.metadata.namespace
                      rc.spec.common.shutdown_config_map (OwnedBy rc labels owner_refs)
                      (generate_redis_shutdown_config_map rc labels owner_refs)
                      accepted.shutdown_config
                      (unfold generate_redis_shutdown_config_map config_map_of in refl))
                    last_two))))))
