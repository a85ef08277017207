-- ===== src/Ensure/Single.antt =====
-- Ensure of controllers/redisstandalone_handler.go over the clients of the service, and CheckRedisNumber
-- after it.
use cndb_redis.Base.{str_eq, String, true, List, ◌≡◌, refl, ok}
use cndb_redis.Base.Int.{ℤ}
use cndb_redis.Base.Dict.{Dict}
use cndb_redis.Api.Types.{K8s, K8sLaws, RedisStandalone}
use cndb_redis.Ops.Settles.{Settles, when-Settles}
use cndb_redis.Client.{Services, RedisClient, Timer, Notice, Pod}
use cndb_redis.Kube.Crud.{ObjectClient}
use cndb_redis.Kube.Objects.{StatefulSet}
use cndb_redis.Generate.Standalone.{
  generate_standalone_stateful_set, generate_standalone_service,
  generate_standalone_headless_service, generate_standalone_monitor_service,
  generate_standalone_config_map, generate_standalone_shutdown_config_map,
}
use cndb_redis.Standalone.Check.{get_standalone_redis_name, check_standalone_number}
use cndb_redis.Ensure.{KubeClients}
use cndb_redis.Ensure.Standalone.{
  ensure_standalone_object_service, ensure_standalone_service, ensure_standalone_headless_service,
  ensure_standalone_monitor_service, ensure_standalone_config_map,
  ensure_standalone_shutdown_config_map, ensure_standalone_statefulset, standalone_changed,
  standalone_ensures,
}
use cndb_redis.Ensure.Stores.{Stores, Answers, Grows, Beside-refl}
use cndb_redis.Ensure.Calls.{
  IsReady, ServiceIsThere, MapIsThere, ShutdownIsThere, service-lasts, map-lasts,
  ShutdownIsThere-lasts, Service-Settles, ConfigMap-Settles, Shutdown-Settles, before-Settles,
}
use cndb_redis.Ensure.OneSet.{Set-Settles}
use cndb_redis.Ensure.Converge.{wanted-IsTarget, IsInPlace}
use cndb_redis.Ensure.Numbers.{kube_services, readiness, check_standalone_number-in_place}
use cndb_redis.Reconcile.Handlers.{ensure_standalone}

-- the stateful set of a standalone redis
abbrev pub OwnedBySingle :
    {k : K8s}
    → RedisStandalone k
    → Dict String
    → List k.OwnerReference
    → String
    → StatefulSet k
    → Type 0
OwnedBySingle rc labels owner_refs name wanted =
    (name ≡ get_standalone_redis_name rc)
    × (wanted ≡ generate_standalone_stateful_set rc labels owner_refs)

-- the server carries out a create of every other object of a standalone redis; Kubernetes does not,
-- for instance, where the name of a service is too long
pub record IsSingleAccepted {k : K8s} {W : Type 0} (clients : KubeClients k W) (stores : Stores k W)
    (answers : Answers stores clients) (rc : RedisStandalone k) (labels : Dict String)
    (owner_refs : List k.OwnerReference) : Type 0 where
  pub service : answers.services.accepts (generate_standalone_service rc labels owner_refs)
  pub headless_service :
      answers.services.accepts (generate_standalone_headless_service rc labels owner_refs)
  pub monitor_service :
      rc.spec.exporter.enabled ≡ true
      → answers.services.accepts (generate_standalone_monitor_service rc labels owner_refs)
  pub redis_config :
      answers.config_maps.accepts (generate_standalone_config_map rc labels owner_refs)
  pub shutdown_config :
      str_eq rc.spec.shutdown_config_map "" ≡ true
      → answers.config_maps.accepts (generate_standalone_shutdown_config_map rc labels owner_refs)

module _ {k : K8s} {W : Type 0} (clients : KubeClients k W) (stores : Stores k W) (laws : K8sLaws k)
    (answers : Answers stores clients) (rc : RedisStandalone k) (labels : Dict String)
    (owner_refs : List k.OwnerReference)
    (accepted : IsSingleAccepted clients stores answers rc labels owner_refs) where
  abbrev SingleIsReady : W → Type 0
  SingleIsReady =
      IsReady clients stores answers rc.metadata.namespace rc.spec.shutdown_config_map
        (OwnedBySingle rc labels owner_refs)

  abbrev SingleInPlace : W → Type 0
  SingleInPlace =
      IsInPlace clients stores.stateful_sets laws answers.sets answers.unversioned rc labels
        owner_refs

  last_call :
      Settles
        (Grows stores)
        SingleIsReady
        (ensure_standalone_statefulset clients labels owner_refs rc)
        SingleInPlace
  unfolding ensure_standalone_statefulset
  last_call =
      let set =
        Set-Settles clients stores laws answers rc.metadata.namespace (get_standalone_redis_name rc)
          _ (standalone_changed clients labels owner_refs rc)
          (wanted-IsTarget clients stores.stateful_sets laws answers.sets answers.unversioned rc
            labels owner_refs) in
      record {
        run = λ w ready.
            let (w', ran, only, in_place) = set.run w (ready.settable _ _ (refl, refl)) in
            (w', ran, only.grows, in_place);
        again = set.again;
      }

  abbrev IsServed : String → W → Type 0
  IsServed =
      ServiceIsThere clients stores answers rc.metadata.namespace rc.spec.shutdown_config_map
        (OwnedBySingle rc labels owner_refs)

  -- what is there once Ensure has run, in its order
  abbrev SingleIsEnsured : W → Type 0
  SingleIsEnsured w =
      IsServed (generate_standalone_service rc labels owner_refs).metadata.name w
      × (IsServed (generate_standalone_headless_service rc labels owner_refs).metadata.name w
          × (MapIsThere clients stores answers rc.metadata.namespace rc.spec.shutdown_config_map
                (OwnedBySingle rc labels owner_refs)
                (generate_standalone_config_map rc labels owner_refs).metadata.name w
              × (ShutdownIsThere clients stores answers rc.metadata.namespace
                    rc.spec.shutdown_config_map (OwnedBySingle rc labels owner_refs)
                    (generate_standalone_shutdown_config_map rc labels owner_refs).metadata.name w
                  × ((rc.spec.exporter.enabled ≡ true
                        → IsServed
                            (generate_standalone_monitor_service rc labels owner_refs).metadata.name
                            w)
                      × SingleInPlace w))))

  ensure_standalone-Settles :
      (api : Services W) (redis : RedisClient W) (timer : Timer W)
      → Settles
          (Grows stores)
          SingleIsReady
          (ensure_standalone k api redis timer (standalone_ensures clients labels owner_refs) rc)
          SingleIsEnsured
  unfolding ensure_standalone ensure_standalone_object_service ensure_standalone_service
      ensure_standalone_headless_service ensure_standalone_monitor_service
      ensure_standalone_config_map ensure_standalone_shutdown_config_map
  ensure_standalone-Settles api redis timer =
      let namespace = rc.metadata.namespace in
      let own = rc.spec.shutdown_config_map in
      let service =
        Service-Settles clients stores answers namespace own (OwnedBySingle rc labels owner_refs) in
      let lasts =
        service-lasts clients stores answers namespace own (OwnedBySingle rc labels owner_refs) in
      let step =
        before-Settles clients stores answers namespace own (OwnedBySingle rc labels owner_refs) in
      step _ _ _ _ (lasts _)
        (service (generate_standalone_service rc labels owner_refs) accepted.service
          (unfold generate_standalone_service in refl))
        (step _ _ _ _ (lasts _)
          (service (generate_standalone_headless_service rc labels owner_refs)
            accepted.headless_service (unfold generate_standalone_headless_service in refl))
          (step _ _ _ _
            (map-lasts clients stores answers namespace own (OwnedBySingle rc labels owner_refs) _)
            (ConfigMap-Settles clients stores answers namespace own
              (OwnedBySingle rc labels owner_refs)
              (generate_standalone_config_map rc labels owner_refs) accepted.redis_config
              (unfold generate_standalone_config_map in refl))
            (step _ _ _ _
              (ShutdownIsThere-lasts clients stores answers namespace own
                (OwnedBySingle rc labels owner_refs) _)
              (Shutdown-Settles clients stores answers namespace own
                (OwnedBySingle rc labels owner_refs)
                (generate_standalone_shutdown_config_map rc labels owner_refs)
                accepted.shutdown_config (unfold generate_standalone_shutdown_config_map in refl))
              (step _ _ _ _ (λ w v h there e. lasts _ w v h (there e))
                (when-Settles rc.spec.exporter.enabled _ (Beside-refl stores) (λ e.
                  service (generate_standalone_monitor_service rc labels owner_refs)
                    (accepted.monitor_service e)
                    (unfold generate_standalone_monitor_service in refl)))
                last_call))))

  module _ (pods : ObjectClient Pod W) (ready : W → String → String → ℤ) (emit : Notice → W → W)
      (redis : RedisClient W) (timer : Timer W) where
    -- Ensure of a standalone redis succeeds, and it removes or changes no service, config map or
    -- disruption budget that is there. Run again it leaves the server as it is, so one run settles
    -- all of its six calls, and CheckRedisNumber over the same client never finds another number of
    -- pods than the specification has: it succeeds when all of them are ready and otherwise waits
    -- for them. This is so for every state of the server in which the stateful set, if it is
    -- stored, is not without containers, and the config map that the user names for the shutdown
    -- script, if any, is there, provided that the server answers by the API conventions and carries
    -- out, as they are sent, the writes that it is asked for: that it refuses none, for a name that
    -- is too long or a field that must not change, and fills in no fields.
    pub ensure_standalone_settled :
        (w : W)
        → IsReady clients stores answers rc.metadata.namespace rc.spec.shutdown_config_map
            (OwnedBySingle rc labels owner_refs)
            w
        → let services = kube_services clients pods ready emit in
          let ensure =
            ensure_standalone k services redis timer
              (standalone_ensures clients labels owner_refs)
              rc in
          (w' : W) × (ensure w ≡ (ok tt, w'))
          × Grows stores w w'
          × (ensure w' ≡ (ok tt, w'))
          × (check_standalone_number services redis rc w' ≡ (readiness ready rc w', w'))
    ensure_standalone_settled w h =
        let services = kube_services clients pods ready emit in
        let settles = ensure_standalone-Settles services redis timer in
        let (w', ran, grows, done) = settles.run w h in
        (
          w',
          ran,
          grows,
          settles.again w' done,
          check_standalone_number-in_place clients pods ready emit redis stores.stateful_sets laws
              answers.sets answers.unversioned rc labels owner_refs w' done.1.1.1.1.1,
        )
