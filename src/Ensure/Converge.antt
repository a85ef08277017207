-- ===== src/Ensure/Converge.antt =====
-- Ensuring the stateful set of a standalone redis twice, against a server that answers.
use cndb_redis.Base.{String, Option, List, ◌≡◌, refl, ap, ok}
use cndb_redis.Base.Dict.{Dict}
use cndb_redis.Api.Types.{K8s, K8sLaws, RedisStandalone}
use cndb_redis.Kube.Server.{Serves}
use cndb_redis.Kube.Objects.{StatefulSet, stateful_set_kind}
use cndb_redis.Generate.Pods.{redis_container}
use cndb_redis.Generate.StatefulSets.{redis_stateful_set, exporter_containers}
use cndb_redis.Generate.Standalone.{generate_standalone_stateful_set}
use cndb_redis.Standalone.Check.{get_standalone_redis_name}
use cndb_redis.Ensure.{KubeClients, has_exporter}
use cndb_redis.Ensure.Settled.{IsWanted, changed-same}
use cndb_redis.Ensure.Sets.{
  without_version, Settable, IsTarget, AcceptsUnversioned, InPlace, ensure_stateful_set-kept,
  ensure_stateful_set-InPlace,
}
use cndb_redis.Ensure.Standalone.{
  standalone_should_update, standalone_exporter_changed, standalone_changed,
  ensure_standalone_statefulset,
}

module _ {k : K8s} {W : Type 0} (clients : KubeClients k W)
    (stored : W → String → String → Option (StatefulSet k)) (laws : K8sLaws k)
    (server : Serves (stateful_set_kind k) without_version clients.stateful_sets stored)
    (unversioned : AcceptsUnversioned clients stored server) (rc : RedisStandalone k)
    (labels : Dict String) (owner_refs : List k.OwnerReference) where
  abbrev pub wanted : StatefulSet k
  wanted = generate_standalone_stateful_set rc labels owner_refs

  kept-IsWanted :
      (ss : StatefulSet k) → without_version ss ≡ without_version wanted → IsWanted laws rc.spec ss
  unfolding generate_standalone_stateful_set redis_stateful_set exporter_containers
  kept-IsWanted ss h = record {
    redis = redis_container rc.spec _ _;
    containers = ap (λ (o : StatefulSet k). o.template.spec.containers) h;
    not_exporter = unfold has_exporter redis_container in refl;
    resources = unfold redis_container in refl;
    replicas = ap (λ (o : StatefulSet k). o.replicas) h;
  }

  pub wanted-IsTarget :
      IsTarget rc.metadata.namespace
        (get_standalone_redis_name rc)
        wanted
        (standalone_changed clients labels owner_refs rc)
  unfolding generate_standalone_stateful_set redis_stateful_set standalone_changed
      standalone_should_update standalone_exporter_changed
  wanted-IsTarget = record {
    in_namespace = refl;
    named = refl;
    without = refl;
    settles = λ ss h.
        let w = kept-IsWanted ss h in
        (w.redis, exporter_containers k rc.spec, w.containers, changed-same laws rc.spec ss w);
  }

  abbrev pub IsInPlace : W → Type 0
  IsInPlace =
      InPlace clients stored rc.metadata.namespace (get_standalone_redis_name rc)
        (standalone_changed clients labels owner_refs rc)

  -- one run puts the set in place, whatever set the server stores to begin with
  pub ensure_standalone_statefulset-IsInPlace :
      (w : W)
      → Settable clients stored server rc.metadata.namespace (get_standalone_redis_name rc) wanted w
      → (w' : W) × (ensure_standalone_statefulset clients labels owner_refs rc w ≡ (ok tt, w'))
        × IsInPlace w'
  unfolding ensure_standalone_statefulset
  ensure_standalone_statefulset-IsInPlace w populated =
      let (w', ensured, in_place, _) =
        ensure_stateful_set-InPlace clients stored laws server unversioned rc.metadata.namespace
          (get_standalone_redis_name rc) wanted (standalone_changed clients labels owner_refs rc)
          wanted-IsTarget w populated in
      (w', ensured, in_place)

  -- EnsureRedisStatefulset of a standalone redis succeeds, and run again it leaves the server as it
  -- is: one run settles it. The server answers by the API conventions and carries out the write of the
  -- set as it is sent, and the set, if one is stored, is not without containers.
  pub ensure_standalone_statefulset_twice :
      (w : W)
      → Settable clients stored server rc.metadata.namespace (get_standalone_redis_name rc) wanted w
      → (w' : W) × (ensure_standalone_statefulset clients labels owner_refs rc w ≡ (ok tt, w'))
        × (ensure_standalone_statefulset clients labels owner_refs rc w' ≡ (ok tt, w'))
  unfolding ensure_standalone_statefulset
  ensure_standalone_statefulset_twice w populated =
      let (w', ensured, in_place) = ensure_standalone_statefulset-IsInPlace w populated in
      (
        w',
        ensured,
        ensure_stateful_set-kept clients stored laws server unversioned rc.metadata.namespace
            (get_standalone_redis_name rc) wanted (standalone_changed clients labels owner_refs rc)
            wanted-IsTarget w' in_place,
      )
