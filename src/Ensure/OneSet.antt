-- ===== src/Ensure/OneSet.antt =====
-- Ensuring one stateful set, where the server keeps objects of all kinds.
use cndb_redis.Base.{String, Bool, subst, Result}
use cndb_redis.Api.Types.{K8s, K8sLaws, ResourceRequirements}
use cndb_redis.Ops.Preserves.{Preserves}
use cndb_redis.Ops.Settles.{Settles}
use cndb_redis.Kube.Objects.{StatefulSet}
use cndb_redis.Ensure.{KubeClients, ensure_stateful_set}
use cndb_redis.Ensure.Sets.{
  Settable, IsTarget, InPlace, Elsewhere, ensure_stateful_set-InPlace, ensure_stateful_set-kept,
}
use cndb_redis.Ensure.Stores.{Stores, Answers, Grows, Grows-refl, ensure_stateful_set-Grown}

module _ {k : K8s} {W : Type 0} (clients : KubeClients k W) (stores : Stores k W)
    (namespace : String) where
  -- of the stateful sets only the one of that name may have changed
  pub record OnlySet (name : String) (w w' : W) : Type 0 where
    pub grows : Grows stores w w'
    pub elsewhere : Elsewhere clients stores.stateful_sets namespace name w w'

module _ {k : K8s} {W : Type 0} (clients : KubeClients k W) (stores : Stores k W) (laws : K8sLaws k)
    (answers : Answers stores clients) (namespace name : String) (wanted : StatefulSet k)
    (changed : StatefulSet k → ResourceRequirements k → Bool)
    (target : IsTarget namespace name wanted changed) where
  pub Set-Settles :
      Settles
        (OnlySet clients stores namespace name)
        (Settable clients stores.stateful_sets answers.sets namespace name wanted)
        (ensure_stateful_set clients namespace name wanted changed)
        (InPlace clients stores.stateful_sets namespace name changed)
  unfolding Preserves
  Set-Settles = record {
    run = λ w populated.
        let (w', ran, in_place, elsewhere) =
          ensure_stateful_set-InPlace clients stores.stateful_sets laws answers.sets
            answers.unversioned namespace name wanted changed target w populated in
        let grown =
          ensure_stateful_set-Grown stores clients answers w namespace name wanted changed w
            (Grows-refl stores w) in
        (
          w',
          ran,
          record {
            grows = subst (λ (q : Result _ _ × W). Grows stores w q.1) ran grown;
            elsewhere = elsewhere;
          },
          in_place,
        );
    again =
        ensure_stateful_set-kept clients stores.stateful_sets laws answers.sets answers.unversioned
          namespace name wanted changed target;
  }
