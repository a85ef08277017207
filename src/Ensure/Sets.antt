-- ===== src/Ensure/Sets.antt =====
-- Ensuring one stateful set against a server that answers.
use cndb_redis.Base.{
  none, sym, String, Bool, Option, some, List, ◌∷◌, false, ◌≡◌, ◌≢◌, ◌⊎◌, refl, ◌∙◌, Bool-cases,
  inl, inr, ok, Option-cases,
}
use cndb_redis.Api.Types.{K8s, K8sLaws, ResourceRequirements}
use cndb_redis.Kube.Server.{Serves, Holds}
use cndb_redis.Kube.Objects.{StatefulSet, Container, stateful_set_kind}
use cndb_redis.Ensure.{KubeClients, ensure_stateful_set}
use cndb_redis.Ensure.Settled.{
  ensure_stateful_set-same, ensure_stateful_set-changed, ensure_stateful_set-missing,
}

-- everything but the version, which the server gives
abbrev pub without_version : {k : K8s} → StatefulSet k → StatefulSet k
without_version {k} ss = (stateful_set_kind k).with_resource_version ss ""

abbrev pub HasContainer : {k : K8s} → StatefulSet k → Type 0
HasContainer {k} ss =
    (c : Container k) × (cs : List (Container k)) × (ss.template.spec.containers ≡ c ∷ cs)

-- a set to be ensured, in which the test finds nothing to update once it is written
pub record IsTarget {k : K8s} (namespace name : String) (wanted : StatefulSet k)
    (changed : StatefulSet k → ResourceRequirements k → Bool) : Type 0 where
  pub in_namespace : wanted.metadata.namespace ≡ namespace
  pub named : wanted.metadata.name ≡ name
  pub without : wanted.metadata.resource_version ≡ ""
  pub settles :
      (ss : StatefulSet k)
      → without_version ss ≡ without_version wanted
      → (c : Container k) × (cs : List (Container k)) × (ss.template.spec.containers ≡ c ∷ cs)
        × (changed ss c.resources ≡ false)

module _ {k : K8s} {W : Type 0} (clients : KubeClients k W)
    (stored : W → String → String → Option (StatefulSet k)) where
  module _
      (server : Serves (stateful_set_kind k) without_version clients.stateful_sets stored) where
    -- of stateful sets Kubernetes takes an update that names no version, where it takes the rest
    abbrev pub AcceptsUnversioned : Type 0
    AcceptsUnversioned =
        (ss old : StatefulSet k) (w : W)
        → server.accepts_over old ss
        → stored w ss.metadata.namespace ss.metadata.name ≡ some old
        → ss.metadata.resource_version ≡ ""
        → (w' : W) × (clients.stateful_sets.update ss w ≡ (ok tt, w'))
          × Holds (stateful_set_kind k) without_version clients.stateful_sets stored ss w w'

    -- the server carries out the write of the set, and a set that is stored is not without containers
    pub record Settable (namespace name : String) (wanted : StatefulSet k) (w : W) : Type 0 where
      pub over :
          (old : StatefulSet k)
          → stored w namespace name ≡ some old
          → HasContainer old × server.accepts_over old wanted
      pub fresh : stored w namespace name ≡ none → server.accepts wanted

    pub Settable-unchanged :
        {namespace name : String} {wanted : StatefulSet k} (w w' : W)
        → stored w' namespace name ≡ stored w namespace name
        → Settable namespace name wanted w
        → Settable namespace name wanted w'
    Settable-unchanged w w' same h = record {
      over = λ old there. h.over old (sym same ∙ there);
      fresh = λ missing. h.fresh (sym same ∙ missing);
    }

  -- the set that the server stores, in which the test finds nothing to update
  pub record InPlace (namespace name : String)
      (changed : StatefulSet k → ResourceRequirements k → Bool) (w : W) : Type 0 where
    pub kept : StatefulSet k
    pub first : Container k
    pub others : List (Container k)
    pub at_name : stored w namespace name ≡ some kept
    pub containers : kept.template.spec.containers ≡ first ∷ others
    pub same : changed kept first.resources ≡ false

  pub InPlace-unchanged :
      {namespace name : String} {changed : StatefulSet k → ResourceRequirements k → Bool} (w w' : W)
      → stored w' namespace name ≡ stored w namespace name
      → InPlace namespace name changed w
      → InPlace namespace name changed w'
  InPlace-unchanged w w' same h = record {
    kept = h.kept;
    first = h.first;
    others = h.others;
    at_name = same ∙ h.at_name;
    containers = h.containers;
    same = h.same;
  }

  -- every other set is as it was
  abbrev pub Elsewhere : String → String → W → W → Type 0
  Elsewhere namespace name w w' =
      (namespace' name' : String)
      → (namespace' ≢ namespace) ⊎ (name' ≢ name)
      → stored w' namespace' name' ≡ stored w namespace' name'

  module _ (laws : K8sLaws k)
      (server : Serves (stateful_set_kind k) without_version clients.stateful_sets stored)
      (unversioned : AcceptsUnversioned server) (namespace name : String) (wanted : StatefulSet k)
      (changed : StatefulSet k → ResourceRequirements k → Bool)
      (target : IsTarget namespace name wanted changed) where
    pub ensure_stateful_set-kept :
        (w : W)
        → InPlace namespace name changed w
        → ensure_stateful_set clients namespace name wanted changed w ≡ (ok tt, w)
    ensure_stateful_set-kept w h =
        ensure_stateful_set-same laws clients namespace name wanted h.kept changed h.first h.others
          w (server.get-found namespace name h.kept w h.at_name) h.containers h.same

    written :
        (w w' : W)
        → Holds (stateful_set_kind k) without_version clients.stateful_sets stored wanted w w'
        → InPlace namespace name changed w' × Elsewhere namespace name w w'
    written w w' h =
        let (c, cs, containers, same) = target.settles h.kept h.same_content in
        (
          record {
            kept = h.kept;
            first = c;
            others = cs;
            at_name = rw (target.in_namespace, target.named) at h.at_name;
            containers = containers;
            same = same;
          },
          rw (target.in_namespace, target.named) at h.elsewhere,
        )

    -- one run puts the set in place, whatever set the server stores to begin with
    pub ensure_stateful_set-InPlace :
        (w : W)
        → Settable server namespace name wanted w
        → (w' : W) × (ensure_stateful_set clients namespace name wanted changed w ≡ (ok tt, w'))
          × InPlace namespace name changed w'
          × Elsewhere namespace name w w'
    ensure_stateful_set-InPlace w settable = elim (Option-cases (stored w namespace name)) [
      | inl missing ↦
          let (e, gone, got) = server.get-missing namespace name w missing in
          let (w', created, holds) =
            server.create-missing wanted w (settable.fresh missing)
              (rw (target.in_namespace, target.named) missing) in
          let (in_place, elsewhere) = written w w' holds in
          (
            w',
            ensure_stateful_set-missing laws clients namespace name wanted changed e w got gone
                ∙ created,
            in_place,
            elsewhere,
          )
      | inr (old, found) ↦
          let ((c, cs, containers), accepted) = settable.over old found in
          let got = server.get-found namespace name old w found in
          elim (Bool-cases (changed old c.resources)) [
            | inl differs ↦
                let (w', updated, holds) =
                  unversioned wanted old w accepted (rw (target.in_namespace, target.named) found)
                    target.without in
                let (in_place, elsewhere) = written w w' holds in
                (
                  w',
                  ensure_stateful_set-changed laws clients namespace name wanted old changed c cs w
                        got containers differs
                      ∙ updated,
                  in_place,
                  elsewhere,
                )
            | inr same ↦ (
              w,
              ensure_stateful_set-same laws clients namespace name wanted old changed c cs w got
                  containers same,
              record {
                kept = old;
                first = c;
                others = cs;
                at_name = found;
                containers = containers;
                same = same;
              },
              λ namespace' name' other. refl,
            )
          ]
    ]
