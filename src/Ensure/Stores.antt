-- ===== src/Ensure/Stores.antt =====
-- An API server that keeps the objects of all kinds that Ensure writes.
use cndb_redis.Base.{
  String, Bool, Option, some, List, [], ◌∷◌, ◌≡◌, refl, Option-cases, Bool-cases, inl, inr, Result,
  ok, err,
}
use cndb_redis.Api.Types.{K8s, ResourceRequirements}
use cndb_redis.Ops.{Error, is_not_found}
use cndb_redis.Ops.Preserves.{Preserves, bind-Preserves, either-Preserves, pure-Preserves}
use cndb_redis.Kube.Crud.{get_object, create_object, update_object}
use cndb_redis.Kube.Kinds.{get_stateful_set, create_stateful_set, update_stateful_set}
use cndb_redis.Kube.Objects.{
  Service, ConfigMap, PodDisruptionBudget, StatefulSet, Container, service_kind, config_map_kind,
  budget_kind, stateful_set_kind,
}
use cndb_redis.Kube.Server.{Serves}
use cndb_redis.Kube.Creates.{Creates}
use cndb_redis.Ensure.{
  KubeClients, first_resources, update_if, found_or_missing, ensure_stateful_set,
}
use cndb_redis.Ensure.Sets.{without_version, AcceptsUnversioned}

-- what the server stores under a namespace and a name
pub record Stores (k : K8s) (W : Type 0) : Type 0 where
  pub services : W → String → String → Option (Service k)
  pub config_maps : W → String → String → Option (ConfigMap k)
  pub budgets : W → String → String → Option (PodDisruptionBudget k)
  pub stateful_sets : W → String → String → Option (StatefulSet k)

module _ {k : K8s} {W : Type 0} (stores : Stores k W) where
  -- every service, config map and disruption budget that is there stays as it is
  pub record Grows (w w' : W) : Type 0 where
    pub services :
        (namespace name : String) (o : Service k)
        → stores.services w namespace name ≡ some o
        → stores.services w' namespace name ≡ some o
    pub config_maps :
        (namespace name : String) (o : ConfigMap k)
        → stores.config_maps w namespace name ≡ some o
        → stores.config_maps w' namespace name ≡ some o
    pub budgets :
        (namespace name : String) (o : PodDisruptionBudget k)
        → stores.budgets w namespace name ≡ some o
        → stores.budgets w' namespace name ≡ some o

  pub Grows-refl : (w : W) → Grows w w
  Grows-refl w = record {
    services = λ a b o h. h;
    config_maps = λ a b o h. h;
    budgets = λ a b o h. h;
  }

  pub Grows-trans : (w v u : W) → Grows w v → Grows v u → Grows w u
  Grows-trans w v u g h = record {
    services = λ a b o e. h.services a b o (g.services a b o e);
    config_maps = λ a b o e. h.config_maps a b o (g.config_maps a b o e);
    budgets = λ a b o e. h.budgets a b o (g.budgets a b o e);
  }

  -- and the stateful sets are the same
  pub record Beside (w w' : W) : Type 0 where
    pub grows : Grows w w'
    pub same_sets :
        (namespace name : String)
        → stores.stateful_sets w' namespace name ≡ stores.stateful_sets w namespace name

  pub Beside-refl : (w : W) → Beside w w
  Beside-refl w = record { grows = Grows-refl w; same_sets = λ a b. refl }

  -- The server answers by the API conventions; a create that it carries out adds one object to those
  -- that are there, and writing a stateful set touches no object of another kind.
  pub record Answers (clients : KubeClients k W) : Type 1 where
    pub services : Creates (service_kind k) clients.services stores.services Beside
    pub config_maps : Creates (config_map_kind k) clients.config_maps stores.config_maps Beside
    pub budgets : Creates (budget_kind k) clients.budgets stores.budgets Beside
    pub sets :
        Serves (stateful_set_kind k) without_version clients.stateful_sets stores.stateful_sets
    pub unversioned : AcceptsUnversioned clients stores.stateful_sets sets
    pub create-Grows : (ss : StatefulSet k) (w : W) → Grows w (clients.stateful_sets.create ss w).1
    pub update-Grows : (ss : StatefulSet k) (w : W) → Grows w (clients.stateful_sets.update ss w).1

module _ {k : K8s} {W : Type 0} (stores : Stores k W) (clients : KubeClients k W)
    (answers : Answers stores clients) (start : W) where
  abbrev Grown : W → Type 0
  Grown = Grows stores start

  create-Preserves :
      (namespace : String) (ss : StatefulSet k)
      → Preserves Grown (create_stateful_set clients.stateful_sets namespace ss)
  unfolding Preserves create_stateful_set create_object
  create-Preserves namespace ss w h = Grows-trans stores start w _ h (answers.create-Grows ss w)

  update-Preserves :
      (namespace : String) (ss : StatefulSet k)
      → Preserves Grown (update_stateful_set clients.stateful_sets namespace ss)
  unfolding Preserves update_stateful_set update_object
  update-Preserves namespace ss w h = Grows-trans stores start w _ h (answers.update-Grows ss w)

  get-Preserves :
      (namespace name : String)
      → Preserves Grown (get_stateful_set clients.stateful_sets namespace name)
  unfolding Preserves get_stateful_set get_object
  get-Preserves namespace name w h = elim (Option-cases (stores.stateful_sets w namespace name)) [
    | inl missing ↦
        let (e, gone, got) = answers.sets.get-missing namespace name w missing in rw got h
    | inr (old, found) ↦ rw (answers.sets.get-found namespace name old w found) h
  ]

  first_resources-Preserves : (cs : List (Container k)) → Preserves Grown (first_resources cs)
  unfolding Preserves first_resources
  first_resources-Preserves [] w h = h
  first_resources-Preserves (c ∷ cs) w h = h

  pub ensure_stateful_set-Grown :
      (namespace name : String) (wanted : StatefulSet k)
      (changed : StatefulSet k → ResourceRequirements k → Bool)
      → Preserves Grown (ensure_stateful_set clients namespace name wanted changed)
  unfolding Preserves ensure_stateful_set found_or_missing update_if
  ensure_stateful_set-Grown namespace name wanted changed w h =
      go (get_stateful_set clients.stateful_sets namespace name w)
        (get-Preserves namespace name w h)
    where
      go :
          (q : Result Error (StatefulSet k) × W)
          → Grown q.1
          → Grown (found_or_missing clients namespace wanted changed q).1
      go (ok old, v) kept =
          bind-Preserves Grown (first_resources old.template.spec.containers) _
            (first_resources-Preserves old.template.spec.containers)
            (λ actual.
              either-Preserves Grown (changed old actual) _ _ (update-Preserves namespace wanted)
                (pure-Preserves Grown tt))
            v kept
      go (err e, v) kept = elim (Bool-cases (is_not_found e)) [
        | inl gone ↦ rw gone (create-Preserves namespace wanted v kept)
        | inr other ↦ rw other kept
      ]
