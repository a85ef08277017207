-- ===== src/Samples/Shelves.antt =====
-- An API server that keeps every kind of object in a function of its own.
use cndb_redis.Base.{
  String, true, Option, none, some, [], ◌≡◌, refl, ap, arith, eq_iff, eq_refl, ◌&&◌, if◌then◌else◌,
  str_eq, Result, ok, err,
}
use cndb_redis.Ops.{Op, Error, not_found, failure, is_not_found}
use cndb_redis.Kube.Crud.{ObjectClient, ObjectKind}
use cndb_redis.Kube.Objects.{
  Service, ConfigMap, PodDisruptionBudget, StatefulSet, service_kind, config_map_kind, budget_kind,
  stateful_set_kind,
}
use cndb_redis.Kube.Creates.{Creates}
use cndb_redis.Kube.Server.{Holds}
use cndb_redis.Ensure.{KubeClients}
use cndb_redis.Ensure.Sets.{without_version}
use cndb_redis.Ensure.Stores.{Stores, Answers}
use cndb_redis.Samples.Objects.{text_k8s}
use cndb_redis.Samples.Servers.{Sets, sets, stored, sets-Serves, sets_unversioned}

abbrev pub Shelf : Type 0 → Type 0
Shelf O = String → String → Option O

pub record Shelves : Type 0 where
  pub services : Shelf (Service text_k8s)
  pub config_maps : Shelf (ConfigMap text_k8s)
  pub budgets : Shelf (PodDisruptionBudget text_k8s)
  pub sets : Sets

abbrev put_at : {O : Type 0} → String → String → O → Shelf O → Shelf O
put_at at_namespace at_name o shelf namespace name =
    if str_eq namespace at_namespace && str_eq name at_name then some o else shelf namespace name

abbrev read_one : {O : Type 0} → Option O → Shelves → Result Error O × Shelves
read_one none w = (err (not_found "not found"), w)
read_one (some o) w = (ok o, w)

abbrev write_one : {O : Type 0} → Option O → Shelves → Shelves → Result Error (Unit {0}) × Shelves
write_one none after w = (ok tt, after)
write_one (some old) after w = (err (failure "already exists"), w)

-- what is on the shelf stays there when another object is put in a free place
pub put_at-free :
    {O : Type 0} (at_namespace at_name namespace name : String) (new old : O) (shelf : Shelf O)
    → shelf at_namespace at_name ≡ none
    → shelf namespace name ≡ some old
    → put_at at_namespace at_name new shelf namespace name ≡ some old
put_at-free at_namespace at_name namespace name new old shelf free there =
    grind (arith, eq_iff namespace at_namespace, eq_iff name at_name)

pub gone_is_not_found : is_not_found (not_found "not found") ≡ true
unfolding is_not_found
gone_is_not_found = refl

module _ {O : Type 0} (kind : ObjectKind O) (shelf : Shelves → Shelf O)
    (with_shelf : Shelf O → Shelves → Shelves) where
  abbrev added : O → Shelves → Shelves
  added o w = with_shelf (put_at (kind.namespace o) (kind.name o) o (shelf w)) w

  abbrev keeper : ObjectClient O Shelves
  keeper = record {
    get = λ namespace name w. read_one (shelf w namespace name) w;
    create = λ o w. write_one (shelf w (kind.namespace o) (kind.name o)) (added o w) w;
    update = λ o w. (err (failure "refused"), w);
    delete = λ o w. (err (failure "refused"), w);
    list = λ namespace selected w. (ok [], w);
  }

  abbrev keeper-Creates :
      {Steps : Shelves → Shelves → Type 0}
      → ((s : Shelf O) (w : Shelves) → shelf (with_shelf s w) ≡ s)
      → ((o : O) (w : Shelves)
          → shelf w (kind.namespace o) (kind.name o) ≡ none
          → Steps w (added o w))
      → Creates kind keeper shelf Steps
  keeper-Creates stored_there stepped = record {
    accepts = λ o. Unit {0};
    get-found = λ namespace name o w h. rw h refl;
    get-missing = λ namespace name w h. (not_found "not found", gone_is_not_found, rw h refl);
    create-missing = λ o w accepted h. (
      added o w,
      rw h refl,
      stepped o w h,
      o,
      rw
          (
            stored_there (put_at (kind.namespace o) (kind.name o) o (shelf w)) w,
            eq_refl (kind.namespace o),
            eq_refl (kind.name o),
          )
          refl,
    );
  }

-- a call on the stateful sets leaves the other shelves alone
abbrev on_sets : {A : Type 0} → Op Sets A → Op Shelves A
on_sets m w = ((m w.sets).0, record w { sets = (m w.sets).1 })

abbrev pub shelf_clients : KubeClients text_k8s Shelves
shelf_clients = record {
  services = keeper (service_kind text_k8s) (λ w. w.services) (λ s w. record w { services = s });
  config_maps =
      keeper (config_map_kind text_k8s) (λ w. w.config_maps) (λ s w. record w { config_maps = s });
  budgets = keeper (budget_kind text_k8s) (λ w. w.budgets) (λ s w. record w { budgets = s });
  stateful_sets = record {
    get = λ namespace name. on_sets (sets.get namespace name);
    create = λ o. on_sets (sets.create o);
    update = λ o. on_sets (sets.update o);
    delete = λ o. on_sets (sets.delete o);
    list = λ namespace selected. on_sets (sets.list namespace selected);
  };
}

abbrev pub shelf_stores : Stores text_k8s Shelves
shelf_stores = record {
  services = λ w. w.services;
  config_maps = λ w. w.config_maps;
  budgets = λ w. w.budgets;
  stateful_sets = λ w. w.sets;
}

pub on_sets-Holds :
    (o : StatefulSet text_k8s) (w : Shelves) (s : Sets)
    → Holds (stateful_set_kind text_k8s) without_version sets stored o w.sets s
    → Holds
        (stateful_set_kind text_k8s)
        without_version
        shelf_clients.stateful_sets
        (λ v. v.sets)
        o
        w
        (record w { sets = s })
on_sets-Holds o w s h = record {
  kept = h.kept;
  at_name = h.at_name;
  same_content = h.same_content;
  elsewhere = h.elsewhere;
}

abbrev pub shelf_answers : Answers shelf_stores shelf_clients
shelf_answers = record {
  services =
      keeper-Creates (service_kind text_k8s) (λ w. w.services) (λ s w. record w { services = s })
        (λ s w. refl)
        (λ o w free. record {
          grows = record {
            services = λ a b old there. put_at-free _ _ a b o old w.services free there;
            config_maps = λ a b old there. there;
            budgets = λ a b old there. there;
          };
          same_sets = λ a b. refl;
        });
  config_maps =
      keeper-Creates (config_map_kind text_k8s) (λ w. w.config_maps)
        (λ s w. record w { config_maps = s }) (λ s w. refl)
        (λ o w free. record {
          grows = record {
            services = λ a b old there. there;
            config_maps = λ a b old there. put_at-free _ _ a b o old w.config_maps free there;
            budgets = λ a b old there. there;
          };
          same_sets = λ a b. refl;
        });
  budgets =
      keeper-Creates (budget_kind text_k8s) (λ w. w.budgets) (λ s w. record w { budgets = s })
        (λ s w. refl)
        (λ o w free. record {
          grows = record {
            services = λ a b old there. there;
            config_maps = λ a b old there. there;
            budgets = λ a b old there. put_at-free _ _ a b o old w.budgets free there;
          };
          same_sets = λ a b. refl;
        });
  sets = record {
    accepts = λ o. Unit {0};
    accepts_over = λ old o. Unit {0};
    get-found = λ namespace name o w h. rw h refl;
    get-missing = λ namespace name w h. (not_found "not found", gone_is_not_found, rw h refl);
    create-missing = λ o w accepted h.
        let (s, ran, holds) = sets-Serves.create-missing o w.sets accepted h in
        (
          record w { sets = s },
          ap (λ (q : Result Error (Unit {0}) × Sets). (q.0, record w { sets = q.1 })) ran,
          on_sets-Holds o w s holds,
        );
    update-stored = λ o old w accepted h same.
        let (s, ran, holds) = sets-Serves.update-stored o old w.sets accepted h same in
        (
          record w { sets = s },
          ap (λ (q : Result Error (Unit {0}) × Sets). (q.0, record w { sets = q.1 })) ran,
          on_sets-Holds o w s holds,
        );
  };
  unversioned = λ ss old w accepted h free.
      let (s, ran, holds) = sets_unversioned ss old w.sets accepted h free in
      (
        record w { sets = s },
        ap (λ (q : Result Error (Unit {0}) × Sets). (q.0, record w { sets = q.1 })) ran,
        on_sets-Holds ss w s holds,
      );
  create-Grows = λ ss w. record {
    services = λ a b old there. there;
    config_maps = λ a b old there. there;
    budgets = λ a b old there. there;
  };
  update-Grows = λ ss w. record {
    services = λ a b old there. there;
    config_maps = λ a b old there. there;
    budgets = λ a b old there. there;
  };
}
