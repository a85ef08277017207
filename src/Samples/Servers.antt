-- ===== src/Samples/Servers.antt =====
-- An API server for stateful sets that keeps them in a function.
use cndb_redis.Base.{
  String, true, ◌&&◌, ◌||◌, Option, none, some, [], ◌≡◌, ◌≢◌, ◌⊎◌, inl, inr, refl, arith, eq_iff,
  eq_refl, if◌then◌else◌, str_eq, Result, ok, err,
}
use cndb_redis.Ops.{Error, not_found, failure, is_not_found}
use cndb_redis.Kube.Crud.{ObjectClient}
use cndb_redis.Kube.Objects.{StatefulSet, stateful_set_kind}
use cndb_redis.Kube.Server.{KindLaws, Holds, Serves}
use cndb_redis.Ensure.Sets.{without_version}
use cndb_redis.Samples.Objects.{text_k8s}

abbrev pub Sets : Type 0
Sets = String → String → Option (StatefulSet text_k8s)

abbrev pub put : StatefulSet text_k8s → Sets → Sets
put o w namespace name =
    if str_eq namespace o.metadata.namespace && str_eq name o.metadata.name
    then some o
    else w namespace name

abbrev read : Option (StatefulSet text_k8s) → Sets → Result Error (StatefulSet text_k8s) × Sets
read none w = (err (not_found "not found"), w)
read (some o) w = (ok o, w)

abbrev write_new :
    Option (StatefulSet text_k8s) → StatefulSet text_k8s → Sets → Result Error (Unit {0}) × Sets
write_new none o w = (ok tt, put o w)
write_new (some old) o w = (err (failure "already exists"), w)

-- a version that is given has to be that of the stored set
abbrev write_over :
    Option (StatefulSet text_k8s) → StatefulSet text_k8s → Sets → Result Error (Unit {0}) × Sets
write_over none o w = (err (not_found "not found"), w)
write_over (some old) o w =
    if str_eq o.metadata.resource_version ""
      || str_eq old.metadata.resource_version o.metadata.resource_version
    then (ok tt, put o w)
    else (err (failure "conflict"), w)

abbrev pub sets : ObjectClient (StatefulSet text_k8s) Sets
sets = record {
  get = λ namespace name w. read (w namespace name) w;
  create = λ o w. write_new (w o.metadata.namespace o.metadata.name) o w;
  update = λ o w. write_over (w o.metadata.namespace o.metadata.name) o w;
  delete = λ o w. (ok tt, w);
  list = λ namespace labels w. (ok [], w);
}

abbrev pub stored : Sets → String → String → Option (StatefulSet text_k8s)
stored w namespace name = w namespace name

pub set_laws : KindLaws (stateful_set_kind text_k8s) without_version
set_laws = record {
  namespace-with = λ o v. refl;
  name-with = λ o v. refl;
  version-with = λ o v. refl;
  content-with = λ o v. refl;
}

pub put-Holds :
    (o : StatefulSet text_k8s) (w : Sets)
    → Holds (stateful_set_kind text_k8s) without_version sets stored o w (put o w)
put-Holds o w = record {
  kept = o;
  at_name = rw (eq_refl o.metadata.namespace, eq_refl o.metadata.name) refl;
  same_content = refl;
  elsewhere = λ namespace name other. away namespace name other;
}
  where
    away :
        (namespace name : String)
        → (namespace ≢ o.metadata.namespace) ⊎ (name ≢ o.metadata.name)
        → put o w namespace name ≡ w namespace name
    away namespace name (inl h) = ground (arith, eq_iff namespace o.metadata.namespace)
    away namespace name (inr h) = ground (arith, eq_iff name o.metadata.name)

pub missing_is_not_found : is_not_found (not_found "not found") ≡ true
unfolding is_not_found
missing_is_not_found = refl

abbrev pub sets-Serves : Serves (stateful_set_kind text_k8s) without_version sets stored
sets-Serves = record {
  accepts = λ o. Unit {0};
  accepts_over = λ old o. Unit {0};
  get-found = λ namespace name o w h. rw h refl;
  get-missing = λ namespace name w h. (not_found "not found", missing_is_not_found, rw h refl);
  create-missing = λ o w accepted h. (put o w, rw h refl, put-Holds o w);
  update-stored = λ o old w accepted h same.
      (put o w, rw (h, same, eq_refl o.metadata.resource_version) (ground arith), put-Holds o w);
}

pub sets_unversioned :
    (ss old : StatefulSet text_k8s) (w : Sets)
    → sets-Serves.accepts_over old ss
    → stored w ss.metadata.namespace ss.metadata.name ≡ some old
    → ss.metadata.resource_version ≡ ""
    → (w' : Sets) × (sets.update ss w ≡ (ok tt, w'))
      × Holds (stateful_set_kind text_k8s) without_version sets stored ss w w'
sets_unversioned ss old w accepted h unversioned =
    (put ss w, rw (h, unversioned) refl, put-Holds ss w)
