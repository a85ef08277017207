-- ===== src/Kube/Crud.antt =====
-- What pkg/client/k8s repeats for every kind of object, written once over controller-runtime's client.
use cndb_redis.Base.{String, List, [], if◌then◌else◌, Result, ok, err}
use cndb_redis.Base.Dict.{Dict}
use cndb_redis.Util.Labels.{merge_into}
use cndb_redis.Ops.{Op, Error, is_not_found, ◌>>=◌}

-- the metadata that the services read and write
pub record ObjectKind (O : Type 0) : Type 0 where
  pub namespace : O → String
  pub name : O → String
  pub resource_version : O → String
  pub with_resource_version : O → String → O

-- client.Client for one kind: namespace and name, the object, or namespace and the selected labels
pub record ObjectClient (O W : Type 0) : Type 0 where
  pub get : String → String → Op W O
  pub create : O → Op W (Unit {0})
  pub update : O → Op W (Unit {0})
  pub delete : O → Op W (Unit {0})
  pub list : String → Dict String → Op W (List O)

module _ {O W : Type 0} (client : ObjectClient O W) where
  unfoldable pub get_object : String → String → Op W O
  get_object namespace name = client.get namespace name

  unfoldable pub create_object : String → O → Op W (Unit {0})
  create_object namespace o = client.create o

  unfoldable pub update_object : String → O → Op W (Unit {0})
  update_object namespace o = client.update o

  unfoldable pub delete_object : String → String → Op W (Unit {0})
  delete_object namespace name = client.get namespace name >>= client.delete

  unfoldable pub list_objects : String → Op W (List O)
  list_objects namespace = client.list namespace []

  module _ (kind : ObjectKind O) where
    -- the stored object's version makes the update valid
    unfoldable pub stored_or_missing : String → O → Result Error O × W → Result Error (Unit {0}) × W
    unfolding create_object update_object
    stored_or_missing namespace o (ok stored, w) =
        update_object namespace (kind.with_resource_version o (kind.resource_version stored)) w
    stored_or_missing namespace o (err e, w) =
        if is_not_found e then create_object namespace o w else (err e, w)

    unfoldable pub create_or_update_object : String → O → Op W (Unit {0})
    unfolding get_object stored_or_missing
    create_or_update_object namespace o w =
        stored_or_missing namespace o (get_object namespace (kind.name o) w)

    unfoldable pub present_or_missing :
        String → O → Result Error O × W → Result Error (Unit {0}) × W
    unfolding create_object
    present_or_missing namespace o (ok stored, w) = (ok tt, w)
    present_or_missing namespace o (err e, w) =
        if is_not_found e then create_object namespace o w else (err e, w)

    unfoldable pub create_if_not_exists_object : String → O → Op W (Unit {0})
    unfolding get_object present_or_missing
    create_if_not_exists_object namespace o w =
        present_or_missing namespace o (get_object namespace (kind.name o) w)

-- the pods that the selector of an object matches
unfoldable pub get_object_pods :
    {O P W : Type 0}
    → ObjectClient O W
    → ObjectClient P W
    → (O → Dict String)
    → String
    → String
    → Op W (List P)
unfolding get_object merge_into
get_object_pods client pods match_labels namespace name = do
  o ← get_object client namespace name
  pods.list namespace (merge_into [] (match_labels o))
