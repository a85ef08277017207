-- ===== src/Kube/Server.antt =====
-- An API server that answers, and what the services do to the objects that it stores.
use cndb_redis.Base.{
  String, true, Option, none, some, ◌≡◌, ◌≢◌, ◌⊎◌, inl, inr, refl, sym, ◌∙◌, Option-cases, ok, err,
}
use cndb_redis.Ops.{Error, is_not_found}
use cndb_redis.Kube.Crud.{
  ObjectKind, ObjectClient, get_object, create_object, update_object, stored_or_missing,
  present_or_missing, create_or_update_object, create_if_not_exists_object,
}

-- setting the version of an object sets nothing else
pub record KindLaws {O S : Type 0} (kind : ObjectKind O) (content : O → S) : Type 0 where
  pub namespace-with :
      (o : O) (v : String) → kind.namespace (kind.with_resource_version o v) ≡ kind.namespace o
  pub name-with : (o : O) (v : String) → kind.name (kind.with_resource_version o v) ≡ kind.name o
  pub version-with :
      (o : O) (v : String) → kind.resource_version (kind.with_resource_version o v) ≡ v
  pub content-with : (o : O) (v : String) → content (kind.with_resource_version o v) ≡ content o

module _ {O S W : Type 0} (kind : ObjectKind O) (content : O → S) (client : ObjectClient O W)
    (stored : W → String → String → Option O) where
  -- after the write the server has the content of the object under its name, and the other objects
  -- are what they were
  pub record Holds (o : O) (w w' : W) : Type 0 where
    pub kept : O
    pub at_name : stored w' (kind.namespace o) (kind.name o) ≡ some kept
    pub same_content : content kept ≡ content o
    pub elsewhere :
        (namespace name : String)
        → (namespace ≢ kind.namespace o) ⊎ (name ≢ kind.name o)
        → stored w' namespace name ≡ stored w namespace name

  -- The API conventions of Kubernetes: a read returns what is stored, a missing object is not found,
  -- a create of a missing object and an update of the stored version succeed.
  -- A server may refuse a write, for instance of a name that is too long or of a field that cannot be
  -- changed, and may fill in fields. `accepts` is said of objects whose create it carries out as sent,
  -- and `accepts_over` of updates of a stored object.
  pub record Serves : Type 1 where
    pub accepts : O → Type 0
    pub accepts_over : O → O → Type 0
    pub get-found :
        (namespace name : String) (o : O) (w : W)
        → stored w namespace name ≡ some o
        → client.get namespace name w ≡ (ok o, w)
    pub get-missing :
        (namespace name : String) (w : W)
        → stored w namespace name ≡ none
        → (e : Error) × (is_not_found e ≡ true) × (client.get namespace name w ≡ (err e, w))
    pub create-missing :
        (o : O) (w : W)
        → accepts o
        → stored w (kind.namespace o) (kind.name o) ≡ none
        → (w' : W) × (client.create o w ≡ (ok tt, w')) × Holds o w w'
    pub update-stored :
        (o old : O) (w : W)
        → accepts_over old o
        → stored w (kind.namespace o) (kind.name o) ≡ some old
        → kind.resource_version old ≡ kind.resource_version o
        → (w' : W) × (client.update o w ≡ (ok tt, w')) × Holds o w w'

  module _ (kind_laws : KindLaws kind content) (server : Serves) where
    Holds-with :
        (o : O) (v : String) (w w' : W) → Holds (kind.with_resource_version o v) w w' → Holds o w w'
    Holds-with o v w w' h = record {
      kept = h.kept;
      at_name = rw (kind_laws.namespace-with o v, kind_laws.name-with o v) at h.at_name;
      same_content = h.same_content ∙ kind_laws.content-with o v;
      elsewhere = rw (kind_laws.namespace-with o v, kind_laws.name-with o v) at h.elsewhere;
    }

    -- Where the server carries out a create of the object, if there is none of that name, or an update
    -- of the stored one by the object with the stored version, CreateOrUpdate succeeds, also if the
    -- object itself has a stale version: afterwards the server has the content of the object under its
    -- name, and every other object as before.
    pub create_or_update_object-Holds :
        (o : O) (w : W)
        → (stored w (kind.namespace o) (kind.name o) ≡ none → server.accepts o)
        → ((old : O)
            → stored w (kind.namespace o) (kind.name o) ≡ some old
            → server.accepts_over old (kind.with_resource_version o (kind.resource_version old)))
        → (w' : W) × (create_or_update_object client kind (kind.namespace o) o w ≡ (ok tt, w'))
          × Holds o w w'
    unfolding create_or_update_object stored_or_missing get_object create_object update_object
    create_or_update_object-Holds o w accepted accepted_over =
        elim (Option-cases (stored w (kind.namespace o) (kind.name o))) [
          | inl missing ↦
              let (e, gone, got) = server.get-missing (kind.namespace o) (kind.name o) w missing in
              let (w', created, holds) = server.create-missing o w (accepted missing) missing in
              (w', rw (got, gone) created, holds)
          | inr (old, found) ↦
              let v = kind.resource_version old in
              let (w', updated, holds) =
                server.update-stored (kind.with_resource_version o v) old w
                  (accepted_over old found)
                  (rw (kind_laws.namespace-with o v, kind_laws.name-with o v) found)
                  (sym (kind_laws.version-with o v)) in
              (
                w',
                rw (server.get-found (kind.namespace o) (kind.name o) old w found) updated,
                Holds-with o v w w' holds,
              )
        ]

    -- CreateIfNotExists of an object that the server accepts succeeds. It leaves an object of that name as it is, and the whole server
    -- too; where there is none the server has the content of the object afterwards.
    pub create_if_not_exists_object-Holds :
        (o : O) (w : W)
        → server.accepts o
        → (w' : W) × (create_if_not_exists_object client kind (kind.namespace o) o w ≡ (ok tt, w'))
          × (((old : O) × (stored w (kind.namespace o) (kind.name o) ≡ some old) × (w' ≡ w))
              ⊎ ((stored w (kind.namespace o) (kind.name o) ≡ none) × Holds o w w'))
    unfolding create_if_not_exists_object present_or_missing get_object create_object
    create_if_not_exists_object-Holds o w accepted =
        elim (Option-cases (stored w (kind.namespace o) (kind.name o))) [
          | inl missing ↦
              let (e, gone, got) = server.get-missing (kind.namespace o) (kind.name o) w missing in
              let (w', created, holds) = server.create-missing o w accepted missing in
              (w', rw (got, gone) created, inr (missing, holds))
          | inr (old, found) ↦ (
            w,
            rw (server.get-found (kind.namespace o) (kind.name o) old w found) refl,
            inl (old, found, refl),
          )
        ]
