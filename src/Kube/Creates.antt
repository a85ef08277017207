-- ===== src/Kube/Creates.antt =====
-- An API server of objects that are created where they are missing and never changed.
use cndb_redis.Base.{String, true, Option, none, some, ◌≡◌, refl, Option-cases, inl, inr, ok, err}
use cndb_redis.Ops.{Error, is_not_found}
use cndb_redis.Ops.Settles.{Settles}
use cndb_redis.Kube.Crud.{
  ObjectKind, ObjectClient, get_object, create_object, present_or_missing,
  create_if_not_exists_object,
}

module _ {O W : Type 0} (kind : ObjectKind O) (client : ObjectClient O W)
    (stored : W → String → String → Option O) where
  -- a read returns what is stored, a missing object is not found, and a create of a missing object
  -- that the server accepts stores one of that name and changes other objects as `Steps` says
  pub record Creates (Steps : W → W → Type 0) : Type 1 where
    pub accepts : O → Type 0
    pub get-found :
        (namespace name : String) (o : O) (w : W)
        → stored w namespace name ≡ some o
        → client.get namespace name w ≡ (ok o, w)
    pub get-missing :
        (namespace name : String) (w : W)
        → stored w namespace name ≡ none
        → (e : Error) × (is_not_found e ≡ true) × (client.get namespace name w ≡ (err e, w))
    pub create-missing :
        (o : O) (w : W)
        → accepts o
        → stored w (kind.namespace o) (kind.name o) ≡ none
        → (w' : W) × (client.create o w ≡ (ok tt, w'))
          × Steps w w'
          × (kept : O) × (stored w' (kind.namespace o) (kind.name o) ≡ some kept)

  abbrev pub IsThere : String → String → W → Type 0
  IsThere namespace name w = (o : O) × (stored w namespace name ≡ some o)

  pub create_if_not_exists_object-Settles :
      {Steps : W → W → Type 0} {pre : W → Type 0} (namespace : String) (o : O)
      (server : Creates Steps)
      → server.accepts o
      → ((w : W) → Steps w w)
      → kind.namespace o ≡ namespace
      → Settles Steps pre
          (create_if_not_exists_object client kind namespace o)
          (IsThere namespace (kind.name o))
  unfolding create_if_not_exists_object present_or_missing get_object create_object
  create_if_not_exists_object-Settles namespace o server accepted stays in_namespace = record {
    run = λ w _. elim (Option-cases (stored w namespace (kind.name o))) [
      | inl missing ↦
          let (e, gone, got) = server.get-missing namespace (kind.name o) w missing in
          let (w', created, stepped, kept, there) =
            server.create-missing o w accepted (rw in_namespace missing) in
          (w', rw (got, gone) created, stepped, (kept, rw in_namespace at there))
      | inr (old, found) ↦
          (w, rw (server.get-found namespace (kind.name o) old w found) refl, stays w, (old, found))
    ];
    again = λ w there. rw (server.get-found namespace (kind.name o) there.0 w there.1) refl;
  }
