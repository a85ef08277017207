-- ===== src/Ensure/Calls.antt =====
-- What Ensure of a resource needs, and those of its calls that create what is missing.
use cndb_redis.Base.{String, true, false, ◌≡◌, refl, inl, inr, str_eq, Bool-cases}
use cndb_redis.Api.Types.{K8s}
use cndb_redis.Ops.{Op, ◌>>◌}
use cndb_redis.Ops.Settles.{Settles, Lasts, next-Settles}
use cndb_redis.Kube.Crud.{get_object}
use cndb_redis.Kube.Creates.{IsThere, create_if_not_exists_object-Settles}
use cndb_redis.Kube.Kinds.{
  create_if_not_exists_service, create_if_not_exists_config_map, get_config_map,
}
use cndb_redis.Kube.Objects.{Service, ConfigMap, StatefulSet, service_kind, config_map_kind}
use cndb_redis.Ensure.{KubeClients, ensure_shutdown_config_map}
use cndb_redis.Ensure.Sets.{Settable, Settable-unchanged}
use cndb_redis.Ensure.Stores.{Stores, Answers, Grows, Grows-trans, Beside, Beside-refl}

module _ {k : K8s} {W : Type 0} (clients : KubeClients k W) (stores : Stores k W)
    (answers : Answers stores clients) (namespace own_map : String)
    (Owned : String → StatefulSet k → Type 0) where
  -- what Ensure needs: the server carries out the writes of the stateful sets of the resource, those
  -- that are stored are not without containers, and a config map that the user names for the shutdown
  -- script is there
  pub record IsReady (w : W) : Type 0 where
    pub settable :
        (name : String) (wanted : StatefulSet k)
        → Owned name wanted
        → Settable clients stores.stateful_sets answers.sets namespace name wanted w
    pub shutdown :
        str_eq own_map "" ≡ false
        → IsThere (config_map_kind k) clients.config_maps stores.config_maps namespace own_map w

  abbrev pub ServiceIsThere : String → W → Type 0
  ServiceIsThere = IsThere (service_kind k) clients.services stores.services namespace

  abbrev pub MapIsThere : String → W → Type 0
  MapIsThere = IsThere (config_map_kind k) clients.config_maps stores.config_maps namespace

  pub service-lasts : (name : String) → Lasts (Grows stores) (ServiceIsThere name)
  service-lasts name w w' h there = (there.0, h.services _ _ there.0 there.1)

  pub map-lasts : (name : String) → Lasts (Grows stores) (MapIsThere name)
  map-lasts name w w' h there = (there.0, h.config_maps _ _ there.0 there.1)

  IsReady-lasts : Lasts (Beside stores) IsReady
  IsReady-lasts w w' h ready = record {
    settable = λ name wanted owned.
        Settable-unchanged clients stores.stateful_sets answers.sets w w' (h.same_sets _ _)
          (ready.settable name wanted owned);
    shutdown = λ own. map-lasts _ w w' h.grows (ready.shutdown own);
  }

  pub Service-Settles :
      (o : Service k)
      → answers.services.accepts o
      → o.metadata.namespace ≡ namespace
      → Settles
          (Beside stores)
          IsReady
          (create_if_not_exists_service clients.services (service_kind k) namespace o)
          (ServiceIsThere o.metadata.name)
  unfolding create_if_not_exists_service
  Service-Settles o accepted =
      create_if_not_exists_object-Settles (service_kind k) clients.services stores.services
        namespace o answers.services accepted (Beside-refl stores)

  pub ConfigMap-Settles :
      (o : ConfigMap k)
      → answers.config_maps.accepts o
      → o.metadata.namespace ≡ namespace
      → Settles
          (Beside stores)
          IsReady
          (create_if_not_exists_config_map clients.config_maps (config_map_kind k) namespace o)
          (MapIsThere o.metadata.name)
  unfolding create_if_not_exists_config_map
  ConfigMap-Settles o accepted =
      create_if_not_exists_object-Settles (config_map_kind k) clients.config_maps stores.config_maps
        namespace o answers.config_maps accepted (Beside-refl stores)

  -- the user's config map is read, and another one is created
  abbrev pub ShutdownIsThere : String → W → Type 0
  ShutdownIsThere name w =
      (str_eq own_map "" ≡ true → MapIsThere name w)
      × (str_eq own_map "" ≡ false → MapIsThere own_map w)

  pub Shutdown-Settles :
      (o : ConfigMap k)
      → (str_eq own_map "" ≡ true → answers.config_maps.accepts o)
      → o.metadata.namespace ≡ namespace
      → Settles
          (Beside stores)
          IsReady
          (ensure_shutdown_config_map clients namespace own_map o)
          (ShutdownIsThere o.metadata.name)
  unfolding ensure_shutdown_config_map create_if_not_exists_config_map get_config_map get_object
  Shutdown-Settles o accepted in_namespace = elim (Bool-cases (str_eq own_map "")) [
    | inl default ↦
        let created : Settles (Beside stores) IsReady _ (MapIsThere o.metadata.name) =
          create_if_not_exists_object-Settles (config_map_kind k) clients.config_maps
            stores.config_maps namespace o answers.config_maps (accepted default)
            (Beside-refl stores) in_namespace in
        record {
          run = λ w ready.
              let (v, ran, stepped, there) = created.run w ready in
              (v, rw default ran, stepped, (λ e. there, λ e. absurd (cc)));
          again = λ w there. rw default (created.again w (there.0 default));
        }
    | inr own ↦ record {
      run = λ w ready.
          let (cm, there) = ready.shutdown own in
          (
            w,
            rw (own, answers.config_maps.get-found _ _ cm w there) refl,
            Beside-refl stores w,
            (λ e. absurd (cc), λ e. (cm, there)),
          );
      again = λ w there.
          let (cm, at_name) = there.1 own in
          rw (own, answers.config_maps.get-found _ _ cm w at_name) refl;
    }
  ]

  pub ShutdownIsThere-lasts : (name : String) → Lasts (Grows stores) (ShutdownIsThere name)
  ShutdownIsThere-lasts name w w' h there =
      (λ e. map-lasts name w w' h (there.0 e), λ e. map-lasts own_map w w' h (there.1 e))

  -- one call more at the front
  pub before-Settles :
      (f g : Op W (Unit {0})) (q q' : W → Type 0)
      → Lasts (Grows stores) q
      → Settles (Beside stores) IsReady f q
      → Settles (Grows stores) IsReady g q'
      → Settles (Grows stores) IsReady (f >> g) (λ w. q w × q' w)
  before-Settles f g q q' =
      next-Settles f g (λ w v u beside. Grows-trans stores w v u beside.grows) (λ w ready. ready)
        (λ w v. IsReady-lasts w v)
