-- ===== src/Generate/Mounts.antt =====
-- The volumes of the generated pods.
use cndb_redis.Base.{
  String, ◌⊎◌, inl, inr, Bool, true, false, Option, none, some, List, [], ◌∷◌, ◌++◌, ◌≡◌, refl, All,
  if◌then◌else◌,
}
use cndb_redis.Base.Dict.{Dict}
use cndb_redis.Api.Types.{K8s, RedisExporter, RedisSentinel, RedisStandalone}
use cndb_redis.Kube.Objects.{StatefulSet, Container, Volume, VolumeMount}
use cndb_redis.Generate.Parts.{
  get_redis_data_volume, data_volume, get_redis_data_volume_name, data_volume_name, append_volume,
  create_redis_exporter_container, redis_storage_volume_name, redis_configuration_volume_name,
  redis_shutdown_configuration_volume_name,
}
use cndb_redis.Generate.Pods.{
  redis_container, get_redis_volume_mounts, get_redis_volumes, sentinel_init_container,
  sentinel_container, sentinel_volumes,
}
use cndb_redis.Generate.StatefulSets.{
  claim_templates, exporter_containers, redis_stateful_set, generate_redis_stateful_set,
  generate_sentinel_stateful_set,
}
use cndb_redis.Generate.Standalone.{
  standalone_volume_mounts, standalone_volumes, standalone_data_volume, standalone_data_volume_name,
  generate_standalone_stateful_set,
}

-- one of the elements has the property
abbrev pub Any : {A : Type 0} → (A → Type 0) → List A → Type 0
Any P [] = ⊥
Any P (x ∷ xs) = P x ⊎ Any P xs

module _ (k : K8s) where
  abbrev pub HasVolume : String → List (Volume k) → Type 0
  HasVolume name volumes = Any (λ (v : Volume k). v.name ≡ name) volumes

  abbrev pub HasClaim : String → List k.PersistentVolumeClaim → Type 0
  HasClaim name claims = Any (λ c. k.claim_name c ≡ name) claims

  -- the mount's volume is one of the pod, or made from a claim template
  abbrev pub IsMountable : StatefulSet k → VolumeMount → Type 0
  IsMountable ss m =
      HasVolume m.name ss.template.spec.volumes ⊎ HasClaim m.name ss.volume_claim_templates

  -- every container, and init container, mounts only what there is
  abbrev pub IsMounted : StatefulSet k → Type 0
  IsMounted ss =
      All (λ (c : Container k). All (IsMountable ss) c.volume_mounts)
        ss.template.spec.init_containers
      × All (λ (c : Container k). All (IsMountable ss) c.volume_mounts) ss.template.spec.containers

module _ (k : K8s) (name : String) where
  append-HasVolume_last :
      (volumes : List (Volume k)) (v : Volume k)
      → v.name ≡ name
      → HasVolume k name (volumes ++ v ∷ [])
  append-HasVolume_last [] v p = inl p
  append-HasVolume_last (u ∷ volumes) v p = inr (append-HasVolume_last volumes v p)

  append-HasVolume :
      (volumes : List (Volume k)) (v : Volume k)
      → HasVolume k name volumes
      → HasVolume k name (volumes ++ v ∷ [])
  append-HasVolume [] v p = elim p [ ]
  append-HasVolume (u ∷ volumes) v (inl p) = inl p
  append-HasVolume (u ∷ volumes) v (inr p) = inr (append-HasVolume volumes v p)

  append_volume-HasVolume :
      (volumes : List (Volume k)) (o : Option (Volume k))
      → HasVolume k name volumes
      → HasVolume k name (append_volume k volumes o)
  unfolding append_volume
  append_volume-HasVolume volumes none p = p
  append_volume-HasVolume volumes (some v) p = append-HasVolume volumes v p

module _ (k : K8s)
    (named : (c : k.PersistentVolumeClaim) (owners : List k.OwnerReference)
      → k.claim_name (k.with_owner_references c owners) ≡ k.claim_name c)
    (owner_refs : List k.OwnerReference) where
  claim_named :
      (c : k.PersistentVolumeClaim) (keep : Bool)
      → k.claim_name (if keep then c else k.with_owner_references c owner_refs) ≡ k.claim_name c
  claim_named c true = refl
  claim_named c false = named c owner_refs

  -- the data is in the claim of the template, or in the volume that is appended
  data_mounted :
      (claim : Option k.PersistentVolumeClaim) (medium : Option k.EmptyDirVolumeSource)
      (keep : Bool) (volumes : List (Volume k))
      → HasVolume k
          (data_volume_name k claim)
          (append_volume k volumes (data_volume k claim medium))
        ⊎ HasClaim k (data_volume_name k claim) (claim_templates k claim keep owner_refs)
  unfolding data_volume data_volume_name append_volume claim_templates
  data_mounted (some claim) medium keep volumes = inr (inl (claim_named claim keep))
  data_mounted none (some medium) keep volumes =
      inl (append-HasVolume_last k redis_storage_volume_name volumes _ refl)
  data_mounted none none keep volumes =
      inl (append-HasVolume_last k redis_storage_volume_name volumes _ refl)

  -- the exporter mounts nothing
  exporter_mounts :
      (P : VolumeMount → Type 0) (enabled : Bool) (exporter : RedisExporter) (password : String)
      → All
          (λ (c : Container k). All P c.volume_mounts)
          (if enabled then create_redis_exporter_container k exporter password ∷ [] else [])
  unfolding create_redis_exporter_container
  exporter_mounts P true exporter password = (tt, tt)
  exporter_mounts P false exporter password = tt

  module _ (labels : Dict String) where
    generate_sentinel_stateful_set-IsMounted :
        (rc : RedisSentinel k) → IsMounted k (generate_sentinel_stateful_set rc labels owner_refs)
    unfolding generate_sentinel_stateful_set sentinel_init_container sentinel_container
        sentinel_volumes
    generate_sentinel_stateful_set-IsMounted rc = (
      ((inl (inl refl), (inl (inr (inr (inl refl))), tt)), tt),
      ((inl (inr (inl refl)), (inl (inr (inr (inl refl))), tt)), tt),
    )

    generate_redis_stateful_set-IsMounted :
        (rc : RedisSentinel k) → IsMounted k (generate_redis_stateful_set rc labels owner_refs)
    unfolding generate_redis_stateful_set redis_stateful_set redis_container get_redis_volume_mounts
        get_redis_volumes get_redis_data_volume get_redis_data_volume_name exporter_containers
    generate_redis_stateful_set-IsMounted rc =
        let storage = rc.spec.common.storage in
        (
          tt,
          (
            (
              inl (
                  append_volume-HasVolume k redis_shutdown_configuration_volume_name _
                    (get_redis_data_volume k storage) (inl refl)),
              (
                data_mounted storage.persistent_volume_claim storage.empty_dir
                    storage.keep_after_deletion _,
                tt,
              ),
            ),
            exporter_mounts (IsMountable k (generate_redis_stateful_set rc labels owner_refs))
                rc.spec.common.exporter.enabled rc.spec.common.exporter rc.spec.common.password,
          ),
        )

    generate_standalone_stateful_set-IsMounted :
        (rc : RedisStandalone k)
        → IsMounted k (generate_standalone_stateful_set rc labels owner_refs)
    unfolding generate_standalone_stateful_set redis_stateful_set redis_container
        standalone_volume_mounts standalone_volumes standalone_data_volume
        standalone_data_volume_name get_redis_data_volume get_redis_data_volume_name
        exporter_containers
    generate_standalone_stateful_set-IsMounted rc =
        let storage = rc.spec.storage in
        let data_volume = get_redis_data_volume k storage in
        (
          tt,
          (
            (
              inl (
                  append_volume-HasVolume k redis_configuration_volume_name _ data_volume
                    (inl refl)),
              (
                inl (
                    append_volume-HasVolume k redis_shutdown_configuration_volume_name _ data_volume
                      (inr (inl refl))),
                (
                  data_mounted storage.persistent_volume_claim storage.empty_dir
                      storage.keep_after_deletion _,
                  tt,
                ),
              ),
            ),
            exporter_mounts (IsMountable k (generate_standalone_stateful_set rc labels owner_refs))
                rc.spec.exporter.enabled rc.spec.exporter rc.spec.password,
          ),
        )

    -- Whatever storage, exporter and commands a resource asks for, each volume that a container or an
    -- init container of the three stateful sets mounts is a volume of its pod or made from a claim
    -- template of the set, provided that setting the owners of a claim keeps its name.
    pub generate-IsMounted :
        (rc : RedisSentinel k) (single : RedisStandalone k)
        → IsMounted k (generate_redis_stateful_set rc labels owner_refs)
          × IsMounted k (generate_sentinel_stateful_set rc labels owner_refs)
          × IsMounted k (generate_standalone_stateful_set single labels owner_refs)
    generate-IsMounted rc single = (
      generate_redis_stateful_set-IsMounted rc,
      generate_sentinel_stateful_set-IsMounted rc,
      generate_standalone_stateful_set-IsMounted single,
    )
