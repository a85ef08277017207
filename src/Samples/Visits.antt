-- ===== src/Samples/Visits.antt =====
-- A visit to a standalone redis, and one to a resource that is gone.
use Prim.Native.String.{len}
use cndb_redis.Api.Defaults.{max_name_length}
use cndb_redis.Base.{
  ltb, ℕ, String, some, ◌≡◌, refl, sym, ap, ok, err, if◌then◌else◌, str_eq, Bool-cases, inl, inr,
}
use cndb_redis.Api.Types.{RedisStandalone}
use cndb_redis.Api.Views.{standalone_view}
use cndb_redis.Api.Defaults.{
  default_number, default_text, config_equal, map_equal, persist, made, exporter_equal,
  default_exporter,
}
use cndb_redis.Api.Persistence.{disable_persistence}
use cndb_redis.Base.Dict.{lookup, insert, erase}
use cndb_redis.Cache.{
  Meta, cache, get_meta, add_meta, cache_entry, key_of, get_namespaced_name, new_meta, write,
}
use cndb_redis.Api.ValidateStandalone.{
  validate_standalone, with_standalone_defaults, default_standalone_spec, wrong_size,
  standalone_equal,
}
use cndb_redis.Ops.{Op, not_found, is_not_found}
use cndb_redis.Reconcile.{do_resource}
use cndb_redis.Reconcile.Controller.{reconcile_standalone}
use cndb_redis.Reconcile.Keyed.{KeepsKeys}
use cndb_redis.Reconcile.Keyed.Reached.{
  Operator, after_standalone, started, standalone_visit, Reached-IsFiled, IsFiled,
}
use cndb_redis.Samples.Objects.{text_k8s}
use cndb_redis.Samples.Reconciled.{quiet, writer, steps, start, settled}

abbrev O : Type 0
O = RedisStandalone text_k8s

abbrev fetch : String → String → Op ℕ O
fetch namespace name w =
    if str_eq name "shop" then (ok settled, w) else (err (not_found "not found"), w)

abbrev ready : O → Op ℕ (Unit {0})
ready o w = (ok tt, w)

key-validate :
    (o : O)
    → key_of (standalone_view text_k8s) (validate_standalone text_k8s o).0
      ≡ key_of (standalone_view text_k8s) o
unfolding validate_standalone with_standalone_defaults key_of
key-validate o = elim (Bool-cases (ltb max_name_length (len o.metadata.name))) [
  | inl long ↦ rw long refl
  | inr short ↦ elim (Bool-cases (wrong_size text_k8s o.spec.size)) [
    | inl wrong ↦ rw (short, wrong) refl
    | inr right ↦ rw (short, right) refl
  ]
]

laws : KeepsKeys (standalone_view text_k8s) quiet writer steps
unfolding key_of
laws = record {
  key-validate = key-validate;
  key-with_status = λ o s. refl;
  key-put_spec =
      λ o o' w w' h. let same : o ≡ o' = cc in ap (key_of (standalone_view text_k8s)) (sym same);
  key-put_status =
      λ o o' w w' h. let same : o ≡ o' = cc in ap (key_of (standalone_view text_k8s)) (sym same);
}

abbrev empty : Operator O ℕ
empty = record { world = start; next = 0 }

abbrev visit : Operator O ℕ → String → Operator O ℕ
visit s name =
    after_standalone (standalone_view text_k8s) quiet writer steps fetch ready 60 s "prod" name

visited : Operator O ℕ
visited = visit (visit empty "shop") "gone"

abbrev filed : Meta
filed = new_meta (standalone_view text_k8s) start.store 0

shop_found : lookup "prod/shop" visited.world.entries ≡ some filed
unfolding visited reconcile_standalone do_resource validate_standalone wrong_size
    with_standalone_defaults default_standalone_spec default_number standalone_equal default_text
    config_equal persist disable_persistence insert made lookup exporter_equal default_exporter
    cache get_meta add_meta cache_entry key_of get_namespaced_name new_meta write map_equal erase
    is_not_found
shop_found = refl

Reached-IsFiled_example :
    IsFiled
      (standalone_view text_k8s)
      quiet
      writer
      steps
      fetch
      ready
      60
      laws
      visited
      "prod/shop"
      filed.obj
unfolding visited
Reached-IsFiled_example =
    Reached-IsFiled (standalone_view text_k8s) quiet writer steps fetch ready 60 laws visited
      "prod/shop" filed
      (standalone_visit "prod" "gone" (standalone_visit "prod" "shop" (started start.store 0)))
      shop_found
