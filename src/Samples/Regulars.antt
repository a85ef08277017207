-- ===== src/Samples/Regulars.antt =====
-- A request for a standalone redis that has its defaults, that is healed and that is ready. The
-- controller of clusters does not depend on the kind of its resource.
use cndb_redis.Base.{ℕ, String, ◌≡◌, refl, arith, ok}
use cndb_redis.Api.Types.{RedisStandalone}
use cndb_redis.Api.Views.{standalone_view}
use cndb_redis.Api.Defaults.{
  default_number, default_text, config_equal, map_equal, persist, made, exporter_equal,
  default_exporter,
}
use cndb_redis.Api.Persistence.{disable_persistence}
use cndb_redis.Base.Dict.{lookup, insert}
use cndb_redis.Cache.{
  cache, get_meta, add_meta, cache_entry, key_of, get_namespaced_name, new_meta, write,
}
use cndb_redis.Api.ValidateStandalone.{
  validate_standalone, with_standalone_defaults, default_standalone_spec, wrong_size,
  standalone_equal,
}
use cndb_redis.Ops.{Op}
use cndb_redis.Reconcile.{World, do_resource}
use cndb_redis.Reconcile.Controller.{after_seconds, reconcile_sentinel}
use cndb_redis.Reconcile.Requeue.{sentinel_controller}
use cndb_redis.Reconcile.Regular.{WasRegular, reconcile-WasRegular}
use cndb_redis.Samples.Objects.{text_k8s}
use cndb_redis.Samples.Reconciled.{quiet, writer, steps, start, settled}

abbrev O : Type 0
O = RedisStandalone text_k8s

abbrev fetch : String → String → Op ℕ O
fetch namespace name w = (ok settled, w)

abbrev ready : O → Op ℕ (Unit {0})
ready o w = (ok tt, w)

visited : World O ℕ
unfolding reconcile_sentinel
visited =
    (sentinel_controller (standalone_view text_k8s) quiet writer steps fetch 0 ready 60 "prod"
      "shop" start).1

visit_run :
    sentinel_controller
      (standalone_view text_k8s)
      quiet
      writer
      steps
      fetch
      0
      ready
      60
      "prod"
      "shop"
      start
    ≡ (ok (after_seconds 60), visited)
unfolding visited reconcile_sentinel do_resource validate_standalone wrong_size
    with_standalone_defaults default_standalone_spec default_number standalone_equal default_text
    config_equal persist disable_persistence insert made lookup exporter_equal default_exporter
    cache get_meta add_meta cache_entry key_of get_namespaced_name new_meta write map_equal
visit_run = refl

reconcile-WasRegular_example :
    WasRegular
      (standalone_view text_k8s)
      quiet
      writer
      steps
      fetch
      0
      ready
      60
      "prod"
      "shop"
      start
      visited
reconcile-WasRegular_example =
    reconcile-WasRegular (standalone_view text_k8s) quiet writer steps fetch 0 ready 60 "prod"
      "shop" start visited (omega arith) (omega arith) visit_run
