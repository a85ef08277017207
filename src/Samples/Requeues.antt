-- ===== src/Samples/Requeues.antt =====
-- Requests for a standalone redis that is there, that is gone, and that gets its defaults.
use cndb_redis.Base.{ℕ, String, true, ◌≡◌, refl, arith, if◌then◌else◌, str_eq, ok, err}
use cndb_redis.Api.Types.{RedisStandalone}
use cndb_redis.Api.Views.{standalone_view}
use cndb_redis.Base.Dict.{lookup, insert}
use cndb_redis.Api.Defaults.{
  default_number, default_text, config_equal, map_equal, persist, made, exporter_equal,
  default_exporter,
}
use cndb_redis.Api.Persistence.{disable_persistence}
use cndb_redis.Api.ValidateStandalone.{
  validate_standalone, with_standalone_defaults, default_standalone_spec, wrong_size,
  standalone_equal,
}
use cndb_redis.Ops.{Op, not_found, failure, is_not_found}
use cndb_redis.Reconcile.{World}
use cndb_redis.Reconcile.Controller.{reconcile_standalone, reconcile_sentinel}
use cndb_redis.Reconcile.Requeue.{
  IsRevisited, reconcile-IsRevisited, Stored, standalone_controller, sentinel_controller,
  reconcile-Stored,
}
use cndb_redis.Samples.Objects.{text_k8s, single}
use cndb_redis.Samples.Reconciled.{quiet, writer, steps, start, settled}

abbrev O : Type 0
O = RedisStandalone text_k8s

abbrev fetch : String → String → Op ℕ O
fetch namespace name w =
    if str_eq name "shop" then (ok single, w) else (err (not_found "not found"), w)

-- the redis is not ready
abbrev failing : Op (World O ℕ) (Unit {0})
failing s = (err (failure "need requeue"), s)

abbrev unready : O → Op ℕ (Unit {0})
unready o w = (err (failure "waiting"), w)

reconcile-IsRevisited_example :
    IsRevisited (reconcile_standalone fetch 0 failing 10 "prod" "shop" start).0
    × IsRevisited (reconcile_sentinel fetch 0 failing unready 10 "prod" "shop" start).0
reconcile-IsRevisited_example =
    reconcile-IsRevisited fetch 0 failing unready 10 "prod" "shop" start single 0 refl (omega arith)

missing_is_not_found : is_not_found (not_found "not found") ≡ true
unfolding is_not_found
missing_is_not_found = refl

defaults_missing : validate_standalone text_k8s single ≡ (settled, ok true)
unfolding validate_standalone wrong_size with_standalone_defaults default_standalone_spec
    default_number standalone_equal default_text config_equal persist disable_persistence insert
    made lookup exporter_equal default_exporter map_equal
defaults_missing = refl

reconcile-Stored_example :
    Stored
      (standalone_view text_k8s)
      quiet
      writer
      steps
      fetch
      0
      unready
      10
      "prod"
      "shop"
      start
      settled
      1
      (standalone_controller
        (standalone_view text_k8s)
        quiet
        writer
        steps
        fetch
        0
        unready
        10
        "prod"
        "shop"
        start)
    × Stored
        (standalone_view text_k8s)
        quiet
        writer
        steps
        fetch
        0
        unready
        10
        "prod"
        "shop"
        start
        settled
        1
        (sentinel_controller
          (standalone_view text_k8s)
          quiet
          writer
          steps
          fetch
          0
          unready
          10
          "prod"
          "shop"
          start)
reconcile-Stored_example =
    reconcile-Stored (standalone_view text_k8s) quiet writer steps fetch 0 unready 10 "prod" "shop"
      start single settled settled 0 1 refl defaults_missing refl
