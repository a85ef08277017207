-- ===== src/Reconcile/Handlers.antt =====
-- The two handlers: Ensure of each, and Do over the shared code.
use cndb_redis.Base.{ℕ, if◌then◌else◌}
use cndb_redis.Api.Types.{K8s, RedisSentinel, RedisStandalone}
use cndb_redis.Api.Views.{sentinel_view, standalone_view}
use cndb_redis.Api.ValidateSentinel.{validate_sentinel}
use cndb_redis.Api.ValidateStandalone.{validate_standalone}
use cndb_redis.Ops.{Op, pure, ◌>>◌}
use cndb_redis.Client.{Services, RedisClient, Timer}
use cndb_redis.Sentinel.Handler.{check_and_heal}
use cndb_redis.Standalone.Check.{check_and_heal_standalone}
use cndb_redis.Reconcile.{World, Writer, Steps, do_resource}

-- RedisSentinelClient and RedisStandaloneClient, given the labels and the owner of the resource
pub record Ensures (O W : Type 0) : Type 0 where
  pub ensure_redis_service : O → Op W (Unit {0})
  pub ensure_sentinel_service : O → Op W (Unit {0})
  pub ensure_sentinel_headless_service : O → Op W (Unit {0})
  pub ensure_redis_headless_service : O → Op W (Unit {0})
  pub ensure_redis_monitor_service : O → Op W (Unit {0})
  pub ensure_sentinel_config_map : O → Op W (Unit {0})
  pub ensure_sentinel_probe_config_map : O → Op W (Unit {0})
  pub ensure_redis_config_map : O → Op W (Unit {0})
  pub ensure_redis_shutdown_config_map : O → Op W (Unit {0})
  pub ensure_redis_statefulset : O → Op W (Unit {0})
  pub ensure_sentinel_statefulset : O → Op W (Unit {0})

module _ (k : K8s) {W : Type 0} (api : Services W) (redis : RedisClient W) (timer : Timer W) where
  unfoldable pub ensure_sentinel : Ensures (RedisSentinel k) W → RedisSentinel k → Op W (Unit {0})
  ensure_sentinel e rc = do
    e.ensure_redis_service rc
    e.ensure_sentinel_service rc
    e.ensure_sentinel_headless_service rc
    if rc.spec.common.exporter.enabled then e.ensure_redis_monitor_service rc else pure tt
    e.ensure_sentinel_config_map rc
    e.ensure_sentinel_probe_config_map rc
    e.ensure_redis_shutdown_config_map rc
    e.ensure_redis_statefulset rc
    e.ensure_sentinel_statefulset rc

  unfoldable pub ensure_standalone :
      Ensures (RedisStandalone k) W → RedisStandalone k → Op W (Unit {0})
  ensure_standalone e rc = do
    e.ensure_redis_service rc
    e.ensure_redis_headless_service rc
    e.ensure_redis_config_map rc
    e.ensure_redis_shutdown_config_map rc
    if rc.spec.exporter.enabled then e.ensure_redis_monitor_service rc else pure tt
    e.ensure_redis_statefulset rc

  abbrev pub sentinel_steps : Ensures (RedisSentinel k) W → Steps (RedisSentinel k) W
  sentinel_steps e = record {
    validate = validate_sentinel k;
    ensure = ensure_sentinel e;
    heal = λ rc state auth. check_and_heal api redis timer rc auth state;
  }

  unfoldable pub do_sentinel :
      Ensures (RedisSentinel k) W
      → Writer (RedisSentinel k) W
      → ℕ
      → Op (World (RedisSentinel k) W) (Unit {0})
  unfolding do_resource
  do_sentinel e writer = do_resource (sentinel_view k) api writer (sentinel_steps e)

  unfoldable pub do_standalone :
      Ensures (RedisStandalone k) W
      → Writer (RedisStandalone k) W
      → ℕ
      → Op (World (RedisStandalone k) W) (Unit {0})
  unfolding do_resource
  do_standalone e writer = do_resource (standalone_view k) api writer record {
    validate = validate_standalone k;
    ensure = ensure_standalone e;
    heal = λ rc state auth. check_and_heal_standalone api redis rc auth;
  }
