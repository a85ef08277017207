-- ===== src/Samples/Clusters.antt =====
-- Do on a healthy cluster that has its defaults already.
use cndb_redis.Base.{ℕ, [], ◌+◌, ok}
use cndb_redis.Base.Int.{pos}
use cndb_redis.Api.Types.{RedisSentinel}
use cndb_redis.Api.ValidateSentinel.{validate_sentinel}
use cndb_redis.Reconcile.{World, Writer}
use cndb_redis.Reconcile.Handlers.{Ensures, do_sentinel}
use cndb_redis.Samples.Objects.{text_k8s, clock}
use cndb_redis.Samples.Healing.{clock_timer, running, services, second}

abbrev complete : RedisSentinel text_k8s
complete = (validate_sentinel text_k8s running).0

abbrev writer : Writer (RedisSentinel text_k8s) ℕ
writer = record {
  put_spec = λ o w. (ok o, w + 1);
  put_status = λ o w. (ok o, w + 1);
  clock = clock;
}

-- every object is there
abbrev there : Ensures (RedisSentinel text_k8s) ℕ
there = record {
  ensure_redis_service = λ rc w. (ok tt, w);
  ensure_sentinel_service = λ rc w. (ok tt, w);
  ensure_sentinel_headless_service = λ rc w. (ok tt, w);
  ensure_redis_headless_service = λ rc w. (ok tt, w);
  ensure_redis_monitor_service = λ rc w. (ok tt, w);
  ensure_sentinel_config_map = λ rc w. (ok tt, w);
  ensure_sentinel_probe_config_map = λ rc w. (ok tt, w);
  ensure_redis_config_map = λ rc w. (ok tt, w);
  ensure_redis_shutdown_config_map = λ rc w. (ok tt, w);
  ensure_redis_statefulset = λ rc w. (ok tt, w);
  ensure_sentinel_statefulset = λ rc w. (ok tt, w);
}

abbrev start : World (RedisSentinel text_k8s) ℕ
start = record { store = λ p. complete; entries = []; outside = 0 }

ended : World (RedisSentinel text_k8s) ℕ
unfolding do_sentinel
ended = (do_sentinel text_k8s (services (pos 3)) second clock_timer there writer 0 start).1
