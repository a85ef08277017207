-- ===== src/Reconcile/Clusters.antt =====
-- What has happened to the redis of a cluster when Do returns without an error.
use cndb_redis.Base.{String, ◌≡◌, ◌⊎◌, ok}
use cndb_redis.Api.Types.{K8s, RedisSentinel}
use cndb_redis.Cache.{StateType}
use cndb_redis.Client.{Services, RedisClient, Timer}
use cndb_redis.Sentinel.Check.{check_redis_number, check_sentinel_number}
use cndb_redis.Sentinel.Handler.Run.{Healed}
use cndb_redis.Sentinel.Handler.Exits.{SentinelsUncounted}

module _ (k : K8s) {W : Type 0} (api : Services W) (redis : RedisClient W) (timer : Timer W) where
  -- the number of redis pods was right, and CheckSentinelNumber failed or the run was complete
  abbrev pub IsChecked : RedisSentinel k → String → StateType → W → W → Type 0
  IsChecked rc auth state w w' =
      (v : W) × (check_redis_number api redis rc w ≡ (ok tt, v))
      × (SentinelsUncounted api redis timer rc auth v w'
          ⊎ ((u : W) × (check_sentinel_number api redis rc v ≡ (ok tt, u))
              × Healed api redis timer rc auth state u w'))
