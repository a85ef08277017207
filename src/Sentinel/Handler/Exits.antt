-- ===== src/Sentinel/Handler/Exits.antt =====
-- What holds when CheckAndHeal reports success, and how it ends before it heals anything.
use cndb_redis.Base.{ℕ, suc, String, ◌≡◌, refl, ok, err}
use cndb_redis.Api.Types.{K8s, RedisSentinel}
use cndb_redis.Cache.{StateType}
use cndb_redis.Ops.{Error, failure, error_text}
use cndb_redis.Client.{Services, RedisClient, Timer, failed_cluster}
use cndb_redis.Sentinel.Check.{check_redis_number, check_sentinel_number, get_number_masters}
use cndb_redis.Sentinel.Handler.{
  unless_sentinels_differ, settle_masters, heal_masters, wait_for_redis, check_and_heal,
}

module _ {k : K8s} {W : Type 0} (api : Services W) (redis : RedisClient W) (timer : Timer W)
    (rc : RedisSentinel k) (auth : String) where
  -- CheckSentinelNumber failed, and nothing but an event followed
  pub record SentinelsUncounted (w w' : W) : Type 0 where
    pub reason : Error
    pub failed : W
    pub differ : check_sentinel_number api redis rc w ≡ (err reason, failed)
    pub reported : w' ≡ api.emit (failed_cluster (error_text reason)) failed

  -- When the number of sentinel pods differs from the specification, CheckAndHeal reports success
  -- and has done nothing but emit an event.
  pub check_and_heal_sentinels_differ :
      (state : StateType) (w v u : W) (e : Error)
      → check_redis_number api redis rc w ≡ (ok tt, v)
      → check_sentinel_number api redis rc v ≡ (err e, u)
      → check_and_heal api redis timer rc auth state w
        ≡ (ok tt, api.emit (failed_cluster (error_text e)) u)
  unfolding check_and_heal wait_for_redis unless_sentinels_differ
  check_and_heal_sentinels_differ state w v u e h k = rw (h, k) refl

  -- With more than one master, CheckAndHeal fails in the state in which it has counted them: no
  -- redis and no sentinel is told anything.
  pub check_and_heal_several_masters :
      (state : StateType) (w v u t : W) (n : ℕ)
      → check_redis_number api redis rc w ≡ (ok tt, v)
      → check_sentinel_number api redis rc v ≡ (ok tt, u)
      → get_number_masters api redis rc auth u ≡ (ok (suc (suc n)), t)
      → check_and_heal api redis timer rc auth state w
        ≡ (err (failure "more than one master, fix manually"), t)
  unfolding check_and_heal wait_for_redis unless_sentinels_differ heal_masters settle_masters
  check_and_heal_several_masters state w v u t n h k m = rw (h, k, m) refl
