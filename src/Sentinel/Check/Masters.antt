-- ===== src/Sentinel/Check/Masters.antt =====
-- The two ways in which the checker counts masters agree.
use cndb_redis.Base.{
  ℕ, String, Bool, true, false, List, [], ◌∷◌, ◌≡◌, ◌↔◌, refl, sym, ap, arith, length,
  length-append, Result, ok, err,
}
use cndb_redis.Api.Types.{K8s, RedisSentinel}
use cndb_redis.Ops.{Error, continue, ◌>>=◌}
use cndb_redis.Client.{Services, RedisClient}
use cndb_redis.Sentinel.Check.{
  count_master, add_master, masters_loop, collect_masters, only_master, get_redises_ips,
  get_master_ip, get_number_masters,
}

-- the number of the masters that were collected
abbrev counted : {W : Type 0} → Result Error (List String) × W → Result Error ℕ × W
counted (ok masters, w) = (ok (length masters), w)
counted (err e, w) = (err e, w)

length-add_master :
    (is_master : Bool) (ip : String) (masters : List String)
    → length (add_master is_master ip masters) ≡ count_master is_master (length masters)
unfolding add_master count_master
length-add_master true ip masters = length-append masters (ip ∷ [])
length-add_master false ip masters = refl

module _ {W : Type 0} (redis : RedisClient W) (auth : String) where
  masters_loop-collect_masters :
      (ips masters : List String) (w : W)
      → masters_loop redis auth ips (length masters) w
        ≡ counted (collect_masters redis auth ips masters w)
  unfolding masters_loop collect_masters
  masters_loop-collect_masters [] masters w = refl
  masters_loop-collect_masters (ip ∷ ips) masters w =
      next (redis.is_master ip auth w)
        (λ b v. masters_loop-collect_masters ips (add_master b ip masters) v)
    where
      next :
          (r : Result Error Bool × W)
          → ((b : Bool) (v : W)
              → masters_loop redis auth ips (length (add_master b ip masters)) v
                ≡ counted (collect_masters redis auth ips (add_master b ip masters) v))
          → continue r (λ b. masters_loop redis auth ips (count_master b (length masters)))
            ≡ counted (continue r (λ b. collect_masters redis auth ips (add_master b ip masters)))
      next (ok b, v) rest = rw (sym (length-add_master b ip masters)) (rest b v)
      next (err e, v) rest = refl

  only_master_iff :
      (q : Result Error (List String) × W) (w' : W)
      → (counted q ≡ (ok 1, w')) ↔ ((m : String) × (continue q only_master ≡ (ok m, w')))
  unfolding only_master
  only_master_iff (err e, w) w' = (λ h. absurd (cc), λ (m, h). absurd (cc))
  only_master_iff (ok [], w) w' = (λ h. absurd (ground arith), λ (m, h). absurd (cc))
  only_master_iff (ok (m ∷ []), w) w' = (
    λ h. (m, ap (λ (q : Result Error ℕ × W). (ok m, q.1)) h),
    λ (n, h). ap (λ (q : Result Error String × W). (ok 1, q.1)) h,
  )
  only_master_iff (ok (m ∷ n ∷ ms), w) w' = (λ h. absurd (ground arith), λ (m, h). absurd (cc))

module _ {k : K8s} {W : Type 0} (api : Services W) (redis : RedisClient W)
    (rc : RedisSentinel k) where
  -- GetMasterIP finds a master exactly when GetNumberMasters, started in the same state, returns 1,
  -- and both leave the same state behind.
  pub get_master_ip_iff :
      (auth : String) (w w' : W)
      → (get_number_masters api redis rc auth w ≡ (ok 1, w'))
        ↔ ((m : String) × (get_master_ip api redis rc auth w ≡ (ok m, w')))
  unfolding get_number_masters get_master_ip
  get_master_ip_iff auth w w' = after (get_redises_ips api redis rc w)
    where
      after :
          (r : Result Error (List String) × W)
          → (continue r (λ ips. masters_loop redis auth ips 0) ≡ (ok 1, w')) ↔ (
              (m : String) × (continue r (λ ips. collect_masters redis auth ips [] >>= only_master)
                ≡ (ok m, w')))
      after (ok ips, v) =
          rw (masters_loop-collect_masters redis auth ips [] v)
            (only_master_iff redis auth (collect_masters redis auth ips [] v) w')
      after (err e, v) = (λ h. absurd (cc), λ (m, h). absurd (cc))
