-- ===== src/Sentinel/Handler/Run.antt =====
-- A run of CheckAndHeal that has settled the master, from the count of the masters to its end.
use cndb_redis.Base.{ℕ, zero, suc, String, List, ◌≡◌, ◌⊎◌, inl, inr, refl, ok, err}
use cndb_redis.Api.Types.{K8s, RedisSentinel}
use cndb_redis.Cache.{StateType}
use cndb_redis.Ops.{Op, Error, on_error, for_each}
use cndb_redis.Ops.Success.{bind-ok, rescue-ok, Turns, for_each-ok}
use cndb_redis.Client.{Services, RedisClient, Timer}
use cndb_redis.Sentinel.Check.{
  ensure_sentinel_ready, get_master_ip, get_number_masters, check_all_slaves_from_master,
  get_sentinels_ips,
}
use cndb_redis.Sentinel.Heal.{set_master_on_all}
use cndb_redis.Sentinel.Handler.{
  set_redis_config, point_at_master, restore_slaves, restore_sentinels, set_sentinel_config,
  settle_masters, heal_masters,
}

module _ {k : K8s} {W : Type 0} (api : Services W) (redis : RedisClient W) (timer : Timer W)
    (rc : RedisSentinel k) (auth : String) where
  -- every redis but the master is its slave, or SetMasterOnAll made it so
  abbrev Agrees : String → W → W → Type 0
  Agrees m v w =
      (check_all_slaves_from_master api redis rc m auth v ≡ (ok tt, w))
      ⊎ ((e : Error) × (u : W) × (check_all_slaves_from_master api redis rc m auth v ≡ (err e, u))
          × (set_master_on_all api redis rc m auth u ≡ (ok tt, w)))

  abbrev AllSucceed : (String → Op W (Unit {0})) → List String → W → W → Type 0
  AllSucceed body = Turns (λ x v w. body x v ≡ (ok tt, w))

  all_succeed :
      (body : String → Op W (Unit {0})) (xs : List String) (v w : W)
      → for_each xs body v ≡ (ok tt, w)
      → AllSucceed body xs v w
  all_succeed body = for_each-ok _ body (λ x v w h. h)

  -- A complete run from `w` to `w'`, each step in the state that the step before it left: at most
  -- one master was counted, where there was none the oldest was promoted, GetMasterIP named a master
  -- that every other redis followed or was told to follow, the settings were sent, every sentinel
  -- was pointed at that master and restored, and the sentinels were ready at the end.
  pub record Healed (state : StateType) (w w' : W) : Type 0 where
    pub masters : ℕ
    pub counting : W
    pub counted : get_number_masters api redis rc auth w ≡ (ok masters, counting)
    pub at_most_one : (masters ≡ 0) ⊎ (masters ≡ 1)
    pub asking : W
    pub settled : settle_masters api redis timer rc auth masters counting ≡ (ok tt, asking)
    pub master : String
    pub asked : W
    pub found : get_master_ip api redis rc auth asking ≡ (ok master, asked)
    pub agreed : W
    pub agreeing : Agrees master asked agreed
    pub configured : W
    pub configuring : set_redis_config api redis timer rc auth agreed ≡ (ok tt, configured)
    pub sentinels : List String
    pub listed : W
    pub listing : get_sentinels_ips api redis rc configured ≡ (ok sentinels, listed)
    pub pointed : W
    pub pointing :
        AllSucceed (point_at_master api redis timer rc auth master) sentinels listed pointed
    pub filled : W
    pub filling : AllSucceed (restore_slaves api redis timer rc auth) sentinels pointed filled
    pub restored : W
    pub restoring : AllSucceed (restore_sentinels api redis timer rc auth) sentinels filled restored
    pub ending : W
    pub tuning :
        set_sentinel_config api redis timer rc auth state sentinels restored ≡ (ok tt, ending)
    pub ready : ensure_sentinel_ready api redis rc ending ≡ (ok tt, w')

  settle_masters-ok :
      (n : ℕ) (w w' : W)
      → settle_masters api redis timer rc auth n w ≡ (ok tt, w')
      → (n ≡ 0) ⊎ (n ≡ 1)
  unfolding settle_masters
  settle_masters-ok zero w w' h = inl refl
  settle_masters-ok (suc zero) w w' h = inr refl
  settle_masters-ok (suc (suc n)) w w' h = absurd (cc)

  pub heal_masters-Healed :
      (state : StateType) (w w' : W)
      → heal_masters api redis timer rc auth state w ≡ (ok tt, w')
      → Healed state w w'
  unfolding heal_masters
  heal_masters-Healed state w w' h =
      let (n, w1, counted, h1) = bind-ok (get_number_masters api redis rc auth) _ w w' h in
      let (_, w2, settled, h2) = bind-ok (settle_masters api redis timer rc auth n) _ w1 w' h1 in
      let (m, w3, found, h3) = bind-ok (get_master_ip api redis rc auth) _ w2 w' h2 in
      let (_, w4, agreeing, h4) =
        bind-ok
          (on_error (check_all_slaves_from_master api redis rc m auth)
            (λ e. set_master_on_all api redis rc m auth))
          _ w3 w' h3 in
      let (_, w5, configuring, h5) =
        bind-ok (set_redis_config api redis timer rc auth) _ w4 w' h4 in
      let (sips, w6, listing, h6) = bind-ok (get_sentinels_ips api redis rc) _ w5 w' h5 in
      let (_, w7, pointing, h7) =
        bind-ok (for_each sips (point_at_master api redis timer rc auth m)) _ w6 w' h6 in
      let (_, w8, filling, h8) =
        bind-ok (for_each sips (restore_slaves api redis timer rc auth)) _ w7 w' h7 in
      let (_, w9, restoring, h9) =
        bind-ok (for_each sips (restore_sentinels api redis timer rc auth)) _ w8 w' h8 in
      let (_, w10, tuning, ready) =
        bind-ok (set_sentinel_config api redis timer rc auth state sips) _ w9 w' h9 in
      record {
        masters = n;
        counting = w1;
        counted = counted;
        at_most_one = settle_masters-ok n w1 w2 settled;
        asking = w2;
        settled = settled;
        master = m;
        asked = w3;
        found = found;
        agreed = w4;
        agreeing = rescue-ok _ _ w4 agreeing;
        configured = w5;
        configuring = configuring;
        sentinels = sips;
        listed = w6;
        listing = listing;
        pointed = w7;
        pointing = all_succeed (point_at_master api redis timer rc auth m) sips w6 w7 pointing;
        filled = w8;
        filling = all_succeed (restore_slaves api redis timer rc auth) sips w7 w8 filling;
        restored = w9;
        restoring = all_succeed (restore_sentinels api redis timer rc auth) sips w8 w9 restoring;
        tuning = tuning;
        ending = w10;
        ready = ready;
      }
