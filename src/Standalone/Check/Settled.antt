-- ===== src/Standalone/Check/Settled.antt =====
-- The settings of a standalone redis after CheckAndHeal.
use cndb_redis.Base.{
  String, ◌<>◌, Option, none, some, List, [], ◌∷◌, ◌≡◌, ◌≢◌, ◌⊎◌, inl, inr, refl, ap, ◌∙◌, All,
  Result, ok, err, eq_iff, ◌&&◌, if◌then◌else◌, Bool-cases, str_eq, subst,
}
use cndb_redis.Base.Int.{ℤ, eqb_ℤ, eqb_ℤ_iff}
use cndb_redis.Base.Dict.{Dict}
use cndb_redis.Api.Types.{K8s, RedisStandalone}
use cndb_redis.Api.Defaults.{made}
use cndb_redis.Ops.{Error, pure}
use cndb_redis.Ops.Failure.{bind-err}
use cndb_redis.Util.Names.{generate_name}
use cndb_redis.Ops.Success.{bind-ok, rescue-ok, Turns, for_each-ok}
use cndb_redis.Client.{update_sentinel_status, Services, RedisClient, Pod, StatefulSet}
use cndb_redis.Sentinel.Check.{config_conflict, fail_if, same_number, running_ips}
use cndb_redis.Sentinel.Check.Configs.{Passes, config_conflict_iff}
use cndb_redis.Sentinel.Heal.{is_empty}
use cndb_redis.Standalone.Check.{
  get_standalone_redis_name, get_standalone_ips, check_standalone_config, check_standalone_number,
  set_standalone_custom_config, notify_standalone, settle_config, set_standalone_config,
  wait_for_standalone, check_and_heal_standalone,
}

-- the addresses of the pods whose phase is Running, in the order of the pods
abbrev pub AreRunning : List Pod → List String → Type 0
AreRunning [] ips = ips ≡ []
AreRunning (p ∷ ps) ips =
    ((p.phase ≡ "Running") × ((rest : List String) × (ips ≡ p.pod_ip ∷ rest) × AreRunning ps rest))
    ⊎ ((p.phase ≢ "Running") × AreRunning ps ips)

running_ips-AreRunning : (ps : List Pod) → AreRunning ps (running_ips ps)
unfolding running_ips
running_ips-AreRunning [] = refl
running_ips-AreRunning (p ∷ ps) = elim (Bool-cases (str_eq p.phase "Running")) [
  | inl runs ↦
      rw runs
        (inl ((eq_iff p.phase "Running").0 runs, (running_ips ps, refl, running_ips-AreRunning ps)))
  | inr other ↦
      rw other (
        inr (λ e. absurd (let s = (eq_iff p.phase "Running").1 e in cc), running_ips-AreRunning ps))
]

same_number-ok :
    {W : Type 0} (a b : ℤ) (e : Error) (w w' : W)
    → same_number a b e w ≡ (ok tt, w')
    → (a ≡ b) × (w ≡ w')
unfolding same_number
same_number-ok a b e w w' = elim (Bool-cases (eqb_ℤ a b)) [
  | inl same ↦
      rw same (λ h. ((eqb_ℤ_iff a b).0 same, ap (λ (q : Result Error (Unit {0}) × _). q.1) h))
  | inr other ↦ rw other (λ h. absurd (cc))
]

fail_if-ok :
    {W : Type 0} (found : Option String) (u w : W)
    → fail_if found u ≡ (ok tt, w)
    → (found ≡ none) × (u ≡ w)
unfolding fail_if
fail_if-ok none u w h = (refl, ap (λ (q : Result Error (Unit {0}) × _). q.1) h)
fail_if-ok (some text) u w h = absurd (cc)

fail_if-err :
    {W : Type 0} (found : Option String) (u w : W) {e : Error}
    → fail_if found u ≡ (err e, w)
    → (found ≢ none) × (u ≡ w)
unfolding fail_if
fail_if-err none u w h = absurd (cc)
fail_if-err (some text) u w h = (λ e. cc, ap (λ (q : Result Error (Unit {0}) × _). q.1) h)

module _ {k : K8s} {W : Type 0} (api : Services W) (redis : RedisClient W) (rc : RedisStandalone k)
    (auth : String) where
  -- the stateful set has the pods that the specification asks for, and all of them are ready
  abbrev pub IsCounted : W → W → Type 0
  IsCounted v w =
      (ss : StatefulSet) × (api.get_stateful_set rc.metadata.namespace
          ("redis" <> ("-standalone" <> ("-" <> rc.metadata.name))) v
        ≡ (ok ss, w))
      × (rc.spec.size ≡ ss.replicas)
      × (rc.spec.size ≡ ss.ready_replicas)

  -- the node reports every setting of the specification
  abbrev pub IsRight : String → W → W → Type 0
  IsRight rip v w =
      (configs : Dict String) × (redis.get_all_redis_config rip auth v ≡ (ok configs, w))
      × All (Passes configs) (made rc.spec.config)

  -- the node does not tell its settings, or it does not report every setting of the specification
  abbrev pub IsWrong : String → W → W → Type 0
  IsWrong rip v w =
      ((e : Error) × (redis.get_all_redis_config rip auth v ≡ (err e, w)))
      ⊎ ((configs : Dict String) × (redis.get_all_redis_config rip auth v ≡ (ok configs, w))
          × ¬ All (Passes configs) (made rc.spec.config))

  -- the settings of the specification are sent with success, or there are none and no password
  abbrev pub IsSent : String → W → W → Type 0
  IsSent rip v w =
      (redis.set_custom_redis_config rip (made rc.spec.config) auth v ≡ (ok tt, w))
      ⊎ ((made rc.spec.config ≡ []) × (auth ≡ "") × (v ≡ w))

  -- The step from `v` to `w` finds the settings of the node right, or it finds them wrong, announces
  -- it and sends them to the node.
  abbrev pub IsSettled : String → W → W → Type 0
  IsSettled rip v w =
      IsRight rip v w
      ⊎ ((u : W) × IsWrong rip v u
          × IsSent rip (api.emit (update_sentinel_status "set custom config for redis server") u) w)

  check_standalone_config-IsRight :
      (rip : String) (v w : W)
      → check_standalone_config api redis rc rip auth v ≡ (ok tt, w)
      → IsRight rip v w
  unfolding check_standalone_config
  check_standalone_config-IsRight rip v w h =
      let (configs, u, got, rest) = bind-ok (redis.get_all_redis_config rip auth) _ v w h in
      let (passed, same) = fail_if-ok (config_conflict (made rc.spec.config) configs) u w rest in
      (
        configs,
        got ∙ ap (λ (x : W). (ok configs, x)) same,
        (config_conflict_iff (made rc.spec.config) configs).0 passed,
      )

  check_standalone_config-IsWrong :
      (rip : String) (e : Error) (v w : W)
      → check_standalone_config api redis rc rip auth v ≡ (err e, w)
      → IsWrong rip v w
  unfolding check_standalone_config
  check_standalone_config-IsWrong rip e v w h =
      elim (bind-err (redis.get_all_redis_config rip auth) _ v w h) [
        | inl lost ↦ inl (e, lost)
        | inr (configs, u, got, rest) ↦
            let (differs, same) =
              fail_if-err (config_conflict (made rc.spec.config) configs) u w rest in
            inr (
              configs,
              got ∙ ap (λ (x : W). (ok configs, x)) same,
              λ passes. differs ((config_conflict_iff (made rc.spec.config) configs).1 passes),
            )
      ]

  set_standalone_custom_config-IsSent :
      (rip : String) (v w : W)
      → set_standalone_custom_config api redis rc rip auth v ≡ (ok tt, w)
      → IsSent rip v w
  unfolding set_standalone_custom_config is_empty
  set_standalone_custom_config-IsSent rip v w h = go (made rc.spec.config) refl h
    where
      go :
          (config : Dict String)
          → made rc.spec.config ≡ config
          → (if is_empty config && str_eq auth ""
                then pure tt
                else redis.set_custom_redis_config rip config auth)
              v
            ≡ (ok tt, w)
          → IsSent rip v w
      go (x ∷ config) e q = inl (rw e q)
      go [] e q = elim (Bool-cases (str_eq auth "")) [
        | inl none_given ↦
            let ended : W → Result Error (Unit {0}) × W = λ x. (ok tt, x) in
            let done : ended v ≡ ended w = cc in
            inr
              (e, (eq_iff auth "").0 none_given, ap (λ (r : Result Error (Unit {0}) × W). r.1) done)
        | inr given ↦ inl (rw e (cc))
      ]

  settle_config-IsSettled :
      (rip : String) (v w : W)
      → settle_config api redis rc auth rip v ≡ (ok tt, w)
      → IsSettled rip v w
  unfolding settle_config notify_standalone
  settle_config-IsSettled rip v w h =
      elim (rescue-ok (check_standalone_config api redis rc rip auth v) _ w h) [
        | inl passed ↦ inl (check_standalone_config-IsRight rip v w passed)
        | inr (e, u, failed, sent) ↦ inr (
          u,
          check_standalone_config-IsWrong rip e v u failed,
          set_standalone_custom_config-IsSent rip _ w sent,
        )
      ]

  wait_for_standalone-IsCounted :
      (w w' : W) → wait_for_standalone api redis rc w ≡ (ok tt, w') → IsCounted w w'
  unfolding wait_for_standalone check_standalone_number get_standalone_redis_name generate_name
  wait_for_standalone-IsCounted w w' h =
      elim (rescue-ok (check_standalone_number api redis rc w) _ w' h) [
        | inl counted ↦
            let (ss, v, got, rest) = bind-ok (api.get_stateful_set _ _) _ w w' counted in
            let (_, u, first, second) =
              bind-ok (same_number rc.spec.size ss.replicas _) _ v w' rest in
            let (all, at_u) = same_number-ok rc.spec.size ss.replicas _ v u first in
            let (ready, at_w) = same_number-ok rc.spec.size ss.ready_replicas _ u w' second in
            (ss, got ∙ ap (λ (x : W). (ok ss, x)) (at_u ∙ at_w), all, ready)
        | inr (e, v, failed, handled) ↦ absurd (unfold notify_standalone in cc)
      ]

  -- When CheckAndHeal of a standalone redis succeeds, its stateful set had as many pods as the
  -- specification asks for, all of them ready, and for every pod that was running then, one after the
  -- other, the node reported every setting of the specification (a memory size as its number of
  -- bytes), or it did not, this was announced, and the settings were sent to it with success, if
  -- there were any settings or a password.
  pub check_and_heal_standalone-ok :
      (w w' : W)
      → check_and_heal_standalone api redis rc auth w ≡ (ok tt, w')
      → (v : W) × IsCounted w v
        × ((pods : List Pod) × (u : W) × (api.get_stateful_set_pods rc.metadata.namespace
                ("redis" <> ("-standalone" <> ("-" <> rc.metadata.name)))
                v
              ≡ (ok pods, u))
            × ((rips : List String) × AreRunning pods rips × Turns IsSettled rips u w'))
  unfolding check_and_heal_standalone set_standalone_config get_standalone_ips
      get_standalone_redis_name generate_name
  check_and_heal_standalone-ok w w' h =
      let (_, v, waited, rest) = bind-ok (wait_for_standalone api redis rc) _ w w' h in
      let (rips, u, found, loop) = bind-ok (get_standalone_ips api redis rc) _ v w' rest in
      let (pods, t, listed, last) = bind-ok (api.get_stateful_set_pods _ _) _ v u found in
      let same : running_ips pods ≡ rips = cc in
      let running : AreRunning pods rips =
        subst (AreRunning pods) same (running_ips-AreRunning pods) in
      let at_u : t ≡ u = ap (λ (q : Result Error (List String) × W). q.1) last in
      (
        v,
        wait_for_standalone-IsCounted w v waited,
        (
          pods,
          u,
          listed ∙ ap (λ (x : W). (ok pods, x)) at_u,
          (
            rips,
            running,
            for_each-ok IsSettled (settle_config api redis rc auth) settle_config-IsSettled rips u
                w' loop,
          ),
        ),
      )
