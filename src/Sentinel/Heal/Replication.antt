-- ===== src/Sentinel/Heal/Replication.antt =====
-- What redis promises of SLAVEOF, and the roles after a cluster has been healed.
use cndb_redis.Base.{
  String, false, List, [], ◌∷◌, ◌≡◌, ◌≢◌, refl, sym, ap, subst, ◌∙◌, arith, eq_iff, All,
  if◌then◌else◌, str_eq, Bool-cases, inl, inr, Result, ok, err,
}
use cndb_redis.Ops.{Op, Error, continue, ◌>>◌, for_each}
use cndb_redis.Client.{Pod, RedisClient}
use cndb_redis.Sentinel.Heal.{promote_first, follow}

pub data Role : Type 0 where
  master : Role
  slave_of : String → Role

-- A call that succeeds gives its node the role, and leaves every other node alone.
pub record Replicates {W : Type 0} (redis : RedisClient W) (role : W → String → Role) : Type 0 where
  pub make_master-role :
      (ip auth : String) (w w' : W)
      → redis.make_master ip auth w ≡ (ok tt, w')
      → (role w' ip ≡ master) × ((j : String) → j ≢ ip → role w' j ≡ role w j)
  pub make_slave_of-role :
      (ip to auth : String) (w w' : W)
      → redis.make_slave_of ip to auth w ≡ (ok tt, w')
      → (role w' ip ≡ slave_of to) × ((j : String) → j ≢ ip → role w' j ≡ role w j)

-- a sequence succeeds only if both calls do
pub >>-ok :
    {W : Type 0} (m n : Op W (Unit {0})) (w w' : W)
    → (m >> n) w ≡ (ok tt, w')
    → (v : W) × (m w ≡ (ok tt, v)) × (n v ≡ (ok tt, w'))
>>-ok {W} m n w w' h = go (m w) h
  where
    go :
        (r : Result Error (Unit {0}) × W)
        → continue r (λ _. n) ≡ (ok tt, w')
        → (v : W) × (r ≡ (ok tt, v)) × (n v ≡ (ok tt, w'))
    go (ok _, v) e = (v, refl, e)
    go (err x, v) e = absurd (cc)

-- the role that SetMasterOnAll gives to an address
abbrev pub wanted : String → String → Role
wanted master_ip ip = if str_eq ip master_ip then master else slave_of master_ip

ne_of_str_eq : {a b : String} → str_eq a b ≡ false → a ≢ b
ne_of_str_eq {a} {b} h = ground (arith, eq_iff a b)

module _ {W : Type 0} (redis : RedisClient W) (role : W → String → Role)
    (laws : Replicates redis role) (auth : String) where
  follow-role :
      (master_ip : String) (pod : Pod) (w w' : W)
      → follow redis auth master_ip pod w ≡ (ok tt, w')
      → (role w' pod.pod_ip ≡ wanted master_ip pod.pod_ip)
        × ((j : String) → j ≢ pod.pod_ip → role w' j ≡ role w j)
  unfolding follow
  follow-role master_ip pod w w' h = elim (Bool-cases (str_eq pod.pod_ip master_ip)) [
    | inl same ↦
        let e = (eq_iff pod.pod_ip master_ip).0 same in
        rw (same, e) (laws.make_master-role master_ip auth w w' (rw same at h))
    | inr other ↦ rw other (laws.make_slave_of-role pod.pod_ip master_ip auth w w' (rw other at h))
  ]

  -- a role that is already the wanted one stays so
  for_each-follow :
      (master_ip : String) (pods : List Pod) (w w' : W)
      → for_each pods (follow redis auth master_ip) w ≡ (ok tt, w')
      → All (λ p. role w' p.pod_ip ≡ wanted master_ip p.pod_ip) pods
        × ((j : String) → role w j ≡ wanted master_ip j → role w' j ≡ wanted master_ip j)
  unfolding for_each
  for_each-follow master_ip [] w w' h = (
    tt,
    λ j e.
        subst (λ (v : W). role v j ≡ wanted master_ip j)
          (ap (λ (q : Result Error (Unit {0}) × W). q.1) h) e,
  )
  for_each-follow master_ip (p ∷ ps) w w' h =
      let (v, first, rest) = >>-ok (follow redis auth master_ip p) _ w w' h in
      let (role_p, others) = follow-role master_ip p w v first in
      let (roles, kept) = for_each-follow master_ip ps v w' rest in
      (
        (kept p.pod_ip role_p, roles),
        λ j e. kept j (elim (Bool-cases (str_eq j p.pod_ip)) [
          | inl same ↦ rw ((eq_iff j p.pod_ip).0 same) role_p
          | inr other ↦ others j (ne_of_str_eq other) ∙ e
        ]),
      )

  same_world : {v w : W} → ◌≡◌ {A = Result Error (Unit {0}) × W} (ok tt, v) (ok tt, w) → v ≡ w
  same_world e = ap (λ (q : Result Error (Unit {0}) × W). q.1) e

  -- later pods become replicas of the new master, which keeps its role
  pub promote_first-later :
      (m : String) (pods : List Pod) (w w' : W)
      → str_eq m "" ≡ false
      → All (λ p. m ≢ p.pod_ip) pods
      → promote_first redis auth m pods w ≡ (ok tt, w')
      → All (λ p. role w' p.pod_ip ≡ slave_of m) pods
        × ((j : String) → role w j ≡ slave_of m → role w' j ≡ slave_of m)
        × (role w' m ≡ role w m)
  unfolding promote_first
  promote_first-later m [] w w' h k e = (
    tt,
    λ j r. subst (λ (v : W). role v j ≡ slave_of m) (same_world e) r,
    ap (λ (v : W). role v m) (sym (same_world e)),
  )
  promote_first-later m (p ∷ ps) w w' h (k, ks) e =
      let (v, first, rest) =
        >>-ok (redis.make_slave_of p.pod_ip m auth) (promote_first redis auth m ps) w w'
          (rw h at e) in
      let (role_p, others) = laws.make_slave_of-role p.pod_ip m auth w v first in
      let (roles, kept, at_master) = promote_first-later m ps v w' h ks rest in
      (
        (kept p.pod_ip role_p, roles),
        λ j r. kept j (elim (Bool-cases (str_eq j p.pod_ip)) [
          | inl same ↦ rw ((eq_iff j p.pod_ip).0 same) role_p
          | inr other ↦ others j (ne_of_str_eq other) ∙ r
        ]),
        at_master ∙ others m k,
      )

  -- SetMasterOnAll that succeeds makes the given address a master, if a pod has it, and every other
  -- pod a replica of it.
  pub follow-roles :
      (master_ip : String) (pods : List Pod) (w w' : W)
      → for_each pods (follow redis auth master_ip) w ≡ (ok tt, w')
      → All (λ p. role w' p.pod_ip ≡ wanted master_ip p.pod_ip) pods
  follow-roles master_ip pods w w' h = (for_each-follow master_ip pods w w' h).0
