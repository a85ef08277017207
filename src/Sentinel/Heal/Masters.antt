-- ===== src/Sentinel/Heal/Masters.antt =====
-- SetOldestAsMaster leaves one master, the oldest pod.
use native.Mathlib.Nat.{le_refl}
use cndb_redis.Base.{
  ◌≤◌, String, List, [], ◌∷◌, ◌≡◌, ◌≢◌, refl, sym, ◌∙◌, arith, eq_iff, All, ◌⊎◌, Bool-cases, inl,
  inr, ok, sort_slice, insert_by, All-insert_by, All-sort_slice, All-of-sort_slice, All-map,
}
use cndb_redis.Client.{Pod, RedisClient}
use cndb_redis.Sentinel.Heal.{promote_first, created_before, promote_oldest}
use cndb_redis.Sentinel.Heal.Replication.{
  Role, master, slave_of, Replicates, >>-ok, promote_first-later,
}

-- every pod has an address of its own
abbrev pub OwnAddresses : List Pod → Type 0
OwnAddresses [] = Unit
OwnAddresses (p ∷ ps) = (p.pod_ip ≢ "") × All (λ q. p.pod_ip ≢ q.pod_ip) ps × OwnAddresses ps

-- no pod of the list is older than `m`
abbrev pub Oldest : Pod → List Pod → Type 0
Oldest m = All (λ q. m.creation_timestamp ≤ q.creation_timestamp)

insert-OwnAddresses :
    (p : Pod) (ps : List Pod)
    → p.pod_ip ≢ ""
    → All (λ q. p.pod_ip ≢ q.pod_ip) ps
    → OwnAddresses ps
    → OwnAddresses (insert_by created_before p ps)
unfolding insert_by
insert-OwnAddresses p [] h k own = (h, tt, tt)
insert-OwnAddresses p (q ∷ qs) h (pq, k) (hq, kq, own) = elim (Bool-cases (created_before q p)) [
  | inl before ↦ rw before (
    hq,
    All-insert_by _ created_before p qs (λ e. pq (sym e)) kq,
    insert-OwnAddresses p qs h k own,
  )
  | inr after ↦ rw after (h, (pq, k), (hq, kq, own))
]

sort-OwnAddresses : (ps : List Pod) → OwnAddresses ps → OwnAddresses (sort_slice created_before ps)
unfolding sort_slice
sort-OwnAddresses [] own = tt
sort-OwnAddresses (p ∷ ps) (h, k, own) =
    insert-OwnAddresses p (sort_slice created_before ps) h (All-sort_slice _ created_before ps k)
      (sort-OwnAddresses ps own)

-- the first pod is the oldest
abbrev OldestFirst : List Pod → Type 0
OldestFirst [] = Unit
OldestFirst (p ∷ ps) = Oldest p ps

insert-OldestFirst :
    (p : Pod) (ps : List Pod) → OldestFirst ps → OldestFirst (insert_by created_before p ps)
unfolding insert_by created_before
insert-OldestFirst p [] h = tt
insert-OldestFirst p (q ∷ qs) h = elim (Bool-cases (created_before q p)) [
  | inl before ↦ rw before (All-insert_by _ created_before p qs (ground arith) h)
  | inr after ↦ rw after (ground arith, All-map _ _ qs (λ x older. ground arith) h)
]

sort-OldestFirst : (ps : List Pod) → OldestFirst (sort_slice created_before ps)
unfolding sort_slice
sort-OldestFirst [] = tt
sort-OldestFirst (p ∷ ps) =
    insert-OldestFirst p (sort_slice created_before ps) (sort-OldestFirst ps)

abbrev pub In : Pod → List Pod → Type 0
In m [] = ⊥
In m (p ∷ ps) = (m ≡ p) ⊎ In m ps

In-of-insert : (m p : Pod) (ps : List Pod) → In m (insert_by created_before p ps) → In m (p ∷ ps)
unfolding insert_by
In-of-insert m p [] h = h
In-of-insert m p (q ∷ qs) h = elim (Bool-cases (created_before q p)) [
  | inl before ↦ swap (In-of-insert m p qs) (rw before at h)
  | inr after ↦ rw after at h
]
  where
    swap :
        (In m (insert_by created_before p qs) → In m (p ∷ qs))
        → In m (q ∷ insert_by created_before p qs)
        → In m (p ∷ q ∷ qs)
    swap rest (inl e) = inr (inl e)
    swap rest (inr i) = elim (rest i) [ inl e ↦ inl e | inr j ↦ inr (inr j) ]

In-of-sort : (m : Pod) (ps : List Pod) → In m (sort_slice created_before ps) → In m ps
unfolding sort_slice
In-of-sort m [] h = h
In-of-sort m (p ∷ ps) h = elim (In-of-insert m p (sort_slice created_before ps) h) [
  | inl e ↦ inl e
  | inr i ↦ inr (In-of-sort m ps i)
]

module _ {W : Type 0} (redis : RedisClient W) (role : W → String → Role)
    (laws : Replicates redis role) (auth : String) where
  -- the roles after the loop over the sorted pods
  first-roles :
      (m : Pod) (ms : List Pod) (w w' : W)
      → OwnAddresses (m ∷ ms)
      → promote_first redis auth "" (m ∷ ms) w ≡ (ok tt, w')
      → (role w' m.pod_ip ≡ master) × All (λ q. role w' q.pod_ip ≡ slave_of m.pod_ip) ms
  unfolding promote_first
  first-roles m ms w w' (h, k, own) e =
      let (v, first, rest) = >>-ok (redis.make_master m.pod_ip auth) _ w w' e in
      let (role_m, _) = laws.make_master-role m.pod_ip auth w v first in
      let (roles, _, at_master) =
        promote_first-later redis role laws auth m.pod_ip ms v w'
          (ground (arith, eq_iff m.pod_ip "")) k rest in
      (at_master ∙ role_m, roles)

  -- When every pod has an address of its own, SetOldestAsMaster that succeeds makes a pod that no
  -- other pod is older than a master, and every other pod a replica of it.
  pub promote_oldest-roles :
      (pods : List Pod) (w w' : W)
      → OwnAddresses pods
      → promote_oldest redis auth pods w ≡ (ok tt, w')
      → (m : Pod) × In m pods
        × Oldest m pods
        × (role w' m.pod_ip ≡ master)
        × All (λ q. (q ≡ m) ⊎ (role w' q.pod_ip ≡ slave_of m.pod_ip)) pods
  unfolding promote_oldest
  promote_oldest-roles [] w w' own e = absurd (cc)
  promote_oldest-roles (p ∷ ps) w w' own e =
      go (sort_slice created_before (p ∷ ps)) refl (sort-OwnAddresses (p ∷ ps) own)
        (sort-OldestFirst (p ∷ ps)) e
    where
      go :
          (sorted : List Pod)
          → sort_slice created_before (p ∷ ps) ≡ sorted
          → OwnAddresses sorted
          → OldestFirst sorted
          → promote_first redis auth "" sorted w ≡ (ok tt, w')
          → (m : Pod) × In m (p ∷ ps)
            × Oldest m (p ∷ ps)
            × (role w' m.pod_ip ≡ master)
            × All (λ q. (q ≡ m) ⊎ (role w' q.pod_ip ≡ slave_of m.pod_ip)) (p ∷ ps)
      go [] q own' old h = absurd (All-of-sort_slice (λ _. ⊥) created_before (p ∷ ps) (rw q tt)).0
      go (m ∷ ms) q own' old h =
          let (role_m, roles) = first-roles m ms w w' own' h in
          (
            m,
            In-of-sort m (p ∷ ps) (rw q (inl refl)),
            All-of-sort_slice (λ x. m.creation_timestamp ≤ x.creation_timestamp) created_before
                (p ∷ ps) (rw q (le_refl m.creation_timestamp, old)),
            role_m,
            All-of-sort_slice (λ x. (x ≡ m) ⊎ (role w' x.pod_ip ≡ slave_of m.pod_ip)) created_before
                (p ∷ ps) (rw q (inl refl, All-map _ _ ms (λ x r. inr r) roles)),
          )
