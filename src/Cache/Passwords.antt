-- ===== src/Cache/Passwords.antt =====
-- The password of a resource cannot be changed through the cache. A reconciliation fetches the
-- object into fresh memory and then caches it.
use cndb_redis.Base.{
  ℕ, ◌+◌, ◌<◌, String, false, some, List, [], ◌∷◌, ◌≡◌, ◌≢◌, sym, ap, subst, ◌∙◌, arith, eq_iff,
  str_eq, Bool-cases, Option-cases, inl, inr, nat_eq_refl,
}
use cndb_redis.Base.Dict.{Dict, lookup, insert, lookup-insert, lookup-insert_self, lookup-nil}
use cndb_redis.Api.Types.{K8s}
use cndb_redis.Api.Views.{View}
use cndb_redis.Cache.{
  Meta, key_of, write, update_meta, checked_meta, updated_meta, locked_spec, new_meta, cache,
}
use cndb_redis.Cache.Entries.{cache-missing, cache-found, update_meta_cases}

-- the store, the first pointer that is not in use, and the cache
pub record Memory (O : Type 0) : Type 0 where
  pub store : ℕ → O
  pub next : ℕ
  pub entries : Dict Meta

module _ {k : K8s} {O : Type 0} (v : View k O) where
  open v use {metadata, spec, with_spec, spec-with_spec}

  -- client.Get into a new object, and MetaMap.Cache of it
  pub observe : Memory O → O → Memory O
  observe s o =
      let (store', entries', _) = cache v (write s.store s.next o) s.entries s.next in
      record { store = store'; next = s.next + 1; entries = entries' }

  pub observe_all : Memory O → List O → Memory O
  observe_all s [] = s
  observe_all s (o ∷ os) = observe_all (observe s o) os

  abbrev AllBelow : ℕ → Dict Meta → Type 0
  AllBelow n m = (j : String) (meta : Meta) → lookup j m ≡ some meta → meta.obj < n

  -- the entry of `key` and the object that it points to have the password
  pub record HasPassword (key password : String) (store : ℕ → O) (m : Dict Meta) : Type 0 where
    pub entry : Meta
    pub found : lookup key m ≡ some entry
    pub in_entry : entry.password ≡ password
    pub in_object : (spec (store entry.obj)).password ≡ password

  write-ne : (store : ℕ → O) (p q : ℕ) (o : O) → q < p → write store p o q ≡ store q
  unfolding write
  write-ne store p q o h = ground arith

  write-eq : (store : ℕ → O) (p : ℕ) (o : O) → write store p o p ≡ o
  unfolding write
  write-eq store p o = rw (nat_eq_refl p)

  obj-update_meta :
      (store : ℕ → O) (meta : Meta) (p n : ℕ)
      → meta.obj < n
      → p < n
      → (update_meta v store meta p).1.obj < n
  obj-update_meta store meta p n h q = elim (update_meta_cases v store meta p) [
    | inl e ↦ rw e (unfold checked_meta in h)
    | inr e ↦ rw e (unfold updated_meta in q)
  ]

  -- an update keeps the password of the entry and of its object
  update_meta-password :
      (store : ℕ → O) (meta : Meta) (p : ℕ) (password : String)
      → meta.password ≡ password
      → (spec (store meta.obj)).password ≡ password
      → ((update_meta v store meta p).1.password ≡ password)
        × ((spec ((update_meta v store meta p).0 (update_meta v store meta p).1.obj)).password
            ≡ password)
  update_meta-password store meta p password h q = elim (update_meta_cases v store meta p) [
    | inl e ↦ rw e (unfold checked_meta in (h, q))
    | inr e ↦ rw e (unfold updated_meta locked_spec in (q, rw (write-eq, spec-with_spec) q))
  ]

  update_meta-elsewhere :
      (store : ℕ → O) (meta : Meta) (p q : ℕ) → q < p → (update_meta v store meta p).0 q ≡ store q
  update_meta-elsewhere store meta p q h = elim (update_meta_cases v store meta p) [
    | inl e ↦ rw e
    | inr e ↦ rw e (write-ne store p q _ h)
  ]

  lookup-insert_other :
      (key j : String) (meta : Meta) (m : Dict Meta)
      → key ≢ j
      → lookup j (insert key meta m) ≡ lookup j m
  lookup-insert_other key j meta m h = lookup-insert key j meta m ∙ ground (arith, eq_iff key j)

  cache-HasPassword :
      (key password : String) (store : ℕ → O) (m : Dict Meta) (p : ℕ)
      → AllBelow p m
      → HasPassword key password store m
      → HasPassword key password (cache v store m p).0 (cache v store m p).1
  cache-HasPassword key password store m p below h =
      elim (Bool-cases (str_eq (key_of v (store p)) key)) [
        | inl mine ↦ own ((eq_iff (key_of v (store p)) key).0 mine)
        | inr other ↦ elim (Option-cases (lookup (key_of v (store p)) m)) [
          | inl missing ↦ rw (cache-missing v store m p missing) record {
            entry = h.entry;
            found = lookup-insert_other _ key _ m (differs other) ∙ h.found;
            in_entry = h.in_entry;
            in_object = h.in_object;
          }
          | inr (meta, found) ↦ rw (cache-found v store m p found) record {
            entry = h.entry;
            found = lookup-insert_other _ key _ m (differs other) ∙ h.found;
            in_entry = h.in_entry;
            in_object =
                rw (update_meta-elsewhere store meta p h.entry.obj (below key h.entry h.found))
                  h.in_object;
          }
        ]
      ]
    where
      differs : str_eq (key_of v (store p)) key ≡ false → key_of v (store p) ≢ key
      differs other = ground (arith, eq_iff (key_of v (store p)) key)

      own :
          key_of v (store p) ≡ key
          → HasPassword key password (cache v store m p).0 (cache v store m p).1
      own e =
          let kept = update_meta-password store h.entry p password h.in_entry h.in_object in
          rw (cache-found v store m p {meta = h.entry} (rw e h.found), e)
            record {
              entry = (update_meta v store h.entry p).1;
              found = lookup-insert_self key _ m;
              in_entry = kept.0;
              in_object = kept.1;
            }

  insert-AllBelow :
      (key : String) (meta : Meta) (m : Dict Meta) (p : ℕ)
      → AllBelow p m
      → meta.obj < p + 1
      → AllBelow (p + 1) (insert key meta m)
  insert-AllBelow key meta m p below h j meta' e = elim (Bool-cases (str_eq key j)) [
    | inl same ↦ ground (arith, lookup-insert key j meta m)
    | inr other ↦ omega (arith, below j meta' (sym (lookup-insert key j meta m ∙ (rw other)) ∙ e))
  ]

  cache-AllBelow :
      (store : ℕ → O) (m : Dict Meta) (p : ℕ)
      → AllBelow p m
      → AllBelow (p + 1) (cache v store m p).1
  cache-AllBelow store m p below = elim (Option-cases (lookup (key_of v (store p)) m)) [
    | inl missing ↦
        rw (cache-missing v store m p missing)
          (insert-AllBelow _ _ m p below (unfold new_meta in omega arith))
    | inr (meta, found) ↦ rw (cache-found v store m p found) (
        insert-AllBelow _ _ m p below
          (obj-update_meta store meta p (p + 1) (omega (arith, below _ meta found)) (omega arith)))
  ]

  record Locked (key password : String) (s : Memory O) : Type 0 where
    below : AllBelow s.next s.entries
    has : HasPassword key password s.store s.entries

  observe-Locked :
      (key password : String) (s : Memory O) (o : O)
      → Locked key password s
      → Locked key password (observe s o)
  unfolding observe
  observe-Locked key password s o h = record {
    below = cache-AllBelow (write s.store s.next o) s.entries s.next h.below;
    has = cache-HasPassword key password (write s.store s.next o) s.entries s.next h.below record {
      entry = h.has.entry;
      found = h.has.found;
      in_entry = h.has.in_entry;
      in_object =
          rw (write-ne s.store s.next h.has.entry.obj o (h.below key h.has.entry h.has.found))
            h.has.in_object;
    };
  }

  observe_all-Locked :
      (key password : String) (s : Memory O) (os : List O)
      → Locked key password s
      → Locked key password (observe_all s os)
  unfolding observe_all
  observe_all-Locked key password s [] h = h
  observe_all-Locked key password s (o ∷ os) h =
      observe_all-Locked key password (observe s o) os (observe-Locked key password s o h)

  first-Locked :
      (store : ℕ → O) (o : O)
      → Locked
          (key_of v o)
          (spec o).password
          (observe (record { store = store; next = 0; entries = [] }) o)
  unfolding observe
  first-Locked store o = rw (cache-missing v (write store 0 o) [] 0 (lookup-nil _)) record {
    below =
        insert-AllBelow _ _ [] 0 (λ j meta e. absurd (nothing j meta e))
          (unfold new_meta in omega arith);
    has = record {
      entry = new_meta v (write store 0 o) 0;
      found =
          subst
            (λ (q : O).
              lookup (key_of v o) (insert (key_of v q) (new_meta v (write store 0 o) 0) [])
              ≡ some (new_meta v (write store 0 o) 0))
            (sym (write-eq store 0 o)) (lookup-insert_self (key_of v o) _ []);
      in_entry = unfold new_meta in ap (λ (q : O). (spec q).password) (write-eq store 0 o);
      in_object = unfold new_meta in ap (λ (q : O). (spec q).password) (write-eq store 0 o);
    };
  }
    where
      nothing : (j : String) (meta : Meta) → lookup j [] ≡ some meta → ⊥
      nothing j meta e = let h = sym (lookup-nil j) ∙ e in cc

  -- Whatever resources are cached after it, in any order and with any passwords, the entry of the
  -- first resource has its password, and so has the object that the entry points to.
  pub password_fixed :
      (store : ℕ → O) (o : O) (os : List O)
      → let s = observe_all (record { store = store; next = 0; entries = [] }) (o ∷ os) in
        HasPassword (key_of v o) (spec o).password s.store s.entries
  unfolding observe_all
  password_fixed store o os =
      (observe_all-Locked (key_of v o) (spec o).password _ os (first-Locked store o)).has
