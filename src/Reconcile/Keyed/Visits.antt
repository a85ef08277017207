-- ===== src/Reconcile/Keyed/Visits.antt =====
-- Caching and Do leave every entry of the cache pointing at a resource of the entry's own key.
use cndb_redis.Base.{
  ℕ, ◌<◌, String, Option, none, some, ◌≡◌, refl, sym, subst, ◌∙◌, Bool-cases, Option-cases, inl,
  inr, Result, ok, err, str_eq, eq_iff, Bool, true, false,
}
use cndb_redis.Base.Dict.{Dict, lookup, insert, lookup-insert}
use cndb_redis.Api.Types.{K8s}
use cndb_redis.Api.Views.{View}
use cndb_redis.Cache.{Meta, write, key_of, cache, new_meta, checked_meta, updated_meta}
use cndb_redis.Cache.Entries.{cache-missing, cache-found, update_meta_cases, key_of-with_spec}
use cndb_redis.Client.{Services, set_cluster_error}
use cndb_redis.Ops.{failure}
use cndb_redis.Sentinel.Check.{need_requeue_immediately}
use cndb_redis.Reconcile.{World, Writer, Steps, cached, after_validate, validated, do_resource}
use cndb_redis.Reconcile.Keyed.{
  KeepsKeys, Keyed, Keeps, write-Keyed, key_of-write, update_spec-Keeps, emit_gauge-Keeps,
}
use cndb_redis.Ops.Preserves.{Preserves, bind-Preserves, next-Preserves, fail-Preserves}
use cndb_redis.Reconcile.Keyed.Calls.{
  announce-Keeps, ensure_objects-Keeps, heal_objects-Keeps, mark_ready-Keeps,
}

module _ {k : K8s} {O W : Type 0} (v : View k O) (api : Services W) (writer : Writer O W)
    (steps : Steps O W) (laws : KeepsKeys v api writer steps) (n : ℕ) where
  cached-Keyed :
      (s : World O W) (q : (ℕ → O) × Dict Meta × Option Meta)
      → Keyed v api writer steps n (record s { store = q.0; entries = q.1 })
      → Keyed v api writer steps n (cached v api writer steps s q).1
  unfolding cached
  cached-Keyed s (store, entries, some meta) h = h
  cached-Keyed s (store, entries, none) h = h

  -- a map in which the entry of one key is replaced
  insert-Keyed :
      (s : World O W) (store : ℕ → O) (key : String) (meta : Meta)
      → meta.obj < n
      → key_of v (store meta.obj) ≡ key
      → ((q : ℕ) → key_of v (store q) ≡ key_of v (s.store q))
      → Keyed v api writer steps n s
      → Keyed v api writer steps n (record s { store = store; entries = insert key meta s.entries })
  insert-Keyed s store key meta below same keys h j other found =
      let read = sym (lookup-insert key j meta s.entries) ∙ found in
      elim (Bool-cases (str_eq key j)) [
        | inl mine ↦
            let stored = rw mine at read in
            let is_meta : meta ≡ other = cc in
            subst (λ (x : Meta). (x.obj < n) × (key_of v (store x.obj) ≡ j)) is_meta
              (below, same ∙ (eq_iff key j).0 mine)
        | inr differs ↦ let (b, e) = h j other (rw differs at read) in (b, keys other.obj ∙ e)
      ]

  cache-Keyed :
      (s : World O W) (p : ℕ)
      → p < n
      → Keyed v api writer steps n s
      → Keyed v api writer steps n (record s {
        store = (cache v s.store s.entries p).0;
        entries = (cache v s.store s.entries p).1;
      })
  cache-Keyed s p below h = elim (Option-cases (lookup (key_of v (s.store p)) s.entries)) [
    | inl missing ↦ rw (cache-missing v s.store s.entries p missing) (
        insert-Keyed s s.store (key_of v (s.store p)) (new_meta v s.store p)
          (unfold new_meta in below) (unfold new_meta in refl) (λ q. refl) h)
    | inr (meta, found) ↦
        rw (cache-found v s.store s.entries p found) (elim (update_meta_cases v s.store meta p) [
          | inl e ↦ rw e (
              insert-Keyed s s.store (key_of v (s.store p)) (checked_meta v s.store meta)
                (unfold checked_meta in (h _ meta found).0)
                (unfold checked_meta in (h _ meta found).1) (λ q. refl) h)
          | inr e ↦ rw e (
              insert-Keyed s (write s.store p _) (key_of v (s.store p))
                (updated_meta v s.store meta p) (unfold updated_meta in below)
                (unfold updated_meta in
                  key_of-write v api writer steps laws n s.store p p _
                    (key_of-with_spec v (s.store p) _))
                (λ q.
                  key_of-write v api writer steps laws n s.store p q _
                    (key_of-with_spec v (s.store p) _))
                h)
        ])
  ]

  cached-Keeps :
      (p : ℕ)
      → p < n
      → Keeps v api writer steps laws n
          (λ s. cached v api writer steps s (cache v s.store s.entries p))
  unfolding Preserves
  cached-Keeps p below s h = cached-Keyed s (cache v s.store s.entries p) (cache-Keyed s p below h)

  after_validate-Keeps :
      (p : ℕ) → p < n → Keeps v api writer steps laws n (after_validate v api writer steps p)
  unfolding after_validate
  after_validate-Keeps p below = bind-Preserves _ _ _ (cached-Keeps p below) (λ meta.
      next-Preserves _ _ _ (announce-Keeps v api writer steps laws n meta.state meta) (
        next-Preserves _ _ _ (ensure_objects-Keeps v api writer steps laws n p meta) (
          next-Preserves _ _ _ (heal_objects-Keeps v api writer steps laws n p meta)
            (mark_ready-Keeps v api writer steps laws n p))))

  validated-Keeps :
      (p : ℕ) (r : Result String Bool)
      → p < n
      → Keeps v api writer steps laws n (validated v api writer steps p r)
  unfolding validated
  validated-Keeps p (err text) below =
      next-Preserves _ _ _ (emit_gauge-Keeps v api writer steps laws n set_cluster_error p)
        (fail-Preserves _ (failure text))
  validated-Keeps p (ok true) below =
      next-Preserves _ _ _ (update_spec-Keeps v api writer steps laws n p)
        (fail-Preserves _ need_requeue_immediately)
  validated-Keeps p (ok false) below = after_validate-Keeps p below

  pub do_resource-Keyed :
      (p : ℕ) (s : World O W)
      → p < n
      → Keyed v api writer steps n s
      → Keyed v api writer steps n (do_resource v api writer steps p s).1
  unfolding do_resource Preserves
  do_resource-Keyed p s below h =
      let (o, r) = steps.validate (s.store p) in
      validated-Keeps p r below (record s { store = write s.store p o })
        (write-Keyed v api writer steps laws n s p o s.outside (laws.key-validate (s.store p)) h)
