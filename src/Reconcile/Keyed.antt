-- ===== src/Reconcile/Keyed.antt =====
-- What the calls of Do have to leave true of the cache, and that it is left true by the smallest of them.
pub mod Calls
pub mod Visits
pub mod Reached
use cndb_redis.Base.{
  ℕ, ◌<◌, String, Option, none, some, ◌≡◌, refl, sym, ap, ◌∙◌, arith, Bool-cases, Option-cases, inl,
  inr, Result, ok, err, if◌then◌else◌, str_eq, eq_iff, ◌==◌, Bool, true, false,
}
use cndb_redis.Base.Dict.{Dict, lookup, insert, lookup-insert}
use cndb_redis.Api.Status.{
  Status, Clock, desc_conditions_by_time, set_failed_condition, set_create_condition,
  set_ready_condition,
}
use cndb_redis.Api.Types.{K8s}
use cndb_redis.Api.Views.{View}
use cndb_redis.Cache.{
  StateType, create, update, check, Meta, write, key_of, cache, new_meta, checked_meta,
  updated_meta, update_meta,
}
use cndb_redis.Cache.Entries.{cache-missing, cache-found, update_meta_cases, key_of-with_spec}
use cndb_redis.Client.{
  Notice, Services, failed_cluster, ensure_cluster, set_cluster_error, create_cluster,
  check_cluster, health_cluster, set_cluster_ok,
}
use cndb_redis.Sentinel.Check.{need_requeue}
use cndb_redis.Ops.{error_text, Op, Error, pure, fail, ◌>>=◌, ◌>>◌, on_error, continue, rescue}
use cndb_redis.Ops.Preserves.{Preserves, next-Preserves}
use cndb_redis.Reconcile.{
  World, Writer, Steps, emit, emit_gauge, notice_of, announced, first_is_healthy, returned,
  answered, set_status, update_spec, send_status, announce, report_failure, ensure_objects, restart,
  heal_failed, heal_objects, mark_ready, cached, after_validate, validated, do_resource,
}

module _ {k : K8s} {O W : Type 0} (v : View k O) (api : Services W) (writer : Writer O W)
    (steps : Steps O W) where
  -- neither Validate, nor the API server, nor a new status changes the name of a resource
  pub record KeepsKeys : Type 0 where
    pub key-validate : (o : O) → key_of v (steps.validate o).0 ≡ key_of v o
    pub key-with_status : (o : O) (s : Status) → key_of v (v.with_status o s) ≡ key_of v o
    pub key-put_spec :
        (o o' : O) (w w' : W) → writer.put_spec o w ≡ (ok o', w') → key_of v o' ≡ key_of v o
    pub key-put_status :
        (o o' : O) (w w' : W) → writer.put_status o w ≡ (ok o', w') → key_of v o' ≡ key_of v o

  -- every entry points at an object allocated before `n` that has the entry's key
  abbrev pub Keyed : ℕ → World O W → Type 0
  Keyed n s =
      (j : String) (meta : Meta)
      → lookup j s.entries ≡ some meta
      → (meta.obj < n) × (key_of v (s.store meta.obj) ≡ j)

  module _ (laws : KeepsKeys) (n : ℕ) where
    abbrev pub Keeps : {A : Type 0} → Op (World O W) A → Type 0
    Keeps m = Preserves (Keyed n) m

    pub key_of-write :
        (store : ℕ → O) (p q : ℕ) (o : O)
        → key_of v o ≡ key_of v (store p)
        → key_of v (write store p o q) ≡ key_of v (store q)
    unfolding write
    key_of-write store p q o h = elim (Bool-cases (p == q)) [
      | inl same ↦ rw same (h ∙ ap (λ r. key_of v (store r)) (ground arith))
      | inr other ↦ rw other refl
    ]

    pub write-Keyed :
        (s : World O W) (p : ℕ) (o : O) (w : W)
        → key_of v o ≡ key_of v (s.store p)
        → Keyed n s
        → Keyed n (record s { store = write s.store p o; outside = w })
    write-Keyed s p o w same h j meta found =
        let (below, key) = h j meta found in (below, key_of-write s.store p meta.obj o same ∙ key)

    pub set_status-Keeps :
        (p : ℕ) (f : Status → Clock → Status) → Keeps (set_status v api writer steps p f)
    unfolding Preserves set_status
    set_status-Keeps p f s h = write-Keyed s p _ s.outside (laws.key-with_status (s.store p) _) h

    answered-Keyed :
        (p : ℕ) (s : World O W) (q : Result Error O × W)
        → ((o : O) (w : W) → q ≡ (ok o, w) → key_of v o ≡ key_of v (s.store p))
        → Keyed n s
        → Keyed n (answered v api writer steps p s q).1
    unfolding answered
    answered-Keyed p s (ok o, w) same h = write-Keyed s p o w (same o w refl) h
    answered-Keyed p s (err e, w) same h = h

    pub update_spec-Keeps : (p : ℕ) → Keeps (update_spec v api writer steps p)
    unfolding Preserves update_spec
    update_spec-Keeps p s h =
        answered-Keyed p s (writer.put_spec (s.store p) s.outside)
          (λ o w e. laws.key-put_spec (s.store p) o s.outside w e) h

    put_status-Keeps :
        (p : ℕ)
        → Keeps (λ s. answered v api writer steps p s (writer.put_status (s.store p) s.outside))
    unfolding Preserves
    put_status-Keeps p s h =
        answered-Keyed p s (writer.put_status (s.store p) s.outside)
          (λ o w e. laws.key-put_status (s.store p) o s.outside w e) h

    pub send_status-Keeps : (p : ℕ) → Keeps (send_status v api writer steps p)
    unfolding send_status
    send_status-Keeps p =
        next-Preserves _ _ _ (set_status-Keeps p (λ status c. desc_conditions_by_time status))
          (put_status-Keeps p)

    pub emit-Keeps : (notice : Notice) → Keeps (emit v api writer steps notice)
    unfolding Preserves emit
    emit-Keeps notice s h = h

    pub emit_gauge-Keeps :
        (notice : String → String → Notice) (p : ℕ) → Keeps (emit_gauge v api writer steps notice p)
    unfolding Preserves emit_gauge emit
    emit_gauge-Keeps notice p s h = h

    pub returned-Keyed :
        {A : Type 0} (s : World O W) (q : Result Error A × W)
        → Keyed n s
        → Keyed n (returned v api writer steps s q).1
    unfolding returned
    returned-Keyed s (r, w) h = h
