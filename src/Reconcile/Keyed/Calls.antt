-- ===== src/Reconcile/Keyed/Calls.antt =====
-- The parts of Do, each of which keeps the entries of the cache in place.
use cndb_redis.Base.{ℕ, Bool-cases, inl, inr, Result, str_eq}
use cndb_redis.Api.Status.{
  Status, Clock, set_failed_condition, set_create_condition, set_ready_condition,
}
use cndb_redis.Api.Types.{K8s}
use cndb_redis.Api.Views.{View}
use cndb_redis.Cache.{StateType, create, update, check, Meta}
use cndb_redis.Client.{
  Notice, Services, failed_cluster, ensure_cluster, set_cluster_error, create_cluster,
  check_cluster, health_cluster, set_cluster_ok,
}
use cndb_redis.Sentinel.Check.{need_requeue}
use cndb_redis.Ops.{error_text, Error, ◌>>◌}
use cndb_redis.Reconcile.{
  World, Writer, Steps, emit, notice_of, announced, first_is_healthy, returned, set_status,
  send_status, announce, report_failure, ensure_objects, restart, heal_failed, heal_objects,
  mark_ready,
}
use cndb_redis.Reconcile.Keyed.{
  KeepsKeys, Keeps, set_status-Keeps, send_status-Keeps, emit-Keeps, emit_gauge-Keeps,
  returned-Keyed,
}
use cndb_redis.Ops.Preserves.{
  Preserves, next-Preserves, on_error-Preserves, pure-Preserves, fail-Preserves, either-Preserves,
}

module _ {k : K8s} {O W : Type 0} (v : View k O) (api : Services W) (writer : Writer O W)
    (steps : Steps O W) (laws : KeepsKeys v api writer steps) (n : ℕ) where
  -- an event, and a condition that is sent with the status
  condition-Keeps :
      (notice : Notice) (p : ℕ) (f : Status → Clock → Status)
      → Keeps v api writer steps laws n (
          emit v api writer steps notice
          >> (set_status v api writer steps p f >> send_status v api writer steps p))
  condition-Keeps notice p f = next-Preserves _ _ _ (emit-Keeps v api writer steps laws n notice) (
      next-Preserves _ _ _ (set_status-Keeps v api writer steps laws n p f)
        (send_status-Keeps v api writer steps laws n p))

  pub announce-Keeps :
      (state : StateType) (meta : Meta)
      → Keeps v api writer steps laws n (announce v api writer steps state meta)
  unfolding announce
  announce-Keeps check meta = pure-Preserves _ tt
  announce-Keeps create meta =
      condition-Keeps (notice_of meta.status meta.message) meta.obj
        (announced meta.status meta.message)
  announce-Keeps update meta =
      condition-Keeps (notice_of meta.status meta.message) meta.obj
        (announced meta.status meta.message)

  report_failure-Keeps :
      (p : ℕ) (e : Error) → Keeps v api writer steps laws n (report_failure v api writer steps p e)
  unfolding report_failure
  report_failure-Keeps p e =
      condition-Keeps (failed_cluster (error_text e)) p
        (λ status c. set_failed_condition status (error_text e) c c)

  outside-Keeps :
      {A : Type 0} (m : World O W → Result Error A × W)
      → Keeps v api writer steps laws n (λ s. returned v api writer steps s (m s))
  unfolding Preserves
  outside-Keeps m s h = returned-Keyed v api writer steps laws n s (m s) h

  pub ensure_objects-Keeps :
      (p : ℕ) (meta : Meta)
      → Keeps v api writer steps laws n (ensure_objects v api writer steps p meta)
  unfolding ensure_objects
  ensure_objects-Keeps p meta =
      next-Preserves _ _ _ (emit-Keeps v api writer steps laws n ensure_cluster) (
        on_error-Preserves _ _ _ (outside-Keeps (λ s. steps.ensure (s.store meta.obj) s.outside))
          (λ e.
            next-Preserves _ _ _
              (next-Preserves _ _ _ (report_failure-Keeps p e)
                (emit_gauge-Keeps v api writer steps laws n set_cluster_error p))
              (fail-Preserves _ e)))

  restart-Keeps : (p : ℕ) → Keeps v api writer steps laws n (restart v api writer steps p)
  unfolding restart Preserves
  restart-Keeps p s h = elim (Bool-cases (first_is_healthy (v.status (s.store p)).conditions)) [
    | inl healthy ↦ rw healthy (
        unfold Preserves in
        (condition-Keeps create_cluster p
          (λ status c.
            set_create_condition status
              "redis server or sentinel server be removed by user, restart" c c)
          s h))
    | inr other ↦ rw other h
  ]

  heal_failed-Keeps :
      (p : ℕ) (e : Error) → Keeps v api writer steps laws n (heal_failed v api writer steps p e)
  unfolding heal_failed
  heal_failed-Keeps p e =
      next-Preserves _ _ _
        (next-Preserves _ _ _ (emit_gauge-Keeps v api writer steps laws n set_cluster_error p) (
          either-Preserves _ (str_eq (error_text e) (error_text need_requeue)) _ _ (restart-Keeps p)
            (report_failure-Keeps p e)))
        (fail-Preserves _ e)

  pub heal_objects-Keeps :
      (p : ℕ) (meta : Meta)
      → Keeps v api writer steps laws n (heal_objects v api writer steps p meta)
  unfolding heal_objects
  heal_objects-Keeps p meta =
      next-Preserves _ _ _ (emit-Keeps v api writer steps laws n check_cluster) (
        on_error-Preserves _ _ _
          (outside-Keeps (λ s. steps.heal (s.store meta.obj) meta.state meta.password s.outside))
          (heal_failed-Keeps p))

  pub mark_ready-Keeps : (p : ℕ) → Keeps v api writer steps laws n (mark_ready v api writer steps p)
  unfolding mark_ready
  mark_ready-Keeps p = next-Preserves _ _ _ (emit-Keeps v api writer steps laws n health_cluster) (
      next-Preserves _ _ _
        (set_status-Keeps v api writer steps laws n p
          (λ status c. set_ready_condition status "Cluster ok" c c))
        (next-Preserves _ _ _ (send_status-Keeps v api writer steps laws n p)
          (emit_gauge-Keeps v api writer steps laws n set_cluster_ok p)))
