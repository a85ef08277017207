-- ===== src/Reconcile/Healthy.antt =====
-- What has happened when Do returns without an error, which is when it marks a resource Healthy.
use cndb_redis.Base.Dict.{Dict}
use cndb_redis.Base.{
  Option, none, some, ℕ, String, Bool, true, false, ◌≡◌, inl, inr, refl, sym, ap, ◌∙◌, Result, ok,
  err, if◌then◌else◌, str_eq, nat_eq_refl,
}
use cndb_redis.Api.Types.{K8s}
use cndb_redis.Api.Views.{View}
use cndb_redis.Cache.{Meta, write, cache}
use cndb_redis.Api.Status.{Condition, Status, desc_conditions_by_time, set_ready_condition}
use cndb_redis.Api.Status.Conditions.{find, ready_condition}
use cndb_redis.Ops.{Op, continue, Error, error_text, fail, ◌>>◌}
use cndb_redis.Ops.Success.{bind-ok, rescue-ok}
use cndb_redis.Client.{
  check_cluster, ensure_cluster, health_cluster, set_cluster_error, set_cluster_ok, Services,
}
use cndb_redis.Sentinel.Check.{need_requeue, need_requeue_immediately}
use cndb_redis.Reconcile.{
  World, Writer, Steps, emit, emit_gauge, returned, answered, set_status, send_status, update_spec,
  announce, ensure_objects, restart, report_failure, mark_ready, heal_failed, heal_objects, cached,
  after_validate, validated, do_resource,
}

module _ {k : K8s} {O W : Type 0} (v : View k O) (api : Services W) (writer : Writer O W)
    (steps : Steps O W) where
  -- In the world `after` and after the event, an update of the status was accepted, and what it sent
  -- has the conditions, newest first, of a status in which the condition Healthy is true. The answer
  -- is the object that is left.
  pub record IsMarked (p : ℕ) (after : W) (s' : World O W) : Type 0 where
    pub condition : Condition
    pub status : Status
    pub healthy : find status.conditions "Healthy" ≡ some condition
    pub is_true : condition.status ≡ "True"
    pub sent : O
    pub sorted : v.status sent ≡ desc_conditions_by_time status
    pub answer : O
    pub before : W
    pub after_event : before ≡ api.emit health_cluster after
    pub answered_in : W
    pub accepted : writer.put_status sent before ≡ (ok answer, answered_in)
    pub kept : s'.store p ≡ answer

  -- A run from `s` to `s'` that has gone all the way: the cache gave an entry for the pointer `p`, its
  -- state was announced, Ensure and CheckAndHeal succeeded on the object, state and password of the
  -- entry, and the resource was marked Healthy.
  pub record WasHealed (p : ℕ) (s s' : World O W) : Type 0 where
    pub meta : Meta
    pub cached_store : ℕ → O
    pub cached_entries : Dict Meta
    pub entry : cache v s.store s.entries p ≡ (cached_store, cached_entries, some meta)
    pub noticed : World O W
    pub noticing :
        announce v api writer steps meta.state meta
          (record s { store = cached_store; entries = cached_entries })
        ≡ (ok tt, noticed)
    pub ensured : W
    pub ensuring :
        steps.ensure (noticed.store meta.obj) (api.emit ensure_cluster noticed.outside)
        ≡ (ok tt, ensured)
    pub after : W
    pub healing :
        steps.heal
          (noticed.store meta.obj)
          meta.state
          meta.password
          (api.emit check_cluster ensured)
        ≡ (ok tt, after)
    pub finishing :
        mark_ready v api writer steps p (record noticed { outside = after }) ≡ (ok tt, s')
    pub marked : IsMarked p after s'

  returned-ok :
      (s s' : World O W) (q : Result Error (Unit {0}) × W)
      → returned v api writer steps s q ≡ (ok tt, s')
      → (w : W) × (q ≡ (ok tt, w)) × (s' ≡ record s { outside = w })
  unfolding returned
  returned-ok s s' (ok tt, w) h = (w, refl, cc)
  returned-ok s s' (err e, w) h = absurd (cc)

  cached-ok :
      (s s' : World O W) (q : (ℕ → O) × Dict Meta × Option Meta) (meta : Meta)
      → cached v api writer steps s q ≡ (ok meta, s')
      → (store : ℕ → O) × (entries : Dict Meta) × (q ≡ (store, entries, some meta))
        × (s' ≡ record s { store = store; entries = entries })
  unfolding cached
  cached-ok s s' (store, entries, some other) meta h = (store, entries, cc, cc)
  cached-ok s s' (store, entries, none) meta h = absurd (cc)

  then_fail-fails :
      (m : Op (World O W) (Unit {0})) (e : Error) (s s' : World O W)
      → (m >> fail {A = Unit {0}} e) s ≡ (ok tt, s')
      → ⊥
  then_fail-fails m e s s' h =
      let (_, t, _, rest) = bind-ok m (λ _. fail {A = Unit {0}} e) s s' h in absurd (cc)

  ensure_objects-ok :
      (p : ℕ) (meta : Meta) (s s' : World O W)
      → ensure_objects v api writer steps p meta s ≡ (ok tt, s')
      → (w : W) × (steps.ensure (s.store meta.obj) (api.emit ensure_cluster s.outside) ≡ (ok tt, w))
        × (s' ≡ record s { outside = w })
  unfolding ensure_objects emit
  ensure_objects-ok p meta s s' h =
      let t = record s { outside = api.emit ensure_cluster s.outside } in
      elim (rescue-ok (returned v api writer steps t (steps.ensure (t.store meta.obj) t.outside))
        (λ e.
          report_failure v api writer steps p e
          >> emit_gauge v api writer steps set_cluster_error p
          >> fail e)
        s' h) [
          | inl ensured ↦ returned-ok t s' _ ensured
          | inr (e, u, _, failed) ↦ absurd (
              then_fail-fails
                (report_failure v api writer steps p e
                  >> emit_gauge v api writer steps set_cluster_error p)
                e u s' failed)
        ]

  heal_failed-fails :
      (p : ℕ) (e : Error) (s s' : World O W)
      → heal_failed v api writer steps p e s ≡ (ok tt, s')
      → ⊥
  unfolding heal_failed
  heal_failed-fails p e s s' h =
      then_fail-fails
        (emit_gauge v api writer steps set_cluster_error p
          >> (if str_eq (error_text e) (error_text need_requeue)
              then restart v api writer steps p
              else report_failure v api writer steps p e))
        e s s' h

  heal_objects-ok :
      (p : ℕ) (meta : Meta) (s s' : World O W)
      → heal_objects v api writer steps p meta s ≡ (ok tt, s')
      → (w : W) × (steps.heal
            (s.store meta.obj)
            meta.state
            meta.password
            (api.emit check_cluster s.outside)
          ≡ (ok tt, w))
        × (s' ≡ record s { outside = w })
  unfolding heal_objects emit
  heal_objects-ok p meta s s' h =
      let t = record s { outside = api.emit check_cluster s.outside } in
      elim (rescue-ok
        (returned v api writer steps t
          (steps.heal (t.store meta.obj) meta.state meta.password t.outside))
        (heal_failed v api writer steps p) s' h) [
          | inl healed ↦ returned-ok t s' _ healed
          | inr (e, u, _, failed) ↦ absurd (heal_failed-fails p e u s' failed)
        ]

  answered-IsMarked :
      (p : ℕ) (s s' : World O W) (status : Status) (condition : Condition)
      → find status.conditions "Healthy" ≡ some condition
      → condition.status ≡ "True"
      → v.status (s.store p) ≡ desc_conditions_by_time status
      → (q : Result Error O × W) → writer.put_status (s.store p) s.outside ≡ q
      → continue
          (answered v api writer steps p s q)
          (λ _. emit_gauge v api writer steps set_cluster_ok p)
        ≡ (ok tt, s')
      → (after : W) → s.outside ≡ api.emit health_cluster after
      → IsMarked p after s'
  unfolding answered emit_gauge emit write
  answered-IsMarked p s s' status condition healthy is_true sorted (ok o, w) put h after at =
      record {
        condition = condition;
        status = status;
        healthy = healthy;
        is_true = is_true;
        sent = s.store p;
        sorted = sorted;
        answer = o;
        before = s.outside;
        after_event = at;
        answered_in = w;
        accepted = put;
        kept =
            sym (ap (λ (q : Result Error (Unit {0}) × World O W). q.1.store p) h)
            ∙ rw nat_eq_refl refl;
      }
  answered-IsMarked p s s' status condition healthy is_true sorted (err e, w) put h after at =
      absurd (cc)

  mark_ready-IsMarked :
      (p : ℕ) (s s' : World O W)
      → mark_ready v api writer steps p s ≡ (ok tt, s')
      → IsMarked p s.outside s'
  unfolding mark_ready emit set_status send_status write
  mark_ready-IsMarked p s s' h =
      let outside = api.emit health_cluster s.outside in
      let clock = writer.clock outside in
      let status = set_ready_condition (v.status (s.store p)) "Cluster ok" clock clock in
      let (condition, healthy, is_true) =
        ready_condition (v.status (s.store p)) "Cluster ok" clock in
      let marked = write s.store p (v.with_status (s.store p) status) in
      let sorted =
        write marked p (v.with_status (marked p) (desc_conditions_by_time (v.status (marked p)))) in
      answered-IsMarked p (record s { store = sorted; outside = outside }) s' status condition
        healthy is_true (rw (nat_eq_refl, v.status-with_status, v.status-with_status) refl)
        (writer.put_status (sorted p) outside) refl h s.outside refl

  after_validate-ok :
      (p : ℕ) (s s' : World O W)
      → after_validate v api writer steps p s ≡ (ok tt, s')
      → WasHealed p s s'
  unfolding after_validate
  after_validate-ok p s s' h =
      let (meta, s1, found, h1) =
        bind-ok (λ s. cached v api writer steps s (cache v s.store s.entries p)) _ s s' h in
      let (_, s2, noticing, h2) =
        bind-ok (announce v api writer steps meta.state meta) _ s1 s' h1 in
      let (_, s3, ensures, h3) = bind-ok (ensure_objects v api writer steps p meta) _ s2 s' h2 in
      let (_, s4, healed, h4) = bind-ok (heal_objects v api writer steps p meta) _ s3 s' h3 in
      let (store, entries, entry, is_cached) = cached-ok s s1 _ meta found in
      let (ensured, ensuring, is_ensured) = ensure_objects-ok p meta s2 s3 ensures in
      let (w, healing, is_left) =
        heal_objects-ok p meta (record s2 { outside = ensured }) s4
          (ap (heal_objects v api writer steps p meta) (sym is_ensured) ∙ healed) in
      record {
        meta = meta;
        cached_store = store;
        cached_entries = entries;
        entry = entry;
        noticed = s2;
        noticing = ap (announce v api writer steps meta.state meta) (sym is_cached) ∙ noticing;
        ensured = ensured;
        ensuring = ensuring;
        after = w;
        healing = healing;
        finishing = ap (mark_ready v api writer steps p) (sym is_left) ∙ h4;
        marked =
            mark_ready-IsMarked p (record s2 { outside = w }) s'
              (ap (mark_ready v api writer steps p) (sym is_left) ∙ h4);
      }

  pub do_resource-ok :
      (p : ℕ) (s s' : World O W)
      → do_resource v api writer steps p s ≡ (ok tt, s')
      → ((steps.validate (s.store p)).1 ≡ ok false)
        × WasHealed p (record s { store = write s.store p (steps.validate (s.store p)).0 }) s'
  unfolding do_resource
  do_resource-ok p s s' h = go (steps.validate (s.store p)).1 _ h
    where
      go :
          (r : Result String Bool) (t : World O W)
          → validated v api writer steps p r t ≡ (ok tt, s')
          → (r ≡ ok false) × WasHealed p t s'
      go (err text) t e = absurd (unfold validated emit in cc)
      go (ok true) t e =
          let (_, u, _, failed) =
            bind-ok (update_spec v api writer steps p) (λ _. fail need_requeue_immediately) t s'
              (unfold validated in e) in
          absurd (cc)
      go (ok false) t e = (refl, after_validate-ok p t s' (unfold validated in e))
