-- ===== src/Reconcile/Requeue.antt =====
-- What Reconcile asks of the queue.
use cndb_redis.Base.{
  ℕ, ◌<◌, String, true, ◌≡◌, ◌⊎◌, inl, inr, refl, arith, str_eq, Bool-cases, Result, ok, err,
  nat_eq_refl,
}
use cndb_redis.Api.Types.{K8s}
use cndb_redis.Api.Views.{View}
use cndb_redis.Cache.{write}
use cndb_redis.Client.{Services}
use cndb_redis.Ops.{Op, Error, error_text}
use cndb_redis.Sentinel.Check.{need_requeue, need_requeue_immediately}
use cndb_redis.Reconcile.{World, Writer, Steps, update_spec, validated, do_resource, answered}
use cndb_redis.Reconcile.Controller.{
  ReconcileResult, requeue_now, answer_to, after_get, standalone_answer, readiness_answer,
  sentinel_answer, reconcile_standalone, reconcile_sentinel,
}

-- The request is taken up again: an error is retried by controller-runtime, and a result asks for
-- it at once or after a delay.
abbrev pub IsRevisited : Result Error ReconcileResult → Type 0
IsRevisited (err e) = Unit
IsRevisited (ok r) = (r.requeue ≡ true) ⊎ (0 < r.requeue_after)

answer_to-IsRevisited : (delay : ℕ) (e : Error) → 0 < delay → IsRevisited (answer_to delay e)
unfolding answer_to
answer_to-IsRevisited delay e h =
    elim (Bool-cases (str_eq (error_text e) (error_text need_requeue_immediately))) [
      | inl now ↦ rw now (inl refl)
      | inr not_now ↦ elim (Bool-cases (str_eq (error_text e) (error_text need_requeue))) [
        | inl later ↦ rw (not_now, later) (inr h)
        | inr other ↦ rw (not_now, other) tt
      ]
    ]

answer_to-at_once : (delay : ℕ) → answer_to delay need_requeue_immediately ≡ ok requeue_now
unfolding answer_to error_text
answer_to-at_once delay = refl

module _ {O W : Type 0} (fetch : String → String → Op W O) (p : ℕ)
    (do_it : Op (World O W) (Unit {0})) (check_ready : O → Op W (Unit {0})) (reconcile_time : ℕ)
    (namespace name : String) (s : World O W) where
  standalone_answer-IsRevisited :
      (r : Result Error (Unit {0}) × World O W)
      → 0 < reconcile_time
      → IsRevisited (standalone_answer fetch p do_it reconcile_time r).0
  unfolding standalone_answer
  standalone_answer-IsRevisited (ok tt, t) h = inr h
  standalone_answer-IsRevisited (err e, t) h = answer_to-IsRevisited reconcile_time e h

  readiness_answer-IsRevisited :
      (t : World O W) (r : Result Error (Unit {0}) × W)
      → 0 < reconcile_time
      → IsRevisited (readiness_answer fetch p do_it reconcile_time t r).0
  unfolding readiness_answer
  readiness_answer-IsRevisited t (ok tt, w) h = inr h
  readiness_answer-IsRevisited t (err e, w) h = inr (omega arith)

  sentinel_answer-IsRevisited :
      (r : Result Error (Unit {0}) × World O W)
      → 0 < reconcile_time
      → IsRevisited (sentinel_answer fetch p do_it check_ready reconcile_time r).0
  unfolding sentinel_answer
  sentinel_answer-IsRevisited (ok tt, t) h =
      readiness_answer-IsRevisited t (check_ready (t.store p) t.outside) h
  sentinel_answer-IsRevisited (err e, t) h = answer_to-IsRevisited 20 e (omega arith)

  -- A resource that exists is never dropped: whatever Do and the readiness check return, both
  -- controllers return an error or ask for the request again, at once or after a delay, provided
  -- that the reconcile time is not 0.
  pub reconcile-IsRevisited :
      (o : O) (w : W)
      → fetch namespace name s.outside ≡ (ok o, w)
      → 0 < reconcile_time
      → IsRevisited (reconcile_standalone fetch p do_it reconcile_time namespace name s).0
        × IsRevisited
            (reconcile_sentinel fetch p do_it check_ready reconcile_time namespace name s).0
  unfolding reconcile_standalone reconcile_sentinel after_get
  reconcile-IsRevisited o w found h =
      (rw found (standalone_answer-IsRevisited _ h), rw found (sentinel_answer-IsRevisited _ h))

module _ {k : K8s} {O W : Type 0} (v : View k O) (api : Services W) (writer : Writer O W)
    (steps : Steps O W) (fetch : String → String → Op W O) (p : ℕ)
    (check_ready : O → Op W (Unit {0})) (reconcile_time : ℕ) (namespace name : String) where
  -- the controllers, with Do as it is
  abbrev pub standalone_controller : Op (World O W) ReconcileResult
  standalone_controller =
      reconcile_standalone fetch p (do_resource v api writer steps p) reconcile_time namespace name

  abbrev pub sentinel_controller : Op (World O W) ReconcileResult
  sentinel_controller =
      reconcile_sentinel fetch p (do_resource v api writer steps p) check_ready reconcile_time
        namespace name

  -- The object at the pointer is the server's answer to the update. The cache is as it was.
  abbrev pub Stored : World O W → O → W → Result Error ReconcileResult × World O W → Type 0
  Stored s o w (r, t) =
      (r ≡ ok requeue_now) × (t.store p ≡ o) × (t.entries ≡ s.entries) × (t.outside ≡ w)

  pub write_self : (store : ℕ → O) (o : O) → write store p o p ≡ o
  unfolding write
  write_self store o = rw nat_eq_refl refl

  do_resource-modified :
      (s : World O W) (o o' o'' : O) (w' : W)
      → s.store p ≡ o
      → steps.validate o ≡ (o', ok true)
      → writer.put_spec o' s.outside ≡ (ok o'', w')
      → do_resource v api writer steps p s ≡ (
        err need_requeue_immediately,
        record s { store = write (write s.store p o') p o''; outside = w' },
      )
  unfolding do_resource validated update_spec answered
  do_resource-modified s o o' o'' w' at_p modified put =
      rw (at_p, modified, write_self s.store o', put) refl

  -- A resource that Validate changes is sent to the server, and the request is taken up again at
  -- once: both controllers then hold the server's answer, and the cache is not touched, provided
  -- that the fetch and the update succeed.
  pub reconcile-Stored :
      (s : World O W) (o o' o'' : O) (w w' : W)
      → fetch namespace name s.outside ≡ (ok o, w)
      → steps.validate o ≡ (o', ok true)
      → writer.put_spec o' w ≡ (ok o'', w')
      → Stored s o'' w' (standalone_controller s) × Stored s o'' w' (sentinel_controller s)
  unfolding reconcile_standalone reconcile_sentinel after_get standalone_answer sentinel_answer
  reconcile-Stored s o o' o'' w w' found modified put =
      let same =
        do_resource-modified (record s { store = write s.store p o; outside = w }) o o' o'' w'
          (write_self s.store o) modified put in
      (
        rw (found, same)
            (
              answer_to-at_once reconcile_time,
              write_self (write (write s.store p o) p o') o'',
              refl,
              refl,
            ),
        rw (found, same)
            (answer_to-at_once 20, write_self (write (write s.store p o) p o') o'', refl, refl),
      )
