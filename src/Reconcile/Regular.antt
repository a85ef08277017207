-- ===== src/Reconcile/Regular.antt =====
-- When the controller of clusters waits for its regular time.
use cndb_redis.Base.{
  ℕ, ◌<◌, String, false, ◌≡◌, ◌≢◌, refl, ap, arith, str_eq, Bool-cases, inl, inr, Result, ok, err,
  subst,
}
use cndb_redis.Api.Types.{K8s}
use cndb_redis.Api.Views.{View}
use cndb_redis.Cache.{write}
use cndb_redis.Client.{Services}
use cndb_redis.Ops.{Op, Error, error_text, is_not_found}
use cndb_redis.Sentinel.Check.{need_requeue, need_requeue_immediately}
use cndb_redis.Reconcile.{World, Writer, Steps, do_resource}
use cndb_redis.Reconcile.Healthy.{WasHealed, do_resource-ok}
use cndb_redis.Reconcile.Controller.{
  ReconcileResult, after_seconds, answer_to, after_get, readiness_answer, sentinel_answer,
  reconcile_sentinel,
}
use cndb_redis.Reconcile.Requeue.{sentinel_controller, write_self}

-- the answer to an error is never the regular delay
answer_to-ne : (time : ℕ) (e : Error) → time ≢ 20 → answer_to 20 e ≢ ok (after_seconds time)
unfolding answer_to
answer_to-ne time e irregular h =
    elim (Bool-cases (str_eq (error_text e) (error_text need_requeue_immediately))) [
      | inl now ↦ absurd (let k = rw now at h in cc)
      | inr not_now ↦ elim (Bool-cases (str_eq (error_text e) (error_text need_requeue))) [
        | inl later ↦ let k = rw (not_now, later) at h in irregular (cc)
        | inr other ↦ absurd (let k = rw (not_now, other) at h in cc)
      ]
    ]

module _ {k : K8s} {O W : Type 0} (v : View k O) (api : Services W) (writer : Writer O W)
    (steps : Steps O W) (fetch : String → String → Op W O) (p : ℕ)
    (check_ready : O → Op W (Unit {0})) (time : ℕ) (namespace name : String) where
  readiness_answer-regular :
      (t s' : World O W) (r : Result Error (Unit {0}) × W)
      → time ≢ 20
      → readiness_answer fetch p (do_resource v api writer steps p) time t r
        ≡ (ok (after_seconds time), s')
      → r ≡ (ok tt, s'.outside)
  unfolding readiness_answer
  readiness_answer-regular t s' (ok tt, w) irregular h =
      ap (λ (q : Result Error ReconcileResult × World O W). (ok tt, q.1.outside)) h
  readiness_answer-regular t s' (err e, w) irregular h = absurd (irregular (cc))

  sentinel_answer-regular :
      (s' : World O W) (r : Result Error (Unit {0}) × World O W)
      → time ≢ 20
      → sentinel_answer fetch p (do_resource v api writer steps p) check_ready time r
        ≡ (ok (after_seconds time), s')
      → (t : World O W) × (r ≡ (ok tt, t))
        × (check_ready (t.store p) t.outside ≡ (ok tt, s'.outside))
  unfolding sentinel_answer
  sentinel_answer-regular s' (ok tt, t) irregular h =
      (t, refl, readiness_answer-regular t s' (check_ready (t.store p) t.outside) irregular h)
  sentinel_answer-regular s' (err e, t) irregular h =
      absurd (
        answer_to-ne time e irregular
          (ap (λ (q : Result Error ReconcileResult × World O W). q.0) h))

module _ {k : K8s} {O W : Type 0} (v : View k O) (api : Services W) (writer : Writer O W)
    (steps : Steps O W) (fetch : String → String → Op W O) (p : ℕ)
    (check_ready : O → Op W (Unit {0})) (time : ℕ) (namespace name : String) where
  -- The fetch gave an object that Validate accepts unchanged, the run of Do on it went all the way,
  -- and the readiness check of what Do left at the pointer succeeded in the world that is returned.
  pub record WasRegular (s s' : World O W) : Type 0 where
    pub object : O
    pub fetched : W
    pub found : fetch namespace name s.outside ≡ (ok object, fetched)
    pub unchanged : (steps.validate object).1 ≡ ok false
    pub last : World O W
    pub healed :
        WasHealed v api writer steps p
          (record s {
            store = write (write s.store p object) p (steps.validate object).0;
            outside = fetched;
          })
          last
    pub ready : check_ready (last.store p) last.outside ≡ (ok tt, s'.outside)

  after_get-regular :
      (s s' : World O W) (r : Result Error O × W)
      → fetch namespace name s.outside ≡ r
      → time ≢ 20
      → 0 < time
      → after_get fetch p
          (do_resource v api writer steps p)
          namespace
          name
          (sentinel_answer fetch p (do_resource v api writer steps p) check_ready time)
          s
          r
        ≡ (ok (after_seconds time), s')
      → WasRegular s s'
  unfolding after_get
  after_get-regular s s' (ok o, w) found irregular positive h =
      let at = record s { store = write s.store p o; outside = w } in
      let (last, ended, ready) =
        sentinel_answer-regular v api writer steps fetch p check_ready time namespace name s'
          (do_resource v api writer steps p at) irregular h in
      let (unchanged, healed) =
        subst
          (λ x.
            ((steps.validate x).1 ≡ ok false)
            × WasHealed v api writer steps p
                (record at { store = write at.store p (steps.validate x).0 }) last)
          (write_self v api writer steps fetch p check_ready time namespace name s.store o)
          (do_resource-ok v api writer steps p at last ended) in
      record {
        object = o;
        fetched = w;
        found = found;
        unchanged = unchanged;
        last = last;
        healed = healed;
        ready = ready;
      }
  after_get-regular s s' (err e, w) found irregular positive h =
      elim (Bool-cases (is_not_found e)) [
        | inl gone ↦ absurd (let k = rw gone at h in let zero : 0 ≡ time = cc in omega arith)
        | inr other ↦ absurd (let k = rw other at h in cc)
      ]

  -- The controller of clusters waits for the reconcile time only after a complete run: the object was
  -- found, Validate left it as it was, Ensure and CheckAndHeal succeeded, the API server accepted a
  -- status in which the condition Healthy is true, and its sentinels passed the readiness check,
  -- provided that the reconcile time is neither 0 nor the 20 seconds of the other answers.
  pub reconcile-WasRegular :
      (s s' : World O W)
      → time ≢ 20
      → 0 < time
      → sentinel_controller v api writer steps fetch p check_ready time namespace name s
        ≡ (ok (after_seconds time), s')
      → WasRegular s s'
  unfolding reconcile_sentinel
  reconcile-WasRegular s s' irregular positive h =
      after_get-regular s s' (fetch namespace name s.outside) refl irregular positive h
