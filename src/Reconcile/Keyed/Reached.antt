-- ===== src/Reconcile/Keyed/Reached.antt =====
-- Every sequence of visits of the controllers leaves each entry of the cache pointing at a resource of
-- the entry's own key.
use cndb_redis.Base.{
  ℕ, ◌+◌, ◌<◌, ◌<>◌, String, some, ◌≡◌, sym, ap, ◌∙◌, arith, Bool-cases, inl, inr, Result, ok, err,
  str_eq, [],
}
use cndb_redis.Base.Dict.{lookup, erase, lookup-erase}
use cndb_redis.Api.Types.{K8s}
use cndb_redis.Api.Views.{View}
use cndb_redis.Cache.{Meta, write, get_namespaced_name, key_of}
use cndb_redis.Client.{Services}
use cndb_redis.Ops.{Op, Error, is_not_found}
use cndb_redis.Reconcile.{World, Writer, Steps, do_resource}
use cndb_redis.Reconcile.Controller.{
  ReconcileResult, after_get, standalone_answer, readiness_answer, sentinel_answer,
  reconcile_sentinel, reconcile_standalone,
}
use cndb_redis.Reconcile.Requeue.{standalone_controller, sentinel_controller}
use cndb_redis.Reconcile.Keyed.{KeepsKeys, Keyed}
use cndb_redis.Reconcile.Keyed.Visits.{do_resource-Keyed}

-- the controller's memory, with the next free pointer
pub record Operator (O W : Type 0) : Type 0 where
  pub world : World O W
  pub next : ℕ

module _ {k : K8s} {O W : Type 0} (v : View k O) (api : Services W) (writer : Writer O W)
    (steps : Steps O W) (fetch : String → String → Op W O) (check_ready : O → Op W (Unit {0}))
    (time : ℕ) where
  abbrev pub after_sentinel : Operator O W → String → String → Operator O W
  after_sentinel s namespace name = record {
    world =
        (sentinel_controller v api writer steps fetch s.next check_ready time namespace name
          s.world).1;
    next = s.next + 1;
  }

  abbrev pub after_standalone : Operator O W → String → String → Operator O W
  after_standalone s namespace name = record {
    world =
        (standalone_controller v api writer steps fetch s.next check_ready time namespace name
          s.world).1;
    next = s.next + 1;
  }

  -- From an empty cache, by visits to any resources in any order. Each visit fetches into a new
  -- object, and between two visits the world outside may change in any way.
  pub data Reached : Operator O W → Type 0 where
    started :
        (store : ℕ → O) (w : W)
        → Reached (record { world = record { store = store; entries = []; outside = w }; next = 0 })
    sentinel_visit :
        {s : Operator O W} (namespace name : String)
        → Reached s
        → Reached (after_sentinel s namespace name)
    standalone_visit :
        {s : Operator O W} (namespace name : String)
        → Reached s
        → Reached (after_standalone s namespace name)
    drift :
        {s : Operator O W} (w : W)
        → Reached s
        → Reached (record s { world = record s.world { outside = w } })

  module _ (laws : KeepsKeys v api writer steps) where
    -- a new object at `p` is no entry's
    fetched-Keyed :
        (p : ℕ) (s : World O W) (o : O) (w : W)
        → Keyed v api writer steps p s
        → Keyed v api writer steps (p + 1) (record s { store = write s.store p o; outside = w })
    unfolding write
    fetched-Keyed p s o w h j meta found =
        let (below, key) = h j meta found in (omega arith, ap (key_of v) (ground arith) ∙ key)

    erase-Keyed :
        (p : ℕ) (key : String) (s : World O W) (w : W)
        → Keyed v api writer steps p s
        → Keyed v api writer steps (p + 1) (record s { entries = erase key s.entries; outside = w })
    erase-Keyed p key s w h j meta found =
        let read = sym (lookup-erase key j s.entries) ∙ found in
        elim (Bool-cases (str_eq key j)) [
          | inl gone ↦ absurd (let k = rw gone at read in cc)
          | inr kept ↦ let (below, same) = h j meta (rw kept at read) in (omega arith, same)
        ]

    outside-Keyed :
        (p : ℕ) (s : World O W) (w : W)
        → Keyed v api writer steps p s
        → Keyed v api writer steps (p + 1) (record s { outside = w })
    outside-Keyed p s w h j meta found = let (below, same) = h j meta found in (omega arith, same)

    -- `answered` turns what Do returns into an answer, and may change the world outside
    after_get-Keyed :
        (p : ℕ) (namespace name : String)
        (answered : Result Error (Unit {0}) × World O W → Result Error ReconcileResult × World O W)
        → ((q : Result Error (Unit {0}) × World O W)
            → Keyed v api writer steps (p + 1) q.1
            → Keyed v api writer steps (p + 1) (answered q).1)
        → (s : World O W) (r : Result Error O × W) → Keyed v api writer steps p s
        → Keyed v api writer steps
            (p + 1)
            (after_get fetch p (do_resource v api writer steps p) namespace name answered s r).1
    unfolding after_get
    after_get-Keyed p namespace name answered kept s (ok o, w) h = kept _ (
        do_resource-Keyed v api writer steps laws (p + 1) p _ (omega arith)
          (fetched-Keyed p s o w h))
    after_get-Keyed p namespace name answered kept s (err e, w) h =
        elim (Bool-cases (is_not_found e)) [
          | inl gone ↦ rw gone (erase-Keyed p (get_namespaced_name namespace name) s w h)
          | inr other ↦ rw other (outside-Keyed p s w h)
        ]

    standalone_answer-Keyed :
        (n p : ℕ) (do_it : Op (World O W) (Unit {0})) (q : Result Error (Unit {0}) × World O W)
        → Keyed v api writer steps n q.1
        → Keyed v api writer steps n (standalone_answer fetch p do_it time q).1
    unfolding standalone_answer
    standalone_answer-Keyed n p do_it (ok tt, t) h = h
    standalone_answer-Keyed n p do_it (err e, t) h = h

    readiness_answer-Keyed :
        (n p : ℕ) (do_it : Op (World O W) (Unit {0})) (t : World O W)
        (r : Result Error (Unit {0}) × W)
        → Keyed v api writer steps n t
        → Keyed v api writer steps n (readiness_answer fetch p do_it time t r).1
    unfolding readiness_answer
    readiness_answer-Keyed n p do_it t (ok tt, w) h = h
    readiness_answer-Keyed n p do_it t (err e, w) h = h

    sentinel_answer-Keyed :
        (n p : ℕ) (do_it : Op (World O W) (Unit {0})) (q : Result Error (Unit {0}) × World O W)
        → Keyed v api writer steps n q.1
        → Keyed v api writer steps n (sentinel_answer fetch p do_it check_ready time q).1
    unfolding sentinel_answer
    sentinel_answer-Keyed n p do_it (ok tt, t) h =
        readiness_answer-Keyed n p do_it t (check_ready (t.store p) t.outside) h
    sentinel_answer-Keyed n p do_it (err e, t) h = h

    no_entry : (j : String) (meta : Meta) → lookup {V = Meta} j [] ≡ some meta → ⊥
    unfolding lookup
    no_entry j meta h = cc

    Reached-Keyed : (s : Operator O W) → Reached s → Keyed v api writer steps s.next s.world
    unfolding reconcile_sentinel reconcile_standalone
    Reached-Keyed s (started store w) = λ j meta found. absurd (no_entry j meta found)
    Reached-Keyed s (sentinel_visit {s = t} namespace name before) =
        after_get-Keyed t.next namespace name
          (sentinel_answer fetch t.next (do_resource v api writer steps t.next) check_ready time)
          (sentinel_answer-Keyed (t.next + 1) t.next (do_resource v api writer steps t.next))
          t.world (fetch namespace name t.world.outside) (Reached-Keyed t before)
    Reached-Keyed s (standalone_visit {s = t} namespace name before) =
        after_get-Keyed t.next namespace name
          (standalone_answer fetch t.next (do_resource v api writer steps t.next) time)
          (standalone_answer-Keyed (t.next + 1) t.next (do_resource v api writer steps t.next))
          t.world (fetch namespace name t.world.outside) (Reached-Keyed t before)
    Reached-Keyed s (drift {s = t} w before) = Reached-Keyed t before

    -- an object that has been allocated, and the namespace, a slash and the name of it
    abbrev pub IsFiled : Operator O W → String → ℕ → Type 0
    IsFiled s j p =
        (p < s.next)
        × (j
            ≡ (v.metadata (s.world.store p)).namespace
              <> ("/" <> (v.metadata (s.world.store p)).name))

    -- In every state that visits reach from an empty cache, one visit after the other, whatever the
    -- world outside does between them and whichever calls fail, an entry points at an object that one
    -- of the visits has allocated, and it is stored under that object's namespace, a slash and its name.
    -- Neither Validate, nor the API server, nor a new status may change the key of a resource.
    pub Reached-IsFiled :
        (s : Operator O W) (j : String) (meta : Meta)
        → Reached s
        → lookup j s.world.entries ≡ some meta
        → IsFiled s j meta.obj
    unfolding key_of get_namespaced_name
    Reached-IsFiled s j meta reached found =
        let (allocated, key) = Reached-Keyed s reached j meta found in (allocated, sym key)
