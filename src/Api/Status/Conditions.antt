-- ===== src/Api/Status/Conditions.antt =====
-- The conditions as a map from types to conditions.
use cndb_redis.Base.{
  String, Option, none, some, List, [], ◌∷◌, ◌≡◌, refl, arith, eq_iff, if◌then◌else◌, str_eq,
  Bool-cases, inl, inr, str_eq_comm,
}
use cndb_redis.Api.Status.{
  Condition, Status, Clock, set_ready_condition, new_cluster_condition, get_cluster_condition,
  same_condition, store_condition, set_cluster_condition, clear_condition, clear_at,
}

-- the condition of a type
unfoldable pub find : List Condition → String → Option Condition
find [] t = none
find (c ∷ cs) t = if str_eq t c.type then some c else find cs t

-- no two conditions have one type
abbrev pub NodupTypes : List Condition → Type 0
NodupTypes [] = Unit
NodupTypes (c ∷ cs) = (find cs c.type ≡ none) × NodupTypes cs

-- what a write of `c` leaves at its type
unfoldable pub merge : Option Condition → Condition → Clock → Condition
merge none c clock = c
merge (some cp) c clock =
    if str_eq cp.status c.status
    then (if str_eq cp.reason c.reason
        then (if str_eq cp.message c.message
            then record cp { last_update_at = clock.now; last_update_time = clock.now_string }
            else c)
        else c)
    else c

unfoldable pub write : List Condition → Condition → Clock → List Condition
unfolding store_condition
write cs c clock = store_condition cs (get_cluster_condition cs c.type) c clock

pub write-cons :
    (d : Condition) (cs : List Condition) (c : Condition) (clock : Clock)
    → write (d ∷ cs) c clock
      ≡ (if str_eq c.type d.type then merge (some d) c clock ∷ cs else d ∷ write cs c clock)
unfolding write merge get_cluster_condition same_condition
write-cons d cs c clock = ground arith

find-type : (cs : List Condition) (t : String) {d : Condition} → find cs t ≡ some d → d.type ≡ t
unfolding find
find-type [] t h = cc
find-type (c ∷ cs) t {d} h = elim (Bool-cases (str_eq t c.type)) [
  | inl same ↦ ground (arith, eq_iff t c.type)
  | inr other ↦ find-type cs t (rw other at h)
]

merge-type :
    (d c : Condition) (clock : Clock) → c.type ≡ d.type → (merge (some d) c clock).type ≡ d.type
unfolding merge
merge-type d c clock h = ground arith

find-write :
    (cs : List Condition) (c : Condition) (clock : Clock) (t : String)
    → find (write cs c clock) t
      ≡ (if str_eq t c.type then some (merge (find cs c.type) c clock) else find cs t)
unfolding find merge
find-write [] c clock t = unfold write get_cluster_condition in refl
find-write (d ∷ cs) c clock t = rw write-cons (
    ground (arith, find-write cs c clock t, eq_iff t c.type, eq_iff t d.type, eq_iff c.type d.type))

-- Setting a condition writes its type and leaves every other type alone; an old condition with the
-- same status, reason and message keeps its transition time.
pub find-set_cluster_condition :
    (s : Status) (c : Condition) (clock : Clock) (t : String)
    → find (set_cluster_condition s c clock).conditions t ≡ (
        if str_eq t c.type
        then some (merge (find s.conditions c.type) c clock)
        else find s.conditions t)
unfolding set_cluster_condition
find-set_cluster_condition s c clock t = unfold write in find-write s.conditions c clock t

merge-status :
    (old : Option Condition) (c : Condition) (clock : Clock) → (merge old c clock).status ≡ c.status
unfolding merge
merge-status none c clock = refl
merge-status (some cp) c clock = ground (arith, eq_iff cp.status c.status)

-- setting the condition Healthy makes it true
pub ready_condition :
    (s : Status) (message : String) (clock : Clock)
    → (c : Condition) × (find (set_ready_condition s message clock clock).conditions "Healthy"
        ≡ some c)
      × (c.status ≡ "True")
unfolding set_ready_condition new_cluster_condition
ready_condition s message clock =
    let c = new_cluster_condition "Healthy" "True" "Cluster available" message clock in
    (
      merge (find s.conditions "Healthy") c clock,
      find-set_cluster_condition s c clock "Healthy",
      merge-status (find s.conditions "Healthy") c clock,
    )

NodupTypes-write :
    (cs : List Condition) (c : Condition) (clock : Clock)
    → NodupTypes cs
    → NodupTypes (write cs c clock)
NodupTypes-write [] c clock h =
    unfold write get_cluster_condition store_condition find in (refl, tt)
NodupTypes-write (d ∷ cs) c clock (fresh, h) = elim (Bool-cases (str_eq c.type d.type)) [
  | inl same ↦
      rw (write-cons, same) (rw (merge-type d c clock ((eq_iff c.type d.type).0 same)) fresh, h)
  | inr other ↦
      rw (write-cons, other)
        (rw (find-write, str_eq_comm d.type c.type, other) fresh, NodupTypes-write cs c clock h)
]

remove : List Condition → String → List Condition
unfolding clear_at
remove cs t = clear_at cs (get_cluster_condition cs t)

remove-cons :
    (d : Condition) (cs : List Condition) (t : String)
    → remove (d ∷ cs) t ≡ (if str_eq t d.type then cs else d ∷ remove cs t)
unfolding remove get_cluster_condition
remove-cons d cs t = ground arith

find-remove :
    (cs : List Condition) (t u : String)
    → NodupTypes cs
    → find (remove cs t) u ≡ (if str_eq t u then none else find cs u)
unfolding find
find-remove [] t u h = unfold remove get_cluster_condition in ground arith
find-remove (d ∷ cs) t u (fresh, h) =
    rw remove-cons
      (ground (arith, find-remove cs t u h, eq_iff t u, eq_iff u d.type, eq_iff t d.type))

NodupTypes-remove : (cs : List Condition) (t : String) → NodupTypes cs → NodupTypes (remove cs t)
NodupTypes-remove [] t h = unfold remove get_cluster_condition in tt
NodupTypes-remove (d ∷ cs) t (fresh, h) = elim (Bool-cases (str_eq t d.type)) [
  | inl same ↦ rw (remove-cons, same) h
  | inr other ↦
      rw (remove-cons, other)
        (rw (find-remove cs t d.type h, other) fresh, NodupTypes-remove cs t h)
]

-- A status with one condition for each type keeps that property when a condition is set or cleared.
pub set_cluster_condition-NodupTypes :
    (s : Status) (c : Condition) (clock : Clock) (t : String)
    → NodupTypes s.conditions
    → NodupTypes (set_cluster_condition s c clock).conditions
      × NodupTypes (clear_condition s t).conditions
unfolding set_cluster_condition clear_condition
set_cluster_condition-NodupTypes s c clock t h =
    unfold write remove in
    (NodupTypes-write s.conditions c clock h, NodupTypes-remove s.conditions t h)

-- Clearing a condition removes its type and leaves every other condition as it was.
pub find-clear_condition :
    (s : Status) (t u : String)
    → NodupTypes s.conditions
    → find (clear_condition s t).conditions u ≡ (if str_eq t u then none else find s.conditions u)
unfolding clear_condition
find-clear_condition s t u h = unfold remove in find-remove s.conditions t u h
