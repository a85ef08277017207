-- ===== src/Api/Status/Order.antt =====
-- The order of the conditions after `UpdateSentinelStatus` has sorted them.
use cndb_redis.Base.{
  ℕ, ◌<◌, String, Option, none, some, List, [], ◌∷◌, ◌≡◌, refl, arith, eq_iff, if◌then◌else◌,
  str_eq, ◌∙◌, All, sort_slice, insert_by, Bool-cases, inl, inr, head?,
}
use cndb_redis.Api.Status.{
  Condition, Status, Clock, get_cluster_condition, set_cluster_condition, later_condition,
  desc_conditions_by_time,
}
use cndb_redis.Api.Status.Conditions.{find, NodupTypes, merge, write, write-cons}

abbrev Older : ℕ → List Condition → Type 0
Older n = All (λ c. c.last_update_at < n)

find-insert_by :
    (c : Condition) (cs : List Condition) (t : String)
    → find cs c.type ≡ none
    → find (insert_by later_condition c cs) t ≡ (if str_eq t c.type then some c else find cs t)
unfolding find insert_by
find-insert_by c [] t h = refl
find-insert_by c (d ∷ cs) t h =
    ground (arith, find-insert_by c cs t, eq_iff t c.type, eq_iff t d.type, eq_iff c.type d.type)

find-sort_slice :
    (cs : List Condition) (t : String)
    → NodupTypes cs
    → find (sort_slice later_condition cs) t ≡ find cs t
unfolding sort_slice find
find-sort_slice [] t h = refl
find-sort_slice (c ∷ cs) t (fresh, h) =
    rw (find-insert_by c _ t (find-sort_slice cs c.type h ∙ fresh), find-sort_slice cs t h)

Older-insert_by :
    (n : ℕ) (c : Condition) (cs : List Condition)
    → c.last_update_at < n
    → Older n cs
    → Older n (insert_by later_condition c cs)
unfolding insert_by
Older-insert_by n c [] h hs = (h, tt)
Older-insert_by n c (d ∷ cs) h (hd, hs) = ground (arith, Older-insert_by n c cs h hs)

Older-sort_slice :
    (n : ℕ) (cs : List Condition) → Older n cs → Older n (sort_slice later_condition cs)
unfolding sort_slice
Older-sort_slice n [] h = tt
Older-sort_slice n (c ∷ cs) (h, hs) = Older-insert_by n c _ h (Older-sort_slice n cs hs)

head-insert_by_newest :
    (c : Condition) (cs : List Condition)
    → Older c.last_update_at cs
    → head? (insert_by later_condition c cs) ≡ some c
unfolding insert_by later_condition
head-insert_by_newest c [] h = refl
head-insert_by_newest c (d ∷ cs) (h, _) = ground arith

head-insert_by_older :
    (c m : Condition) (cs : List Condition)
    → c.last_update_at < m.last_update_at
    → head? cs ≡ some m
    → head? (insert_by later_condition c cs) ≡ some m
unfolding insert_by later_condition
head-insert_by_older c m [] lt h = cc
head-insert_by_older c m (d ∷ cs) lt h = ground arith

lt-merge :
    (n : ℕ) (o : Option Condition) (c : Condition) (clock : Clock)
    → n < c.last_update_at
    → n < clock.now
    → n < (merge o c clock).last_update_at
unfolding merge
lt-merge n none c clock h k = h
lt-merge n (some cp) c clock h k = ground arith

Older-merge :
    (cs : List Condition) (o : Option Condition) (c : Condition) (clock : Clock)
    → Older c.last_update_at cs
    → Older clock.now cs
    → Older (merge o c clock).last_update_at cs
Older-merge [] o c clock h k = tt
Older-merge (d ∷ cs) o c clock (h, hs) (k, ks) =
    (lt-merge d.last_update_at o c clock h k, Older-merge cs o c clock hs ks)

head-sort_slice-write :
    (cs : List Condition) (c : Condition) (clock : Clock)
    → Older c.last_update_at cs
    → Older clock.now cs
    → head? (sort_slice later_condition (write cs c clock)) ≡ some (merge (find cs c.type) c clock)
unfolding sort_slice find
head-sort_slice-write [] c clock h k = unfold write get_cluster_condition merge insert_by in refl
head-sort_slice-write (d ∷ cs) c clock (h, hs) (k, ks) = elim (Bool-cases (str_eq c.type d.type)) [
  | inl same ↦
      rw (write-cons, same)
        (head-insert_by_newest (merge (some d) c clock) _
          (Older-sort_slice _ cs (Older-merge cs (some d) c clock hs ks)))
  | inr other ↦
      rw (write-cons, other)
        (head-insert_by_older d _ _ (lt-merge d.last_update_at _ c clock h k)
          (head-sort_slice-write cs c clock hs ks))
]

-- A condition that is set when every other was updated earlier stands first in the status that is
-- sent to the API server.
pub head-desc_conditions_by_time :
    (s : Status) (c : Condition) (clock : Clock)
    → Older c.last_update_at s.conditions
    → Older clock.now s.conditions
    → head? (desc_conditions_by_time (set_cluster_condition s c clock)).conditions
      ≡ some (merge (find s.conditions c.type) c clock)
unfolding desc_conditions_by_time set_cluster_condition
head-desc_conditions_by_time s c clock h k =
    unfold write in head-sort_slice-write s.conditions c clock h k

-- Sorting the conditions loses none of them, adds none and keeps each under its type.
pub find-desc_conditions_by_time :
    (s : Status) (t : String)
    → NodupTypes s.conditions
    → find (desc_conditions_by_time s).conditions t ≡ find s.conditions t
unfolding desc_conditions_by_time
find-desc_conditions_by_time s t h = find-sort_slice s.conditions t h
