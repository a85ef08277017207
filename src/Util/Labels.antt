-- ===== src/Util/Labels.antt =====
-- pkg/util/label.go, and from pkg/util/utils.go the test for the resources that the operator manages.
use cndb_redis.Base.{
  String, Bool, true, false, Option, none, some, List, [], ◌∷◌, ◌≡◌, refl, arith, eq_iff,
  if◌then◌else◌, str_eq, ◌∙◌, All,
}
use cndb_redis.Base.Dict.{Dict, lookup, insert, lookup-insert, lookup-nil}

-- res[k] = v, for each k, v of the labels
unfoldable pub merge_into : Dict String → Dict String → Dict String
unfolding insert
merge_into res [] = res
merge_into res ((k, v) ∷ labels) = merge_into (insert k v res) labels

unfoldable pub merge_each : Dict String → List (Dict String) → Dict String
unfolding merge_into
merge_each res [] = res
merge_each res (labels ∷ all_labels) = merge_each (merge_into res labels) all_labels

unfoldable pub merge_labels : List (Dict String) → Dict String
unfolding merge_each
merge_labels all_labels = merge_each [] all_labels

unfoldable pub is_cluster_scoped : Bool
is_cluster_scoped = true

abbrev pub annotation_scope : String
annotation_scope = "lovelycat.io/scope"

abbrev pub annotation_cluster_scoped : String
annotation_cluster_scoped = "cluster-scoped"

-- the cases of the annotation
unfoldable pub manages : Option String → Bool
unfolding is_cluster_scoped
manages (some v) = if is_cluster_scoped then str_eq v annotation_cluster_scoped else false
manages none = if is_cluster_scoped then false else true

unfoldable pub should_manage : Dict String → Bool
unfolding manages lookup
should_manage annotations = manages (lookup annotation_scope annotations)

-- no key stands twice, as in every Go map
abbrev pub HasDistinctKeys {ℓ} : {V : Type ℓ} → Dict V → Type ℓ
HasDistinctKeys [] = Unit
HasDistinctKeys ((k, v) ∷ m) = (lookup k m ≡ none) × HasDistinctKeys m

-- the label of the later map, if it has one
abbrev pub later_first : Option String → Option String → Option String
later_first (some v) earlier = some v
later_first none earlier = earlier

pub lookup-merge_into :
    (res labels : Dict String) (key : String)
    → HasDistinctKeys labels
    → lookup key (merge_into res labels) ≡ later_first (lookup key labels) (lookup key res)
unfolding merge_into lookup
lookup-merge_into res [] key h = refl
lookup-merge_into res ((k, v) ∷ labels) key (fresh, rest) = ground (
  arith,
  lookup-merge_into (insert k v res) labels key rest,
  lookup-insert k key v res,
  eq_iff k key,
)

abbrev pub last_value : String → List (Dict String) → Option String
last_value key [] = none
last_value key (labels ∷ all_labels) = later_first (last_value key all_labels) (lookup key labels)

pub later_first_assoc :
    (a b c : Option String) → later_first a (later_first b c) ≡ later_first (later_first a b) c
later_first_assoc (some a) b c = refl
later_first_assoc none b c = refl

lookup-merge_each :
    (res : Dict String) (all_labels : List (Dict String)) (key : String)
    → All HasDistinctKeys all_labels
    → lookup key (merge_each res all_labels)
      ≡ later_first (last_value key all_labels) (lookup key res)
unfolding merge_each
lookup-merge_each res [] key h = refl
lookup-merge_each res (labels ∷ all_labels) key (first, rest) =
    lookup-merge_each (merge_into res labels) all_labels key rest
    ∙ rw (lookup-merge_into res labels key first)
        (later_first_assoc (last_value key all_labels) (lookup key labels) (lookup key res))

later_first-none : (a : Option String) → later_first a none ≡ a
later_first-none (some a) = refl
later_first-none none = refl

-- MergeLabels keeps every label: each key has its value in the last of the maps that has the key.
pub lookup-merge_labels :
    (all_labels : List (Dict String)) (key : String)
    → All HasDistinctKeys all_labels
    → lookup key (merge_labels all_labels) ≡ last_value key all_labels
unfolding merge_labels
lookup-merge_labels all_labels key h =
    lookup-merge_each [] all_labels key h
    ∙ rw (lookup-nil key) (later_first-none (last_value key all_labels))
