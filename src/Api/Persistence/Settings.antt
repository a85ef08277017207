-- ===== src/Api/Persistence/Settings.antt =====
-- What the persistence settings are after a call, and that a second call changes nothing.
use cndb_redis.Base.{
  String, Option, none, some, [], ◌∷◌, ◌≡◌, ◌≢◌, refl, arith, eq_iff, if◌then◌else◌, str_eq,
}
use cndb_redis.Base.Dict.{Dict, lookup, insert, lookup-insert, insert-same}
use cndb_redis.Api.Persistence.{
  set_config_map_if_not_exist, enable_persistence, disable_persistence,
}

abbrev pub persistence_defaults : Dict String
persistence_defaults =
    ("appendonly", "yes")
    ∷ ("auto-aof-rewrite-min-size", "536870912")
    ∷ ("auto-aof-rewrite-percentage", "100")
    ∷ ("repl-backlog-size", "62914560")
    ∷ ("repl-diskless-sync", "yes")
    ∷ ("aof-load-truncated", "yes")
    ∷ ("stop-writes-on-bgsave-error", "no")
    ∷ ("save", "900 1 300 10")
    ∷ []

-- the first choice, or the second where there is none
abbrev pub or_default : Option String → Option String → Option String
or_default none d = d
or_default (some v) d = some v

lookup-set_config_map_if_not_exist :
    (j key value : String) (config : Dict String)
    → lookup j (set_config_map_if_not_exist key value config)
      ≡ or_default (lookup j config) (if str_eq key j then some value else none)
unfolding set_config_map_if_not_exist
lookup-set_config_map_if_not_exist j key value config =
    ground (arith, lookup-insert key j value config, eq_iff key j)

or_default_assoc :
    (a b c : Option String) → or_default (or_default a b) c ≡ or_default a (or_default b c)
or_default_assoc none b c = refl
or_default_assoc (some v) b c = refl

or_default-none : (a : Option String) → or_default a none ≡ a
or_default-none none = refl
or_default-none (some v) = refl

lookup-nil : (j : String) → lookup {V = String} j [] ≡ none
unfolding lookup
lookup-nil j = refl

lookup-cons :
    (j key value : String) (config : Dict String)
    → lookup j ((key, value) ∷ config)
      ≡ or_default (if str_eq key j then some value else none) (lookup j config)
unfolding lookup
lookup-cons j key value config = ground arith

-- With persistence enabled, what the user has set stays, and of the eight persistence settings
-- those that are not set get their default; no other key is added.
pub lookup-enable_persistence :
    (j : String) (config : Dict String)
    → lookup j (enable_persistence config)
      ≡ or_default (lookup j config) (lookup j persistence_defaults)
unfolding enable_persistence
lookup-enable_persistence j config =
    simp (
      lookup-set_config_map_if_not_exist, or_default_assoc, lookup-cons, lookup-nil,
      or_default-none,
    )

-- With persistence disabled, `appendonly` is "no", `save` is empty, and other keys stay.
pub lookup-disable_persistence :
    (j : String) (config : Dict String)
    → lookup j (disable_persistence config) ≡ (
        if str_eq "save" j
        then some ""
        else if str_eq "appendonly" j
        then some "no"
        else lookup j config)
unfolding disable_persistence
lookup-disable_persistence j config = simp lookup-insert

set_config_map_if_not_exist-same :
    (key value : String) (config : Dict String)
    → lookup key config ≢ none
    → set_config_map_if_not_exist key value config ≡ config
unfolding set_config_map_if_not_exist
set_config_map_if_not_exist-same key value config h = ground arith

enable_persistence-set :
    (j : String) (config : Dict String)
    → lookup j persistence_defaults ≢ none
    → lookup j (enable_persistence config) ≢ none
enable_persistence-set j config h = rw lookup-enable_persistence (ground arith)

module _ (c : Dict String)
    (h : (j : String) → lookup j persistence_defaults ≢ none → lookup j c ≢ none) where
  present :
      (key value : String)
      → lookup key persistence_defaults ≡ some value
      → set_config_map_if_not_exist key value c ≡ c
  present key value e = set_config_map_if_not_exist-same key value c (h key (ground arith))

  enable_persistence-same : enable_persistence c ≡ c
  unfolding enable_persistence lookup
  enable_persistence-same = rw (
    present "appendonly" _ refl,
    present "auto-aof-rewrite-min-size" _ refl,
    present "auto-aof-rewrite-percentage" _ refl,
    present "repl-backlog-size" _ refl,
    present "repl-diskless-sync" _ refl,
    present "aof-load-truncated" _ refl,
    present "stop-writes-on-bgsave-error" _ refl,
    present "save" _ refl,
  )

-- Enabling persistence twice is enabling it once.
pub enable_persistence_twice :
    (config : Dict String)
    → enable_persistence (enable_persistence config) ≡ enable_persistence config
enable_persistence_twice config =
    enable_persistence-same (enable_persistence config) (λ j h. enable_persistence-set j config h)

-- Disabling persistence twice is disabling it once.
pub disable_persistence_twice :
    (config : Dict String)
    → disable_persistence (disable_persistence config) ≡ disable_persistence config
disable_persistence_twice config =
    let d = disable_persistence config in
    let off : insert "appendonly" "no" d ≡ d =
      insert-same "appendonly" "no" d (lookup-disable_persistence "appendonly" config) in
    let save : insert "save" "" d ≡ d =
      insert-same "save" "" d (lookup-disable_persistence "save" config) in
    twice d off save
  where
    twice :
        (d : Dict String)
        → insert "appendonly" "no" d ≡ d
        → insert "save" "" d ≡ d
        → disable_persistence d ≡ d
    twice d off save = unfold disable_persistence in rw (off, save)
