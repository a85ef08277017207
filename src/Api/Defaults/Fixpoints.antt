-- ===== src/Api/Defaults/Fixpoints.antt =====
-- Setting a default twice is setting it once, and the tests of equality are reflexive.
use cndb_redis.Base.{
  String, Bool, true, false, Option, none, some, [], ◌∷◌, ◌≡◌, ◌≢◌, refl, arith, eq_refl, eq_iff,
  ap,
}
use cndb_redis.Base.Int.{ℤ, eqb_ℤ}
use cndb_redis.Base.Dict.{Dict, lookup}
use cndb_redis.Api.Types.{RedisExporter}
use cndb_redis.Api.Persistence.Settings.{enable_persistence_twice, disable_persistence_twice}
use cndb_redis.Api.Defaults.{
  default_number, default_text, default_exporter, persist, same_value, agree_on, map_equal,
  config_equal, exporter_equal,
}

pub default_number_twice : (n d : ℤ) → default_number (default_number n d) d ≡ default_number n d
unfolding default_number
default_number_twice n d = ground arith

pub default_text_twice : (s d : String) → default_text (default_text s d) d ≡ default_text s d
unfolding default_text
default_text_twice s d = ground arith

pub default_exporter_twice :
    (e : RedisExporter) → default_exporter (default_exporter e) ≡ default_exporter e
unfolding default_exporter
default_exporter_twice e = ground arith

pub persist_twice :
    (disabled : Bool) (config : Dict String)
    → persist disabled (persist disabled config) ≡ persist disabled config
unfolding persist
persist_twice true config = disable_persistence_twice config
persist_twice false config = enable_persistence_twice config

same_value_refl : (o : Option String) → same_value o o ≡ true
unfolding same_value
same_value_refl none = refl
same_value_refl (some v) = eq_refl v

agree_on_refl : (keys m : Dict String) → agree_on keys m m ≡ true
unfolding agree_on
agree_on_refl [] m = refl
agree_on_refl ((key, _) ∷ rest) m = rw (same_value_refl (lookup key m)) (agree_on_refl rest m)

pub config_equal_refl : (c : Option (Dict String)) → config_equal c c ≡ true
unfolding config_equal
config_equal_refl none = refl
config_equal_refl (some m) = rw (agree_on_refl m m) refl

pub exporter_equal_refl : (e : RedisExporter) → exporter_equal e e ≡ true
unfolding exporter_equal
exporter_equal_refl e = rw (eq_refl e.image, eq_refl e.image_pull_policy) refl

pub eqb_ℤ_refl : (n : ℤ) → eqb_ℤ n n ≡ true
eqb_ℤ_refl n = ground arith

same_value-eq : (a b : Option String) → same_value a b ≡ true → a ≡ b
unfolding same_value
same_value-eq none none h = refl
same_value-eq none (some w) h = cc
same_value-eq (some v) none h = cc
same_value-eq (some v) (some w) h = ap some ((eq_iff v w).0 h)

-- a key of `keys` on which two maps agree
agree_on-lookup :
    (keys m n : Dict String) (j : String)
    → agree_on keys m n ≡ true
    → lookup j keys ≢ none
    → lookup j m ≡ lookup j n
unfolding agree_on lookup
agree_on-lookup [] m n j h p = absurd (p refl)
agree_on-lookup ((key, v) ∷ rest) m n j h p =
    ground
      (arith, agree_on-lookup rest m n j, eq_iff key j, same_value-eq (lookup key m) (lookup key n))

-- Maps that are equal to reflect.DeepEqual hold the same values.
pub map_equal-lookup :
    (m n : Dict String) (j : String) → map_equal m n ≡ true → lookup j m ≡ lookup j n
unfolding map_equal
map_equal-lookup m n j h = ground (arith, agree_on-lookup m m n j, agree_on-lookup n m n j)
