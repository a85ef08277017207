-- ===== src/Sentinel/Check/Configs.antt =====
-- When the settings of a redis pass.
use cndb_redis.Base.{
  String, true, Option, none, some, List, [], ◌∷◌, ◌≡◌, ◌↔◌, ◌⊎◌, inl, inr, refl, All, eq_iff,
  Bool-cases, ok, err, Result, str_eq,
}
use cndb_redis.Base.Dict.{Dict, lookup}
use cndb_redis.Strconv.{ParseError}
use cndb_redis.Util.Memory.{parse_redis_mem_conf}
use cndb_redis.Sentinel.Check.{
  parse_config_map, contains, readable, expected, agrees, value_of, config_conflict,
}

abbrev pub IsListed : String → List String → Type 0
IsListed key [] = ⊥
IsListed key (x ∷ xs) = (x ≡ key) ⊎ IsListed key xs

-- what redis reports of a setting, which is nothing where the setting is missing
abbrev pub Reports : Dict String → String → String → Type 0
Reports configs key v = (lookup key configs ≡ some v) ⊎ ((lookup key configs ≡ none) × (v ≡ ""))

-- a memory size that cannot be read, or whose number of bytes redis reports
abbrev pub SizePasses : Dict String → String → Result ParseError String → Type 0
SizePasses configs key (ok bytes) = Reports configs key bytes
SizePasses configs key (err e) = Unit

-- redis reports the size in bytes, and any other setting as it is
abbrev pub Passes : Dict String → String × String → Type 0
Passes configs (key, value) =
    (IsListed key parse_config_map × SizePasses configs key (parse_redis_mem_conf value))
    ⊎ ((¬ IsListed key parse_config_map) × Reports configs key value)

contains_iff : (xs : List String) (key : String) → (contains xs key ≡ true) ↔ IsListed key xs
unfolding contains
contains_iff [] key = (λ h. absurd (cc), λ h. absurd h)
contains_iff (x ∷ xs) key = elim (Bool-cases (str_eq x key)) [
  | inl same ↦ rw same (λ h. inl ((eq_iff x key).0 same), λ h. refl)
  | inr other ↦ rw other (
    λ h. inr ((contains_iff xs key).0 h),
    λ h. elim h [
      | inl e ↦ absurd (let s = (eq_iff x key).1 e in cc)
      | inr later ↦ (contains_iff xs key).1 later
    ],
  )
]

agrees-Reports :
    (configs : Dict String) (key v : String)
    → (agrees (some v) (value_of (lookup key configs)) ≡ true) ↔ Reports configs key v
unfolding agrees value_of
agrees-Reports configs key v = go (lookup key configs)
  where
    go :
        (found : Option String)
        → (agrees (some v) (value_of found) ≡ true)
          ↔ ((found ≡ some v) ⊎ ((found ≡ none) × (v ≡ "")))
    go none = (
      λ h. inr (refl, (eq_iff v "").0 h),
      λ h. elim h [ inl e ↦ absurd (cc) | inr (_, e) ↦ (eq_iff v "").1 e ],
    )
    go (some u) = (
      λ h. inl (let e = (eq_iff v u).0 h in cc),
      λ h. elim h [ inl e ↦ (eq_iff v u).1 (cc) | inr (e, _) ↦ absurd (cc) ],
    )

readable-SizePasses :
    (configs : Dict String) (key : String) (r : Result ParseError String)
    → (agrees (readable r) (value_of (lookup key configs)) ≡ true) ↔ SizePasses configs key r
unfolding readable
readable-SizePasses configs key (ok bytes) = agrees-Reports configs key bytes
readable-SizePasses configs key (err e) = (λ h. tt, λ h. unfold agrees in refl)

expected-Passes :
    (configs : Dict String) (key value : String)
    → (agrees (expected key value) (value_of (lookup key configs)) ≡ true)
      ↔ Passes configs (key, value)
unfolding expected
expected-Passes configs key value = elim (Bool-cases (contains parse_config_map key)) [
  | inl size ↦
      let listed = (contains_iff parse_config_map key).0 size in
      let parsed = readable-SizePasses configs key (parse_redis_mem_conf value) in
      rw size (
        λ h. inl (listed, parsed.0 h),
        λ h. elim h [ inl (_, p) ↦ parsed.1 p | inr (n, _) ↦ absurd (n listed) ],
      )
  | inr plain ↦
      let unlisted : ¬ IsListed key parse_config_map =
        λ l. let c = (contains_iff parse_config_map key).1 l in cc in
      let reported = agrees-Reports configs key value in
      rw plain (
        λ h. inr (unlisted, reported.0 h),
        λ h. elim h [ inl (l, _) ↦ absurd (unlisted l) | inr (_, p) ↦ reported.1 p ],
      )
]

-- CheckRedisConfig finds no conflict exactly when redis reports every setting of the specification: a
-- memory size as the number of bytes that ParseRedisMemConf reads, any other setting as it is written,
-- and an empty setting also where redis reports none. A memory size that cannot be read is passed over.
pub config_conflict_iff :
    (config configs : Dict String)
    → (config_conflict config configs ≡ none) ↔ All (Passes configs) config
unfolding config_conflict
config_conflict_iff [] configs = (λ h. tt, λ h. refl)
config_conflict_iff ((key, value) ∷ config) configs =
    let rest = config_conflict_iff config configs in
    let here = expected-Passes configs key value in
    elim (Bool-cases (agrees (expected key value) (value_of (lookup key configs)))) [
      | inl passes ↦ rw passes (λ h. (here.0 passes, rest.0 h), λ (p, h). rest.1 h)
      | inr fails ↦ rw fails (λ h. absurd (cc), λ (p, h). absurd (let q = here.1 p in cc))
    ]
