-- ===== src/Cache/Ladder.antt =====
-- What Update announces when the generation of a resource has changed.
use cndb_redis.Base.{
  sym, ◌≡◌, ◌≢◌, ◌↔◌, refl, arith, true, false, Bool-cases, inl, inr, eq_iff, str_eq,
}
use cndb_redis.Base.Int.{ℤ, ltb_ℤ, ◌<ℤ◌}
use cndb_redis.Api.Status.{
  condition_updating, condition_upgrading, condition_scaling, condition_scaling_down,
}
use cndb_redis.Api.Types.{K8s, RedisStandaloneSpec}
use cndb_redis.Cache.{update_status}

data Order (a b : ℤ) : Type 0 where
  less : a <ℤ b → ltb_ℤ a b ≡ true → ltb_ℤ b a ≡ false → Order a b
  same : a ≡ b → ltb_ℤ a b ≡ false → ltb_ℤ b a ≡ false → Order a b
  more : b <ℤ a → ltb_ℤ a b ≡ false → ltb_ℤ b a ≡ true → Order a b

compare_ℤ : (a b : ℤ) → Order a b
compare_ℤ a b = elim (Bool-cases (ltb_ℤ a b)) [
  | inl lt ↦ less (ground arith) lt (ground arith)
  | inr ge ↦ elim (Bool-cases (ltb_ℤ b a)) [
    | inl gt ↦ more (ground arith) ge gt
    | inr le ↦ same (ground arith) ge le
  ]
]

scaling_names :
    (condition_scaling ≢ condition_scaling_down)
    × (condition_scaling ≢ condition_upgrading)
    × (condition_scaling ≢ condition_updating)
    × (condition_scaling_down ≢ condition_upgrading)
    × (condition_scaling_down ≢ condition_updating)
    × (condition_upgrading ≢ condition_updating)
scaling_names = (
  ground (arith, eq_iff condition_scaling condition_scaling_down),
  ground (arith, eq_iff condition_scaling condition_upgrading),
  ground (arith, eq_iff condition_scaling condition_updating),
  ground (arith, eq_iff condition_scaling_down condition_upgrading),
  ground (arith, eq_iff condition_scaling_down condition_updating),
  ground (arith, eq_iff condition_upgrading condition_updating),
)

-- An update is announced as scaling up exactly when the size grows, and as scaling down exactly when
-- it shrinks; at an unchanged size it is announced as an upgrade exactly when the image is the same
-- as before, and as an update exactly when the image has changed.
pub update_status_iff :
    (k : K8s) (old new : RedisStandaloneSpec k)
    → ((update_status k old new ≡ condition_scaling) ↔ (old.size <ℤ new.size))
      × ((update_status k old new ≡ condition_scaling_down) ↔ (new.size <ℤ old.size))
      × ((update_status k old new ≡ condition_upgrading)
          ↔ ((old.size ≡ new.size) × (old.image ≡ new.image)))
      × ((update_status k old new ≡ condition_updating)
          ↔ ((old.size ≡ new.size) × (old.image ≢ new.image)))
unfolding update_status
update_status_iff k old new = elim (compare_ℤ old.size new.size) [
  | less h up down ↦ rw up (
    (λ _. h, λ _. refl),
    (λ e. absurd (scaling_names.0 e), λ g. absurd (omega arith)),
    (λ e. absurd (scaling_names.1 e), λ g. absurd (ground arith)),
    (λ e. absurd (scaling_names.2 e), λ g. absurd (ground arith)),
  )
  | more h up down ↦
      rw (up, down)
        (
          (λ e. absurd (scaling_names.0 (sym e)), λ g. absurd (omega arith)),
          (λ _. h, λ _. refl),
          (λ e. absurd (scaling_names.3 e), λ g. absurd (ground arith)),
          (λ e. absurd (scaling_names.4 e), λ g. absurd (ground arith)),
        )
  | same h up down ↦ elim (Bool-cases (str_eq old.image new.image)) [
    | inl kept ↦
        rw (up, down, kept)
          (
            (λ e. absurd (scaling_names.1 (sym e)), λ g. absurd (ground arith)),
            (λ e. absurd (scaling_names.3 (sym e)), λ g. absurd (ground arith)),
            (λ _. (h, (eq_iff old.image new.image).0 kept), λ _. refl),
            (
              λ e. absurd (scaling_names.5 e),
              λ g. absurd (g.1 ((eq_iff old.image new.image).0 kept)),
            ),
          )
    | inr changed ↦
        rw (up, down, changed)
          (
            (λ e. absurd (scaling_names.2 (sym e)), λ g. absurd (ground arith)),
            (λ e. absurd (scaling_names.4 (sym e)), λ g. absurd (ground arith)),
            (
              λ e. absurd (scaling_names.5 (sym e)),
              λ g. absurd (ground (arith, eq_iff old.image new.image)),
            ),
            (λ _. (h, ground (arith, eq_iff old.image new.image)), λ _. refl),
          )
  ]
]
