-- ===== src/Samples/Entries.antt =====
-- The cache on sample clusters.
use cndb_redis.Base.{ℕ, String, ◌≡◌, ◌≢◌, ◌↔◌, [], ◌∷◌}
use cndb_redis.Base.Int.{pos, ◌<ℤ◌}
use cndb_redis.Api.Types.{RedisSentinel}
use cndb_redis.Api.Views.{sentinel_view}
use cndb_redis.Api.Status.{
  condition_updating, condition_upgrading, condition_scaling, condition_scaling_down,
}
use cndb_redis.Cache.{key_of, update_status}
use cndb_redis.Cache.Ladder.{update_status_iff}
use cndb_redis.Cache.Passwords.{observe_all, HasPassword, password_fixed}
use cndb_redis.Samples.Objects.{text_k8s, common, cluster}

abbrev store : ℕ → RedisSentinel text_k8s
store p = cluster p (pos 3) "secret"

update_status_iff_example :
    ((update_status text_k8s (common (pos 3) "a") (common (pos 5) "a") ≡ condition_scaling)
      ↔ (pos 3 <ℤ pos 5))
    × ((update_status text_k8s (common (pos 3) "a") (common (pos 5) "a") ≡ condition_scaling_down)
        ↔ (pos 5 <ℤ pos 3))
    × ((update_status text_k8s (common (pos 3) "a") (common (pos 5) "a") ≡ condition_upgrading)
        ↔ ((pos 3 ≡ pos 5) × ◌≡◌ {A = String} "" ""))
    × ((update_status text_k8s (common (pos 3) "a") (common (pos 5) "a") ≡ condition_updating)
        ↔ ((pos 3 ≡ pos 5) × ◌≢◌ {A = String} "" ""))
update_status_iff_example = update_status_iff text_k8s (common (pos 3) "a") (common (pos 5) "a")

password_fixed_example :
    let s =
      observe_all
        (sentinel_view text_k8s)
        (record { store = store; next = 0; entries = [] })
        (cluster 1 (pos 3) "secret" ∷ cluster 2 (pos 3) "changed" ∷ []) in
    HasPassword
      (sentinel_view text_k8s)
      (key_of (sentinel_view text_k8s) (cluster 1 (pos 3) "secret"))
      "secret"
      s.store
      s.entries
password_fixed_example =
    password_fixed (sentinel_view text_k8s) store (cluster 1 (pos 3) "secret")
      (cluster 2 (pos 3) "changed" ∷ [])
