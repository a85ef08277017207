-- ===== src/Metrics.antt =====
-- pkg/metrics/metrics.go: one gauge for each resource, by namespace and name.
use cndb_redis.Base.{ℕ, String, ◌&&◌, Bool, Option, none, some, ◌≡◌, if◌then◌else◌, str_eq}
use cndb_redis.Api.Types.{ObjectMeta, K8s}
use cndb_redis.Util.Labels.{should_manage}
use cndb_redis.Reconcile.Controller.{accepts_delete}

-- prometheus.GaugeVec with the labels namespace and name, in the process `V`
pub record GaugeVec (V : Type 0) : Type 0 where
  pub set : String → String → ℕ → V → V
  pub delete : String → String → V → V
  pub value : String → String → V → Option ℕ

-- what prometheus documents of it
pub record GaugeLaws {V : Type 0} (vec : GaugeVec V) : Type 0 where
  pub value-set :
      (namespace name namespace' name' : String) (x : ℕ) (p : V)
      → vec.value namespace' name' (vec.set namespace name x p) ≡ (
          if str_eq namespace namespace' && str_eq name name'
          then some x
          else vec.value namespace' name' p)
  pub value-delete :
      (namespace name namespace' name' : String) (p : V)
      → vec.value namespace' name' (vec.delete namespace name p) ≡ (
          if str_eq namespace namespace' && str_eq name name'
          then none
          else vec.value namespace' name' p)

module _ {V : Type 0} (vec : GaugeVec V) where
  unfoldable pub set_cluster_ok : String → String → V → V
  set_cluster_ok namespace name = vec.set namespace name 1

  unfoldable pub set_cluster_error : String → String → V → V
  set_cluster_error namespace name = vec.set namespace name 0

  unfoldable pub delete_cluster : String → String → V → V
  delete_cluster namespace name = vec.delete namespace name

  -- DeleteFunc of the controller of clusters, with its gauge
  unfoldable pub delete_func : {k : K8s} → ObjectMeta k → Bool → V → Bool × V
  unfolding should_manage accepts_delete delete_cluster
  delete_func o unknown p =
      if should_manage o.annotations
      then (accepts_delete o unknown, delete_cluster o.namespace o.name p)
      else (accepts_delete o unknown, p)
