-- ===== src/Util/Apart.antt =====
-- The names of the two stateful sets of a cluster differ.
use Prim.Native.Char.{code}
use text.Mathlib.TextLemmas.{cons-eq-cons, cons-append, append_cancel_left}
use cndb_redis.Base.{ℕ, String, ◌<>◌, ◌≡◌, ◌≢◌, sym, ap, ◌∙◌, arith}
use cndb_redis.Api.Types.{K8s, RedisSentinel}
use cndb_redis.Util.Names.{generate_name, get_redis_name, get_sentinel_name}

worker_sentinel : (s t : String) → "-worker" <> s ≢ "-sentinel" <> t
worker_sentinel s t h =
    let tail =
      (cons-eq-cons.0 (sym (cons-append "-" "worker" s) ∙ h ∙ cons-append "-" "sentinel" t)).1 in
    let first =
      (cons-eq-cons.0 (sym (cons-append "w" "orker" s) ∙ tail ∙ cons-append "s" "entinel" t)).0 in
    let numbers : ◌≡◌ {A = ℕ} 119 115 = ap code first in omega arith

pub get_redis_name-ne :
    {k : K8s} (rc rc' : RedisSentinel k) → get_redis_name rc ≢ get_sentinel_name rc'
unfolding get_redis_name get_sentinel_name generate_name
get_redis_name-ne rc rc' h = worker_sentinel _ _ (append_cancel_left "redis" _ _ h)
