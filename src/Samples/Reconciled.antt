-- ===== src/Samples/Reconciled.antt =====
-- Do on a standalone redis that has its defaults already.
use cndb_redis.Base.Int.{pos}
use cndb_redis.Base.{ℕ, ◌+◌, [], ok}
use cndb_redis.Api.Types.{RedisStandalone}
use cndb_redis.Api.Views.{standalone_view}
use cndb_redis.Api.ValidateStandalone.{validate_standalone}
use cndb_redis.Client.{Services}
use cndb_redis.Reconcile.{World, Writer, Steps, do_resource}
use cndb_redis.Samples.Objects.{text_k8s, single, clock}

abbrev pub settled : RedisStandalone text_k8s
settled = (validate_standalone text_k8s single).0

abbrev pub quiet : Services ℕ
quiet = record {
  get_stateful_set =
      λ namespace name w. (ok (record { replicas = pos 1; ready_replicas = pos 1 }), w);
  get_stateful_set_pods = λ namespace name w. (ok [], w);
  emit = λ notice w. w + 1;
}

abbrev pub writer : Writer (RedisStandalone text_k8s) ℕ
writer = record {
  put_spec = λ o w. (ok o, w + 1);
  put_status = λ o w. (ok o, w + 1);
  clock = clock;
}

abbrev pub steps : Steps (RedisStandalone text_k8s) ℕ
steps = record {
  validate = validate_standalone text_k8s;
  ensure = λ o w. (ok tt, w);
  heal = λ o state auth w. (ok tt, w);
}

abbrev pub start : World (RedisStandalone text_k8s) ℕ
start = record { store = λ p. settled; entries = []; outside = 0 }

ended : World (RedisStandalone text_k8s) ℕ
unfolding do_resource
ended = (do_resource (standalone_view text_k8s) quiet writer steps 0 start).1
