-- ===== src/Samples/Objects.antt =====
-- A Kubernetes whose quantities are texts, and one resource of each kind.
use cndb_redis.Base.{
  ℕ, ◌+◌, String, Bool, true, false, ◌&&◌, none, some, [], ◌∷◌, ◌≡◌, refl, arith, str_eq, eq_refl,
  length, codes,
}
use cndb_redis.Base.Int.{ℤ, pos}
use cndb_redis.Base.Dict.{Dict}
use cndb_redis.Api.Status.{Condition, Status, Clock}
use cndb_redis.Api.Types.{
  K8s, K8sLaws, RedisStandaloneSpec, ObjectMeta, RedisSentinel, RedisStandalone,
}

abbrev pub texts_equal : Dict String → Dict String → Bool
texts_equal [] [] = true
texts_equal ((a, b) ∷ xs) ((c, d) ∷ ys) = str_eq a c && (str_eq b d && texts_equal xs ys)
texts_equal xs ys = false

texts_equal_refl : (xs : Dict String) → texts_equal xs xs ≡ true
texts_equal_refl [] = refl
texts_equal_refl ((a, b) ∷ xs) = rw (eq_refl a, eq_refl b) (texts_equal_refl xs)

abbrev first : Dict String → String
first [] = ""
first ((a, b) ∷ xs) = b

abbrev pub text_k8s : K8s
text_k8s = record {
  Quantity = String;
  LocalObjectReference = String;
  Affinity = String;
  PodSecurityContext = String;
  Toleration = String;
  EmptyDirVolumeSource = String;
  PersistentVolumeClaim = String;
  OwnerReference = String;
  no_medium = "";
  claim_name = λ claim. claim;
  with_owner_references = λ claim owners. claim;
  preferred_anti_affinity = λ weight key labels. key;
  must_parse = λ s. s;
  quantity_size = λ q. length (codes q);
  quantity_same = str_eq;
  cpu = first;
  memory = first;
  requirements_size = λ l r. length l + length r;
  requirements_equal = λ a b. texts_equal a.0 b.0 && texts_equal a.1 b.1;
}

pub text_laws : K8sLaws text_k8s
text_laws = record {
  same_refl = eq_refl;
  equal_refl = λ r. rw (texts_equal_refl r.0) (texts_equal_refl r.1);
  size_pos = λ q l r h. ground arith;
}

abbrev pub metadata : ℕ → ObjectMeta text_k8s
metadata generation = record {
  name = "shop";
  namespace = "prod";
  generation = generation;
  labels = [];
  annotations = [];
}

abbrev pub common : ℤ → String → RedisStandaloneSpec text_k8s
common size password = record {
  size = size;
  resources = record { limits = []; requests = [] };
  image = "";
  image_pull_policy = "";
  image_pull_secrets = [];
  command = [];
  shutdown_config_map = "";
  storage = record {
    keep_after_deletion = false;
    empty_dir = none;
    persistent_volume_claim = none;
  };
  password = password;
  exporter = record { enabled = true; image = ""; image_pull_policy = "" };
  affinity = none;
  security_context = none;
  tolerations = [];
  node_selector = [];
  config = some (("maxmemory", "1gb") ∷ []);
  annotations = [];
  disable_persistence = true;
}

abbrev pub no_status : Status
no_status = record { conditions = []; master_ip = ""; sentinel_ip = "" }

abbrev pub cluster : ℕ → ℤ → String → RedisSentinel text_k8s
cluster generation size password = record {
  metadata = metadata generation;
  spec = record {
    common = common size password;
    sentinel = record {
      image = "";
      image_pull_policy = "";
      image_pull_secrets = [];
      replicas = pos 0;
      resources = record { limits = []; requests = [] };
      custom_config = [];
      command = [];
      affinity = none;
      security_context = none;
      tolerations = [];
      node_selector = [];
      annotations = [];
    };
  };
  status = no_status;
}

abbrev pub single : RedisStandalone text_k8s
single = record { metadata = metadata 1; spec = common (pos 0) "secret"; status = no_status }

abbrev pub clock : ℕ → Clock
clock n = record { now_string = "now"; now = n }

abbrev pub condition : String → String → ℕ → Condition
condition type message at = record {
  type = type;
  status = "True";
  last_update_time = "then";
  last_update_at = at;
  last_transition_time = "then";
  reason = "test";
  message = message;
}
