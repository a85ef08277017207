-- ===== src/Generate/Pods.antt =====
-- redissentinel/service/generator.go: the commands, mounts, volumes and probes of the pods.
use cndb_redis.Base.{String, ◌<>◌, none, some, List, [], ◌∷◌, ◌++◌, if◌then◌else◌, str_eq}
use cndb_redis.Util.Names.{
  get_redis_shutdown_config_map_name, get_sentinel_name, get_sentinel_readiness_cm,
}
use cndb_redis.Api.Types.{K8s, RedisSentinel, RedisStandaloneSpec}
use cndb_redis.Kube.Objects.{Container, Probe, Volume, VolumeMount, config_map, empty_dir}
use cndb_redis.Generate.Parts.{
  pull_policy, redis_shutdown_configuration_volume_name, get_redis_data_volume,
  get_redis_data_volume_name, append_volume, cpu_and_memory,
}

-- the default command, unless one is specified
unfoldable pub command_or : List String → List String → List String
command_or [] default = default
command_or (word ∷ words) default = word ∷ words

unfoldable pub password_arguments : String → List String
password_arguments password =
    if str_eq password ""
    then []
    else ("--requirepass '" <> (password <> "'")) ∷ ("--masterauth '" <> (password <> "'")) ∷ []

unfoldable pub probe_arg : String → String
probe_arg password =
    if str_eq password ""
    then "redis-cli -h $(hostname) ping"
    else "redis-cli -h $(hostname) -a '" <> (password <> "' ping")

-- after 30 seconds, with the defaults of Kubernetes for the rest
abbrev pub shell_probe : String → Probe
shell_probe command = record {
  initial_delay_seconds = 30;
  period_seconds = 0;
  failure_threshold = 0;
  timeout_seconds = 5;
  exec = "sh" ∷ "-c" ∷ command ∷ [];
}

abbrev pub mount : String → String → VolumeMount
mount name path = record { name = name; mount_path = path }

module _ {k : K8s} where
  -- the container of redis, in both packages
  unfoldable pub redis_container :
      RedisStandaloneSpec k → List String → List VolumeMount → Container k
  unfolding pull_policy probe_arg
  redis_container spec command volume_mounts = record {
    name = "redis";
    image = spec.image;
    image_pull_policy = pull_policy spec.image_pull_policy;
    env = [];
    ports = record { name = "redis"; container_port = 6379; protocol = "TCP" } ∷ [];
    volume_mounts = volume_mounts;
    command = command;
    readiness_probe = some (shell_probe (probe_arg spec.password));
    liveness_probe = some (shell_probe (probe_arg spec.password));
    resources = spec.resources;
    pre_stop = "/bin/sh" ∷ "/redis-shutdown/shutdown.sh" ∷ [];
  }

module _ {k : K8s} (rc : RedisSentinel k) where
  unfoldable pub get_redis_command : List String
  unfolding command_or password_arguments
  get_redis_command = command_or rc.spec.common.command (
      ("redis-server" ∷ "--slaveof 127.0.0.1 6379" ∷ "--tcp-keepalive 60" ∷ "--save 900 1"
        ∷ "--save 300 10" ∷ [])
      ++ password_arguments rc.spec.common.password)

  unfoldable pub get_sentinel_command : List String
  unfolding command_or
  get_sentinel_command =
      command_or rc.spec.sentinel.command
        ("redis-server" ∷ "/redis/sentinel.conf" ∷ "--sentinel" ∷ [])

  unfoldable pub get_redis_volume_mounts : List VolumeMount
  unfolding get_redis_data_volume_name
  get_redis_volume_mounts =
      mount redis_shutdown_configuration_volume_name "/redis-shutdown"
      ∷ mount (get_redis_data_volume_name k rc.spec.common.storage) "/data"
      ∷ []

  -- the mode is 0744
  unfoldable pub get_redis_volumes : List (Volume k)
  unfolding get_redis_shutdown_config_map_name get_redis_data_volume append_volume
  get_redis_volumes =
      append_volume k
        (record {
          name = redis_shutdown_configuration_volume_name;
          source = config_map (get_redis_shutdown_config_map_name rc) (some 484);
        }
          ∷ [])
        (get_redis_data_volume k rc.spec.common.storage)

  unfoldable pub sentinel_init_container : Container k
  unfolding pull_policy
  sentinel_init_container = record {
    name = "sentinel-config-copy";
    image = rc.spec.sentinel.image;
    image_pull_policy = pull_policy rc.spec.sentinel.image_pull_policy;
    env = [];
    ports = [];
    volume_mounts =
        mount "sentinel-config" "/redis" ∷ mount "sentinel-config-writable" "/redis-writable" ∷ [];
    command = "cp" ∷ "/redis/sentinel.conf" ∷ "/redis-writable/sentinel.conf" ∷ [];
    readiness_probe = none;
    liveness_probe = none;
    resources = record {
      limits = cpu_and_memory k "10m" "32Mi";
      requests = cpu_and_memory k "10m" "32Mi";
    };
    pre_stop = [];
  }

  unfoldable pub sentinel_container : Container k
  unfolding pull_policy get_sentinel_command
  sentinel_container = record {
    name = "sentinel";
    image = rc.spec.sentinel.image;
    image_pull_policy = pull_policy rc.spec.sentinel.image_pull_policy;
    env = [];
    ports = record { name = "sentinel"; container_port = 26379; protocol = "TCP" } ∷ [];
    volume_mounts =
        mount "readiness-probe" "/redis-probe" ∷ mount "sentinel-config-writable" "/redis" ∷ [];
    command = get_sentinel_command;
    readiness_probe = some (record {
      initial_delay_seconds = 30;
      period_seconds = 15;
      failure_threshold = 5;
      timeout_seconds = 5;
      exec = "sh" ∷ "/redis-probe/readiness.sh" ∷ [];
    });
    liveness_probe = some (shell_probe "redis-cli -h $(hostname) -p 26379 ping");
    resources = rc.spec.sentinel.resources;
    pre_stop = [];
  }

  unfoldable pub sentinel_volumes : List (Volume k)
  unfolding get_sentinel_name get_sentinel_readiness_cm
  sentinel_volumes =
      record { name = "sentinel-config"; source = config_map (get_sentinel_name rc) none }
      ∷ record { name = "readiness-probe"; source = config_map (get_sentinel_readiness_cm rc) none }
      ∷ record { name = "sentinel-config-writable"; source = empty_dir k.no_medium }
      ∷ []
