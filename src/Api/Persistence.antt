-- ===== src/Api/Persistence.antt =====
-- api/v1alpha1/util.go: the persistence settings in the redis configuration.
pub mod Settings
use cndb_redis.Base.{String, Option, none, some}
use cndb_redis.Base.Dict.{Dict, lookup, insert}

unfoldable pub unless_set : String → String → Dict String → Option String → Dict String
unless_set key value config none = insert key value config
unless_set key value config (some _) = config

unfoldable pub set_config_map_if_not_exist : String → String → Dict String → Dict String
unfolding unless_set
set_config_map_if_not_exist key value config = unless_set key value config (lookup key config)

unfoldable pub enable_persistence : Dict String → Dict String
enable_persistence config =
    let c1 = set_config_map_if_not_exist "appendonly" "yes" config in
    let c2 = set_config_map_if_not_exist "auto-aof-rewrite-min-size" "536870912" c1 in
    let c3 = set_config_map_if_not_exist "auto-aof-rewrite-percentage" "100" c2 in
    let c4 = set_config_map_if_not_exist "repl-backlog-size" "62914560" c3 in
    let c5 = set_config_map_if_not_exist "repl-diskless-sync" "yes" c4 in
    let c6 = set_config_map_if_not_exist "aof-load-truncated" "yes" c5 in
    let c7 = set_config_map_if_not_exist "stop-writes-on-bgsave-error" "no" c6 in
    set_config_map_if_not_exist "save" "900 1 300 10" c7

unfoldable pub disable_persistence : Dict String → Dict String
disable_persistence config = insert "save" "" (insert "appendonly" "no" config)
